-- ===== src/Sessions.antt =====
-- orch/agent_sessions.py and orch/agent_queue.py: the leases that agents take on tasks, renew and
-- give back, and the work that an agent is shown. `session_id` is the random part of the owner text
-- that a claim makes; a call reads the clock once.
pub mod Claims
pub mod Offers
pub mod Lifetimes
mod Examples
use orchd_ai.Prelude.{
  ℕ, ◌+◌, ◌-◌, ◌*◌, String, Bool, true, false, not, ◌&&◌, ◌||◌, Option, none, some, List, [], ◌∷◌,
  any, filter, length, leb, ltb, ◌==◌, if◌then◌else◌, is_some, Result, ok, err, ◌>>=◌, ◌>>◌,
  raise_if, or_raise, str_eq,
}
use orchd_ai.Table.{Table, find}
use orchd_ai.Workflow.{State}
use orchd_ai.Records.{Task, World}
use orchd_ai.Roles.{Role, human, same_role, role_for, is_role, is_state_role, is_agent}
use orchd_ai.Engine.{open_task}
use orchd_ai.Ownership.{
  Owner, agent, worker, same_owner, Holding, Registry, Locks, live, rows, active_owners, admitted,
  claim, disclaim, deciding, Denied, bad_agent, human_role, unknown_role, bad_lease,
  revision_changed, finished, wrong_role, already_held, too_many, no_session, other_session,
  session_expired, of_engine,
}

-- MIN_LEASE, MAX_LEASE, DEFAULT_LEASE, in seconds
abbrev pub min_lease : ℕ
min_lease = 60

abbrev pub max_lease : ℕ
max_lease = 3600

abbrev pub default_lease : ℕ
default_lease = 900

unfoldable pub identifier : String → Result Denied String
identifier name = if is_agent name then ok name else err bad_agent

abbrev pub is_human : Role → Bool
is_human human = true
is_human _ = false

-- `session`: the owner text that is recorded
unfoldable pub session : String → Role → ℕ → Result Denied Owner
session name role session_id = do
  raise_if (is_human role) human_role
  raise_if (not (is_role role)) unknown_role
  kept ← identifier name
  ok (agent kept role session_id)

unfoldable pub duration : Option ℕ → Result Denied ℕ
duration none = ok default_lease
duration (some n) = if leb min_lease n && leb n max_lease then ok n else err bad_lease

-- `holder(held)["agent"] != agent`: a worker's text names no agent
abbrev pub is_of : String → Owner → Bool
is_of name (agent a _ _) = str_eq a name
is_of name (worker _) = false

-- `held and store.live(held) and held["owner"] != owner`
unfoldable pub is_held : ℕ → Locks → Owner → Option Holding → Bool
is_held now l owner none = false
is_held now l owner (some h) = live now l h && not (same_owner h.owner owner)

abbrev pub next_generation : Option Holding → ℕ
next_generation none = 1
next_generation (some h) = h.generation + 1

-- `expected_revision is not None and state["revision"] != expected_revision`
abbrev pub is_stale : Option ℕ → ℕ → Bool
is_stale none revision = false
is_stale (some n) revision = not (n == revision)

-- `claim`
unfoldable pub take :
    ℕ
    → ℕ
    → Locks
    → ℕ
    → ℕ
    → String
    → Role
    → Option ℕ
    → Option ℕ
    → World
    → Registry
    → Result Denied Registry
take now bound l session_id t name role seconds expected w reg = do
  n ← duration seconds
  owner ← session name role session_id
  l' ← deciding t l
  s ← of_engine (open_task w t)
  raise_if (is_stale expected s.state.revision) revision_changed
  wanted ← or_raise (role_for s.state.state) finished
  raise_if (not (same_role wanted role)) wrong_role
  raise_if (is_held now l' owner (find t reg)) already_held
  raise_if (leb bound (length (admitted now l' t reg))) too_many
  ok (claim now t owner s.state.revision (next_generation (find t reg)) (some n) reg)

-- `not held or not held["expires_at"]`
abbrev pub leased : Option Holding → Option Holding
leased none = none
leased (some h) = if is_some h.expires_at then some h else none

-- `renew`
unfoldable pub renew : ℕ → Locks → ℕ → String → Option ℕ → Registry → Result Denied Registry
renew now l t name seconds reg = do
  n ← duration seconds
  l' ← deciding t l
  h ← or_raise (leased (find t reg)) no_session
  kept ← identifier name
  raise_if (not (is_of kept h.owner)) other_session
  raise_if (not (live now l' h)) session_expired
  ok (claim now t h.owner h.revision h.generation (some n) reg)

-- `release`
unfoldable pub release : Locks → ℕ → String → Registry → Result Denied Registry
release l t name reg = do
  l' ← deciding t l
  h ← or_raise (leased (find t reg)) no_session
  kept ← identifier name
  raise_if (not (is_of kept h.owner)) other_session
  ok (disclaim t h.owner reg)

-- A row of `sessions`, and the report.
pub record Seen : Type 0 where
  pub holding : Holding
  pub is_agents : Bool
  pub is_live : Bool

unfoldable pub sessions : ℕ → Locks → Registry → List Seen × ℕ
sessions now l reg = (seen (rows reg), length (filter (λ (x : Seen). x.is_live) (seen (rows reg))))
  where
    seen : List Holding → List Seen
    seen [] = []
    seen (h ∷ hs) =
        record { holding = h; is_agents = is_some h.expires_at; is_live = live now l h } ∷ seen hs

-- A task that an agent could take.
pub record Offer : Type 0 where
  pub task_id : ℕ
  pub state : State
  pub role : Role
  pub revision : ℕ

-- `role in wanted`: a role of the workflow that the agent has, and no person's
unfoldable pub is_wanted : List Role → Role → Bool
is_wanted roles r = any (λ x. is_state_role x && not (is_human x) && same_role x r) roles

-- `task in held`
abbrev pub is_taken : ℕ → Locks → ℕ → Registry → Bool
is_taken now l t reg = elim (find t reg) [ none ↦ false | some h ↦ live now l h ]

-- What the loop of `available` keeps of a row.
unfoldable pub offered : ℕ → Locks → List Role → Registry → ℕ → Task → Option Offer
offered now l roles reg t row = elim (role_for row.state.state) [
  | none ↦ none
  | some r ↦
      if is_human r || not (is_wanted roles r) || is_taken now l t reg
      then none
      else some
          (record { task_id = t; state = row.state.state; role = r; revision = row.state.revision })
]

-- The loop, which stops once `limit` entries are there; an entry is added before the test.
unfoldable pub offers : ℕ → Locks → List Role → Registry → ℕ → Table Task → List Offer
offers now l roles reg limit [] = []
offers now l roles reg limit ((t, row) ∷ tasks) =
    let fewer = offers now l roles reg (limit - 1) tasks in
    let same = offers now l roles reg limit tasks in
    elim (offered now l roles reg t row) [
      | none ↦ same
      | some o ↦ o ∷ (if ltb 1 limit then fewer else [])
    ]

pub record Work : Type 0 where
  pub available : List Offer
  pub admitted : ℕ
  pub bound : ℕ
  pub at_bound : Bool

-- `available`
unfoldable pub available : ℕ → ℕ → Locks → List Role → ℕ → World → Registry → Work
available now bound l roles limit w reg = record {
  available = offers now l roles reg limit w.tasks;
  admitted = length (active_owners now l reg);
  bound = bound;
  at_bound = leb bound (length (active_owners now l reg));
}
