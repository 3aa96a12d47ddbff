-- ===== src/Sessions/Claims.antt =====
-- When a claim succeeds, what it may take over, and how many claims are live after it.
use orchd_ai.Prelude.{
  ℕ, ◌≤◌, ◌<◌, ◌≡◌, sym, subst, ◌∙◌, true, false, not, Option, none, some, length, arith, leb,
  String, Result, ok, err, ok-bind, ok-eq, ok-raise_if, ok-or_raise, Option-cases, inl, inr,
  none-some,
}
use orchd_ai.Table.{find, IsSorted}
use orchd_ai.Records.{World, is_later}
use orchd_ai.Roles.{Role, role_for, same_role, is_role}
use orchd_ai.Engine.{Session, open_task, Refusal}
use orchd_ai.Ownership.{
  Owner, agent, worker, same_owner, Holding, Registry, Locks, live, held, exclusive_task,
  active_owners, admitted, claim, deciding, with_task, with_store, busy, store_busy,
  revision_changed, finished, wrong_role, already_held, too_many, of_engine, human_role,
  unknown_role,
}
use orchd_ai.Ownership.Bound.{IsKeyed, active_owners-claim}
use orchd_ai.Sessions.{
  session, duration, identifier, is_human, is_held, is_stale, next_generation, take, is_taken,
}

-- The locks that a call holds while it decides about a task.
abbrev pub own_locks : ℕ → Locks → Locks
own_locks t l = with_store (with_task t l)

deciding-eq : (t : ℕ) (l : Locks) {l' : Locks} → deciding t l ≡ ok l' → own_locks t l ≡ l'
unfolding deciding
deciding-eq t l h =
    let (_, h1) = ok-raise_if (not (exclusive_task t l)) busy h in
    let (_, h2) = ok-raise_if l.whole store_busy h1 in ok-eq h2

pub session-owner :
    (name : String) (role : Role) (session_id : ℕ) {owner : Owner}
    → session name role session_id ≡ ok owner
    → owner ≡ agent name role session_id
unfolding session identifier
session-owner name role session_id h =
    let (_, h1) = ok-raise_if (is_human role) human_role h in
    let (_, h2) = ok-raise_if (not (is_role role)) unknown_role h1 in ground (arith, h2)

-- What a claim that succeeded had found and did.
pub record Claimed (now bound : ℕ) (l : Locks) (session_id t : ℕ) (name : String) (role : Role)
    (given_seconds : Option ℕ) (w : World) (reg reg' : Registry) : Type 0 where
  pub seconds : ℕ
  pub owner : Owner
  pub s : Session
  pub step : Role
  pub given : duration given_seconds ≡ ok seconds
  pub names : session name role session_id ≡ ok owner
  pub locked : deciding t l ≡ ok (own_locks t l)
  pub opened : open_task w t ≡ ok s
  pub of_state : role_for s.state.state ≡ some step
  pub of_role : same_role step role ≡ true
  pub free : is_held now (own_locks t l) owner (find t reg) ≡ false
  pub room : length (admitted now (own_locks t l) t reg) < bound
  pub result :
      claim now t owner s.state.revision (next_generation (find t reg)) (some seconds) reg ≡ reg'

pub of_engine-ok {ℓ} : {A : Type ℓ} (m : Result Refusal A) {a : A} → of_engine m ≡ ok a → m ≡ ok a
of_engine-ok (ok b) h = cc
of_engine-ok (err e) h = cc

module _ (now bound : ℕ) (l : Locks) (session_id t : ℕ) (name : String) (role : Role)
    (seconds expected : Option ℕ) (w : World) (reg : Registry) where
  pub take-Claimed :
      {reg' : Registry}
      → take now bound l session_id t name role seconds expected w reg ≡ ok reg'
      → Claimed now bound l session_id t name role seconds w reg reg'
  unfolding take
  take-Claimed {reg'} h =
      let (n, h1, given) = ok-bind (duration seconds) h in
      let (owner, h2, names) = ok-bind (session name role session_id) h1 in
      let (l', h3, locked) = ok-bind (deciding t l) h2 in
      let (s, h4, opened) = ok-bind (of_engine (open_task w t)) h3 in
      let (_, h5) = ok-raise_if (is_stale expected s.state.revision) revision_changed h4 in
      let (step, h6, of_state) = ok-or_raise (role_for s.state.state) finished h5 in
      let (of_role, h7) = ok-raise_if (not (same_role step role)) wrong_role h6 in
      let (free, h8) = ok-raise_if (is_held now l' owner (find t reg)) already_held h7 in
      let (room, h9) = ok-raise_if (leb bound (length (admitted now l' t reg))) too_many h8 in
      let locks = deciding-eq t l locked in
      record {
        seconds = n;
        owner = owner;
        s = s;
        step = step;
        given = given;
        names = names;
        locked = subst (λ x. deciding t l ≡ ok x) (sym locks) locked;
        opened = of_engine-ok (open_task w t) opened;
        of_state = of_state;
        of_role = ground arith;
        free = subst (λ x. is_held now x owner (find t reg) ≡ false) (sym locks) free;
        room = subst (λ x. length (admitted now x t reg) < bound) (sym locks) (ground arith);
        result = ok-eq h9;
      }

  -- A claim that succeeds leaves at most as many live claims as the admission bound, those of
  -- worker processes counted.
  pub take-bound :
      {reg' : Registry}
      → IsSorted reg
      → IsKeyed reg
      → take now bound l session_id t name role seconds expected w reg ≡ ok reg'
      → length (active_owners now (own_locks t l) reg') ≤ bound
  take-bound {reg'} sorted keyed h =
      let c = take-Claimed h in
      let le =
        active_owners-claim now (own_locks t l) t c.owner c.s.state.revision
          (next_generation (find t reg)) (some c.seconds) reg sorted keyed in
      subst (λ x. length (active_owners now (own_locks t l) x) ≤ bound) c.result
        (omega (arith, le, c.room))

  -- A claim that succeeds on a task that is on record as held, by another session, takes over a
  -- lease, and one that has run out.
  pub take-lapsed :
      {reg' : Registry} {h : Holding}
      → find t reg ≡ some h
      → h.task_id ≡ t
      → same_owner h.owner (agent name role session_id) ≡ false
      → take now bound l session_id t name role seconds expected w reg ≡ ok reg'
      → (end : ℕ) × (h.expires_at ≡ some end) × (is_later end now ≡ false)
  unfolding is_held live held exclusive_task
  take-lapsed {reg'} {h} there same other taken =
      let c = take-Claimed taken in
      let owner : c.owner ≡ agent name role session_id =
        session-owner name role session_id c.names in
      elim (Option-cases h.expires_at) [
        | inl worker_row ↦ absurd (ground (arith, c.free))
        | inr (end, lease) ↦ (end, lease, ground (arith, c.free))
      ]

-- A worker that stopped without giving its task back leaves a claim without an end. Though nobody
-- has the lock of the task, so that it is not taken for the listing of available work, every agent
-- is refused it.
pub take-worker :
    (now bound : ℕ) (l : Locks) (session_id t : ℕ) (name : String) (role : Role)
    (seconds expected : Option ℕ) (w : World) (reg : Registry) {h : Holding} {n : ℕ}
    → find t reg ≡ some h
    → h.task_id ≡ t
    → h.owner ≡ worker n
    → h.expires_at ≡ none
    → l.tasks t ≡ false
    → (is_taken now l t reg ≡ false)
      × ((reg' : Registry)
          → ¬ (take now bound l session_id t name role seconds expected w reg ≡ ok reg'))
unfolding live held exclusive_task
take-worker now bound l session_id t name role seconds expected w reg {h} {n} there same of_worker
      no_end free =
    (
      ground arith,
      λ reg' taken.
          let (end, lease, _) =
            take-lapsed now bound l session_id t name role seconds expected w reg there same
              (ground arith) taken in
          none-some (sym no_end ∙ lease),
    )
