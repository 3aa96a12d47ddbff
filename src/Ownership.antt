-- ===== src/Ownership.antt =====
-- Who holds which task: the registry of orch/storage.py, `deciding` and `advancing` of
-- orch/engine.py. A worker holds a task for as long as it holds the file lock of the task, an agent
-- until its lease ends. The locks that other processes hold are an argument of a call, as they are
-- when it tries them; the calls keep the registry in order, under the store-wide lock.
pub mod Bound
pub mod Advancing
use orchd_ai.Prelude.{
  ℕ, ◌+◌, ◌*◌, String, Bool, true, false, not, ◌&&◌, ◌||◌, Option, none, some, List, [], ◌∷◌,
  filter, length, contains, leb, ◌==◌, if◌then◌else◌, is_some, Result, ok, err, ◌>>=◌, ◌>>◌,
  raise_if, or_raise, str_eq,
}
use orchd_ai.Table.{Table, find, put, remove}
use orchd_ai.Records.{EventType, World, is_later, second}
use orchd_ai.Roles.{Role, same_role}
use orchd_ai.Engine.{Refusal, Session, open_task, event}

-- The text that a claim is recorded under: a worker process, or an agent in a role. The number is
-- the random identifier that each of them carries.
pub data Owner : Type 0 where
  worker : ℕ → Owner
  agent : String → Role → ℕ → Owner

abbrev pub same_owner : Owner → Owner → Bool
same_owner (worker a) (worker b) = a == b
same_owner (agent a r m) (agent b q n) = str_eq a b && same_role r q && m == n
same_owner _ _ = false

-- A row of `task_owners`.
pub record Holding : Type 0 where
  pub task_id : ℕ
  pub owner : Owner
  pub claimed_at : ℕ
  pub revision : ℕ
  pub generation : ℕ
  pub expires_at : Option ℕ

abbrev pub Registry : Type 0
Registry = Table Holding

-- The file locks that are held: of tasks, and of the whole store.
pub record Locks : Type 0 where
  pub tasks : ℕ → Bool
  pub whole : Bool

-- `exclusive(task)`: the lock is taken, or another process has it.
unfoldable pub exclusive_task : ℕ → Locks → Bool
exclusive_task t l = not (l.tasks t)

abbrev pub with_task : ℕ → Locks → Locks
with_task t l = record l { tasks = λ u. u == t || l.tasks u }

abbrev pub with_store : Locks → Locks
with_store l = record l { whole = true }

-- `held`: whether some process has the lock of the task, the caller among them.
unfoldable pub held : Locks → ℕ → Bool
unfolding exclusive_task
held l t = not (exclusive_task t l)

-- A lease until it expires, a worker while its lock is held.
unfoldable pub live : ℕ → Locks → Holding → Bool
live now l h = elim h.expires_at [ none ↦ held l h.task_id | some end ↦ is_later end now ]

abbrev pub rows {ℓ} : {V : Type ℓ} → Table V → List V
rows [] = []
rows ((_, v) ∷ t) = v ∷ rows t

-- `active_owners`
unfoldable pub active_owners : ℕ → Locks → Registry → List Holding
active_owners now l reg = filter (live now l) (rows reg)

-- `admitted`: the live claims on other tasks
unfoldable pub admitted : ℕ → Locks → ℕ → Registry → List Holding
admitted now l t reg = filter (λ (h : Holding). not (h.task_id == t)) (active_owners now l reg)

-- `claim` inside the caller's transaction: a lease of some seconds, or a worker's claim
unfoldable pub claim : ℕ → ℕ → Owner → ℕ → ℕ → Option ℕ → Registry → Registry
claim now t owner revision generation expires_in reg =
    put t
      (record {
        task_id = t;
        owner = owner;
        claimed_at = now;
        revision = revision;
        generation = generation;
        expires_at = elim expires_in [ none ↦ none | some n ↦ some (now + n * second) ];
      })
      reg

-- `disclaim`: DELETE ... WHERE task_id=? AND owner=?
unfoldable pub disclaim : ℕ → Owner → Registry → Registry
disclaim t owner reg = elim (find t reg) [
  | none ↦ reg
  | some h ↦ if same_owner h.owner owner then remove t reg else reg
]

pub data Denied : Type 0 where
  refused : Refusal → Denied
  busy store_busy already_advancing too_many held_by_agent not_idle : Denied
  bad_agent human_role unknown_role bad_lease revision_changed finished wrong_role already_held
        no_session other_session session_expired :
      Denied

-- A refusal of the engine is a refusal of the call.
abbrev pub of_engine {ℓ} : {A : Type ℓ} → Result Refusal A → Result Denied A
of_engine (ok a) = ok a
of_engine (err e) = err (refused e)

-- `quiescent`, under the store-wide lock
unfoldable pub quiescent : ℕ → Locks → Registry → Result Denied (Unit {0})
quiescent now l reg = elim (active_owners now l reg) [ [] ↦ ok tt | _ ∷ _ ↦ err not_idle ]

-- `deciding`: the lock of the task and that of the store, for the time of the call
unfoldable pub deciding : ℕ → Locks → Result Denied Locks
deciding t l = do
  raise_if (not (exclusive_task t l)) busy
  raise_if l.whole store_busy
  ok (with_store (with_task t l))

-- What `advancing` registers, where `existing` is on record: an agent's lease that runs is left, and
-- the claim of another worker is taken over, with an event.
unfoldable pub registered :
    ℕ → Locks → Owner → ℕ → Option Holding → Session → Registry → Result Denied (World × Registry)
registered now l me t none s reg = ok (s.world, claim now t me s.state.revision 1 none reg)
registered now l me t (some h) s reg =
    if is_some h.expires_at && live now l h
    then err held_by_agent
    else if same_owner h.owner me
    then ok (
      s.world,
      claim now t me s.state.revision (if leb 1 h.generation then h.generation else 1) none reg,
    )
    else ok (
      (event EventType.task_ownership_taken none s).world,
      claim now t me s.state.revision (h.generation + 1) none reg,
    )

-- `advancing`, up to its `yield`: what a worker registers before it does the work. `mine` are the
-- tasks that this process is at.
unfoldable pub advancing :
    ℕ → ℕ → Locks → List ℕ → Owner → ℕ → World → Registry → Result Denied (World × Registry)
advancing now bound l mine me t w reg = do
  raise_if (contains t mine) already_advancing
  l' ← deciding t l
  raise_if (leb bound (length (admitted now l' t reg))) too_many
  s ← of_engine (open_task w t)
  registered now l' me t (find t reg) s reg

-- What `advancing` does at the end, however the work ended.
unfoldable pub advanced : Owner → ℕ → Registry → Registry
advanced me t reg = disclaim t me reg
