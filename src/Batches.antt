-- ===== src/Batches.antt =====
-- orch/batches.py: a batch of tasks that are advanced one after the other, each until it pauses. A
-- batch is a file that is saved before and after every step; what a call leaves is what it saved
-- last. The engine behind it, the clock and the binding of a batch to its store and source are the
-- environment, which `advance` changes.
pub mod Calls
pub mod Steps
pub mod Running
pub mod Journals
mod Examples
use orchd_ai.Prelude.{
  ℕ, zero, suc, ◌+◌, ◌-◌, String, Bool, true, false, not, ◌&&◌, ◌||◌, Option, none, some, List, [],
  ◌∷◌, any, length, contains, leb, ltb, ◌==◌, if◌then◌else◌, is_some, Result, ok, err, ◌>>=◌, ◌>>◌,
  raise_if, or_raise,
}
use orchd_ai.Table.{Table, find}
use orchd_ai.Workflow.{State, failed, blocked, is_paused}
use orchd_ai.Records.{Task, second}
use orchd_ai.Ownership.{Registry, Locks, quiescent, Denied}

-- MAX_TASKS, MAX_BATCHES, and the 40 of `run`
abbrev pub max_tasks : ℕ
max_tasks = 16

abbrev pub max_batches : ℕ
max_batches = 1024

abbrev pub max_steps : ℕ
max_steps = 40

-- REVIEW_STATES
abbrev pub is_review : State → Bool
is_review failed = true
is_review blocked = true
is_review _ = false

pub data Progress : Type 0 where
  pending running stopped abandoned : Progress

-- An element of `scope['tasks']`, and one of `entries`.
pub record Item : Type 0 where
  pub task_id : ℕ
  pub revision : ℕ
  pub snapshot : ℕ

pub record Entry : Type 0 where
  pub status : Progress
  pub last : ℕ
  pub result : Option State
  pub steps : ℕ

pub record Scope : Type 0 where
  pub binding : ℕ
  pub created_at : ℕ
  pub expires_at : ℕ
  pub tasks : List Item

pub record Batch : Type 0 where
  pub id : ℕ
  pub scope : Scope
  pub scope_sha : ℕ
  pub revision : ℕ
  pub entries : List Entry

pub data Refusal : Type 0 where
  invalid_batch batch_changed not_current needs_review not_admitted stale_task too_many_batches :
      Refusal
  bad_request busy unknown_task not_in_batch finished_entry unresolved_task : Refusal
  not_idle : Denied → Refusal

abbrev pub is_pending : Entry → Bool
is_pending x = elim x.status [ pending ↦ true | _ ↦ false ]

abbrev pub is_running : Entry → Bool
is_running x = elim x.status [ running ↦ true | _ ↦ false ]

-- `result in PAUSED`, `result in REVIEW_STATES`
abbrev pub has_paused : Entry → Bool
has_paused x = elim x.result [ none ↦ false | some s ↦ is_paused s ]

abbrev pub has_review : Entry → Bool
has_review x = elim x.result [ none ↦ false | some s ↦ is_review s ]

-- What `_load` wants of an entry and its task.
unfoldable pub is_valid_entry : Item → Entry → Bool
is_valid_entry item x = leb x.steps max_steps && elim x.status [
  | pending ↦ x.steps == 0 && not (is_some x.result) && x.last == item.snapshot
  | running ↦ not (is_some x.result)
  | stopped ↦ has_paused x
  | abandoned ↦ not (is_some x.result)
]

unfoldable pub all_valid : List Item → List Entry → Bool
all_valid [] [] = true
all_valid (item ∷ items) (x ∷ xs) = is_valid_entry item x && all_valid items xs
all_valid _ _ = false

-- No task stands twice: `seen`
unfoldable pub no_twice : List ℕ → List Item → Bool
no_twice seen [] = true
no_twice seen (item ∷ items) =
    not (contains item.task_id seen) && no_twice (item.task_id ∷ seen) items

module _ (digest : Scope → ℕ) where
  -- `_load`
  unfoldable pub is_valid : Batch → Bool
  is_valid b =
      digest b.scope == b.scope_sha
      && leb 1 (length b.scope.tasks)
      && leb (length b.scope.tasks) max_tasks
      && no_twice [] b.scope.tasks
      && all_valid b.scope.tasks b.entries

-- `_expected`
abbrev pub is_expected : ℕ → ℕ → Batch → Bool
is_expected sha revision b = sha == b.scope_sha && revision == b.revision
