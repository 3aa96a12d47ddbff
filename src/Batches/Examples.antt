-- ===== src/Batches/Examples.antt =====
-- The theorems about a batch of two tasks.
use orchd_ai.Prelude.{
  ℕ, ◌+◌, ◌*◌, ◌≤◌, ◌≡◌, ◌≢◌, refl, true, false, some, none, [], ◌∷◌, leb, if◌then◌else◌, ok,
}
use orchd_ai.Table.{Table, find}
use orchd_ai.Workflow.{planning, awaiting_plan_approval}
use orchd_ai.Records.{Task}
use orchd_ai.Engine.Creation.{new_state, new_context}
use orchd_ai.Ownership.{Locks, quiescent, active_owners}
use orchd_ai.Batches.{
  pending, stopped, abandoned, Entry, Scope, Batch, is_valid, all_valid, is_valid_entry, no_twice,
}
use orchd_ai.Batches.Calls.{
  Around, window, create, run, abandon, taken_in, entry_of, set_entry, is_finished, is_current,
  turns, run_entries,
}
use orchd_ai.Batches.Running.{Kept, waits, opens, run-valid}
use orchd_ai.Batches.Journals.{abandon-valid}

abbrev new_task : ℕ → Task
new_task t = record { state = new_state t; context = new_context }

abbrev tasks : Table Task
tasks = (1, new_task 1) ∷ (2, new_task 2) ∷ []

abbrev by_id : Task → ℕ
by_id row = row.state.task_id + 100

abbrev by_binding : Scope → ℕ
by_binding scope = scope.binding

abbrev no_locks : Locks
no_locks = record { tasks = λ _. false; whole = false }

abbrev scope : Scope
scope = record {
  binding = 7;
  created_at = 0;
  expires_at = window;
  tasks =
      (record { task_id = 1; revision = 0; snapshot = 101 })
      ∷ (record { task_id = 2; revision = 0; snapshot = 102 })
      ∷ [];
}

abbrev second_entry : Entry
second_entry = record { status = pending; last = 102; result = none; steps = 0 }

abbrev two : Batch
two = record {
  id = 9;
  scope = scope;
  scope_sha = 7;
  revision = 0;
  entries = (record { status = pending; last = 101; result = none; steps = 0 }) ∷ second_entry ∷ [];
}

-- The time is the environment: each step takes one, and from the third on tasks pause.
abbrev clock : Around ℕ
clock = record {
  now = λ e. e;
  binding = λ _. 7;
  advance = λ t snapshot e.
      (some (snapshot + 1, if leb 3 e then awaiting_plan_approval else planning), e + 1);
}

abbrev ran : Batch
ran = record two {
  revision = 7;
  entries =
      (record { status = stopped; last = 105; result = some awaiting_plan_approval; steps = 4 })
      ∷ (record { status = stopped; last = 103; result = some awaiting_plan_approval; steps = 1 })
      ∷ [];
}

has_run : run clock by_binding 7 0 two 0 ≡ ok (ran, 5)
unfolding find quiescent active_owners is_valid all_valid is_valid_entry no_twice create run abandon
    taken_in entry_of set_entry is_current turns run_entries
has_run = refl

run-valid_example :
    (is_valid by_binding ran ≡ true)
    × (ran.scope ≡ two.scope)
    × Kept two.entries ran.entries
    × (opens ran.entries ≤ 1)
    × (ran.revision ≤ two.revision + 41 * waits two.entries)
run-valid_example = run-valid clock by_binding 7 0 two 0 (ran, 5) has_run

abbrev given_up : Batch
given_up = record two {
  revision = 1;
  entries =
      (record { status = abandoned; last = 101; result = none; steps = 0 }) ∷ second_entry ∷ [];
}

has_abandoned : abandon by_id tasks by_binding 0 no_locks [] 7 0 1 101 two ≡ ok given_up
unfolding find quiescent active_owners is_valid all_valid is_valid_entry no_twice create run abandon
    taken_in entry_of set_entry is_current turns run_entries
has_abandoned = refl

abandon-valid_example :
    (is_valid by_binding given_up ≡ true)
    × ((before after : Entry) × (entry_of 1 scope.tasks two.entries ≡ some before)
        × (is_finished before ≡ false)
        × (entry_of 1 scope.tasks given_up.entries ≡ some after)
        × (after.status ≡ abandoned))
    × ((u : ℕ)
        → u ≢ 1
        → entry_of u scope.tasks given_up.entries ≡ entry_of u scope.tasks two.entries)
abandon-valid_example =
    abandon-valid by_id tasks by_binding 0 no_locks [] 7 0 1 101 two given_up has_abandoned
