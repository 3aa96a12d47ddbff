-- ===== src/Batches/Calls.antt =====
-- `create`, `run` and `abandon` of orch/batches.py. The file locks that others hold are an argument;
-- a save of the batch is a step of its revision.
use orchd_ai.Prelude.{
  ℕ, zero, suc, ◌+◌, ◌-◌, ◌*◌, Bool, true, false, not, ◌&&◌, ◌||◌, Option, none, some, List, [],
  ◌∷◌, any, length, contains, leb, ltb, ◌==◌, if◌then◌else◌, is_some, Result, ok, err, ◌>>=◌, ◌>>◌,
  raise_if, or_raise,
}
use orchd_ai.Table.{Table, find}
use orchd_ai.Workflow.{State, is_paused}
use orchd_ai.Records.{Task, second}
use orchd_ai.Ownership.{Registry, Locks, quiescent}
use orchd_ai.Batches.{
  pending, running, stopped, abandoned, Item, Entry, Scope, Batch, Refusal, invalid_batch,
  batch_changed, not_current, needs_review, not_admitted, stale_task, too_many_batches, bad_request,
  busy, unknown_task, not_in_batch, finished_entry, unresolved_task, not_idle, max_tasks,
  max_batches, max_steps, is_review, is_pending, has_review, is_valid, is_expected,
}

-- An entry of a new batch.
abbrev pub waiting : Item → Entry
waiting item = record { status = pending; last = item.snapshot; result = none; steps = 0 }

abbrev pub waiting_all : List Item → List Entry
waiting_all [] = []
waiting_all (item ∷ items) = waiting item ∷ waiting_all items

-- `any(state[k] for k in ('active_operation_id', ...))`
abbrev pub is_active : Task → Bool
is_active row =
    is_some row.state.active_operation_id
    || is_some row.state.active_invocation_id
    || is_some row.state.container_id

-- 30 minutes
abbrev pub window : ℕ
window = 1800 * second

-- `Store.quiescent`, whose refusal is one of the call.
abbrev pub at_rest : ℕ → Locks → Registry → Result Refusal (Unit {0})
at_rest now l reg = elim (quiescent now l reg) [ ok u ↦ ok u | err e ↦ err (not_idle e) ]

-- The entry of the one item of that task.
unfoldable pub entry_of : ℕ → List Item → List Entry → Option Entry
entry_of t (item ∷ items) (x ∷ xs) =
    let rest = entry_of t items xs in if item.task_id == t then some x else rest
entry_of t _ _ = none

unfoldable pub set_entry : ℕ → Entry → List Item → List Entry → List Entry
set_entry t y (item ∷ items) (x ∷ xs) =
    let rest = set_entry t y items xs in if item.task_id == t then y ∷ xs else x ∷ rest
set_entry t y _ xs = xs

-- `entry['status'] == 'abandoned' or (... == 'stopped' and entry['result'] not in REVIEW_STATES)`
abbrev pub is_finished : Entry → Bool
is_finished x = elim x.status [ abandoned ↦ true | stopped ↦ not (has_review x) | _ ↦ false ]

-- `running`, or `stopped` for a review
abbrev pub stands_open : Entry → Bool
stands_open x = elim x.status [ running ↦ true | stopped ↦ has_review x | _ ↦ false ]

module _ (digest_of : Task → ℕ) (tasks : Table Task) where
  -- The loop of `create` over the requests, a task and the revision expected of it each.
  unfoldable pub taken_in : List ℕ → List (ℕ × ℕ) → Result Refusal (List Item)
  taken_in seen [] = ok []
  taken_in seen ((t, revision) ∷ requests) =
      let rest = taken_in (t ∷ seen) requests in
      do
        row ← or_raise (find t tasks) unknown_task
        raise_if row.context.is_repository not_admitted
        raise_if
            (contains t seen
              || not (revision == row.state.revision)
              || is_paused row.state.state
              || is_active row)
            stale_task
        items ← rest
        ok (record { task_id = t; revision = row.state.revision; snapshot = digest_of row } ∷ items)

  -- `create`, when `batches` files are there
  unfoldable pub create :
      (Scope → ℕ) → ℕ → Locks → Registry → ℕ → ℕ → ℕ → List (ℕ × ℕ) → Result Refusal Batch
  create digest now l reg batches binding id requests = do
    raise_if (not (leb 1 (length requests) && leb (length requests) max_tasks)) bad_request
    raise_if l.whole busy
    at_rest now l reg
    raise_if (leb max_batches batches) too_many_batches
    items ← taken_in [] requests
    let scope : Scope = record {
      binding = binding;
      created_at = now;
      expires_at = now + window;
      tasks = items;
    }
    ok (record {
      id = id;
      scope = scope;
      scope_sha = digest scope;
      revision = 0;
      entries = waiting_all items;
    })

  -- `abandon`; no task stands twice in a batch that loads
  unfoldable pub abandon :
      (Scope → ℕ) → ℕ → Locks → Registry → ℕ → ℕ → ℕ → ℕ → Batch → Result Refusal Batch
  abandon digest now l reg sha revision t expected b = do
    raise_if l.whole busy
    at_rest now l reg
    raise_if (not (is_valid digest b)) invalid_batch
    raise_if (not (is_expected sha revision b)) batch_changed
    x ← or_raise (entry_of t b.scope.tasks b.entries) not_in_batch
    raise_if (is_finished x) finished_entry
    row ← or_raise (find t tasks) unknown_task
    raise_if (not (expected == digest_of row) || is_active row) unresolved_task
    ok (record b {
      revision = b.revision + 1;
      entries =
          set_entry t (record x { status = abandoned; result = none; last = digest_of row })
            b.scope.tasks b.entries;
    })

-- What is around a batch: the clock, the binding that is current, and `Engine.advance`, which takes
-- the snapshot that is expected and gives the one after it with the state of the task, or refuses.
pub record Around (E : Type 0) : Type 0 where
  pub now : E → ℕ
  pub binding : E → ℕ
  pub advance : ℕ → ℕ → E → Option (ℕ × State) × E

-- What becomes of an entry: how often it was saved, and whether the batch goes on.
pub record Turned (E : Type 0) : Type 0 where
  pub entry : Entry
  pub saves : ℕ
  pub after : E
  pub goes_on : Bool

-- What becomes of the entries.
pub record Ran (E : Type 0) : Type 0 where
  pub entries : List Entry
  pub saves : ℕ
  pub after : E

-- The entry after a step that succeeds.
abbrev pub stepped : ℕ → State → Entry → Entry
stepped snapshot s x =
    if is_paused s
    then record { status = stopped; last = snapshot; result = some s; steps = x.steps + 1 }
    else record x { last = snapshot; steps = x.steps + 1 }

abbrev pub started : Entry → Entry
started x = record x { status = running }

abbrev pub halted : {E : Type 0} → Entry → E → Turned E
halted x e = record { entry = x; saves = 0; after = e; goes_on = false }

abbrev pub saved : {E : Type 0} → Turned E → Turned E
saved t = record t { saves = t.saves + 1 }

module _ {E : Type 0} (around : Around E) where
  -- `_current`
  unfoldable pub is_current : Scope → E → Bool
  is_current scope e =
      scope.binding == around.binding e
      && leb scope.created_at (around.now e)
      && ltb (around.now e) scope.expires_at
      && scope.expires_at - scope.created_at == window

  -- The inner loop of `run`; an entry that is still running when the steps are used up ends it.
  unfoldable pub turns : ℕ → Scope → ℕ → Entry → E → Turned E
  turns zero scope t x e = halted x e
  turns (suc n) scope t x e = elim (is_current scope e) [
    | false ↦ halted x e
    | true ↦
        let e' = (around.advance t x.last e).1 in
        elim (around.advance t x.last e).0 [
          | none ↦ halted x e'
          | some (snapshot, s) ↦ elim (is_paused s) [
            | true ↦ record {
              entry = stepped snapshot s x;
              saves = 1;
              after = e';
              goes_on = not (is_review s);
            }
            | false ↦ saved (turns n scope t (stepped snapshot s x) e')
          ]
        ]
  ]

  -- The outer loop: an entry that is not pending is passed over.
  unfoldable pub run_entries : Scope → List Item → List Entry → E → Ran E
  run_entries scope (item ∷ items) (x ∷ xs) e = elim (is_pending x) [
    | false ↦ let rest = run_entries scope items xs e in record rest { entries = x ∷ rest.entries }
    | true ↦
        let t = turns max_steps scope item.task_id (started x) e in
        elim t.goes_on [
          | false ↦ record { entries = t.entry ∷ xs; saves = t.saves + 1; after = t.after }
          | true ↦
              let rest = run_entries scope items xs t.after in
              record {
                entries = t.entry ∷ rest.entries;
                saves = t.saves + 1 + rest.saves;
                after = rest.after;
              }
        ]
  ]
  run_entries scope _ xs e = record { entries = xs; saves = 0; after = e }

  -- `run`
  unfoldable pub run : (Scope → ℕ) → ℕ → ℕ → Batch → E → Result Refusal (Batch × E)
  run digest sha revision b e = do
    raise_if (not (is_valid digest b)) invalid_batch
    raise_if (not (is_expected sha revision b)) batch_changed
    raise_if (not (is_current b.scope e)) not_current
    raise_if (any stands_open b.entries) needs_review
    let r = run_entries b.scope b.scope.tasks b.entries e
    ok (record b { revision = b.revision + r.saves; entries = r.entries }, r.after)
