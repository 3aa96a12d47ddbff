-- ===== src/Engine/Recovery.antt =====
-- orch/engine.py: reconciling a worker operation that was interrupted, and cleaning up after it. The
-- broker and the cleanup of a workspace are parameters; a call about a repository task is handed to
-- orch/repository_tasks.py, which is not modelled.
use orchd_ai.Prelude.{
  ℕ, ◌+◌, String, Bool, true, false, not, ◌&&◌, ◌||◌, Option, none, some, ◌==◌, if◌then◌else◌,
  Result, ok, err, ◌>>=◌, ◌>>◌, raise_if, or_raise, str_eq,
}
use orchd_ai.Table.{find, put}
use orchd_ai.Workflow.{State, implementing, testing, blocked, changes_requested, same_state}
use orchd_ai.Records.{plan, Scope, Document, EventType, World, Operation, done, Recovery, Cleanup}
use orchd_ai.Engine.{
  Refusal, missing_key, not_recoverable, nothing_unresolved, other_unresolved, not_supported,
  not_stopped, no_cleanup, Session, open_task, event, transition, approved,
}
use orchd_ai.Engine.Approvals.{unresolved, is_started}

-- What the engine asks of the broker and the worker, of an operation and its generation: a verified
-- result, with whether its failure leaves a container to clean up; a proof that nothing runs and
-- nothing will; the cleanup of the container; and of the workspace.
pub record Broker : Type 0 where
  pub result : ℕ → ℕ → Option Bool
  pub is_docker : Bool
  pub retire : ℕ → ℕ → Bool
  pub reconcile : ℕ → Bool
  pub cleanup : ℕ → Bool

-- The execution, as `recover` finds it stopped; the answer is whether it needs cleaning up.
unfoldable pub stopped : Broker → ℕ → ℕ → Result Refusal Bool
stopped b id generation = elim (b.result id generation) [
  | some unclean ↦ ok unclean
  | none ↦ if b.is_docker && b.retire id generation then ok false else err not_stopped
]

-- `state["resume_state"] not in ("IMPLEMENTING", "TESTING")`
abbrev pub worker_stage : Option State → Option State
worker_stage (some implementing) = some implementing
worker_stage (some testing) = some testing
worker_stage _ = none

-- The operation, if it is the task's.
abbrev pub own_operation : ℕ → Option Operation → Option Operation
own_operation t none = none
own_operation t (some o) = if o.task_id == t then some o else none

-- An attempt that is retired: done, by reconciling it, under the next generation.
abbrev pub retired : Operation → Operation
retired o = record o { status = done; is_reconciled = true; generation = o.generation + 1 }

abbrev pub is_open_cleanup : Cleanup → Bool
is_open_cleanup Cleanup.pending = true
is_open_cleanup _ = false

abbrev pub with_cleanup : Cleanup → Recovery → Session → Session
with_cleanup c r s = record s {
  context = record s.context { recovery = some (record r { cleanup = c }) };
}

-- `_finish_recovery_cleanup`
abbrev pub cleaned : Broker → Recovery → Session → Session
cleaned b r s =
    if is_open_cleanup r.cleanup
    then (if b.cleanup r.operation_id
        then event EventType.recovery_cleanup_completed none (with_cleanup Cleanup.completed r s)
        else event EventType.recovery_cleanup_deferred none (with_cleanup Cleanup.deferred r s))
    else s

unfoldable pub finish_cleanup : Broker → Session → Result Refusal World
finish_cleanup b s = do r ← or_raise s.context.recovery missing_key; ok (cleaned b r s).world

-- `context["operator_recovery"]` says that this very recovery was made.
unfoldable pub was_recovered : ℕ → String → Session → Bool
was_recovered expected_revision principal s = elim s.context.recovery [
  | none ↦ false
  | some r ↦
      r.expected_revision == expected_revision
      && str_eq r.principal principal
      && r.completed_revision == s.state.revision
      && same_state s.state.state changes_requested
]

-- What `recover` writes before the transitions.
abbrev pub recovering : ℕ → String → ℕ → Operation → Session → Session
recovering expected_revision principal id o s = record s {
  world = record s.world { operations = put id (retired o) s.world.operations };
  state = record s.state { active_operation_id = none; error = none };
  context = record s.context {
    recovery = some (record {
      expected_revision = expected_revision;
      principal = principal;
      operation_id = id;
      completed_revision = s.state.revision + 2;
      cleanup = Cleanup.pending;
    });
  };
}

abbrev pub not_resuming : Session → Session
not_resuming s = record s { state = record s.state { resume_state = none } }

module _ (digest : Document → ℕ) (scope_digest : Scope → ℕ) (now : ℕ) (b : Broker) where
  -- `recover`, when it was not made before
  unfoldable pub reconcile : ℕ → ℕ → String → Session → Result Refusal World
  reconcile t expected_revision principal s = do
    raise_if (not (same_state s.state.state blocked && s.state.revision == expected_revision))
        not_recoverable
    id ← or_raise s.state.active_operation_id nothing_unresolved
    o ← or_raise (own_operation t (find id s.world.operations)) nothing_unresolved
    raise_if (not (is_started o.status)) nothing_unresolved
    raise_if (not (unresolved s.world t == 1)) other_unresolved
    target ← or_raise (worker_stage s.state.resume_state) not_supported
    approved digest scope_digest now plan s
    unclean ← stopped b id o.generation
    raise_if (unclean && not (b.reconcile id)) not_stopped
    s1 ←
        transition digest scope_digest now target
          (event EventType.operator_recovery none (recovering expected_revision principal id o s))
    s2 ← transition digest scope_digest now changes_requested (not_resuming s1)
    finish_cleanup b s2

  -- `recover`
  unfoldable pub recover : ℕ → ℕ → String → World → Result Refusal World
  recover t expected_revision principal w = do
    s ← open_task w t
    (if was_recovered expected_revision principal s
        then finish_cleanup b s
        else reconcile t expected_revision principal s)

  -- `retry_cleanup`
  unfoldable pub retry_cleanup : ℕ → ℕ → ℕ → String → World → Result Refusal World
  retry_cleanup t id expected_revision principal w = do
    s ← open_task w t
    r ← or_raise s.context.recovery no_cleanup
    raise_if
        (not (
          same_state s.state.state changes_requested
          && s.state.revision == expected_revision
          && r.completed_revision == expected_revision
          && r.operation_id == id
          && str_eq r.principal principal))
        no_cleanup
    o ← or_raise (own_operation t (find id w.operations)) no_cleanup
    raise_if
        (is_started o.status
          || not o.is_reconciled
          || not (elim s.state.active_operation_id [ none ↦ true | some _ ↦ false ])
          || not (unresolved w t == 0))
        no_cleanup
    elim r.cleanup [
      | Cleanup.completed ↦ ok w
      | _ ↦
          finish_cleanup b
            (event EventType.operator_cleanup_retry none (with_cleanup Cleanup.pending r s))
    ]
