-- ===== src/Engine/RecoveryExamples.antt =====
-- The recovery of a task that is blocked in its implementation.
use orchd_ai.Engine.Log.{Logged}
use orchd_ai.Prelude.{
  ℕ, ◌+◌, ◌≡◌, ◌⊎◌, refl, true, false, some, none, [], ◌∷◌, ok, err, Bool-cases, inl, inr, ◌==◌,
  arith, if◌then◌else◌, Result,
}
use orchd_ai.Table.{find, put, total}
use orchd_ai.Workflow.{blocked, implementing, changes_requested, allowed, edges}
use orchd_ai.Records.{
  Ref, Kind, Decision, Scope, Request, Ruling, Body, Document, World, is_over, text_rank, Task,
  EventType, Event, started, Operation,
}
use orchd_ai.Engine.{
  Refusal, policy, move_to, evidence_of, fetch, fetch_all, approved, checks, transition, open_task,
  log, event, entered, check_patch, check_test, check_review, check_receipt,
}
use orchd_ai.Engine.Creation.{new_state, new_context}
use orchd_ai.Engine.Approvals.{unresolved}
use orchd_ai.Engine.Recovery.{Broker, stopped, finish_cleanup, was_recovered, reconcile, recover}
use orchd_ai.Engine.Recovering.{Retires, Recovered, BlockedAt, recover-Retires}

abbrev by_id : Document → ℕ
by_id d = d.id + 100

abbrev by_revision : Scope → ℕ
by_revision s = s.revision

abbrev at_id : ℕ → Ref
at_id n = record { id = n; sha = n + 100 }

abbrev of_task : ℕ → Body → ℕ × Document
of_task n body = (n, record { id = n; task_id = 1; body = body })

abbrev plan_request : Request
plan_request = record {
  kind = Kind.plan;
  subject = some (at_id 2);
  subject_sha = 4;
  task_revision = 4;
  policy = policy;
  evidence = some (at_id 1) ∷ some (at_id 2) ∷ [];
  expires_at = 3600000000;
}

abbrev plan_ruling : Ruling
plan_ruling = record {
  request = at_id 8;
  subject_sha = 4;
  principal = "steph";
  decision = Decision.approve;
  decided_at = 500;
}

abbrev interrupted : Operation
interrupted = record { task_id = 1; status = started; is_reconciled = false; generation = 1 }

abbrev row : Task
row = record {
  state = record (new_state 1) {
    state = blocked;
    revision = 7;
    spec = some (at_id 1);
    plan = some (at_id 2);
    active_operation_id = some 20;
    resume_state = some implementing;
    last_event_sequence = 1;
  };
  context = record new_context {
    spec_confirmed = true;
    plan_request = some (at_id 8);
    plan_approval = some (at_id 9);
  };
}

abbrev last_event : Event
last_event = record {
  sequence = 1;
  task_revision = 7;
  event_type = EventType.state_transition;
  from_state = some implementing;
  to_state = some blocked;
  payload = row;
}

abbrev stuck : World
stuck = record {
  tasks = (1, row) ∷ [];
  records =
      of_task 1 (Body.clarification_response (at_id 0) "spec")
      ∷ of_task 2 (Body.implementation_plan [] [])
      ∷ of_task 8 (Body.approval_request plan_request)
      ∷ of_task 9 (Body.approval_decision plan_ruling)
      ∷ [];
  approvals = (8, 9) ∷ [];
  operations = (20, interrupted) ∷ [];
  events = (1, last_event ∷ []) ∷ [];
}

-- No result is there, and nothing runs.
abbrev docker : Broker
docker = record {
  result = λ _ _. none;
  is_docker = true;
  retire = λ _ _. true;
  reconcile = λ _. false;
  cleanup = λ _. true;
}

find-stuck : (t : ℕ) → find t stuck.tasks ≡ (if t == 1 then some row else none)
unfolding find
find-stuck t = refl

log-stuck : (t : ℕ) → log stuck t ≡ (if t == 1 then last_event ∷ [] else [])
unfolding find log
log-stuck t = ground arith

stuck-Logged : Logged stuck
stuck-Logged t = elim (Bool-cases (t == 1)) [
  | inl same ↦ rw (find-stuck t, log-stuck t, same) (ground arith, (refl, refl, (refl, tt)))
  | inr other ↦ rw (find-stuck t, log-stuck t, other) refl
]

abbrev recovery : Result Refusal World
recovery = recover by_id by_revision 1000 docker 1 7 "steph" stuck

abbrev world_of : Result Refusal World → World
world_of (ok w) = w
world_of (err _) = stuck

recovered : recovery ≡ ok (world_of recovery)
unfolding find put total allowed edges is_over text_rank open_task log event evidence_of fetch
    fetch_all approved check_patch check_test check_review check_receipt checks entered move_to
    transition unresolved stopped finish_cleanup was_recovered reconcile recover
recovered = refl

recover-Retires_example :
    ((after : Task) × (find 1 (world_of recovery).tasks ≡ some after)
      × (after.state.state ≡ changes_requested))
    × ((Recovered stuck 1 7 "steph" × ((world_of recovery).operations ≡ stuck.operations))
        ⊎ (BlockedAt stuck 1 7 × Retires docker stuck 1 (world_of recovery)))
recover-Retires_example =
    recover-Retires by_id by_revision 1000 docker 1 7 "steph" stuck stuck-Logged (tt, tt) recovered
