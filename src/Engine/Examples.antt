-- ===== src/Engine/Examples.antt =====
-- A task whose external action was approved moves to READY_FOR_PR.
use orchd_ai.Engine.Decisions.{approve-again}
use orchd_ai.Engine.Log.{Logged}
use orchd_ai.Engine.Approvals.{
  recorded, current_request, decide, same_decision, answered_with, approve,
}
use orchd_ai.Table.{find, put, total}
use orchd_ai.Prelude.{
  ℕ, ◌+◌, ◌≡◌, refl, true, Option, some, List, [], ◌∷◌, ok, Bool-cases, inl, inr, ◌==◌, arith,
  if◌then◌else◌, none, Result, err,
}
use orchd_ai.Workflow.{
  awaiting_action_approval, ready_for_pr, allowed, edges, awaiting_plan_approval,
}
use orchd_ai.Records.{
  Ref, Kind, Decision, Verdict, Scope, Request, Ruling, Body, Document, World, is_over, text_rank,
  Task, EventType, Event,
}
use orchd_ai.Engine.{
  Session, policy, move_to, evidence_of, fetch, fetch_all, approved, check_patch, check_test,
  check_review, check_receipt, checks, transition, open_task, log, event, store, entered,
  conflicting_approval, Refusal,
}
use orchd_ai.Engine.Creation.{new_state, new_context}
use orchd_ai.Engine.Evidence.{Evidence, transition-Evidence}

abbrev by_id : Document → ℕ
by_id d = d.id + 100

abbrev by_revision : Scope → ℕ
by_revision s = s.revision

abbrev at_id : ℕ → Ref
at_id n = record { id = n; sha = n + 100 }

abbrev of_task : ℕ → Body → ℕ × Document
of_task n body = (n, record { id = n; task_id = 1; body = body })

abbrev evidence : List (Option Ref)
evidence = some (at_id 1) ∷ some (at_id 2) ∷ some (at_id 3) ∷ some (at_id 4) ∷ some (at_id 6) ∷ []

abbrev request : Request
request = record {
  kind = Kind.action;
  subject = some (at_id 7);
  subject_sha = 9;
  task_revision = 9;
  policy = policy;
  evidence = evidence;
  expires_at = 3600000000;
}

abbrev ruling : Ruling
ruling = record {
  request = at_id 8;
  subject_sha = 9;
  principal = "steph";
  decision = Decision.approve;
  decided_at = 500;
}

abbrev world : World
world = record {
  tasks = [];
  records =
      of_task 1 (Body.clarification_response (at_id 0) "spec")
      ∷ of_task 2 (Body.implementation_plan [] [])
      ∷ of_task 3 (Body.patch_receipt 0)
      ∷ of_task 4 (Body.test_receipt (at_id 3) true (some 0))
      ∷ of_task 5 (Body.review_request (at_id 3) (at_id 4 ∷ []))
      ∷ of_task 6 (Body.review_decision (at_id 5) Verdict.accept)
      ∷ of_task 7 (Body.tool_request 0)
      ∷ of_task 8 (Body.approval_request request)
      ∷ of_task 9 (Body.approval_decision ruling)
      ∷ [];
  approvals = (8, 9) ∷ [];
  operations = [];
  events = [];
}

abbrev paused : Session
paused = record {
  world = world;
  state = record (new_state 1) {
    state = awaiting_action_approval;
    revision = 9;
    spec = some (at_id 1);
    plan = some (at_id 2);
    patch = some (at_id 3);
  };
  context = record new_context {
    spec_confirmed = true;
    test = some (at_id 4);
    review = some (at_id 6);
    action_request = some (at_id 7);
    action_approval_request = some (at_id 8);
    action_approval = some (at_id 9);
  };
}

approved_move :
    transition by_id by_revision 1000 ready_for_pr paused ≡ ok (move_to ready_for_pr paused)
unfolding find allowed edges is_over text_rank evidence_of fetch fetch_all approved check_patch
    check_test check_review check_receipt checks transition
approved_move = refl

transition-Evidence_example : Evidence by_id by_revision 1000 ready_for_pr paused
transition-Evidence_example =
    transition-Evidence by_id by_revision 1000 ready_for_pr paused
      {s' = move_to ready_for_pr paused} approved_move

abbrev plan_request : Request
plan_request = record {
  kind = Kind.plan;
  subject = some (at_id 2);
  subject_sha = 4;
  task_revision = 4;
  policy = policy;
  evidence = some (at_id 1) ∷ some (at_id 2) ∷ [];
  expires_at = 3600000000;
}

abbrev row : Task
row = record {
  state = record (new_state 1) {
    state = awaiting_plan_approval;
    revision = 4;
    spec = some (at_id 1);
    plan = some (at_id 2);
    pending_approval = some (at_id 8);
    last_event_sequence = 1;
  };
  context = record new_context { spec_confirmed = true; plan_request = some (at_id 8) };
}

abbrev first_event : Event
first_event = record {
  sequence = 1;
  task_revision = 4;
  event_type = EventType.approval_requested;
  from_state = none;
  to_state = none;
  payload = row;
}

-- A store with a task that waits for its plan to be approved.
abbrev waiting : World
waiting = record {
  tasks = (1, row) ∷ [];
  records =
      of_task 1 (Body.clarification_response (at_id 0) "spec")
      ∷ of_task 2 (Body.implementation_plan [] [])
      ∷ of_task 8 (Body.approval_request plan_request)
      ∷ [];
  approvals = [];
  operations = [];
  events =
      (
        1,
        record {
          sequence = 1;
          task_revision = 4;
          event_type = EventType.approval_requested;
          from_state = none;
          to_state = none;
          payload = row;
        }
            ∷ [],
      )
      ∷ [];
}

find-waiting : (t : ℕ) → find t waiting.tasks ≡ (if t == 1 then some row else none)
unfolding find
find-waiting t = refl

log-waiting : (t : ℕ) → log waiting t ≡ (if t == 1 then first_event ∷ [] else [])
unfolding find log
log-waiting t = ground arith

waiting-Logged : Logged waiting
waiting-Logged t = elim (Bool-cases (t == 1)) [
  | inl same ↦ rw (find-waiting t, log-waiting t, same) (ground arith, (refl, refl, (refl, tt)))
  | inr other ↦ rw (find-waiting t, log-waiting t, other) refl
]

abbrev decided : Result Refusal (World × Ruling)
decided = approve by_id by_revision 1000 9 1 8 Decision.approve 4 "steph" waiting

abbrev outcome : Result Refusal (World × Ruling) → World × Ruling
outcome (ok o) = o
outcome (err _) = (waiting, ruling)

was_decided : decided ≡ ok (outcome decided)
unfolding find put total allowed edges is_over text_rank open_task log event evidence_of fetch
    fetch_all store approved check_patch check_test check_review check_receipt checks entered
    move_to transition recorded current_request decide same_decision answered_with approve
was_decided = refl

nine_free : find 9 waiting.records ≡ none
unfolding find
nine_free = refl

approve-again_example :
    approve by_id by_revision 2000 10 1 8 Decision.reject 5 "steph" (outcome decided).0 ≡ (
      if same_decision by_id by_revision 2000 (outcome decided).1 Decision.reject "steph"
      then ok (outcome decided)
      else err conflicting_approval)
approve-again_example =
    approve-again by_id by_revision 1000 9 1 8 Decision.approve 4 "steph" waiting
      {w' = (outcome decided).0} {r = (outcome decided).1} waiting-Logged nine_free was_decided 2000
      10 Decision.reject 5 "steph"
