-- ===== src/Engine.antt =====
-- orch/engine.py, the only writer of workflow state: events, approvals and transitions. A call
-- works on the session of one task: the tables, and the `state` and `context` that it has in hand.
-- A refusal is raised out of the transaction, which rolls the tables back. The digests of
-- orch/contracts.py are parameters, and a call reads the clock once.
pub mod Log
pub mod Approvals
pub mod Cancellation
pub mod Creation
pub mod Steps
pub mod Replay
pub mod Evidence
mod Examples
pub mod Changes
pub mod Outcomes
pub mod Decisions
pub mod Ending
pub mod Recovery
pub mod Cleaning
pub mod Recovering
mod RecoveryExamples
use orchd_ai.Prelude.{
  ℕ, zero, suc, ◌+◌, String, Bool, true, false, not, ◌&&◌, ◌||◌, Option, none, some, List, [], ◌∷◌,
  map, ◌==◌, if◌then◌else◌, is_some, Result, ok, err, ◌>>=◌, ◌>>◌, raise_if, or_raise, str_eq,
}
use orchd_ai.Table.{Table, find, put}
use orchd_ai.Workflow.{
  State, draft_spec, spec_ready, ready_for_implementation, implementing, testing, reviewing,
  changes_requested, awaiting_action_approval, ready_for_pr, pr_created, blocked, failed, completed,
  allowed, same_state,
}
use orchd_ai.Records.{
  Ref, same_ref, same_link, same_links, Kind, plan, action, Decision, approve, reject, Verdict,
  accept, Scope, Spec, Request, Ruling, Body, Document, TaskState, Context, Task, EventType, Event,
  World, is_over,
}

pub data Refusal : Type 0 where
  unknown_task missing_key missing_record wrong_type hash_mismatch conflicting event_gap : Refusal
  wrong_workload forbidden confirmation_required approval_required binding_mismatch : Refusal
  expired_or_changed evidence_changed no_passing_test no_acceptance no_simulated_action : Refusal
  stale_approval not_current conflicting_approval bad_request renewal_not_current : Refusal
  not_quiescent not_expired scope_changed bad_title bad_text bad_list bad_draft bad_questions
        bad_answers :
      Refusal
  revision_changed not_drafting no_draft not_waiting no_question revised bad_principal : Refusal
  not_cancellable unresolved_execution action_done : Refusal
  not_recoverable nothing_unresolved other_unresolved not_supported not_stopped no_cleanup : Refusal
  unreadable : Refusal

-- The transaction of one task.
pub record Session : Type 0 where
  pub world : World
  pub state : TaskState
  pub context : Context

-- `store.task(task_id)`
unfoldable pub open_task : World → ℕ → Result Refusal Session
open_task w t = do
  row ← or_raise (find t w.tasks) unknown_task
  ok (record { world = w; state = row.state; context = row.context })

-- A task's events, the latest first.
unfoldable pub log : World → ℕ → List Event
log w t = elim (find t w.events) [ none ↦ [] | some es ↦ es ]

-- `_event`: the sequence number is raised, the event is appended with a snapshot, and the row of
-- the task is written. The snapshot stands here as it was handed to `Store.artifact`, which redacts
-- its text: what is read back of it is said where it is read, in `reconstruct`. What the state was
-- before is given for a transition alone.
unfoldable pub event : EventType → Option State → Session → Session
event type before s =
    let state' = record s.state { last_event_sequence = s.state.last_event_sequence + 1 } in
    let row : Task = record { state = state'; context = s.context } in
    let e : Event = record {
      sequence = state'.last_event_sequence;
      task_revision = state'.revision;
      event_type = type;
      from_state = before;
      to_state = if is_some before then some state'.state else none;
      payload = row;
    } in
    record s {
      state = state';
      world = record s.world {
        tasks = put state'.task_id row s.world.tasks;
        events = put state'.task_id (e ∷ log s.world state'.task_id) s.world.events;
      };
    }

abbrev pub policy : String
policy = "fixture-v1"

abbrev pub is_approve : Decision → Bool
is_approve approve = true
is_approve reject = false

abbrev pub is_accept : Verdict → Bool
is_accept accept = true
is_accept _ = false

abbrev pub as_body : Body → Option Body
as_body b = some b

abbrev pub as_ruling : Body → Option Ruling
as_ruling (Body.approval_decision r) = some r
as_ruling _ = none

abbrev pub as_request : Body → Option Request
as_request (Body.approval_request r) = some r
as_request _ = none

abbrev pub as_patch : Body → Option ℕ
as_patch (Body.patch_receipt n) = some n
as_patch _ = none

-- The patch, whether the outcome is "passed", and the exit code.
abbrev pub as_test : Body → Option (Ref × Bool × Option ℕ)
as_test (Body.test_receipt p passed code) = some (p, passed, code)
as_test _ = none

abbrev pub as_review_request : Body → Option (Ref × List Ref)
as_review_request (Body.review_request p tests) = some (p, tests)
as_review_request _ = none

abbrev pub as_review : Body → Option (Ref × Verdict)
as_review (Body.review_decision r v) = some (r, v)
as_review _ = none

abbrev pub as_external : Body → Option (Bool × Bool)
as_external (Body.external_receipt succeeded simulated) = some (succeeded, simulated)
as_external _ = none

abbrev pub is_zero_code : Option ℕ → Bool
is_zero_code none = false
is_zero_code (some n) = n == 0

abbrev pub same_id : Option ℕ → ℕ → Bool
same_id none n = false
same_id (some m) n = m == n

-- `context[kind + "_approval"]`, `context[kind + "_approval_request"]`
abbrev pub approval_of : Kind → Context → Option Ref
approval_of plan c = c.plan_approval
approval_of action c = c.action_approval

abbrev pub request_of : Kind → Context → Option Ref
request_of plan c = c.plan_request
request_of action c = c.action_approval_request

-- What an approval of each kind is about.
abbrev pub subject_of : Kind → Session → Option Ref
subject_of plan s = s.state.plan
subject_of action s = s.context.action_request

-- `[state["spec"], state["plan"]]`, and the evidence of the action, of which two are keys of the
-- context that must be there.
unfoldable pub evidence_of : Kind → Session → Result Refusal (List (Option Ref))
evidence_of plan s = ok (s.state.spec ∷ s.state.plan ∷ [])
evidence_of action s = do
  test ← or_raise s.context.test missing_key
  review ← or_raise s.context.review missing_key
  ok (s.state.spec ∷ s.state.plan ∷ s.state.patch ∷ some test ∷ some review ∷ [])

-- `if test: action`
abbrev pub when : Bool → Result Refusal (Unit {0}) → Result Refusal (Unit {0})
when true m = m
when false m = ok tt

-- target in {"READY_FOR_IMPLEMENTATION", "IMPLEMENTING", "TESTING", "REVIEWING",
-- "AWAITING_ACTION_APPROVAL"}
abbrev pub needs_plan : State → Bool
needs_plan ready_for_implementation = true
needs_plan implementing = true
needs_plan testing = true
needs_plan reviewing = true
needs_plan awaiting_action_approval = true
needs_plan _ = false

abbrev pub needs_patch : State → Bool
needs_patch testing = true
needs_patch _ = false

abbrev pub needs_test : State → Bool
needs_test reviewing = true
needs_test awaiting_action_approval = true
needs_test ready_for_pr = true
needs_test pr_created = true
needs_test _ = false

abbrev pub needs_review : State → Bool
needs_review awaiting_action_approval = true
needs_review ready_for_pr = true
needs_review pr_created = true
needs_review _ = false

abbrev pub needs_action : State → Bool
needs_action ready_for_pr = true
needs_action pr_created = true
needs_action _ = false

abbrev pub needs_receipt : State → Bool
needs_receipt pr_created = true
needs_receipt completed = true
needs_receipt _ = false

abbrev pub needs_confirmation : State → Bool
needs_confirmation spec_ready = true
needs_confirmation _ = false

-- The event that follows the transition.
abbrev pub closing_event : State → Option EventType
closing_event changes_requested = some EventType.changes_requested
closing_event failed = some EventType.workflow_failed
closing_event completed = some EventType.workflow_completed
closing_event _ = none

-- What a transition writes into the state and the context.
unfoldable pub entered : State → Session → Session
entered target s = record s {
  state = record s.state {
    resume_state = if same_state target blocked then some s.state.state else s.state.resume_state;
    state = target;
    revision = s.state.revision + 1;
  };
  context = record s.context {
    spec_confirmed = if same_state target draft_spec then false else s.context.spec_confirmed;
    confirmed_sha = if same_state target draft_spec then none else s.context.confirmed_sha;
  };
}

abbrev pub close_with : Option EventType → Session → Session
close_with none s = s
close_with (some type) s = event type none s

-- The writes of `_transition`, after its checks.
unfoldable pub move_to : State → Session → Session
move_to target s =
    close_with (closing_event target)
      (event EventType.state_transition (some s.state.state) (entered target s))

module _ (digest : Document → ℕ) where
  -- `store.get`: the record is there, belongs to the task, is of the type asked for, and has the
  -- digest of the reference.
  unfoldable pub fetch {ℓ} : {A : Type ℓ} → (Body → Option A) → World → ℕ → Ref → Result Refusal A
  fetch as_type w task r = do
    d ← or_raise (find r.id w.records) missing_record
    raise_if (not (d.task_id == task)) missing_record
    a ← or_raise (as_type d.body) wrong_type
    raise_if (not (same_ref (record { id = d.id; sha = digest d }) r)) hash_mismatch
    ok a

  -- `store.get` of each of a list
  unfoldable pub fetch_all : World → ℕ → List (Option Ref) → Result Refusal (Unit {0})
  fetch_all w task [] = ok tt
  fetch_all w task (r ∷ rs) =
      let rest = fetch_all w task rs in
      do r' ← or_raise r missing_key; fetch as_body w task r'; rest

  -- `store.put`, of a document that was just made
  unfoldable pub store : Document → World → Result Refusal (World × Ref)
  store d w = elim (find d.id w.records) [
    | none ↦ ok (record w { records = put d.id d w.records }, record { id = d.id; sha = digest d })
    | some old ↦
        if digest old == digest d
        then ok (w, record { id = d.id; sha = digest d })
        else err conflicting
  ]

  module _ (scope_digest : Scope → ℕ) (now : ℕ) where
    -- `_approved`: the person's approval of a kind is recorded, is of the current subject and
    -- evidence, and has not run out.
    unfoldable pub approved : Kind → Session → Result Refusal Ruling
    approved kind s = do
      given ← or_raise (approval_of kind s.context) approval_required
      ruling ← fetch as_ruling s.world s.state.task_id given
      asked ← or_raise (request_of kind s.context) missing_key
      request ← fetch as_request s.world s.state.task_id asked
      raise_if
          (not (
            same_id (find asked.id s.world.approvals) given.id
            && is_approve ruling.decision
            && same_ref ruling.request asked
            && same_link request.subject (subject_of kind s)))
          binding_mismatch
      raise_if (not (ruling.subject_sha == request.subject_sha) || is_over request.expires_at now)
          expired_or_changed
      expected ← evidence_of kind s
      let bound = scope_digest (record {
        subject = subject_of kind s;
        evidence = expected;
        task_id = s.state.task_id;
        revision = request.task_revision;
        policy = policy;
      })
      raise_if (not (same_links request.evidence expected) || not (request.subject_sha == bound))
          evidence_changed
      fetch_all s.world s.state.task_id request.evidence
      ok ruling

    unfoldable pub check_patch : Session → Result Refusal (Unit {0})
    check_patch s = do
      patch ← or_raise s.state.patch missing_key
      fetch as_patch s.world s.state.task_id patch
      ok tt

    unfoldable pub check_test : Session → Result Refusal (Unit {0})
    check_test s = do
      test ← or_raise s.context.test missing_key
      receipt ← fetch as_test s.world s.state.task_id test
      raise_if
          (not (same_link (some receipt.0) s.state.patch && receipt.1 && is_zero_code receipt.2))
          no_passing_test

    unfoldable pub check_review : Session → Result Refusal (Unit {0})
    check_review s = do
      chosen ← or_raise s.context.review missing_key
      review ← fetch as_review s.world s.state.task_id chosen
      request ← fetch as_review_request s.world s.state.task_id review.0
      raise_if
          (not (
            is_accept review.1
            && same_link (some request.0) s.state.patch
            && same_links (map some request.1) (s.context.test ∷ [])))
          no_acceptance

    unfoldable pub check_receipt : Session → Result Refusal (Unit {0})
    check_receipt s = do
      external ← or_raise s.context.external missing_key
      receipt ← fetch as_external s.world s.state.task_id external
      raise_if (not (receipt.0 && receipt.1)) no_simulated_action

    -- The checks of `_transition`, in its order.
    unfoldable pub checks : State → Session → Result Refusal (Unit {0})
    checks target s = do
      raise_if s.context.is_repository wrong_workload
      raise_if (not (allowed s.state.state target s.state.resume_state)) forbidden
      raise_if (needs_confirmation target && not s.context.spec_confirmed) confirmation_required
      when (needs_plan target) (approved plan s >> ok tt)
      when (needs_patch target) (check_patch s)
      when (needs_test target) (check_test s)
      when (needs_review target) (check_review s)
      when (needs_action target) (approved action s >> ok tt)
      when (needs_receipt target) (check_receipt s)

    -- `_transition`
    unfoldable pub transition : State → Session → Result Refusal Session
    transition target s = do checks target s; ok (move_to target s)
