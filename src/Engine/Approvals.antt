-- ===== src/Engine/Approvals.antt =====
-- orch/engine.py: requesting an approval, deciding it, and renewing a request that has run out.
-- These work on fixture tasks: a call about a repository task is handed to
-- orch/repository_tasks.py, which is not modelled.
use orchd_ai.Prelude.{
  ℕ, ◌+◌, String, Bool, true, false, not, ◌&&◌, ◌||◌, Option, none, some, List, ◌∷◌, ◌==◌,
  if◌then◌else◌, is_some, Result, ok, err, ◌>>=◌, ◌>>◌, raise_if, or_raise, str_eq,
}
use orchd_ai.Table.{find, put, total}
use orchd_ai.Workflow.{
  State, planning, awaiting_plan_approval, ready_for_implementation, changes_requested,
  awaiting_action_approval, ready_for_pr, same_state,
}
use orchd_ai.Records.{
  Ref, same_link, same_links, Kind, plan, action, Decision, Scope, Request, Ruling, Body, Document,
  Status, started, done, Operation, EventType, Context, World, is_over,
}
use orchd_ai.Engine.{
  Refusal, conflicting, stale_approval, not_current, conflicting_approval, renewal_not_current,
  not_quiescent, not_expired, scope_changed, Session, open_task, event, policy, as_ruling,
  as_request, subject_of, evidence_of, fetch, fetch_all, store, transition, is_approve,
}

-- `datetime.fromisoformat(now()) + timedelta(hours=1)`
abbrev pub hour : ℕ
hour = 3600000000

-- `context[kind + "_approval"] = ref`
abbrev pub set_approval : Kind → Option Ref → Context → Context
set_approval plan r c = record c { plan_approval = r }
set_approval action r c = record c { action_approval = r }

abbrev pub set_request : Kind → Ref → Context → Context
set_request plan r c = record c { plan_request = some r }
set_request action r c = record c { action_approval_request = some r }

-- The pause that a kind of approval ends.
abbrev pub required : Kind → State
required plan = awaiting_plan_approval
required action = awaiting_action_approval

-- Where a decision takes the task.
abbrev pub target_of : Kind → Decision → State
target_of plan Decision.approve = ready_for_implementation
target_of plan Decision.reject = planning
target_of action Decision.approve = ready_for_pr
target_of action Decision.reject = changes_requested

abbrev pub decided_event : Decision → EventType
decided_event Decision.approve = EventType.approval_granted
decided_event Decision.reject = EventType.approval_rejected

abbrev pub action_event : Decision → EventType
action_event Decision.approve = EventType.external_action_approved
action_event Decision.reject = EventType.external_action_rejected

-- The events of a decision: one, and another if it is about the external action.
abbrev pub decided : Kind → Decision → Session → Session
decided plan d s = event (decided_event d) none s
decided action d s = event (action_event d) none (event (decided_event d) none s)

-- A plan that is sent back starts another planning attempt.
abbrev pub count_rejection : Kind → Decision → Context → Context
count_rejection plan Decision.reject c = record c { planning_attempt = c.planning_attempt + 1 }
count_rejection _ _ c = c

abbrev pub one_if : Bool → ℕ
one_if b = if b then 1 else 0

abbrev pub is_started : Status → Bool
is_started started = true
is_started done = false

-- SELECT count(*) FROM operations WHERE task_id=? AND status='started'
unfoldable pub unresolved : World → ℕ → ℕ
unresolved w t =
    total (λ (o : Operation). one_if (o.task_id == t && is_started o.status)) w.operations

-- Nothing is running for the task.
unfoldable pub is_quiescent : Session → Bool
is_quiescent s = not (
    is_some s.state.active_operation_id
    || is_some s.state.active_invocation_id
    || is_some s.state.container_id
    || not (unresolved s.world s.state.task_id == 0))

-- The decision is kept, the table of approvals names it, and no request is pending.
abbrev pub with_ruling : Kind → ℕ → Ref → World × Ref → Session → Session
with_ruling kind id asked kept s = record s {
  world = record kept.0 { approvals = put asked.id id kept.0.approvals };
  state = record s.state { pending_approval = none };
  context = set_approval kind (some kept.1) s.context;
}

-- Its events, and the count of plans sent back.
abbrev pub ruled : Kind → Decision → Session → Session
ruled kind decision s =
    let s' = decided kind decision s in
    record s' { context = count_rejection kind decision s'.context }

-- What a renewal writes after the new request.
abbrev pub renewing : ℕ → ℕ → String → Session → Session
renewing request_id expected_revision principal s = record s {
  state = record s.state { revision = s.state.revision + 1 };
  context = record s.context {
    renewal = some (record {
      request_id = request_id;
      expected_revision = expected_revision;
      principal = principal;
      replacement = s.state.pending_approval;
    });
  };
}

-- What a request writes when it is kept.
abbrev pub requesting : Kind → World × Ref → Session → Session
requesting kind kept s = record s {
  world = kept.0;
  state = record s.state { pending_approval = some kept.1 };
  context = set_approval kind none (set_request kind kept.1 s.context);
}

module _ (digest : Document → ℕ) (scope_digest : Scope → ℕ) (now : ℕ) where
  -- `_approval`: a request bound to the subject, the evidence and the revision to come, for an hour.
  unfoldable pub request_approval :
      ℕ → Kind → Option Ref → List (Option Ref) → Session → Result Refusal Session
  request_approval id kind subject evidence s = do
    let bound = scope_digest (record {
      subject = subject;
      evidence = evidence;
      task_id = s.state.task_id;
      revision = s.state.revision + 1;
      policy = policy;
    })
    kept ←
        store digest
          (record {
            id = id;
            task_id = s.state.task_id;
            body = Body.approval_request (record {
              kind = kind;
              subject = subject;
              subject_sha = bound;
              task_revision = s.state.revision + 1;
              policy = policy;
              evidence = evidence;
              expires_at = now + hour;
            });
          })
          s.world
    ok (event EventType.approval_requested none (requesting kind kept s))

  -- The decision that the table holds for a request, if its record is the task's.
  unfoldable pub recorded : World → ℕ → ℕ → Option Ruling
  recorded w t request_id = elim (find request_id w.approvals) [
    | none ↦ none
    | some d ↦ elim (find d w.records) [
      | none ↦ none
      | some document ↦ if document.task_id == t then as_ruling document.body else none
    ]
  ]

  -- The first part of `approve`: the request is the pending one of the current revision.
  unfoldable pub current_request : ℕ → ℕ → Session → Result Refusal Request
  current_request request_id expected_revision s = do
    raise_if (not (s.state.revision == expected_revision)) stale_approval
    pending ← or_raise s.state.pending_approval stale_approval
    raise_if (not (pending.id == request_id)) stale_approval
    request ← fetch digest as_request s.world s.state.task_id pending
    raise_if
        (not (same_state s.state.state (required request.kind))
          || not (request.task_revision == expected_revision)
          || is_over request.expires_at now)
        not_current
    ok request

  -- The second part: the decision is recorded and the task moves on. `id` is the decision's.
  unfoldable pub decide :
      ℕ → Ref → Request → Decision → String → Session → Result Refusal (Session × Ruling)
  decide id asked request decision principal s = do
    let ruling : Ruling = record {
      request = asked;
      subject_sha = request.subject_sha;
      principal = principal;
      decision = decision;
      decided_at = now;
    }
    kept ←
        store digest
          (record { id = id; task_id = s.state.task_id; body = Body.approval_decision ruling })
          s.world
    raise_if (is_some (find asked.id kept.0.approvals)) conflicting
    s4 ←
        transition digest scope_digest now (target_of request.kind decision)
          (ruled request.kind decision (with_ruling request.kind id asked kept s))
    ok (s4, ruling)

  unfoldable pub same_decision : Ruling → Decision → String → Bool
  same_decision r Decision.approve principal = is_approve r.decision && str_eq r.principal principal
  same_decision r Decision.reject principal =
      not (is_approve r.decision) && str_eq r.principal principal

  -- A request that was decided gives the same answer to the same decision again.
  unfoldable pub answered_with :
      Option Ruling → ℕ → ℕ → Decision → ℕ → String → Session → Result Refusal (World × Ruling)
  answered_with (some old) id request_id decision expected_revision principal s =
      if same_decision old decision principal then ok (s.world, old) else err conflicting_approval
  answered_with none id request_id decision expected_revision principal s = do
    request ← current_request request_id expected_revision s
    asked ← or_raise s.state.pending_approval stale_approval
    outcome ← decide id asked request decision principal s
    ok (outcome.0.world, outcome.1)

  -- `approve`
  unfoldable pub approve :
      ℕ → ℕ → ℕ → Decision → ℕ → String → World → Result Refusal (World × Ruling)
  approve id t request_id decision expected_revision principal w = do
    s ← open_task w t
    answered_with (recorded w t request_id) id request_id decision expected_revision principal s

  -- The pause that a renewal requires: the pending request is the one named, nothing is running,
  -- and the request has run out.
  unfoldable pub renewable : ℕ → ℕ → Session → Result Refusal Request
  renewable request_id expected_revision s = do
    raise_if (not (s.state.revision == expected_revision)) renewal_not_current
    pending ← or_raise s.state.pending_approval renewal_not_current
    raise_if (not (pending.id == request_id)) renewal_not_current
    request ← fetch digest as_request s.world s.state.task_id pending
    raise_if (not (same_state s.state.state (required request.kind)) || not (is_quiescent s))
        not_quiescent
    raise_if
        (not (is_over request.expires_at now) || not (request.task_revision == expected_revision))
        not_expired
    ok request

  -- What the request is bound to has not changed, and all of it is still retained.
  unfoldable pub same_scope : Request → List (Option Ref) → ℕ → Session → Result Refusal (Unit {0})
  same_scope request evidence expected_revision s = do
    let subject = subject_of request.kind s
    let bound = scope_digest (record {
      subject = subject;
      evidence = evidence;
      task_id = s.state.task_id;
      revision = expected_revision;
      policy = policy;
    })
    raise_if
        (not (same_link request.subject subject)
          || not (same_links request.evidence evidence)
          || not (request.subject_sha == bound)
          || not (str_eq request.policy policy))
        scope_changed
    fetch_all digest s.world s.state.task_id (subject ∷ evidence)

  -- `context["approval_renewal"]` says that this very renewal was made.
  abbrev pub was_renewed : ℕ → ℕ → String → Session → Bool
  was_renewed request_id expected_revision principal s = elim s.context.renewal [
    | none ↦ false
    | some r ↦
        r.request_id == request_id
        && r.expected_revision == expected_revision
        && str_eq r.principal principal
        && same_link s.state.pending_approval r.replacement
  ]

  -- `renew_approval`; `id` is the new request's.
  unfoldable pub renew_approval : ℕ → ℕ → ℕ → ℕ → String → World → Result Refusal World
  renew_approval id t request_id expected_revision principal w = do
    s ← open_task w t
    let renewed = do
      request ← renewable request_id expected_revision s
      evidence ← evidence_of request.kind s
      same_scope request evidence expected_revision s
      s1 ← request_approval id request.kind (subject_of request.kind s) evidence s
      ok
          (event EventType.approval_renewed none
            (renewing request_id expected_revision principal s1)).world
    if was_renewed request_id expected_revision principal s then ok w else renewed
