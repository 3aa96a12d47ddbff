-- ===== src/Histories/Approved.antt =====
-- A history in which a plan is made and approved and the task is cancelled: the stores, and the calls
-- between them.
mod Examples
use orchd_ai.Drafts.{text}
use orchd_ai.Roles.{is_principal, is_name}
use orchd_ai.Prelude.{
  ℕ, ◌+◌, ◌≤◌, String, ◌≡◌, refl, ◌⊎◌, inl, true, false, Option, none, some, [], ◌∷◌, Result, ok,
  err, is_blank, is_alnum, is_space, is_word, strip, List,
}
use orchd_ai.Table.{find, put, total}
use orchd_ai.Workflow.{planning, awaiting_plan_approval, is_terminal, allowed, edges}
use orchd_ai.Records.{
  Scope, Document, Task, World, Ref, Kind, Decision, Request, Ruling, Body, EventType, is_over,
  text_rank, is_later, Event,
}
use orchd_ai.Engine.{
  Session, Refusal, policy, open_task, transition, event, log, evidence_of, fetch, fetch_all, store,
  approved, check_patch, check_test, check_review, check_receipt, checks, entered, move_to,
}
use orchd_ai.Engine.Creation.{create_task, new_state, new_context}
use orchd_ai.Engine.Approvals.{
  approve, is_quiescent, unresolved, request_approval, recorded, current_request, decide,
  same_decision, answered_with,
}
use orchd_ai.Engine.Cancellation.{cancel, is_reason, has_effect, was_cancelled}
use orchd_ai.Engine.Changes.{Advance}
use orchd_ai.Engine.Replay.{AllRead, reconstruct}
use orchd_ai.Histories.{
  no_rows, Working, Step, Reach, empty, later, creates, approves, cancels, notes, moves,
  reconstruct-Reach,
}
use orchd_ai.Histories.Rows.{Noted, no_call, call, Step-Advance, Calls-revision, Calls-terminal}

abbrev pub by_id : Document → ℕ
by_id d = d.id + 100

abbrev pub by_revision : Scope → ℕ
by_revision s = s.revision

abbrev pub plain : String → String
plain s = s

abbrev reached : Result Refusal World → World
reached (ok w) = w
reached (err _) = no_rows

abbrev no_session : Session
no_session = record { world = no_rows; state = new_state 1; context = new_context }

abbrev session_of : Result Refusal Session → Session
session_of (ok s) = s
session_of (err _) = no_session

-- The session of task 1.
abbrev pub on : World → Session
on w = session_of (open_task w 1)

abbrev opening : Result Refusal World
opening = create_task by_id by_revision plain 10 1 5 "Greeting" "steph" false no_rows

abbrev pub world1 : World
world1 = reached opening

abbrev to_planning : Result Refusal Session
to_planning = transition by_id by_revision 20 planning (on world1)

abbrev pub world2 : World
world2 = (session_of to_planning).world

abbrev spec_ref : Ref
spec_ref = record { id = 5; sha = 105 }

abbrev plan_ref : Ref
plan_ref = record { id = 21; sha = 121 }

-- The request is of the revision that the task has when it pauses.
abbrev request : Request
request = record {
  kind = Kind.plan;
  subject = some plan_ref;
  subject_sha = (on world2).state.revision + 1;
  task_revision = (on world2).state.revision + 1;
  policy = policy;
  evidence = some spec_ref ∷ some plan_ref ∷ [];
  expires_at = 3600000000;
}

-- The plan and the request for its approval are stored.
abbrev pub planned : Session
planned = record (on world2) {
  world = record world2 {
    records =
        put 21 (record { id = 21; task_id = 1; body = Body.implementation_plan [] [] })
          (put 22 (record { id = 22; task_id = 1; body = Body.approval_request request })
            world2.records);
  };
  state = record (on world2).state {
    plan = some plan_ref;
    pending_approval = some (record { id = 22; sha = 122 });
  };
  context = record (on world2).context { plan_request = some (record { id = 22; sha = 122 }) };
}

abbrev to_pause : Result Refusal Session
to_pause = transition by_id by_revision 30 awaiting_plan_approval planned

abbrev pub world3 : World
world3 = (session_of to_pause).world

abbrev no_ruling : Ruling
no_ruling = record {
  request = plan_ref;
  subject_sha = 0;
  principal = "";
  decision = Decision.reject;
  decided_at = 0;
}

abbrev pub decided : Result Refusal (World × Ruling)
decided =
    approve by_id by_revision 50 23 1 22 Decision.approve (on world3).state.revision "steph" world3

abbrev pub ruled : Result Refusal (World × Ruling) → World × Ruling
ruled (ok out) = out
ruled (err _) = (no_rows, no_ruling)

abbrev pub world4 : World
world4 = (ruled decided).0

abbrev cancelling : Result Refusal World
cancelling =
    cancel by_id by_revision plain 60 1 (on world4).state.revision "Not needed" "steph" world4

abbrev pub world5 : World
world5 = reached cancelling

-- A worker takes the task over, as `advancing` notes.
abbrev pub world6 : World
world6 = (event EventType.task_ownership_taken none (on world5)).world

pub opened : opening ≡ ok world1
unfolding is_blank is_alnum is_space is_word strip find put total allowed edges is_principal is_name
    is_over text_rank is_later open_task log event evidence_of fetch fetch_all store approved
    check_patch check_test check_review check_receipt checks entered move_to transition is_quiescent
    unresolved request_approval recorded current_request decide same_decision answered_with approve
    is_reason has_effect was_cancelled cancel create_task text
opened = refl

pub on-world1 : open_task world1 1 ≡ ok (on world1)
unfolding is_blank is_alnum is_space is_word strip find put total allowed edges is_principal is_name
    is_over text_rank is_later open_task log event evidence_of fetch fetch_all store approved
    check_patch check_test check_review check_receipt checks entered move_to transition is_quiescent
    unresolved request_approval recorded current_request decide same_decision answered_with approve
    is_reason has_effect was_cancelled cancel create_task text
on-world1 = refl

pub is_planning : to_planning ≡ ok (session_of to_planning)
unfolding is_blank is_alnum is_space is_word strip find put total allowed edges is_principal is_name
    is_over text_rank is_later open_task log event evidence_of fetch fetch_all store approved
    check_patch check_test check_review check_receipt checks entered move_to transition is_quiescent
    unresolved request_approval recorded current_request decide same_decision answered_with approve
    is_reason has_effect was_cancelled cancel create_task text
is_planning = refl

pub on-world2 : open_task world2 1 ≡ ok (on world2)
unfolding is_blank is_alnum is_space is_word strip find put total allowed edges is_principal is_name
    is_over text_rank is_later open_task log event evidence_of fetch fetch_all store approved
    check_patch check_test check_review check_receipt checks entered move_to transition is_quiescent
    unresolved request_approval recorded current_request decide same_decision answered_with approve
    is_reason has_effect was_cancelled cancel create_task text
on-world2 = refl

pub has_paused : to_pause ≡ ok (session_of to_pause)
unfolding is_blank is_alnum is_space is_word strip find put total allowed edges is_principal is_name
    is_over text_rank is_later open_task log event evidence_of fetch fetch_all store approved
    check_patch check_test check_review check_receipt checks entered move_to transition is_quiescent
    unresolved request_approval recorded current_request decide same_decision answered_with approve
    is_reason has_effect was_cancelled cancel create_task text
has_paused = refl

pub was_decided : decided ≡ ok (world4, (ruled decided).1)
unfolding is_blank is_alnum is_space is_word strip find put total allowed edges is_principal is_name
    is_over text_rank is_later open_task log event evidence_of fetch fetch_all store approved
    check_patch check_test check_review check_receipt checks entered move_to transition is_quiescent
    unresolved request_approval recorded current_request decide same_decision answered_with approve
    is_reason has_effect was_cancelled cancel create_task text
was_decided = refl

pub called_off : cancelling ≡ ok world5
unfolding is_blank is_alnum is_space is_word strip find put total allowed edges is_principal is_name
    is_over text_rank is_later open_task log event evidence_of fetch fetch_all store approved
    check_patch check_test check_review check_receipt checks entered move_to transition is_quiescent
    unresolved request_approval recorded current_request decide same_decision answered_with approve
    is_reason has_effect was_cancelled cancel create_task text
called_off = refl

pub on-world5 : open_task world5 1 ≡ ok (on world5)
unfolding is_blank is_alnum is_space is_word strip find put total allowed edges is_principal is_name
    is_over text_rank is_later open_task log event evidence_of fetch fetch_all store approved
    check_patch check_test check_review check_receipt checks entered move_to transition is_quiescent
    unresolved request_approval recorded current_request decide same_decision answered_with approve
    is_reason has_effect was_cancelled cancel create_task text
on-world5 = refl
