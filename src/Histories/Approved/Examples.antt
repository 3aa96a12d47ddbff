-- ===== src/Histories/Approved/Examples.antt =====
-- The theorems about every history, at one in which a plan is approved and the task is cancelled.
use orchd_ai.Drafts.{text}
use orchd_ai.Roles.{is_principal, is_name}
use orchd_ai.Prelude.{
  ◌≤◌, ◌≡◌, refl, ◌⊎◌, inl, true, false, Option, none, some, [], ◌∷◌, ok, is_blank, is_alnum,
  is_space, is_word, strip, List,
}
use orchd_ai.Table.{find, put, total}
use orchd_ai.Workflow.{planning, awaiting_plan_approval, is_terminal, allowed, edges}
use orchd_ai.Records.{Task, World, Decision, EventType, is_over, text_rank, is_later, Event}
use orchd_ai.Engine.{
  Session, open_task, transition, event, log, evidence_of, fetch, fetch_all, store, approved,
  check_patch, check_test, check_review, check_receipt, checks, entered, move_to,
}
use orchd_ai.Engine.Creation.{create_task, new_state, new_context}
use orchd_ai.Engine.Approvals.{
  approve, is_quiescent, unresolved, request_approval, recorded, current_request, decide,
  same_decision, answered_with,
}
use orchd_ai.Engine.Cancellation.{cancel, is_reason, has_effect, was_cancelled}
use orchd_ai.Engine.Changes.{Advance}
use orchd_ai.Engine.Replay.{AllRead, reconstruct}
use orchd_ai.Histories.{
  Working, Step, Reach, empty, later, creates, approves, cancels, notes, moves, reconstruct-Reach,
}
use orchd_ai.Histories.Rows.{Noted, no_call, call, Step-Advance, Calls-revision, Calls-terminal}
use orchd_ai.Histories.Approved.{
  by_id, by_revision, called_off, decided, has_paused, is_planning, on, opened, plain, planned,
  ruled, was_decided, world1, world2, world3, world4, world5, world6, on-world1, on-world5,
  on-world2,
}

same-Working : (s : Session) → Working s s
same-Working s = record {
  log = record { id = refl; count = refl; tasks = refl; events = refl };
  at = refl;
  revision = refl;
  resumes = inl refl;
}

planned-Working : Working (on world2) planned
unfolding is_blank is_alnum is_space is_word strip find put total allowed edges is_principal is_name
    is_over text_rank is_later open_task log event evidence_of fetch fetch_all store approved
    check_patch check_test check_review check_receipt checks entered move_to transition is_quiescent
    unresolved request_approval recorded current_request decide same_decision answered_with approve
    is_reason has_effect was_cancelled cancel create_task text
planned-Working = record {
  log = record { id = refl; count = refl; tasks = refl; events = refl };
  at = refl;
  revision = refl;
  resumes = inl refl;
}

until_pause : Reach by_id by_revision plain world3
until_pause =
    later
      (later (later empty (creates 10 1 5 "Greeting" "steph" false opened)) (
        moves 20 1 planning {s' = on world1} on-world1 (same-Working (on world1)) is_planning refl))
      (moves 30 1 awaiting_plan_approval {s' = planned} on-world2 planned-Working has_paused refl)

deciding_it : Step by_id by_revision plain world3 world4
deciding_it =
    approves 50 23 1 22 Decision.approve (on world3).state.revision "steph" (ruled decided).1
      was_decided

until_cancelled : Reach by_id by_revision plain world5
until_cancelled =
    later (later until_pause deciding_it)
      (cancels 60 1 (on world4).state.revision "Not needed" "steph" called_off)

taking_over : Step by_id by_revision plain world5 world6
taking_over =
    notes 1 EventType.task_ownership_taken {s' = on world5} on-world5 (same-Working (on world5))
      refl

abbrev the_row : Option Task → Task
the_row (some r) = r
the_row none = record { state = new_state 0; context = new_context }

abbrev row_in : World → Task
row_in w = the_row (find 1 w.tasks)

there3 : find 1 world3.tasks ≡ some (row_in world3)
unfolding is_blank is_alnum is_space is_word strip find put total allowed edges is_principal is_name
    is_over text_rank is_later open_task log event evidence_of fetch fetch_all store approved
    check_patch check_test check_review check_receipt checks entered move_to transition is_quiescent
    unresolved request_approval recorded current_request decide same_decision answered_with approve
    is_reason has_effect was_cancelled cancel create_task text
there3 = refl

there5 : find 1 world5.tasks ≡ some (row_in world5)
unfolding is_blank is_alnum is_space is_word strip find put total allowed edges is_principal is_name
    is_over text_rank is_later open_task log event evidence_of fetch fetch_all store approved
    check_patch check_test check_review check_receipt checks entered move_to transition is_quiescent
    unresolved request_approval recorded current_request decide same_decision answered_with approve
    is_reason has_effect was_cancelled cancel create_task text
there5 = refl

there6 : find 1 world6.tasks ≡ some (row_in world6)
unfolding is_blank is_alnum is_space is_word strip find put total allowed edges is_principal is_name
    is_over text_rank is_later open_task log event evidence_of fetch fetch_all store approved
    check_patch check_test check_review check_receipt checks entered move_to transition is_quiescent
    unresolved request_approval recorded current_request decide same_decision answered_with approve
    is_reason has_effect was_cancelled cancel create_task text
there6 = refl

ended : is_terminal (row_in world5).state.state ≡ true
unfolding is_blank is_alnum is_space is_word strip find put total allowed edges is_principal is_name
    is_over text_rank is_later open_task log event evidence_of fetch fetch_all store approved
    check_patch check_test check_review check_receipt checks entered move_to transition is_quiescent
    unresolved request_approval recorded current_request decide same_decision answered_with approve
    is_reason has_effect was_cancelled cancel create_task text
ended = refl

-- The text of the principal that cancelled is redacted in the snapshots.
abbrev blank : Task → Option Task
blank r = some (record r { context = record r.context { cancellation = none } })

blank-AllRead : (es : List Event) → AllRead blank es
blank-AllRead [] = tt
blank-AllRead (e ∷ es) = (refl, blank-AllRead es)

reconstruct-Reach_example : reconstruct blank world6 1 ≡ ok (blank (row_in world6))
reconstruct-Reach_example =
    reconstruct-Reach by_id by_revision plain blank world6 1 {row = row_in world6}
      (later until_cancelled taking_over) (blank-AllRead (log world6 1)) there6

Step-Advance_example :
    (find 1 world4.tasks ≡ some (row_in world3))
    ⊎ ((row' : Task) × (find 1 world4.tasks ≡ some row')
        × (Noted (row_in world3) row' ⊎ Advance (row_in world3) row'))
Step-Advance_example =
    Step-Advance by_id by_revision plain world3 world4 1 {row = row_in world3} until_pause
      deciding_it there3

Calls-revision_example :
    ((row_in world5).state.revision ≤ (row_in world6).state.revision)
    × ((row_in world6).state.revision ≡ (row_in world5).state.revision
        → (row_in world6).state.state ≡ (row_in world5).state.state)
Calls-revision_example =
    Calls-revision by_id by_revision plain world5 world6 1 {row = row_in world5}
      {row' = row_in world6} until_cancelled (call no_call taking_over) there5 there6

Calls-terminal_example :
    (row' : Task) × (find 1 world6.tasks ≡ some row') × Noted (row_in world5) row'
Calls-terminal_example =
    Calls-terminal by_id by_revision plain world5 world6 1 {row = row_in world5} until_cancelled
      (call no_call taking_over) there5 ended
