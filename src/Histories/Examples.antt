-- ===== src/Histories/Examples.antt =====
-- Histories at concrete calls: a task is opened, drafted and confirmed, and another one cancelled.
use orchd_ai.Engine.Ending.{AtRest, cancel-AtRest}
use orchd_ai.Drafts.Confirmation.{Confirms, confirm-Confirms}
use orchd_ai.Engine.Approvals.{
  is_quiescent, unresolved, request_approval, recorded, current_request, decide, same_decision,
  answered_with, approve, renewable, same_scope, renew_approval,
}
use orchd_ai.Roles.{is_principal, is_name}
use orchd_ai.Workflow.{allowed, edges, cancelled}
use orchd_ai.Prelude.{
  ℕ, ◌+◌, String, ◌≡◌, refl, true, none, some, [], ◌∷◌, Result, ok, err, is_blank, is_alnum,
  is_space, is_word, strip, ◌⊎◌,
}
use orchd_ai.Table.{find, put, total}
use orchd_ai.Records.{Scope, Document, Task, World, is_over, text_rank, is_later}
use orchd_ai.Engine.{
  Refusal, open_task, log, event, evidence_of, fetch, fetch_all, store, approved, check_patch,
  check_test, check_review, check_receipt, checks, entered, move_to, transition,
}
use orchd_ai.Engine.Creation.{create_task}
use orchd_ai.Engine.Cancellation.{cancel, is_reason, has_effect, was_cancelled}
use orchd_ai.Drafts.{
  Draft, draft, confirm, text, texts, lines, written, each_question, questions, answers, same_items,
  drafting, next_revision, ask, answer,
}
use orchd_ai.Histories.{no_rows, Reach, empty, later, creates, drafts, confirms, Reach-Logged}

abbrev by_id : Document → ℕ
by_id d = d.id + 100

abbrev by_revision : Scope → ℕ
by_revision s = s.revision

abbrev plain : String → String
plain s = s

abbrev reached : Result Refusal World → World
reached (ok w) = w
reached (err _) = no_rows

abbrev opening : Result Refusal World
opening = create_task by_id by_revision plain 10 1 0 "Greeting" "steph" true no_rows

abbrev value : Draft
value = record {
  title = "Greeting";
  request = "Say hello";
  acceptance_criteria = "It greets" ∷ [];
  constraints = [];
  allowed_paths = "greeting.txt" ∷ [];
  external_references = [];
}

abbrev drafting_it : Result Refusal World
drafting_it = draft by_id by_revision plain 20 5 1 value none (reached opening)

abbrev confirming : Result Refusal World
confirming = confirm by_id by_revision plain 30 6 1 105 "steph" (some 1) (reached drafting_it)

abbrev cancelling_it : Result Refusal World
cancelling_it = cancel by_id by_revision plain 40 1 3 "Not needed" "steph" (reached confirming)

opened : opening ≡ ok (reached opening)
unfolding is_blank is_alnum is_space is_word strip find put total allowed edges is_principal is_name
    is_over text_rank is_later open_task log event evidence_of fetch fetch_all store approved
    check_patch check_test check_review check_receipt checks entered move_to transition is_quiescent
    unresolved request_approval recorded current_request decide same_decision answered_with approve
    renewable same_scope renew_approval is_reason has_effect was_cancelled cancel create_task text
    texts lines written each_question questions answers same_items drafting next_revision draft ask
    answer confirm
opened = refl

drafted : drafting_it ≡ ok (reached drafting_it)
unfolding is_blank is_alnum is_space is_word strip find put total allowed edges is_principal is_name
    is_over text_rank is_later open_task log event evidence_of fetch fetch_all store approved
    check_patch check_test check_review check_receipt checks entered move_to transition is_quiescent
    unresolved request_approval recorded current_request decide same_decision answered_with approve
    renewable same_scope renew_approval is_reason has_effect was_cancelled cancel create_task text
    texts lines written each_question questions answers same_items drafting next_revision draft ask
    answer confirm
drafted = refl

confirmed : confirming ≡ ok (reached confirming)
unfolding is_blank is_alnum is_space is_word strip find put total allowed edges is_principal is_name
    is_over text_rank is_later open_task log event evidence_of fetch fetch_all store approved
    check_patch check_test check_review check_receipt checks entered move_to transition is_quiescent
    unresolved request_approval recorded current_request decide same_decision answered_with approve
    renewable same_scope renew_approval is_reason has_effect was_cancelled cancel create_task text
    texts lines written each_question questions answers same_items drafting next_revision draft ask
    answer confirm
confirmed = refl

called_off : cancelling_it ≡ ok (reached cancelling_it)
unfolding is_blank is_alnum is_space is_word strip find put total allowed edges is_principal is_name
    is_over text_rank is_later open_task log event evidence_of fetch fetch_all store approved
    check_patch check_test check_review check_receipt checks entered move_to transition is_quiescent
    unresolved request_approval recorded current_request decide same_decision answered_with approve
    renewable same_scope renew_approval is_reason has_effect was_cancelled cancel create_task text
    texts lines written each_question questions answers same_items drafting next_revision draft ask
    answer confirm
called_off = refl

until_draft : Reach by_id by_revision plain (reached drafting_it)
until_draft =
    later (later empty (creates 10 1 0 "Greeting" "steph" true opened))
      (drafts 20 5 1 value none drafted)

confirm-Confirms_example :
    (before : Task) × (after : Task) × (find 1 (reached drafting_it).tasks ≡ some before)
    × (find 1 (reached confirming).tasks ≡ some after)
    × Confirms 105 before after
confirm-Confirms_example =
    confirm-Confirms by_id by_revision plain 30 6 1 105 "steph" (some 1) (reached drafting_it)
      (Reach-Logged by_id by_revision plain (reached drafting_it) until_draft) confirmed

until_confirmed : Reach by_id by_revision plain (reached confirming)
until_confirmed = later until_draft (confirms 30 6 1 105 "steph" (some 1) confirmed)

cancel-AtRest_example :
    (before : Task) × (after : Task) × (find 1 (reached confirming).tasks ≡ some before)
    × (find 1 (reached cancelling_it).tasks ≡ some after)
    × (after.state.state ≡ cancelled)
    × (((reached confirming ≡ reached cancelling_it) × (before.state.state ≡ cancelled))
        ⊎ AtRest (reached confirming) 1 3 before)
cancel-AtRest_example =
    cancel-AtRest by_id by_revision plain 40 1 3 "Not needed" "steph" (reached confirming)
      (Reach-Logged by_id by_revision plain (reached confirming) until_confirmed) called_off
