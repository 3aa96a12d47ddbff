-- ===== src/Drafts/Changes.antt =====
-- Drafting, asking, answering and confirming change the row of their task as a transaction does.
use orchd_ai.Prelude.{
  ℕ, String, ◌≡◌, refl, sym, subst, ◌∙◌, inl, false, not, Option, none, List, arith, ok, ok-bind,
  ok-eq, ok-raise_if, or_raise, ◌==◌, ◌≤◌,
}
use orchd_ai.Workflow.{
  State, draft_spec, awaiting_clarification, spec_ready, is_terminal, same_state,
}
use orchd_ai.Workflow.Paths.{same_state-eq}
use orchd_ai.Roles.{is_principal}
use orchd_ai.Records.{Ref, Scope, Document, World, EventType}
use orchd_ai.Engine.{
  Session, open_task, event, store, fetch, transition, revision_changed, not_waiting, no_question,
  no_draft, revised, bad_principal,
}
use orchd_ai.Engine.Log.{Logged}
use orchd_ai.Engine.Changes.{
  Change, id-event, at-event, revision-event, event-Framed, event-Written, written-Change,
  opened-Framed, transition-Change, event-Resumes,
}
use orchd_ai.Engine.Outcomes.{stored-Framed}
use orchd_ai.Drafts.{
  Draft, Question, Answer, as_spec, as_questions, written, drafting, next_revision, questions,
  answers, is_revision, with_revision, with_questions, with_answers, with_confirmation, draft, ask,
  answer, confirm,
}

pub drafting-at :
    (expected : Option ℕ) (s : Session) {u : Unit {0}}
    → drafting expected s ≡ ok u
    → s.state.state ≡ draft_spec
unfolding drafting
drafting-at expected s h =
    let (_, h1) = ok-raise_if (not (is_revision expected s.state.revision)) revision_changed h in
    same_state-eq s.state.state draft_spec (ground arith)

module _ (digest : Document → ℕ) (scope_digest : Scope → ℕ) (redact : String → String) (now : ℕ)
    (id t : ℕ) (expected : Option ℕ) (w : World) where
  pub draft-Change :
      (value : Draft) {w' : World}
      → Logged w
      → draft digest scope_digest redact now id t value expected w ≡ ok w'
      → Change w t w'
  unfolding draft
  draft-Change value logged h =
      let (content, h1, _) = ok-bind (written redact value) h in
      let (s, h2, opened) = ok-bind (open_task w t) h1 in
      let (_, h3, open') = ok-bind (drafting expected s) h2 in
      let (revision, h4, _) = ok-bind (next_revision digest s) h3 in
      let (kept, end, stored) = ok-bind (store digest _ s.world) h4 in
      let s1 = with_revision kept s in
      let type = EventType.spec_drafted in
      let framed =
        stored-Framed digest w _ s s1 stored refl refl (opened-Framed w t logged opened) in
      subst (Change w t) (ok-eq end) (
        written-Change w t logged opened (event type none s1) (id-event type none s1)
          (event-Framed type none s1 w framed) (event-Written type none s1)
          (record {
            live = subst (λ x. is_terminal x ≡ false) (sym (drafting-at expected s open')) refl;
            higher = omega (arith, revision-event type none s1);
            legal = inl (sym (at-event type none s1));
          }))

  -- A transaction that stores a document, records an event and makes a transition.
  stored-Change :
      (target : State) (type : EventType) (d : Document) {s : Session} (s1 : Session)
      {kept : World × Ref} {s' : Session}
      → Logged w
      → open_task w t ≡ ok s
      → store digest d s.world ≡ ok kept
      → s1.state.task_id ≡ s.state.task_id
      → s1.state.state ≡ s.state.state
      → s1.state.resume_state ≡ s.state.resume_state
      → s.state.revision ≤ s1.state.revision
      → s1.world.tasks ≡ kept.0.tasks
      → transition digest scope_digest now target (event type none s1) ≡ ok s'
      → Change w t s'.world
  stored-Change target type d {s} s1 logged opened stored same at resume later tasks moved =
      transition-Change digest scope_digest now w t target (event type none s1) logged opened
        (event-Framed type none s1 w
          (stored-Framed digest w d s s1 stored same tasks (opened-Framed w t logged opened)))
        (id-event type none s1 ∙ same) (at-event type none s1 ∙ at)
        (event-Resumes type none s1 s (inl resume))
        (omega (arith, later, revision-event type none s1)) moved

  pub ask-Change :
      (value : List Question) {w' : World}
      → Logged w
      → ask digest scope_digest redact now id t value expected w ≡ ok w'
      → Change w t w'
  unfolding ask
  ask-Change value logged h =
      let (asked, h1, _) = ok-bind (questions redact value) h in
      let (s, h2, opened) = ok-bind (open_task w t) h1 in
      let (_, h3, _) = ok-bind (drafting expected s) h2 in
      let (spec, h4, _) = ok-bind (or_raise s.state.spec no_draft) h3 in
      let (_, h5, _) = ok-bind (fetch digest as_spec s.world t spec) h4 in
      let (kept, h6, stored) = ok-bind (store digest _ s.world) h5 in
      let (s', end, moved) =
        ok-bind (transition digest scope_digest now awaiting_clarification _) h6 in
      subst (Change w t) (ok-eq end) (
        stored-Change awaiting_clarification EventType.clarification_requested _
          (with_questions kept _ s) logged opened stored refl refl refl (omega arith) refl moved)

  pub answer-Change :
      (value : List Answer) (who : String) {w' : World}
      → Logged w
      → answer digest scope_digest redact now id t value who expected w ≡ ok w'
      → Change w t w'
  unfolding answer
  answer-Change value who logged h =
      let (_, h1) = ok-raise_if (not (is_principal who)) bad_principal h in
      let (s, h2, opened) = ok-bind (open_task w t) h1 in
      let (_, h3) = ok-raise_if (not (is_revision expected s.state.revision)) revision_changed h2 in
      let (_, h4) =
        ok-raise_if (not (same_state s.state.state awaiting_clarification)) not_waiting h3 in
      let (pending, h5, _) = ok-bind (or_raise s.context.clarification_request no_question) h4 in
      let (request, h6, _) = ok-bind (fetch digest as_questions s.world t pending) h5 in
      let (_, h7, _) = ok-bind (answers redact value request.1) h6 in
      let (kept, h8, stored) = ok-bind (store digest _ s.world) h7 in
      let (s', end, moved) = ok-bind (transition digest scope_digest now draft_spec _) h8 in
      subst (Change w t) (ok-eq end) (
        stored-Change draft_spec EventType.clarification_answered _ (with_answers kept s) logged
          opened stored refl refl refl (omega arith) refl moved)

  pub confirm-Change :
      (sha : ℕ) (who : String) {w' : World}
      → Logged w
      → confirm digest scope_digest redact now id t sha who expected w ≡ ok w'
      → Change w t w'
  unfolding confirm
  confirm-Change sha who logged h =
      let (_, h1) = ok-raise_if (not (is_principal who)) bad_principal h in
      let (s, h2, opened) = ok-bind (open_task w t) h1 in
      let (_, h3, _) = ok-bind (drafting expected s) h2 in
      let (current, h4, _) = ok-bind (or_raise s.state.spec no_draft) h3 in
      let (_, h5) = ok-raise_if (not (current.sha == sha)) revised h4 in
      let (spec, h6, _) = ok-bind (fetch digest as_spec s.world t current) h5 in
      let (kept, h7, stored) = ok-bind (store digest _ s.world) h6 in
      let (s', end, moved) = ok-bind (transition digest scope_digest now spec_ready _) h7 in
      subst (Change w t) (ok-eq end) (
        stored-Change spec_ready EventType.spec_confirmed _ (with_confirmation kept sha s) logged
          opened stored refl refl refl (omega arith) refl moved)
