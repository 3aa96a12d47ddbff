-- ===== src/Drafts/Log.antt =====
-- Drafting, asking, answering, confirming and creating keep the event log.
use orchd_ai.Prelude.{
  ℕ, String, ◌≡◌, refl, subst, not, Option, none, List, ok, ok-bind, ok-eq, raise_if, or_raise,
  ◌==◌,
}
use orchd_ai.Workflow.{awaiting_clarification, draft_spec, spec_ready, same_state}
use orchd_ai.Roles.{is_principal}
use orchd_ai.Records.{Ref, Scope, Document, World, EventType}
use orchd_ai.Engine.{
  Session, open_task, store, fetch, transition, revision_changed, not_waiting, no_question,
  no_draft, revised, bad_principal,
}
use orchd_ai.Engine.Log.{
  Logged, Tracked, SameLog-Tracked, event-Tracked, event-Logged, open_task-Tracked,
}
use orchd_ai.Engine.Steps.{store_tables, transition-Tracked}
use orchd_ai.Drafts.{
  Draft, Question, Answer, as_spec, as_questions, written, drafting, next_revision, questions,
  answers, is_revision, with_revision, draft, ask, answer, confirm,
}

module _ (digest : Document → ℕ) where
  -- A session with a stored document in its tables, and other changes that the log does not see.
  stored-Tracked :
      (d : Document) (s s' : Session) {kept : World × Ref}
      → store digest d s.world ≡ ok kept
      → s'.state.task_id ≡ s.state.task_id
      → s'.state.last_event_sequence ≡ s.state.last_event_sequence
      → s'.world ≡ kept.0
      → Tracked s
      → Tracked s'
  stored-Tracked d s s' stored id count world h =
      let (tasks, events, _, _) = store_tables digest d s.world stored in
      SameLog-Tracked {s = s} {s' = s'}
        (record { id = id; count = count; tasks = rw world tasks; events = rw world events }) h

  module _ (scope_digest : Scope → ℕ) (redact : String → String) (now : ℕ) where
    pub draft-Logged :
        (id t : ℕ) (value : Draft) (expected : Option ℕ) (w : World) {w' : World}
        → Logged w
        → draft digest scope_digest redact now id t value expected w ≡ ok w'
        → Logged w'
    unfolding draft
    draft-Logged id t value expected w logged h =
        let (content, h1, _) = ok-bind (written redact value) h in
        let (s, h2, opened) = ok-bind (open_task w t) h1 in
        let (_, h3, _) = ok-bind (drafting expected s) h2 in
        let (revision, h4, _) = ok-bind (next_revision digest s) h3 in
        let (kept, end, stored) = ok-bind (store digest _ s.world) h4 in
        subst Logged (ok-eq end) (
          event-Logged EventType.spec_drafted none (with_revision kept s)
            (stored-Tracked _ s _ stored refl refl refl (open_task-Tracked w t logged opened).0))

    pub ask-Logged :
        (id t : ℕ) (value : List Question) (expected : Option ℕ) (w : World) {w' : World}
        → Logged w
        → ask digest scope_digest redact now id t value expected w ≡ ok w'
        → Logged w'
    unfolding ask
    ask-Logged id t value expected w logged h =
        let (asked, h1, _) = ok-bind (questions redact value) h in
        let (s, h2, opened) = ok-bind (open_task w t) h1 in
        let (_, h3, _) = ok-bind (drafting expected s) h2 in
        let (spec, h4, _) = ok-bind (or_raise s.state.spec no_draft) h3 in
        let (_, h5, _) = ok-bind (fetch digest as_spec s.world t spec) h4 in
        let (kept, h6, stored) = ok-bind (store digest _ s.world) h5 in
        let (s', end, moved) =
          ok-bind (transition digest scope_digest now awaiting_clarification _) h6 in
        subst Logged (ok-eq end)
          (transition-Tracked digest scope_digest now awaiting_clarification _
            (event-Tracked EventType.clarification_requested none _
              (stored-Tracked _ s _ stored refl refl refl (open_task-Tracked w t logged opened).0))
            moved).1

    pub answer-Logged :
        (id t : ℕ) (value : List Answer) (who : String) (expected : Option ℕ) (w : World)
        {w' : World}
        → Logged w
        → answer digest scope_digest redact now id t value who expected w ≡ ok w'
        → Logged w'
    unfolding answer
    answer-Logged id t value who expected w logged h =
        let (_, h1, _) = ok-bind (raise_if (not (is_principal who)) bad_principal) h in
        let (s, h2, opened) = ok-bind (open_task w t) h1 in
        let (_, h3, _) =
          ok-bind (raise_if (not (is_revision expected s.state.revision)) revision_changed) h2 in
        let (_, h4, _) =
          ok-bind (raise_if (not (same_state s.state.state awaiting_clarification)) not_waiting)
            h3 in
        let (pending, h5, _) = ok-bind (or_raise s.context.clarification_request no_question) h4 in
        let (request, h6, _) = ok-bind (fetch digest as_questions s.world t pending) h5 in
        let (_, h7, _) = ok-bind (answers redact value request.1) h6 in
        let (kept, h8, stored) = ok-bind (store digest _ s.world) h7 in
        let (s', end, moved) = ok-bind (transition digest scope_digest now draft_spec _) h8 in
        subst Logged (ok-eq end)
          (transition-Tracked digest scope_digest now draft_spec _
            (event-Tracked EventType.clarification_answered none _
              (stored-Tracked _ s _ stored refl refl refl (open_task-Tracked w t logged opened).0))
            moved).1

    pub confirm-Logged :
        (id t sha : ℕ) (who : String) (expected : Option ℕ) (w : World) {w' : World}
        → Logged w
        → confirm digest scope_digest redact now id t sha who expected w ≡ ok w'
        → Logged w'
    unfolding confirm
    confirm-Logged id t sha who expected w logged h =
        let (_, h1, _) = ok-bind (raise_if (not (is_principal who)) bad_principal) h in
        let (s, h2, opened) = ok-bind (open_task w t) h1 in
        let (_, h3, _) = ok-bind (drafting expected s) h2 in
        let (current, h4, _) = ok-bind (or_raise s.state.spec no_draft) h3 in
        let (_, h5, _) = ok-bind (raise_if (not (current.sha == sha)) revised) h4 in
        let (spec, h6, _) = ok-bind (fetch digest as_spec s.world t current) h5 in
        let (kept, h7, stored) = ok-bind (store digest _ s.world) h6 in
        let (s', end, moved) = ok-bind (transition digest scope_digest now spec_ready _) h7 in
        subst Logged (ok-eq end)
          (transition-Tracked digest scope_digest now spec_ready _
            (event-Tracked EventType.spec_confirmed none _
              (stored-Tracked _ s _ stored refl refl refl (open_task-Tracked w t logged opened).0))
            moved).1
