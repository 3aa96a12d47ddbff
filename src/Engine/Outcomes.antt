-- ===== src/Engine/Outcomes.antt =====
-- The decisions, renewals and cancellations that succeed: each changes the row of its task as a
-- transaction does, or finds that it was made before and changes nothing.
use orchd_ai.Prelude.{
  ℕ, String, ◌≡◌, refl, sym, ap, subst, ◌∙◌, ◌⊎◌, inl, inr, false, not, ◌||◌, Option, none, some,
  List, arith, ok, ok-bind, ok-eq, ok-raise_if, ok-or_raise, if-eq, or_raise, is_some, strip, ◌==◌,
  ◌≢◌,
}
use orchd_ai.Table.{find}
use orchd_ai.Workflow.{cancelled, pr_created, is_terminal, same_state}
use orchd_ai.Workflow.Paths.{same_state-eq}
use orchd_ai.Records.{
  Ref, Kind, plan, action, Decision, Scope, Request, Ruling, Document, World, EventType,
}
use orchd_ai.Engine.{
  Session, open_task, event, store, fetch, transition, evidence_of, subject_of, as_request,
  conflicting, stale_approval, bad_request, not_cancellable, unresolved_execution, action_done,
  renewal_not_current, not_quiescent,
}
use orchd_ai.Engine.Log.{Logged, open_task-Tracked}
use orchd_ai.Engine.Steps.{store_tables}
use orchd_ai.Engine.Approvals.{
  decided, decided_event, action_event, decide, answered_with, renewing, requesting, is_quiescent,
  ruled, with_ruling, approve, renew_approval, request_approval, target_of, recorded,
  current_request, renewable, same_scope, was_renewed, required,
}
use orchd_ai.Engine.Cancellation.{cancel, cancelling, is_reason, has_effect, was_cancelled}
use orchd_ai.Engine.Changes.{
  Change, Framed, id-event, at-event, revision-event, event-Framed, event-Written, written-Change,
  Resumes, event-Resumes, opened-Framed, transition-Change,
}

-- Nothing happened, or task `t` changed.
abbrev pub Outcome : World → ℕ → World → Type 0
Outcome w t w' = (w' ≡ w) ⊎ Change w t w'

-- What the events of a decision leave as it was.
record Quiet (w : World) (s s' : Session) : Type 0 where
  pub id : s'.state.task_id ≡ s.state.task_id
  pub at : s'.state.state ≡ s.state.state
  pub resumes : Resumes s s'
  pub revision : s'.state.revision ≡ s.state.revision
  pub framed : Framed w s'

event-Quiet :
    (w : World) (type : EventType) (s s' : Session) → Quiet w s s' → Quiet w s (event type none s')
event-Quiet w type s s' q = record {
  id = id-event type none s' ∙ q.id;
  at = at-event type none s' ∙ q.at;
  resumes = event-Resumes type none s' s q.resumes;
  revision = revision-event type none s' ∙ q.revision;
  framed = event-Framed type none s' w q.framed;
}

decided-Quiet :
    (w : World) (kind : Kind) (d : Decision) (s s' : Session)
    → Quiet w s s'
    → Quiet w s (decided kind d s')
decided-Quiet w plan d s s' q = event-Quiet w (decided_event d) s s' q
decided-Quiet w action d s s' q =
    event-Quiet w (action_event d) s (event (decided_event d) none s')
      (event-Quiet w (decided_event d) s s' q)

required-live : (kind : Kind) → is_terminal (required kind) ≡ false
required-live plan = refl
required-live action = refl

module _ (digest : Document → ℕ) where
  -- A document that was stored leaves the rows alone.
  pub stored-Framed :
      (w : World) (d : Document) (s s' : Session) {kept : World × Ref}
      → store digest d s.world ≡ ok kept
      → s'.state.task_id ≡ s.state.task_id
      → s'.world.tasks ≡ kept.0.tasks
      → Framed w s
      → Framed w s'
  stored-Framed w d s s' stored id tasks framed u ne =
      ap (find u) (tasks ∙ (store_tables digest d s.world stored).0)
      ∙ framed u (subst (λ k. u ≢ k) id ne)

  module _ (scope_digest : Scope → ℕ) (now : ℕ) (w : World) (t : ℕ) {s : Session}
      (logged : Logged w) (opened : open_task w t ≡ ok s) where
    decide-Change :
        (id : ℕ) (asked : Ref) (r : Request) (d : Decision) (principal : String)
        {out : Session × Ruling}
        → decide digest scope_digest now id asked r d principal s ≡ ok out
        → Change w t out.0.world
    unfolding decide
    decide-Change id asked r d principal {out} h =
        let (kept, h1, stored) = ok-bind (store digest _ s.world) h in
        let (_, h2) = ok-raise_if (is_some (find asked.id kept.0.approvals)) conflicting h1 in
        let (s4, end, moved) = ok-bind (transition digest scope_digest now _ _) h2 in
        let q = decided-Quiet w r.kind d s (with_ruling r.kind id asked kept s) (record {
          id = refl;
          at = refl;
          resumes = inl refl;
          revision = refl;
          framed =
              stored-Framed w _ s (with_ruling r.kind id asked kept s) stored refl refl
                (opened-Framed w t logged opened);
        }) in
        let c =
          transition-Change digest scope_digest now w t (target_of r.kind d)
            (ruled r.kind d (with_ruling r.kind id asked kept s)) logged opened q.framed q.id q.at
            q.resumes (omega (arith, q.revision)) moved in
        subst (λ (o : Session × Ruling). Change w t o.0.world) (ok-eq end) c

    answered_with-Outcome :
        (old : Option Ruling) (id request_id : ℕ) (d : Decision) (expected_revision : ℕ)
        (principal : String) {out : World × Ruling}
        → answered_with digest scope_digest now old id request_id d expected_revision principal s
          ≡ ok out
        → (out.0 ≡ s.world) ⊎ Change w t out.0
    unfolding answered_with
    answered_with-Outcome (some old) id request_id d expected_revision principal h =
        inl (ground arith)
    answered_with-Outcome none id request_id d expected_revision principal {out} h =
        let (request, h1, _) =
          ok-bind (current_request digest scope_digest now request_id expected_revision s) h in
        let (asked, h2, _) = ok-bind (or_raise s.state.pending_approval stale_approval) h1 in
        let (outcome, end, made) =
          ok-bind (decide digest scope_digest now id asked request d principal s) h2 in
        inr (
          subst (Change w t) (ap (λ (o : World × Ruling). o.0) (ok-eq end))
            (decide-Change id asked request d principal made))

    request_approval-Quiet :
        (id : ℕ) (kind : Kind) (subject : Option Ref) (evidence : List (Option Ref)) {s1 : Session}
        → request_approval digest scope_digest now id kind subject evidence s ≡ ok s1
        → Quiet w s s1
    unfolding request_approval
    request_approval-Quiet id kind subject evidence h =
        let (kept, end, stored) = ok-bind (store digest _ s.world) h in
        let s2 = requesting kind kept s in
        subst (Quiet w s) (ok-eq end) (
          event-Quiet w EventType.approval_requested s s2 (record {
            id = refl;
            at = refl;
            resumes = inl refl;
            revision = refl;
            framed = stored-Framed w _ s s2 stored refl refl (opened-Framed w t logged opened);
          }))

    renewable-live :
        (request_id expected : ℕ) {r : Request}
        → renewable digest scope_digest now request_id expected s ≡ ok r
        → is_terminal s.state.state ≡ false
    unfolding renewable
    renewable-live request_id expected h =
        let (_, h1) = ok-raise_if (not (s.state.revision == expected)) renewal_not_current h in
        let (pending, h2, _) = ok-or_raise s.state.pending_approval renewal_not_current h1 in
        let (_, h3) = ok-raise_if (not (pending.id == request_id)) renewal_not_current h2 in
        let (request, h4, _) =
          ok-bind (fetch digest as_request s.world s.state.task_id pending) h3 in
        let (paused, _) =
          ok-raise_if
            (not (same_state s.state.state (required request.kind)) || not (is_quiescent s))
            not_quiescent h4 in
        let at = same_state-eq s.state.state (required request.kind) (ground arith) in
        subst (λ x. is_terminal x ≡ false) (sym at) (required-live request.kind)

  module _ (scope_digest : Scope → ℕ) (now : ℕ) (t : ℕ) (w : World) where
    pub approve-Outcome :
        (id request_id : ℕ) (d : Decision) (expected_revision : ℕ) (principal : String)
        {out : World × Ruling}
        → Logged w
        → approve digest scope_digest now id t request_id d expected_revision principal w ≡ ok out
        → Outcome w t out.0
    unfolding approve
    approve-Outcome id request_id d expected_revision principal logged h =
        let (s, h1, opened) = ok-bind (open_task w t) h in
        elim (answered_with-Outcome scope_digest now w t logged opened
          (recorded digest scope_digest now w t request_id) id request_id d expected_revision
          principal h1) [
            | inl same ↦ inl (same ∙ (open_task-Tracked w t logged opened).1)
            | inr c ↦ inr c
          ]

    pub renew_approval-Outcome :
        (id request_id expected_revision : ℕ) (principal : String) {w' : World}
        → Logged w
        → renew_approval digest scope_digest now id t request_id expected_revision principal w
          ≡ ok w'
        → Outcome w t w'
    unfolding renew_approval
    renew_approval-Outcome id request_id expected_revision principal logged h =
        let (s, h1, opened) = ok-bind (open_task w t) h in
        elim (if-eq (was_renewed digest scope_digest now request_id expected_revision principal s)
          h1) [
            | inl (_, again) ↦ inl (sym (ok-eq again))
            | inr (_, h2) ↦
                let (request, h3, found) =
                  ok-bind (renewable digest scope_digest now request_id expected_revision s) h2 in
                let (evidence, h4, _) = ok-bind (evidence_of request.kind s) h3 in
                let (_, h5, _) =
                  ok-bind (same_scope digest scope_digest now request evidence expected_revision s)
                    h4 in
                let (s1, end, requested) =
                  ok-bind
                    (request_approval digest scope_digest now id request.kind
                      (subject_of request.kind s) evidence s)
                    h5 in
                let q =
                  request_approval-Quiet scope_digest now w t logged opened id request.kind
                    (subject_of request.kind s) evidence requested in
                let s2 = renewing request_id expected_revision principal s1 in
                let s3 = event EventType.approval_renewed none s2 in
                inr (
                  subst (Change w t) (ok-eq end) (
                    written-Change w t logged opened s3
                      (id-event EventType.approval_renewed none s2 ∙ q.id)
                      (event-Framed EventType.approval_renewed none s2 w q.framed)
                      (event-Written EventType.approval_renewed none s2)
                      (record {
                        live =
                            renewable-live scope_digest now w t logged opened request_id
                              expected_revision found;
                        higher =
                            omega (
                              arith,
                              q.revision,
                              revision-event EventType.approval_renewed none s2,
                            );
                        legal = inl (sym (at-event EventType.approval_renewed none s2 ∙ q.at));
                      })))
          ]

    pub cancel-Outcome :
        (redact : String → String) (expected_revision : ℕ) (reason principal : String) {w' : World}
        → Logged w
        → cancel digest scope_digest redact now t expected_revision reason principal w ≡ ok w'
        → Outcome w t w'
    unfolding cancel
    cancel-Outcome redact expected_revision reason principal logged h =
        let (_, h1) = ok-raise_if (not (is_reason redact (strip reason))) bad_request h in
        let (s, h2, opened) = ok-bind (open_task w t) h1 in
        elim (if-eq (was_cancelled expected_revision (strip reason) principal s) h2) [
          | inl (_, again) ↦ inl (sym (ok-eq again))
          | inr (_, h3) ↦
              let (_, h4) =
                ok-raise_if
                  (is_terminal s.state.state || not (s.state.revision == expected_revision))
                  not_cancellable h3 in
              let (_, h5) = ok-raise_if (not (is_quiescent s)) unresolved_execution h4 in
              let (_, h6) =
                ok-raise_if (same_state s.state.state pr_created || has_effect w t) action_done
                  h5 in
              let (s1, end, moved) = ok-bind (transition digest scope_digest now cancelled _) h6 in
              let s2 =
                cancelling digest scope_digest redact now expected_revision (strip reason) principal
                  s in
              let type = EventType.operator_cancellation in
              inr (
                subst (Change w t) (ok-eq end) (
                  transition-Change digest scope_digest now w t cancelled (event type none s2)
                    logged opened (event-Framed type none s2 w (opened-Framed w t logged opened))
                    (id-event type none s2) (at-event type none s2)
                    (event-Resumes type none s2 s (inr refl))
                    (omega (arith, revision-event type none s2)) moved))
        ]
