-- ===== src/Engine/Steps.antt =====
-- Every operation of the engine keeps the event log: what one leaves behind is a world where each
-- task's row is the snapshot of its last event.
use orchd_ai.Prelude.{
  ℕ, String, ◌≡◌, refl, ap, subst, inl, inr, Option, none, some, List, arith, ok, ok-bind,
  Option-cases, is_some, raise_if, ok-eq, if-eq, or_raise, strip, not, ◌||◌, ◌==◌, sym,
}
use orchd_ai.Table.{find}
use orchd_ai.Workflow.{State, cancelled, pr_created, is_terminal, same_state}
use orchd_ai.Records.{
  Ref, Kind, plan, action, Decision, Scope, Request, Ruling, Document, World, EventType,
}
use orchd_ai.Engine.{
  Session, open_task, store, checks, transition, move_to, evidence_of, subject_of, conflicting,
  stale_approval, bad_request, not_cancellable, unresolved_execution, action_done,
}
use orchd_ai.Engine.Log.{
  Logged, Tracked, SameLog-Tracked, event-Tracked, event-Logged, open_task-Tracked, move_to-Tracked,
}
use orchd_ai.Engine.Approvals.{
  decided, decide, answered_with, renewing, requesting, is_quiescent, ruled, with_ruling, approve,
  renew_approval, request_approval, recorded, current_request, renewable, same_scope, was_renewed,
}
use orchd_ai.Engine.Cancellation.{cancel, is_reason, has_effect, was_cancelled}

module _ (digest : Document → ℕ) where
  -- Storing a document leaves the tasks, the events and the approvals alone.
  pub store_tables :
      (d : Document) (w : World) {out : World × Ref}
      → store digest d w ≡ ok out
      → (out.0.tasks ≡ w.tasks)
        × (out.0.events ≡ w.events)
        × (out.0.approvals ≡ w.approvals)
        × (out.0.operations ≡ w.operations)
  unfolding store
  store_tables d w h = elim (Option-cases (find d.id w.records)) [
    | inl free ↦ (ground arith, ground arith, ground arith, ground arith)
    | inr (old, there) ↦ (ground arith, ground arith, ground arith, ground arith)
  ]

  module _ (scope_digest : Scope → ℕ) (now : ℕ) where
    -- A transition that succeeds passed its checks, and made its writes.
    pub transition-ok :
        (target : State) (s : Session) {s' : Session}
        → transition digest scope_digest now target s ≡ ok s'
        → (checks digest scope_digest now target s ≡ ok tt) × (s' ≡ move_to target s)
    unfolding transition
    transition-ok target s h =
        let (u, moved, good) = ok-bind (checks digest scope_digest now target s) h in (good, cc)

    pub transition-Tracked :
        (target : State) (s : Session) {s' : Session}
        → Tracked s
        → transition digest scope_digest now target s ≡ ok s'
        → Tracked s' × Logged s'.world
    transition-Tracked target s tracked h =
        rw (transition-ok target s h).1 (move_to-Tracked target s tracked)

    decided-Tracked :
        (kind : Kind) (d : Decision) (s : Session) → Tracked s → Tracked (decided kind d s)
    decided-Tracked plan d s h = event-Tracked _ none s h
    decided-Tracked action d s h = event-Tracked _ none _ (event-Tracked _ none s h)

    ruled-Tracked :
        (kind : Kind) (d : Decision) (s : Session) → Tracked s → Tracked (ruled kind d s)
    ruled-Tracked kind d s h =
        SameLog-Tracked (record { id = refl; count = refl; tasks = refl; events = refl })
          (decided-Tracked kind d s h)

    with_ruling-Tracked :
        (kind : Kind) (id : ℕ) (asked : Ref) (d : Document) (s : Session) {kept : World × Ref}
        → store digest d s.world ≡ ok kept
        → Tracked s
        → Tracked (with_ruling kind id asked kept s)
    with_ruling-Tracked kind id asked d s stored h =
        let (tasks, events, _, _) = store_tables d s.world stored in
        SameLog-Tracked (record { id = refl; count = refl; tasks = tasks; events = events }) h

    decide-Tracked :
        (id : ℕ) (asked : Ref) (r : Request) (d : Decision) (principal : String) (s : Session)
        {out : Session × Ruling}
        → decide digest scope_digest now id asked r d principal s ≡ ok out
        → Tracked s
        → Logged out.0.world
    unfolding decide
    decide-Tracked id asked r d principal s {out} h tracked =
        let (kept, h1, stored) = ok-bind (store digest _ s.world) h in
        let (_, h2, free) =
          ok-bind (raise_if (is_some (find asked.id kept.0.approvals)) conflicting) h1 in
        let (s4, end, moved) = ok-bind (transition digest scope_digest now _ _) h2 in
        let logged =
          transition-Tracked _ _
            (ruled-Tracked r.kind d _ (with_ruling-Tracked r.kind id asked _ s stored tracked))
            moved in
        subst (λ (o : Session × Ruling). Logged o.0.world) (ok-eq end) logged.1

    answered_with-Logged :
        (old : Option Ruling) (id request_id : ℕ) (d : Decision) (expected_revision : ℕ)
        (principal : String) (s : Session) {out : World × Ruling}
        → answered_with digest scope_digest now old id request_id d expected_revision principal s
          ≡ ok out
        → Tracked s
        → Logged s.world
        → Logged out.0
    unfolding answered_with
    answered_with-Logged (some old) id request_id d expected_revision principal s {out} h tracked
          logged =
        subst Logged {x = s.world} (ground arith) logged
    answered_with-Logged none id request_id d expected_revision principal s {out} h tracked logged =
        let (request, h1, _) =
          ok-bind (current_request digest scope_digest now request_id expected_revision s) h in
        let (asked, h2, _) = ok-bind (or_raise s.state.pending_approval stale_approval) h1 in
        let (outcome, end, decided') =
          ok-bind (decide digest scope_digest now id asked request d principal s) h2 in
        subst Logged {x = outcome.0.world} (ap (λ (o : World × Ruling). o.0) (ok-eq end))
          (decide-Tracked id asked request d principal s decided' tracked)

    pub approve-Logged :
        (id t request_id : ℕ) (d : Decision) (expected_revision : ℕ) (principal : String)
        (w : World) {out : World × Ruling}
        → Logged w
        → approve digest scope_digest now id t request_id d expected_revision principal w ≡ ok out
        → Logged out.0
    unfolding approve
    approve-Logged id t request_id d expected_revision principal w logged h =
        let (s, h1, opened) = ok-bind (open_task w t) h in
        let (tracked, same, _) = open_task-Tracked w t logged opened in
        answered_with-Logged (recorded digest scope_digest now w t request_id) id request_id d
          expected_revision principal s h1 tracked (subst Logged (sym same) logged)

    request_approval-Tracked :
        (id : ℕ) (kind : Kind) (subject : Option Ref) (evidence : List (Option Ref)) (s : Session)
        {s' : Session}
        → request_approval digest scope_digest now id kind subject evidence s ≡ ok s'
        → Tracked s
        → Tracked s'
    unfolding request_approval
    request_approval-Tracked id kind subject evidence s h tracked =
        let (kept, end, stored) = ok-bind (store digest _ s.world) h in
        let (tasks, events, _, _) = store_tables _ s.world stored in
        subst Tracked (ok-eq end) (
          event-Tracked EventType.approval_requested none (requesting kind kept s) (
            SameLog-Tracked (record { id = refl; count = refl; tasks = tasks; events = events })
              tracked))

    pub renew_approval-Logged :
        (id t request_id expected_revision : ℕ) (principal : String) (w : World) {w' : World}
        → Logged w
        → renew_approval digest scope_digest now id t request_id expected_revision principal w
          ≡ ok w'
        → Logged w'
    unfolding renew_approval
    renew_approval-Logged id t request_id expected_revision principal w {w'} logged h =
        let (s, h1, opened) = ok-bind (open_task w t) h in
        let (tracked, same, _) = open_task-Tracked w t logged opened in
        elim (if-eq (was_renewed digest scope_digest now request_id expected_revision principal s)
          h1) [
            | inl (_, again) ↦ subst Logged (ok-eq again) logged
            | inr (_, h2) ↦
                let (request, h3, _) =
                  ok-bind (renewable digest scope_digest now request_id expected_revision s) h2 in
                let (evidence, h4, _) = ok-bind (evidence_of request.kind s) h3 in
                let (_, h5, _) =
                  ok-bind (same_scope digest scope_digest now request evidence expected_revision s)
                    h4 in
                let (s1, end, requested) =
                  ok-bind
                    (request_approval digest scope_digest now id request.kind
                      (subject_of request.kind s) evidence s)
                    h5 in
                subst Logged (ok-eq end) (
                  event-Logged EventType.approval_renewed none
                    (renewing request_id expected_revision principal s1)
                    (SameLog-Tracked
                      (record { id = refl; count = refl; tasks = refl; events = refl })
                      (request_approval-Tracked id request.kind (subject_of request.kind s) evidence
                        s requested tracked)))
          ]

    pub cancel-Logged :
        (redact : String → String) (t expected_revision : ℕ) (reason principal : String) (w : World)
        {w' : World}
        → Logged w
        → cancel digest scope_digest redact now t expected_revision reason principal w ≡ ok w'
        → Logged w'
    unfolding cancel
    cancel-Logged redact t expected_revision reason principal w {w'} logged h =
        let (_, h1, _) = ok-bind (raise_if (not (is_reason redact (strip reason))) bad_request) h in
        let (s, h2, opened) = ok-bind (open_task w t) h1 in
        let (tracked, same, _) = open_task-Tracked w t logged opened in
        elim (if-eq (was_cancelled expected_revision (strip reason) principal s) h2) [
          | inl (_, again) ↦ subst Logged (ok-eq again) logged
          | inr (_, h3) ↦
              let (_, h4, _) =
                ok-bind
                  (raise_if
                    (is_terminal s.state.state || not (s.state.revision == expected_revision))
                    not_cancellable)
                  h3 in
              let (_, h5, _) = ok-bind (raise_if (not (is_quiescent s)) unresolved_execution) h4 in
              let (_, h6, _) =
                ok-bind
                  (raise_if (same_state s.state.state pr_created || has_effect w t) action_done)
                  h5 in
              let (s1, end, moved) = ok-bind (transition digest scope_digest now cancelled _) h6 in
              subst Logged (ok-eq end)
                (transition-Tracked cancelled _
                  (event-Tracked EventType.operator_cancellation none _ (
                    SameLog-Tracked
                      (record { id = refl; count = refl; tasks = refl; events = refl }) tracked))
                  moved).1
        ]
