-- ===== src/Engine/Decisions.antt =====
-- A decision of orch/engine.py is taken once: what the store tells whoever decides it again.
use orchd_ai.Engine.Outcomes.{approve-Outcome}
use orchd_ai.Prelude.{
  ℕ, String, ◌≡◌, refl, sym, ap, subst, ◌∙◌, inl, inr, ◌==◌, Option, none, some, arith, ok, err,
  ok-bind, ok-eq, ok-raise_if, ok-or_raise, is_some, if◌then◌else◌, not, or_raise, or_raise-ok,
  some-eq, if-eq,
}
use orchd_ai.Table.{find, find-put}
use orchd_ai.Workflow.{State}
use orchd_ai.Records.{
  Ref, Kind, plan, action, Decision, Scope, Request, Ruling, Body, Document, World, EventType, Task,
}
use orchd_ai.Engine.{
  Session, open_task, event, store, transition, entered, move_to, close_with, closing_event,
  as_ruling, conflicting, conflicting_approval, stale_approval,
}
use orchd_ai.Engine.Log.{Logged, open_task-Tracked}
use orchd_ai.Engine.Changes.{opened-id, opened-there, row_of}
use orchd_ai.Engine.Steps.{transition-ok}
use orchd_ai.Engine.Approvals.{
  decided, decided_event, action_event, ruled, with_ruling, target_of, recorded, current_request,
  decide, same_decision, answered_with, approve,
}

-- The tables of records and of decisions are the same.
record Same (w w' : World) : Type 0 where
  pub records : w'.records ≡ w.records
  pub approvals : w'.approvals ≡ w.approvals

event-Same :
    (w : World) (type : EventType) (before : Option State) (s : Session)
    → Same w s.world
    → Same w (event type before s).world
unfolding event
event-Same w type before s h = record { records = h.records; approvals = h.approvals }

decided-Same :
    (w : World) (kind : Kind) (d : Decision) (s : Session)
    → Same w s.world
    → Same w (decided kind d s).world
decided-Same w plan d s h = event-Same w (decided_event d) none s h
decided-Same w action d s h =
    event-Same w (action_event d) none _ (event-Same w (decided_event d) none s h)

entered-Same :
    (w : World) (target : State) (s : Session) → Same w s.world → Same w (entered target s).world
unfolding entered
entered-Same w target s h = h

close_with-Same :
    (w : World) (type : Option EventType) (s : Session)
    → Same w s.world
    → Same w (close_with type s).world
close_with-Same w none s h = h
close_with-Same w (some type) s h = event-Same w type none s h

move_to-Same :
    (w : World) (target : State) (s : Session) → Same w s.world → Same w (move_to target s).world
unfolding move_to
move_to-Same w target s h = close_with-Same w (closing_event target) _ (
    event-Same w EventType.state_transition (some s.state.state) (entered target s)
      (entered-Same w target s h))

module _ (digest : Document → ℕ) where
  -- A document whose identifier is new is kept.
  store-free :
      (d : Document) (w : World) {out : World × Ref}
      → find d.id w.records ≡ none
      → store digest d w ≡ ok out
      → (find d.id out.0.records ≡ some d) × (out.1.id ≡ d.id)
  unfolding store
  store-free d w free h = ground (arith, find-put d.id d.id d w.records)

  module _ (scope_digest : Scope → ℕ) where
    recorded-of :
        (now : ℕ) (w : World) (t request_id : ℕ) {id : ℕ} {d : Document}
        → find request_id w.approvals ≡ some id
        → find id w.records ≡ some d
        → d.task_id ≡ t
        → recorded digest scope_digest now w t request_id ≡ as_ruling d.body
    unfolding recorded
    recorded-of now w t request_id {id} {d} asked there same = ground (arith, asked, there, same)

    decide-recorded :
        (now id t : ℕ) (asked : Ref) (r : Request) (d : Decision) (principal : String) (s : Session)
        {out : Session × Ruling}
        → find id s.world.records ≡ none
        → s.state.task_id ≡ t
        → decide digest scope_digest now id asked r d principal s ≡ ok out
        → (now' : ℕ) → recorded digest scope_digest now' out.0.world t asked.id ≡ some out.1
    unfolding decide
    decide-recorded now id t asked r d principal s free same h now' =
        let rule : Ruling = record {
          request = asked;
          subject_sha = r.subject_sha;
          principal = principal;
          decision = d;
          decided_at = now;
        } in
        let doc : Document = record {
          id = id;
          task_id = s.state.task_id;
          body = Body.approval_decision rule;
        } in
        let (kept, h1, stored) = ok-bind (store digest doc s.world) h in
        let (_, h2) = ok-raise_if (is_some (find asked.id kept.0.approvals)) conflicting h1 in
        let (s4, end, moved) = ok-bind (transition digest scope_digest now _ _) h2 in
        let s2 = with_ruling r.kind id asked kept s in
        let s3 = ruled r.kind d s2 in
        let last : s4 ≡ move_to (target_of r.kind d) s3 =
          (transition-ok digest scope_digest now (target_of r.kind d) s3 moved).1 in
        let tables : Same s2.world s4.world =
          subst (λ (x : Session). Same s2.world x.world) (sym last)
            (move_to-Same s2.world (target_of r.kind d) s3
              (decided-Same s2.world r.kind d s2 (record { records = refl; approvals = refl }))) in
        let there : find id s4.world.records ≡ some doc =
          ap (find id) tables.records ∙ (store-free doc s.world free stored).0 in
        let asked_there : find asked.id s4.world.approvals ≡ some id =
          ap (find asked.id) tables.approvals
          ∙ find-put asked.id asked.id id kept.0.approvals
          ∙ ground arith in
        subst
          (λ (o : Session × Ruling).
            recorded digest scope_digest now' o.0.world t asked.id ≡ some o.1)
          (ok-eq end) (recorded-of now' s4.world t asked.id {d = doc} asked_there there same)

    current_request-id :
        (now request_id expected : ℕ) (s : Session) {r : Request} {asked : Ref}
        → current_request digest scope_digest now request_id expected s ≡ ok r
        → or_raise s.state.pending_approval stale_approval ≡ ok asked
        → asked.id ≡ request_id
    unfolding current_request
    current_request-id now request_id expected s {asked = asked} h there =
        let (_, h1) = ok-raise_if (not (s.state.revision == expected)) stale_approval h in
        let (pending, h2, found) = ok-or_raise s.state.pending_approval stale_approval h1 in
        let (named, _) = ok-raise_if (not (pending.id == request_id)) stale_approval h2 in
        let found' = or_raise-ok s.state.pending_approval stale_approval there in
        let same : pending ≡ asked = some-eq (sym found ∙ found') in
        sym (ap (λ (x : Ref). x.id) same) ∙ ground arith

    answered_with-recorded :
        (now : ℕ) (old : Option Ruling) (id t request_id : ℕ) (d : Decision) (expected : ℕ)
        (principal : String) (s : Session) {out : World × Ruling}
        → find id s.world.records ≡ none
        → s.state.task_id ≡ t
        → old ≡ recorded digest scope_digest now s.world t request_id
        → answered_with digest scope_digest now old id request_id d expected principal s ≡ ok out
        → (now' : ℕ) → recorded digest scope_digest now' out.0 t request_id ≡ some out.1
    unfolding answered_with recorded
    answered_with-recorded now (some old) id t request_id d expected principal s free same told h
          now' =
        elim (if-eq (same_decision digest scope_digest now old d principal) h) [
          | inl (_, again) ↦
              subst
                (λ (o : World × Ruling).
                  recorded digest scope_digest now' o.0 t request_id ≡ some o.1)
                (ok-eq again) (sym told)
          | inr (_, refused) ↦ cc
        ]
    answered_with-recorded now none id t request_id d expected principal s free same told h now' =
        let (request, h1, current) =
          ok-bind (current_request digest scope_digest now request_id expected s) h in
        let (asked, h2, pending) = ok-bind (or_raise s.state.pending_approval stale_approval) h1 in
        let (outcome, end, made) =
          ok-bind (decide digest scope_digest now id asked request d principal s) h2 in
        let of_request = decide-recorded now id t asked request d principal s free same made now' in
        let name = current_request-id now request_id expected s current pending in
        let told' =
          subst (λ n. recorded digest scope_digest now' outcome.0.world t n ≡ some outcome.1) name
            of_request in
        subst
          (λ (o : World × Ruling). recorded digest scope_digest now' o.0 t request_id ≡ some o.1)
          (ok-eq end) told'

  still_there :
      (scope_digest : Scope → ℕ) (now id t request_id : ℕ) (d : Decision) (expected : ℕ)
      (principal : String) (w : World) {s : Session} {out : World × Ruling}
      → Logged w
      → open_task w t ≡ ok s
      → approve digest scope_digest now id t request_id d expected principal w ≡ ok out
      → (row : Task) × (find t out.0.tasks ≡ some row)
  still_there scope_digest now id t request_id d expected principal w {s} logged opened h =
      elim (approve-Outcome digest scope_digest now t w id request_id d expected principal logged
        h) [
          | inl same ↦
              (row_of s, ap (λ (v : World). find t v.tasks) same ∙ opened-there w t logged opened)
          | inr c ↦ (c.after, c.written)
        ]

  -- A decision that was taken stands: whoever decides the same request again, at whatever time,
  -- revision and identifier, is given the same decision if the answer and the principal are the
  -- same, and is refused otherwise; the store stays as it is. The identifier of the first decision
  -- was new.
  pub approve-again :
      (scope_digest : Scope → ℕ) (now id t request_id : ℕ) (d : Decision) (expected : ℕ)
      (principal : String) (w : World) {w' : World} {r : Ruling}
      → Logged w
      → find id w.records ≡ none
      → approve digest scope_digest now id t request_id d expected principal w ≡ ok (w', r)
      → (now2 id2 : ℕ) (d2 : Decision) (expected2 : ℕ) (principal2 : String)
      → approve digest scope_digest now2 id2 t request_id d2 expected2 principal2 w' ≡ (
          if same_decision digest scope_digest now2 r d2 principal2
          then ok (w', r)
          else err conflicting_approval)
  unfolding approve open_task answered_with
  approve-again scope_digest now id t request_id d expected principal w {w'} {r} logged free h now2
        id2 d2 expected2 principal2 =
      let (s, h1, opened) = ok-bind (open_task w t) h in
      let same = opened-id w t logged opened in
      let (_, base, _) = open_task-Tracked w t logged opened in
      let told =
        answered_with-recorded scope_digest now (recorded digest scope_digest now w t request_id) id
          t request_id d expected principal s (ap (λ (v : World). find id v.records) base ∙ free)
          same (sym (ap (λ (v : World). recorded digest scope_digest now v t request_id) base)) h1
          now2 in
      let (row, there) =
        still_there scope_digest now id t request_id d expected principal w logged opened h in
      rw (there, told) refl
