-- ===== src/Engine/Creation/Rows.antt =====
-- Opening a task writes a row where there was none, and no other row.
use orchd_ai.Prelude.{
  ℕ, String, ◌≡◌, refl, sym, subst, ◌∙◌, ◌≢◌, inl, inr, Bool, false, not, ◌||◌, none, arith, ok,
  ok-bind, ok-eq, ok-raise_if, if-eq, is_some, str_eq, ltb, length, codes, ◌==◌,
}
use orchd_ai.Table.{find, find-put}
use orchd_ai.Workflow.{spec_ready}
use orchd_ai.Records.{Scope, Document, World, EventType}
use orchd_ai.Engine.{event, store, transition, conflicting, bad_title}
use orchd_ai.Engine.Changes.{Framed, event-Framed, id-event, transition-Framed}
use orchd_ai.Engine.Outcomes.{stored-Framed}
use orchd_ai.Engine.Creation.{create_task, inserted, titled, with_spec, confirmed}
use orchd_ai.Engine.Creation.Log.{is_some-none}

inserted-Framed : (id : ℕ) (w : World) → Framed w (inserted id w)
inserted-Framed id w u ne =
    let other : (u == id) ≡ false = ground arith in rw (find-put id u _ w.tasks, other) refl

module _ (digest : Document → ℕ) (scope_digest : Scope → ℕ) (redact : String → String)
    (now : ℕ) where
  pub create_task-rows :
      (id spec_id : ℕ) (title principal : String) (draft : Bool) (w : World) {w' : World}
      → create_task digest scope_digest redact now id spec_id title principal draft w ≡ ok w'
      → (find id w.tasks ≡ none) × ((u : ℕ) → u ≢ id → find u w'.tasks ≡ find u w.tasks)
  unfolding create_task
  create_task-rows id spec_id title principal draft w {w'} h =
      let (_, h1) =
        ok-raise_if
          (str_eq title "" || ltb 200 (length (codes title)) || not (str_eq (redact title) title))
          bad_title h in
      let (free, h2) = ok-raise_if (is_some (find id w.tasks)) conflicting h1 in
      let fresh = is_some-none (find id w.tasks) free in
      let s0 = inserted id w in
      let Same : World → Type 0 = λ v. (u : ℕ) → u ≢ id → find u v.tasks ≡ find u w.tasks in
      elim (if-eq draft h2) [
        | inl (_, opened) ↦ (
          fresh,
          subst Same (ok-eq opened) (λ u ne.
              event-Framed EventType.task_created none (titled title s0) w (inserted-Framed id w) u
                (subst (λ k. u ≢ k) (sym (id-event EventType.task_created none (titled title s0)))
                  ne)),
        )
        | inr (_, h3) ↦
            let (kept, h4, stored) = ok-bind (store digest _ s0.world) h3 in
            let (s, end, moved) = ok-bind (transition digest scope_digest now spec_ready _) h4 in
            let s1 = with_spec kept s0 in
            let f1 = stored-Framed digest w _ s0 s1 stored refl refl (inserted-Framed id w) in
            let s2 = confirmed (event EventType.task_created none s1) in
            let f2 : Framed w s2 = event-Framed EventType.task_created none s1 w f1 in
            let f3 = event-Framed EventType.spec_confirmed none s2 w f2 in
            let (f4, same) =
              transition-Framed digest scope_digest now w spec_ready
                (event EventType.spec_confirmed none s2) f3 moved in
            let at =
              same
              ∙ id-event EventType.spec_confirmed none s2
              ∙ id-event EventType.task_created none s1 in
            (fresh, subst Same (ok-eq end) (λ u ne. f4 u (subst (λ k. u ≢ k) (sym at) ne)))
      ]
