-- ===== src/Engine/Creation/Log.antt =====
-- Opening a task starts its event log.
use orchd_ai.Prelude.{
  ℕ, String, ◌≡◌, refl, subst, inl, inr, Bool, false, not, ◌||◌, Option, none, some, [], arith, ok,
  ok-bind, ok-eq, if-eq, raise_if, raise_if-ok, is_some, str_eq, ltb, length, codes, ◌==◌,
}
use orchd_ai.Table.{find, find-put}
use orchd_ai.Workflow.{spec_ready}
use orchd_ai.Records.{Scope, Document, World, EventType}
use orchd_ai.Engine.{store, transition, log, conflicting, bad_title}
use orchd_ai.Engine.Log.{RowLog, Logged, Tracked, SameLog-Tracked, event-Tracked, event-Logged}
use orchd_ai.Engine.Steps.{store_tables, transition-Tracked}
use orchd_ai.Engine.Creation.{create_task, inserted, titled, with_spec}

pub is_some-none {ℓ} : {A : Type ℓ} (o : Option A) → is_some o ≡ false → o ≡ none
is_some-none none h = refl
is_some-none (some a) h = cc

log-inserted : (id t : ℕ) (w : World) → log (inserted id w).world t ≡ log w t
unfolding log
log-inserted id t w = refl

-- A row that is new has no event yet.
inserted-Tracked :
    (id : ℕ) (w : World) → Logged w → find id w.tasks ≡ none → Tracked (inserted id w)
inserted-Tracked id w logged free =
    let empty : log w id ≡ [] = subst (λ o. RowLog id o (log w id)) free (logged id) in
    record {
      counted = rw (log-inserted id id w, empty) refl;
      numbered = rw (log-inserted id id w, empty) tt;
      others = λ t ne.
          let other : (t == id) ≡ false = ground arith in
          rw (log-inserted id t w, find-put id t _ w.tasks, other) (logged t);
    }

module _ (digest : Document → ℕ) (scope_digest : Scope → ℕ) (redact : String → String)
    (now : ℕ) where
  pub create_task-Logged :
      (id spec_id : ℕ) (title principal : String) (draft : Bool) (w : World) {w' : World}
      → Logged w
      → create_task digest scope_digest redact now id spec_id title principal draft w ≡ ok w'
      → Logged w'
  unfolding create_task
  create_task-Logged id spec_id title principal draft w logged h =
      let (_, h1, _) =
        ok-bind
          (raise_if
            (str_eq title "" || ltb 200 (length (codes title)) || not (str_eq (redact title) title))
            bad_title)
          h in
      let (_, h2, taken) = ok-bind (raise_if (is_some (find id w.tasks)) conflicting) h1 in
      let fresh = inserted-Tracked id w logged (
        is_some-none (find id w.tasks)
          (raise_if-ok (is_some (find id w.tasks)) conflicting taken)) in
      elim (if-eq draft h2) [
        | inl (_, opened) ↦ subst Logged (ok-eq opened) (
            event-Logged EventType.task_created none (titled title (inserted id w)) (
              SameLog-Tracked (record { id = refl; count = refl; tasks = refl; events = refl })
                fresh))
        | inr (_, h3) ↦
            let (kept, h4, stored) = ok-bind (store digest _ (inserted id w).world) h3 in
            let (s, end, moved) = ok-bind (transition digest scope_digest now spec_ready _) h4 in
            let (tasks, events, _, _) = store_tables digest _ (inserted id w).world stored in
            subst Logged (ok-eq end)
              (transition-Tracked digest scope_digest now spec_ready _
                (event-Tracked EventType.spec_confirmed none _ (
                  SameLog-Tracked (record { id = refl; count = refl; tasks = refl; events = refl })
                    (event-Tracked EventType.task_created none (with_spec kept (inserted id w)) (
                      SameLog-Tracked
                        (record { id = refl; count = refl; tasks = tasks; events = events })
                        fresh))))
                moved).1
      ]
