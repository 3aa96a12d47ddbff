-- ===== src/Drafts/Confirmation.antt =====
-- What a person's confirmation of a specification is about.
use orchd_ai.Prelude.{
  ℕ, String, ◌≡◌, refl, ap, subst, ◌∙◌, true, not, Option, none, some, arith, ok, ok-bind, ok-eq,
  ok-raise_if, ok-or_raise, ◌==◌,
}
use orchd_ai.Table.{find}
use orchd_ai.Workflow.{draft_spec, spec_ready}
use orchd_ai.Roles.{is_principal}
use orchd_ai.Records.{Ref, Scope, Document, World, EventType, Task}
use orchd_ai.Engine.{
  Session, open_task, event, store, fetch, entered, move_to, transition, no_draft, revised,
  bad_principal,
}
use orchd_ai.Engine.Log.{Logged}
use orchd_ai.Engine.Steps.{transition-ok}
use orchd_ai.Engine.Changes.{row_of, opened-there, opened-id, id-event, transition-Written}
use orchd_ai.Drafts.{as_spec, drafting, with_confirmation, confirm}
use orchd_ai.Drafts.Changes.{drafting-at}

-- A confirmation of the digest `sha` took the task from one row to the other.
pub record Confirms (sha : ℕ) (before after : Task) : Type 0 where
  pub current : Ref
  pub drafting : before.state.state ≡ draft_spec
  pub of_current : before.state.spec ≡ some current
  pub exact : current.sha ≡ sha
  pub ready : after.state.state ≡ spec_ready
  pub is_confirmed : after.context.spec_confirmed ≡ true
  pub kept_sha : after.context.confirmed_sha ≡ some sha

module _ (type : EventType) (s : Session) where
  confirmed-kept :
      ((move_to spec_ready (event type none s)).context.confirmed_sha ≡ s.context.confirmed_sha)
      × ((move_to spec_ready (event type none s)).context.spec_confirmed ≡ s.context.spec_confirmed)
  unfolding move_to entered event
  confirmed-kept = (refl, refl)

module _ (digest : Document → ℕ) (scope_digest : Scope → ℕ) (redact : String → String)
    (now : ℕ) where
  -- A confirmation that succeeds is of the very specification that the task holds: the task was in
  -- DRAFT_SPEC, its specification has the digest that was confirmed, and the task is now in
  -- SPEC_READY, confirmed, with that digest on record.
  pub confirm-Confirms :
      (id t sha : ℕ) (who : String) (expected : Option ℕ) (w : World) {w' : World}
      → Logged w
      → confirm digest scope_digest redact now id t sha who expected w ≡ ok w'
      → (before : Task) × (after : Task) × (find t w.tasks ≡ some before)
        × (find t w'.tasks ≡ some after)
        × Confirms sha before after
  unfolding confirm
  confirm-Confirms id t sha who expected w {w'} logged h =
      let (_, h1) = ok-raise_if (not (is_principal who)) bad_principal h in
      let (s, h2, opened) = ok-bind (open_task w t) h1 in
      let (_, h3, open') = ok-bind (drafting expected s) h2 in
      let (current, h4, of_current) = ok-or_raise s.state.spec no_draft h3 in
      let (exact, h5) = ok-raise_if (not (current.sha == sha)) revised h4 in
      let (spec, h6, _) = ok-bind (fetch digest as_spec s.world t current) h5 in
      let (kept, h7, stored) = ok-bind (store digest _ s.world) h6 in
      let s1 = with_confirmation kept sha s in
      let type = EventType.spec_confirmed in
      let (s', end, moved) = ok-bind (transition digest scope_digest now spec_ready _) h7 in
      let (written, at, same) =
        transition-Written digest scope_digest now spec_ready (event type none s1) moved in
      let last : s' ≡ move_to spec_ready (event type none s1) =
        (transition-ok digest scope_digest now spec_ready (event type none s1) moved).1 in
      let world : s'.world ≡ w' = ok-eq end in
      let id' : s'.state.task_id ≡ t = same ∙ id-event type none s1 ∙ opened-id w t logged opened in
      let row' : find t s'.world.tasks ≡ some (row_of s') =
        subst (λ k. find k s'.world.tasks ≡ some (row_of s')) id' written in
      (
        row_of s,
        row_of s',
        opened-there w t logged opened,
        subst (λ (v : World). find t v.tasks ≡ some (row_of s')) world row',
        record {
          current = current;
          drafting = drafting-at expected s open';
          of_current = of_current;
          exact = ground arith;
          ready = at;
          is_confirmed =
              ap (λ (x : Session). x.context.spec_confirmed) last ∙ (confirmed-kept type s1).1;
          kept_sha =
              ap (λ (x : Session). x.context.confirmed_sha) last ∙ (confirmed-kept type s1).0;
        },
      )
