-- ===== src/Engine/Ending.antt =====
-- What a cancellation of orch/engine.py requires and leaves.
use orchd_ai.Engine.Creation.Log.{is_some-none}
use orchd_ai.Prelude.{
  ℕ, String, ◌≡◌, sym, ap, subst, ◌∙◌, ◌⊎◌, inl, inr, true, false, not, ◌||◌, none, some, arith, ok,
  ok-bind, ok-eq, ok-raise_if, if-eq, strip, ◌==◌,
}
use orchd_ai.Table.{find}
use orchd_ai.Workflow.{cancelled, pr_created, is_terminal, same_state}
use orchd_ai.Workflow.Paths.{same_state-eq}
use orchd_ai.Records.{Scope, Document, World, EventType, Task}
use orchd_ai.Engine.{
  Session, open_task, event, transition, bad_request, not_cancellable, unresolved_execution,
  action_done,
}
use orchd_ai.Engine.Log.{Logged, open_task-Tracked}
use orchd_ai.Engine.Changes.{row_of, opened-there, opened-id, id-event, transition-Written}
use orchd_ai.Engine.Approvals.{is_quiescent, unresolved}
use orchd_ai.Engine.Cancellation.{cancel, cancelling, is_reason, has_effect, was_cancelled}

-- The task was at rest: nothing was active, no operation was started and not done, its external
-- action had not been done, and its revision was the one that the caller had seen.
pub record AtRest (w : World) (t expected : ℕ) (before : Task) : Type 0 where
  pub live : is_terminal before.state.state ≡ false
  pub seen : before.state.revision ≡ expected
  pub no_operation : before.state.active_operation_id ≡ none
  pub no_invocation : before.state.active_invocation_id ≡ none
  pub no_container : before.state.container_id ≡ none
  pub resolved : unresolved w t ≡ 0
  pub no_effect : has_effect w t ≡ false

unresolved-opened :
    (w : World) (t : ℕ) {s : Session}
    → Logged w
    → open_task w t ≡ ok s
    → unresolved s.world s.state.task_id ≡ 0
    → unresolved w t ≡ 0
unresolved-opened w t {s} logged opened h =
    let (_, base, same) = open_task-Tracked w t logged opened in
    ap (λ (v : World). unresolved v t) (sym base) ∙ ap (unresolved s.world) (sym same) ∙ h

at_rest :
    (s : Session)
    → is_quiescent s ≡ true
    → (s.state.active_operation_id ≡ none)
      × (s.state.active_invocation_id ≡ none)
      × (s.state.container_id ≡ none)
      × (unresolved s.world s.state.task_id ≡ 0)
unfolding is_quiescent
at_rest s h = (
  is_some-none s.state.active_operation_id (ground arith),
  is_some-none s.state.active_invocation_id (ground arith),
  is_some-none s.state.container_id (ground arith),
  ground arith,
)

module _ (digest : Document → ℕ) (scope_digest : Scope → ℕ) (redact : String → String)
    (now : ℕ) where
  was_cancelled-at :
      (expected : ℕ) (reason principal : String) (s : Session)
      → was_cancelled expected reason principal s ≡ true
      → s.state.state ≡ cancelled
  unfolding was_cancelled
  was_cancelled-at expected reason principal s h =
      same_state-eq s.state.state cancelled (ground arith)

  -- A cancellation that succeeds leaves the task CANCELLED, with the same store if it was so
  -- before, and otherwise only from a task at rest.
  pub cancel-AtRest :
      (t expected : ℕ) (reason principal : String) (w : World) {w' : World}
      → Logged w
      → cancel digest scope_digest redact now t expected reason principal w ≡ ok w'
      → (before : Task) × (after : Task) × (find t w.tasks ≡ some before)
        × (find t w'.tasks ≡ some after)
        × (after.state.state ≡ cancelled)
        × (((w ≡ w') × (before.state.state ≡ cancelled)) ⊎ AtRest w t expected before)
  unfolding cancel
  cancel-AtRest t expected reason principal w {w'} logged h =
      let (_, h1) = ok-raise_if (not (is_reason redact (strip reason))) bad_request h in
      let (s, h2, opened) = ok-bind (open_task w t) h1 in
      let there = opened-there w t logged opened in
      elim (if-eq (was_cancelled expected (strip reason) principal s) h2) [
        | inl (was, again) ↦
            let at = was_cancelled-at expected (strip reason) principal s was in
            (
              row_of s,
              row_of s,
              there,
              subst (λ (v : World). find t v.tasks ≡ some (row_of s)) (ok-eq again) there,
              at,
              inl (ok-eq again, at),
            )
        | inr (_, h3) ↦
            let (current, h4) =
              ok-raise_if (is_terminal s.state.state || not (s.state.revision == expected))
                not_cancellable h3 in
            let (quiet, h5) = ok-raise_if (not (is_quiescent s)) unresolved_execution h4 in
            let (before_action, h6) =
              ok-raise_if (same_state s.state.state pr_created || has_effect w t) action_done h5 in
            let (s1, end, moved) = ok-bind (transition digest scope_digest now cancelled _) h6 in
            let s2 =
              cancelling digest scope_digest redact now expected (strip reason) principal s in
            let type = EventType.operator_cancellation in
            let (written, at, same) =
              transition-Written digest scope_digest now cancelled (event type none s2) moved in
            let id = same ∙ id-event type none s2 ∙ opened-id w t logged opened in
            let row' : find t s1.world.tasks ≡ some (row_of s1) =
              subst (λ k. find k s1.world.tasks ≡ some (row_of s1)) id written in
            let (no_operation, no_invocation, no_container, resolved) = at_rest s (ground arith) in
            (
              row_of s,
              row_of s1,
              there,
              subst (λ (v : World). find t v.tasks ≡ some (row_of s1)) (ok-eq end) row',
              at,
              inr (record {
                live = ground arith;
                seen = ground arith;
                no_operation = no_operation;
                no_invocation = no_invocation;
                no_container = no_container;
                resolved = unresolved-opened w t logged opened resolved;
                no_effect = ground arith;
              }),
            )
      ]
