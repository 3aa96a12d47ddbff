-- ===== src/Engine/Cancellation.antt =====
-- orch/engine.py: cancelling a task at a quiescent boundary. `redact` is a parameter, and a call
-- about a repository task is handed to orch/repository_tasks.py, which is not modelled.
use orchd_ai.Prelude.{
  ℕ, String, Bool, false, not, ◌&&◌, ◌||◌, none, some, any, length, codes, ◌==◌, if◌then◌else◌,
  Result, ok, ◌>>=◌, ◌>>◌, raise_if, str_eq, ltb, strip,
}
use orchd_ai.Table.{total}
use orchd_ai.Workflow.{pr_created, cancelled, is_terminal, same_state}
use orchd_ai.Records.{Scope, Document, EventType, World}
use orchd_ai.Engine.{
  Refusal, bad_request, not_cancellable, unresolved_execution, action_done, Session, open_task,
  event, as_external, transition,
}
use orchd_ai.Engine.Approvals.{is_quiescent, one_if}

-- One printable line of 1 to 500 characters, after `strip`, with nothing for `redact` to remove.
unfoldable pub is_reason : (String → String) → String → Bool
is_reason redact reason =
    ltb 0 (length (codes reason))
    && not (ltb 500 (length (codes reason)))
    && not (any (λ c. ltb c 32 || c == 127) (codes reason))
    && str_eq (redact reason) reason

-- The external action of the task has been done: a receipt says that it succeeded.
unfoldable pub has_effect : World → ℕ → Bool
has_effect w t = not (
    total
      (λ (d : Document). one_if (
        d.task_id == t
        && elim (as_external d.body) [ none ↦ false | some (succeeded, _) ↦ succeeded ]))
      w.records
    == 0)

-- `context["cancellation"]` says that this very cancellation was made.
unfoldable pub was_cancelled : ℕ → String → String → Session → Bool
was_cancelled expected_revision reason principal s =
    same_state s.state.state cancelled && elim s.context.cancellation [
      | none ↦ false
      | some c ↦
          c.expected_revision == expected_revision
          && str_eq c.reason reason
          && str_eq c.principal principal
    ]

module _ (digest : Document → ℕ) (scope_digest : Scope → ℕ) (redact : String → String)
    (now : ℕ) where
  -- What `cancel` writes before the transition.
  abbrev pub cancelling : ℕ → String → String → Session → Session
  cancelling expected_revision reason principal s = record s {
    context = record s.context {
      cancellation = some (record {
        principal = principal;
        reason = reason;
        expected_revision = expected_revision;
        cancelled_at = now;
        previous_state = s.state.state;
        pending_approval = s.state.pending_approval;
      });
    };
    state = record s.state { pending_approval = none; resume_state = none };
  }

  unfoldable pub cancel : ℕ → ℕ → String → String → World → Result Refusal World
  cancel t expected_revision given principal w = do
    let reason = strip given
    raise_if (not (is_reason redact reason)) bad_request
    s ← open_task w t
    let cancelled_now = do
      raise_if (is_terminal s.state.state || not (s.state.revision == expected_revision))
          not_cancellable
      raise_if (not (is_quiescent s)) unresolved_execution
      raise_if (same_state s.state.state pr_created || has_effect w t) action_done
      s1 ← transition digest scope_digest now cancelled (
          event EventType.operator_cancellation none
            (cancelling expected_revision reason principal s))
      ok s1.world
    if was_cancelled expected_revision reason principal s then ok w else cancelled_now
