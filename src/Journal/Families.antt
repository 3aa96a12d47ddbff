-- ===== src/Journal/Families.antt =====
-- The two journals: orch/github_journal.py and orch/jira_journal.py. Each holds scopes of two kinds,
-- pull requests and issues in the one, comments and actions in the other, and bounds their size
-- differently. What a scope of a kind is, how a call builds one, and how observations of the remote
-- are assessed, are parameters.
use orchd_ai.Prelude.{ℕ, ◌⊎◌, inl, inr, not, ◌||◌, ◌==◌, Result, ok, ◌>>=◌, ◌>>◌, raise_if}
use orchd_ai.Journal.{Family, Intent, Journal, Refusal, not_uncertain, is_uncertain, get}
use orchd_ai.Journal.Succession.{Disk}
use orchd_ai.Journal.Operations.{stage_scope, reserve, audit}

-- A scope is of one of two kinds: `validated_scope`, `scope_intent`
abbrev pub both : {A B : Type 0} → Family A → Family B → ℕ → Family (A ⊎ B)
both a b limit = record {
  bytes = λ s. elim s [ inl x ↦ a.bytes x | inr y ↦ b.bytes y ];
  digest = λ s. elim s [ inl x ↦ a.digest x | inr y ↦ b.digest y ];
  task_of = λ s. elim s [ inl x ↦ a.task_of x | inr y ↦ b.task_of y ];
  operation_of = λ s. elim s [ inl x ↦ a.operation_of x | inr y ↦ b.operation_of y ];
  is_valid = λ s. elim s [ inl x ↦ a.is_valid x | inr y ↦ b.is_valid y ];
  max_scope = limit;
}

-- `reconcile`, `_recovery`: what is assessed is one validated reservation.
unfoldable pub reconcile :
    {S R : Type 0} → Family S → (S → R) → ℕ → ℕ → Journal S → Result Refusal (Intent S × R)
reconcile f assess operation sha j = do
  i ← get f operation j
  raise_if (not (i.sha == sha) || not (is_uncertain i.stage)) not_uncertain
  ok (i, assess i.scope)

-- The assessment of each kind.
abbrev pub by_kind : {A B R : Type 0} → (A → R) → (B → R) → A ⊎ B → R
by_kind a b (inl x) = a x
by_kind a b (inr y) = b y

module _ {A B : Type 0} (a : Family A) (b : Family B) where
  -- MAX_SCOPE_BYTES of each
  abbrev pub github : Family (A ⊎ B)
  github = both a b 65536

  abbrev pub jira : Family (A ⊎ B)
  jira = both a b 131072

  -- `GitHubJournal.stage`, with what `bound_scope` makes of its arguments
  abbrev pub stage_pull :
      Disk (A ⊎ B) → ℕ → Result Refusal A → Result Refusal (Disk (A ⊎ B) × Intent (A ⊎ B))
  stage_pull disk path bound = do scope ← bound; stage_scope github disk path (inl scope)

  -- `GitHubJournal.stage_issue`, with what `issue_scope` makes of its arguments
  abbrev pub stage_issue :
      Disk (A ⊎ B) → ℕ → Result Refusal B → Result Refusal (Disk (A ⊎ B) × Intent (A ⊎ B))
  stage_issue disk path bound = do scope ← bound; stage_scope github disk path (inr scope)

  -- `JiraJournal.stage`
  abbrev pub stage_comment :
      Disk (A ⊎ B) → ℕ → Result Refusal A → Result Refusal (Disk (A ⊎ B) × Intent (A ⊎ B))
  stage_comment disk path bound = do scope ← bound; stage_scope jira disk path (inl scope)

  -- `JiraJournal.stage_action`
  abbrev pub stage_action :
      Disk (A ⊎ B) → ℕ → Result Refusal B → Result Refusal (Disk (A ⊎ B) × Intent (A ⊎ B))
  stage_action disk path bound = do scope ← bound; stage_scope jira disk path (inr scope)

  -- The calls of the Jira journal on what it holds.
  abbrev pub jira_get : ℕ → Journal (A ⊎ B) → Result Refusal (Intent (A ⊎ B))
  jira_get operation j = get jira operation j

  abbrev pub jira_reserve :
      ℕ → ℕ → ℕ → Journal (A ⊎ B) → Result Refusal (Journal (A ⊎ B) × Intent (A ⊎ B))
  jira_reserve now operation sha j = reserve jira now operation sha j

  abbrev pub jira_audit : Journal (A ⊎ B) → Result Refusal (Unit {0})
  jira_audit j = audit jira j

  module _ {R : Type 0} (assess_a : A → R) (assess_b : B → R) where
    abbrev pub github_reconcile : ℕ → ℕ → Journal (A ⊎ B) → Result Refusal (Intent (A ⊎ B) × R)
    github_reconcile operation sha j = reconcile github (by_kind assess_a assess_b) operation sha j

    -- `JiraJournal._recovery`, for the plan of the reads and for the assessment alike
    abbrev pub jira_recovery : ℕ → ℕ → Journal (A ⊎ B) → Result Refusal (Intent (A ⊎ B) × R)
    jira_recovery operation sha j = reconcile jira (by_kind assess_a assess_b) operation sha j
