-- ===== src/Journal.antt =====
-- The journals of external operations: orch/github_journal.py, orch/jira_journal.py,
-- orch/journal_revision.py and orch/journal_succession.py. A journal holds the intents that were
-- staged; an intent is reserved once, for the one attempt that its operation has. The two journals
-- differ in what a scope is, so that is an interface. A database is as its schema version says it
-- is, and its records are as they were written: the checks of schema, integrity and file paths are
-- not modelled.
pub mod Succession
pub mod Operations
pub mod Families
pub mod Lives
pub mod Requests
pub mod Limits
pub mod Keeping
pub mod Chains
pub mod Retirement
pub mod Staging
pub mod Reconciling
pub mod Heirs
pub mod Interruption
mod Examples
use orchd_ai.Prelude.{
  ℕ, ◌+◌, ◌-◌, ◌*◌, String, Bool, true, false, not, ◌&&◌, ◌||◌, Option, none, some, List, [], ◌∷◌,
  filter, length, leb, ltb, ◌==◌, if◌then◌else◌, is_some, Result, ok, err, ◌>>=◌, ◌>>◌, raise_if,
  or_raise,
}
use orchd_ai.Table.{Table, find, put, total}

-- What a family of journals says about a scope: `len(canonical(scope))`, its digest, the task and
-- the operation of its intent, whether it reconstructs to itself, and the limit of its size.
pub record Family (S : Type 0) : Type 0 where
  pub bytes : S → ℕ
  pub digest : S → ℕ
  pub task_of : S → ℕ
  pub operation_of : S → ℕ
  pub is_valid : S → Bool
  pub max_scope : ℕ

-- CHECK(state IN ('prepared','uncertain','withdrawn'))
pub data Stage : Type 0 where
  prepared uncertain withdrawn : Stage

abbrev pub is_prepared : Stage → Bool
is_prepared prepared = true
is_prepared _ = false

abbrev pub is_uncertain : Stage → Bool
is_uncertain uncertain = true
is_uncertain _ = false

abbrev pub is_withdrawn : Stage → Bool
is_withdrawn withdrawn = true
is_withdrawn _ = false

-- A row of `intents`, which stands under its operation.
pub record Intent (S : Type 0) : Type 0 where
  pub task_id : ℕ
  pub scope : S
  pub sha : ℕ
  pub stage : Stage
  pub reserved_at : Option ℕ

-- A row of `journal_withdrawals`.
pub record Withdrawal : Type 0 where
  pub task_id : ℕ
  pub scope_sha : ℕ
  pub reason : String
  pub principal : String
  pub withdrawn_at : ℕ

-- The two rows that `journal_succession` can have.
pub record Retired : Type 0 where
  pub journal : ℕ
  pub successor : ℕ
  pub snapshot : ℕ
  pub records : ℕ
  pub uncertain_records : ℕ
  pub reason : String
  pub principal : String
  pub retired_at : ℕ

pub record Follows : Type 0 where
  pub journal : ℕ
  pub predecessor : ℕ
  pub snapshot : ℕ
  pub records : ℕ
  pub reason : String
  pub principal : String
  pub started_at : ℕ

-- A journal's file. `version` is the number of its schema: 1, 2 with succession, 3 with revision.
pub record Journal (S : Type 0) : Type 0 where
  pub version : ℕ
  pub intents : Table (Intent S)
  pub withdrawals : Table Withdrawal
  pub retired : Option Retired
  pub follows : Option Follows

pub data Refusal : Type 0 where
  unknown_operation too_large bad_binding bad_reservation : Refusal
  was_withdrawn bound_elsewhere capacity_exhausted not_prepared not_uncertain : Refusal
  not_revisable already_withdrawn attempt_consumed wrong_digest bad_reason conflicting : Refusal
  not_a_journal other_journal is_retired cycle chain_too_long missing_predecessor not_successor
        held_by_predecessor :
      Refusal
  same_file shared_name no_parent already_retired successor_exists not_matching not_empty
        already_follows already_revisable over_budget :
      Refusal

abbrev pub max_records : ℕ
max_records = 1000

abbrev pub max_total : ℕ
max_total = 16777216

-- `installed`, `revisable`
abbrev pub installed : {S : Type 0} → Journal S → Bool
installed j = leb 2 j.version

abbrev pub revisable : {S : Type 0} → Journal S → Bool
revisable j = j.version == 3

-- A new file, as opening it makes it.
abbrev pub new_journal : {S : Type 0} → Journal S
new_journal = record { version = 1; intents = []; withdrawals = []; retired = none; follows = none }

module _ {S : Type 0} where
  -- `LIVE_CLAUSE`: the operation, in whatever state, or an operation of the task that was not
  -- withdrawn
  abbrev pub is_live : ℕ → ℕ → ℕ → Intent S → Bool
  is_live operation task key i = key == operation || i.task_id == task && not (is_withdrawn i.stage)

  unfoldable pub live_rows : ℕ → ℕ → Table (Intent S) → Table (Intent S)
  live_rows operation task [] = []
  live_rows operation task ((key, i) ∷ t) =
      let rest = live_rows operation task t in
      if is_live operation task key i then (key, i) ∷ rest else rest

  abbrev pub records : Table (Intent S) → ℕ
  records t = total (λ (i : Intent S). 1) t

  module _ (f : Family S) where
    -- SELECT coalesce(sum(length(scope)), 0)
    abbrev pub scope_bytes : Table (Intent S) → ℕ
    scope_bytes t = total (λ (i : Intent S). f.bytes i.scope) t

    -- The reservation evidence that a state has to have.
    abbrev pub has_evidence : Intent S → Bool
    has_evidence i =
        if is_uncertain i.stage then is_some i.reserved_at else not (is_some i.reserved_at)

    -- `get`: a row is only given out if its scope reconstructs to itself and is the row's.
    unfoldable pub get : ℕ → Journal S → Result Refusal (Intent S)
    get operation j = do
      i ← or_raise (find operation j.intents) unknown_operation
      raise_if (ltb f.max_scope (f.bytes i.scope)) too_large
      raise_if
          (not (
            f.is_valid i.scope
            && f.digest i.scope == i.sha
            && f.task_of i.scope == i.task_id
            && f.operation_of i.scope == operation))
          bad_binding
      raise_if (not (has_evidence i)) bad_reservation
      ok i

    -- `usage`: what is used, and what is left
    unfoldable pub remaining_records : Journal S → ℕ
    remaining_records j = max_records - records j.intents

    unfoldable pub remaining_bytes : Journal S → ℕ
    remaining_bytes j = max_total - scope_bytes j.intents
