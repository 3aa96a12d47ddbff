-- ===== src/Journal/Operations.antt =====
-- What changes a journal: staging a scope and reserving it, of orch/github_journal.py and
-- orch/jira_journal.py, and withdrawing and upgrading, of orch/journal_revision.py. A refusal rolls
-- the transaction back. A journal that is open for reading alone refuses each of them.
use orchd_ai.Prelude.{
  ℕ, String, Bool, not, ◌||◌, none, some, List, [], ◌∷◌, length, ltb, ◌==◌, is_some, Result, ok,
  ◌>>=◌, ◌>>◌, raise_if, or_raise,
}
use orchd_ai.Table.{Table, find, put}
use orchd_ai.Journal.{
  Family, prepared, uncertain, withdrawn, Intent, Journal, Refusal, not_a_journal,
  unknown_operation, too_large, was_withdrawn, bound_elsewhere, capacity_exhausted, not_prepared,
  not_revisable, already_withdrawn, attempt_consumed, wrong_digest, conflicting, not_matching,
  already_revisable, over_budget, is_prepared, is_withdrawn, live_rows, records, scope_bytes, get,
  remaining_records, remaining_bytes, max_records, max_total, revisable,
}
use orchd_ai.Journal.Succession.{Disk, check_admission, audited_reason}

abbrev pub keys {ℓ} : {V : Type ℓ} → Table V → List ℕ
keys [] = []
keys ((k, _) ∷ t) = k ∷ keys t

abbrev pub with_intent : {S : Type 0} → ℕ → Intent S → Journal S → Journal S
with_intent operation i j = record j { intents = put operation i j.intents }

module _ {S : Type 0} (f : Family S) where
  -- The row that is inserted.
  abbrev pub staged : S → Intent S
  staged scope = record {
    task_id = f.task_of scope;
    scope = scope;
    sha = f.digest scope;
    stage = prepared;
    reserved_at = none;
  }

  -- The rows that `LIVE_CLAUSE` finds: none of them may be of another scope.
  unfoldable pub already_bound : S → Table (Intent S) → Journal S → Result Refusal (Unit {0})
  already_bound scope [] j = ok tt
  already_bound scope ((key, i) ∷ rest) j = do
    raise_if (is_withdrawn i.stage) was_withdrawn
    raise_if (not (length rest == 0) || not (key == f.operation_of scope)) bound_elsewhere
    kept ← get f (f.operation_of scope) j
    raise_if (not (kept.sha == f.digest scope)) bound_elsewhere

  -- What admits a scope of which no row is there.
  unfoldable pub admit : Disk S → ℕ → S → Journal S → Result Refusal (Journal S)
  admit disk path scope j = do
    check_admission disk path j (f.task_of scope) (f.operation_of scope)
    raise_if (remaining_records f j == 0 || ltb (remaining_bytes f j) (f.bytes scope))
        capacity_exhausted
    ok (with_intent (f.operation_of scope) (staged scope) j)

  -- With the rows of `LIVE_CLAUSE`: a scope that is there stays, and a new one is admitted.
  unfoldable pub settle : Disk S → ℕ → S → Table (Intent S) → Journal S → Result Refusal (Journal S)
  settle disk path scope [] j = admit disk path scope j
  settle disk path scope (row ∷ more) j = already_bound scope (row ∷ more) j >> ok j

  -- `_stage_scope`: the journal, and the record that it then has
  unfoldable pub stage_scope : Disk S → ℕ → S → Result Refusal (Disk S × Intent S)
  stage_scope disk path scope = do
    j ← or_raise (find path disk) not_a_journal
    raise_if (ltb f.max_scope (f.bytes scope)) too_large
    j' ← settle disk path scope (live_rows (f.operation_of scope) (f.task_of scope) j.intents) j
    kept ← get f (f.operation_of scope) j'
    ok (put path j' disk, kept)

  -- `reserve`: the one attempt of a prepared operation is consumed.
  unfoldable pub reserve : ℕ → ℕ → ℕ → Journal S → Result Refusal (Journal S × Intent S)
  reserve now operation sha j = do
    i ← get f operation j
    raise_if (not (i.sha == sha) || not (is_prepared i.stage)) not_prepared
    let j' = with_intent operation (record i { stage = uncertain; reserved_at = some now }) j
    kept ← get f operation j'
    ok (j', kept)

  -- `withdraw`: the task of a prepared operation is released, its attempt is not.
  unfoldable pub withdraw :
      (String → String) → ℕ → ℕ → ℕ → String → String → Journal S → Result Refusal (Journal S)
  withdraw redact now operation sha reason principal j = do
    line ← audited_reason redact reason
    raise_if (not (revisable j)) not_revisable
    i ← or_raise (find operation j.intents) unknown_operation
    raise_if (is_withdrawn i.stage) already_withdrawn
    raise_if (not (is_prepared i.stage)) attempt_consumed
    raise_if (not (i.sha == sha)) wrong_digest
    raise_if (is_some (find operation j.withdrawals)) conflicting
    ok (record (with_intent operation (record i { stage = withdrawn }) j) {
      withdrawals =
          put operation
            (record {
              task_id = i.task_id;
              scope_sha = i.sha;
              reason = line;
              principal = principal;
              withdrawn_at = now;
            })
            j.withdrawals;
    })

  -- Each of the operations is given out by `get`.
  unfoldable pub all_valid : Journal S → List ℕ → Result Refusal (Unit {0})
  all_valid j [] = ok tt
  all_valid j (operation ∷ rest) = let others = all_valid j rest in get f operation j >> others

  -- `audit`: within the budget, and every record valid
  unfoldable pub audit : Journal S → Result Refusal (Unit {0})
  audit j = do
    raise_if (ltb max_records (records j.intents) || ltb max_total (scope_bytes f j.intents))
        over_budget
    all_valid j (keys j.intents)

  -- `upgrade`, against a snapshot of which `matches` says that it is the journal's: the rows are
  -- copied, and the table of withdrawals is new.
  unfoldable pub upgrade : (Journal S → Bool) → Journal S → Result Refusal (Journal S)
  upgrade matches j = do
    raise_if (not (matches j)) not_matching
    audit j
    raise_if (revisable j) already_revisable
    let j' = record j { version = 3; withdrawals = [] }
    audit j'
    ok j'
