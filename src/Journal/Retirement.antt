-- ===== src/Journal/Retirement.antt =====
-- `retire` of orch/journal_succession.py: two commits, of which the first makes the heir, and the
-- second closes the journal. Whether the snapshot matches the journal and what the file system says
-- of the two paths are parameters.
use orchd_ai.Prelude.{
  ℕ, String, Bool, not, Option, none, some, ◌==◌, if◌then◌else◌, Result, ok, ◌>>=◌, ◌>>◌, raise_if,
  or_raise, is_some,
}
use orchd_ai.Table.{find, put}
use orchd_ai.Journal.{
  Retired, Follows, Journal, Refusal, not_a_journal, same_file, shared_name, no_parent,
  already_retired, successor_exists, not_matching, not_empty, already_follows, is_uncertain,
  records, installed, new_journal,
}
use orchd_ai.Journal.Succession.{Disk, audited_reason, is_empty, count, read_retired, read_follows}

-- `install`: the table of succession is new in a journal that has none.
abbrev pub install : {S : Type 0} → Journal S → Journal S
install j = if installed j then j else record j { version = 2; retired = none; follows = none }

-- What the two records say: of the snapshot, who asked and when.
pub record Notice : Type 0 where
  pub snapshot : ℕ
  pub reason : String
  pub principal : String
  pub at : ℕ

module _ {S : Type 0} where
  abbrev pub retired_record : ℕ → ℕ → Notice → Journal S → Retired
  retired_record path successor n j = record {
    journal = path;
    successor = successor;
    snapshot = n.snapshot;
    records = records j.intents;
    uncertain_records = count is_uncertain j.intents;
    reason = n.reason;
    principal = n.principal;
    retired_at = n.at;
  }

  abbrev pub follows_record : ℕ → ℕ → Notice → Journal S → Follows
  follows_record path successor n j = record {
    journal = successor;
    predecessor = path;
    snapshot = n.snapshot;
    records = records j.intents;
    reason = n.reason;
    principal = n.principal;
    started_at = n.at;
  }

  -- Opening a path where no file is makes a new journal.
  abbrev pub opened : Option (Journal S) → Journal S
  opened none = new_journal
  opened (some j) = j

  -- The first commit, in the successor's file.
  unfoldable pub appoint : ℕ → Follows → Disk S → Result Refusal (Disk S)
  appoint successor link disk = do
    let heir = opened (find successor disk)
    raise_if (not (is_empty heir.intents)) not_empty
    before ← read_follows successor (install heir)
    raise_if (is_some before) already_follows
    ok (put successor (record (install heir) { follows = some link }) disk)

  -- The second commit, in the journal's file.
  unfoldable pub close : ℕ → Retired → Journal S → Disk S → Result Refusal (Disk S)
  close path link j disk = do
    before ← read_retired path (install j)
    raise_if (is_some before) already_retired
    ok (put path (record (install j) { retired = some link }) disk)

  module _ (redact : String → String) (shares_name : ℕ → ℕ → Bool) (has_parent : ℕ → Bool)
      (matches : Journal S → Bool) where
    -- What `retire` checks before it writes: the notice with its reason, and the journal.
    unfoldable pub ready : ℕ → ℕ → Notice → Disk S → Result Refusal (Notice × Journal S)
    ready path successor n disk = do
      line ← audited_reason redact n.reason
      raise_if (path == successor) same_file
      raise_if (shares_name path successor) shared_name
      j ← or_raise (find path disk) not_a_journal
      raise_if (not (has_parent successor)) no_parent
      retired ← read_retired path j
      read_follows path j
      raise_if (is_some retired) already_retired
      raise_if (is_some (find successor disk)) successor_exists
      raise_if (not (matches j)) not_matching
      ok (record n { reason = line }, j)

    -- `retire` up to its first commit: the disk that an interruption there leaves
    unfoldable pub begin_retirement : ℕ → ℕ → Notice → Disk S → Result Refusal (Disk S)
    begin_retirement path successor n disk = do
      (kept, j) ← ready path successor n disk
      appoint successor (follows_record path successor kept j) disk

    -- `retire`
    unfoldable pub retire : ℕ → ℕ → Notice → Disk S → Result Refusal (Disk S)
    retire path successor n disk = do
      (kept, j) ← ready path successor n disk
      disk' ← appoint successor (follows_record path successor kept j) disk
      close path (retired_record path successor kept j) j disk'
