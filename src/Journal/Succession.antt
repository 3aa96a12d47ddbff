-- ===== src/Journal/Succession.antt =====
-- orch/journal_succession.py: the links between journals, each written in both files, and the walk
-- from a journal back over those it follows. Files are found by their paths, which are numbers.
use orchd_ai.Prelude.{
  ℕ, zero, suc, ◌+◌, String, Bool, true, false, not, Option, none, some, List, [], ◌∷◌, contains,
  ◌==◌, if◌then◌else◌, is_some, Result, ok, err, ◌>>=◌, ◌>>◌, raise_if, or_raise, strip,
}
use orchd_ai.Table.{Table, find}
use orchd_ai.Engine.Cancellation.{is_reason}
use orchd_ai.Journal.{
  Stage, Intent, Retired, Follows, Journal, Refusal, not_a_journal, other_journal, is_retired,
  cycle, chain_too_long, missing_predecessor, not_successor, held_by_predecessor, bad_reason,
  is_prepared, is_uncertain, live_rows, records, installed,
}

-- CHAIN_LIMIT
abbrev pub chain_limit : ℕ
chain_limit = 16

abbrev pub Disk : Type 0 → Type 0
Disk S = Table (Journal S)

-- `audited_reason`: the line, without the space around it
unfoldable pub audited_reason : (String → String) → String → Result Refusal String
audited_reason redact reason =
    if is_reason redact (strip reason) then ok (strip reason) else err bad_reason

-- `back["successor"] != str(child)`
abbrev pub names : Option Retired → ℕ → Bool
names none child = false
names (some r) child = r.successor == child

abbrev pub is_empty {ℓ} : {A : Type ℓ} → List A → Bool
is_empty [] = true
is_empty (_ ∷ _) = false

-- `_entry`
pub record Entry : Type 0 where
  pub journal : ℕ
  pub status : Bool
  pub records : ℕ
  pub prepared : ℕ
  pub uncertain : ℕ
  pub successor : Option ℕ
  pub predecessor : Option ℕ

module _ {S : Type 0} where
  -- `read_record` for each of the two roles: a record that names another journal is refused.
  unfoldable pub read_retired : ℕ → Journal S → Result Refusal (Option Retired)
  read_retired path j = elim (if installed j then j.retired else none) [
    | none ↦ ok none
    | some r ↦ if r.journal == path then ok (some r) else err other_journal
  ]

  unfoldable pub read_follows : ℕ → Journal S → Result Refusal (Option Follows)
  read_follows path j = elim (if installed j then j.follows else none) [
    | none ↦ ok none
    | some r ↦ if r.journal == path then ok (some r) else err other_journal
  ]

  -- `require_open`, which reads both records
  unfoldable pub require_open : ℕ → Journal S → Result Refusal (Unit {0})
  require_open path j = do
    retired ← read_retired path j
    read_follows path j
    raise_if (is_some retired) is_retired

  -- The loop of `predecessors`, newest first: `left` is how many more may be read.
  unfoldable pub walk : Disk S → ℕ → ℕ → List ℕ → Option Follows → Result Refusal (List ℕ)
  walk disk left child seen none = ok []
  walk disk zero child seen (some link) = do
    raise_if (contains link.predecessor seen) cycle
    err chain_too_long
  walk disk (suc left) child seen (some link) =
      let p = link.predecessor in
      do
        raise_if (contains p seen) cycle
        previous ← or_raise (find p disk) missing_predecessor
        retired ← read_retired p previous
        read_follows p previous
        raise_if (not (names retired child)) not_successor
        next ← read_follows p previous
        older ← walk disk left p (p ∷ seen) next
        ok (p ∷ older)

  -- `predecessors`
  unfoldable pub predecessors : Disk S → ℕ → Journal S → Result Refusal (List ℕ)
  predecessors disk path j = do
    link ← read_follows path j
    walk disk chain_limit path (path ∷ []) link

  -- The loop of `check_admission`: no predecessor has the operation, or a live one for the task.
  unfoldable pub none_holds : Disk S → ℕ → ℕ → List ℕ → Result Refusal (Unit {0})
  none_holds disk operation task [] = ok tt
  none_holds disk operation task (p ∷ ps) =
      let rest = none_holds disk operation task ps in
      do
        previous ← or_raise (find p disk) missing_predecessor
        raise_if (not (is_empty (live_rows operation task previous.intents))) held_by_predecessor
        rest

  -- `check_admission`
  unfoldable pub check_admission : Disk S → ℕ → Journal S → ℕ → ℕ → Result Refusal (Unit {0})
  check_admission disk path j task operation = do
    require_open path j
    older ← predecessors disk path j
    none_holds disk operation task older

  -- SELECT count(*) ... WHERE state=...
  unfoldable pub count : (Stage → Bool) → Table (Intent S) → ℕ
  count p [] = 0
  count p ((_, i) ∷ t) = (if p i.stage then 1 else 0) + count p t

  unfoldable pub entry : ℕ → Journal S → Result Refusal Entry
  entry path j = do
    retired ← read_retired path j
    follows ← read_follows path j
    ok (record {
      journal = path;
      status = is_some retired;
      records = records j.intents;
      prepared = count is_prepared j.intents;
      uncertain = count is_uncertain j.intents;
      successor = elim retired [ none ↦ none | some r ↦ some r.successor ];
      predecessor = elim follows [ none ↦ none | some r ↦ some r.predecessor ];
    })

  unfoldable pub entries : Disk S → List ℕ → Result Refusal (List Entry)
  entries disk [] = ok []
  entries disk (p ∷ ps) =
      let rest = entries disk ps in
      do j ← or_raise (find p disk) missing_predecessor; e ← entry p j; es ← rest; ok (e ∷ es)

  -- `chain`
  unfoldable pub chain : Disk S → ℕ → Result Refusal (List Entry)
  chain disk path = do
    j ← or_raise (find path disk) not_a_journal
    first ← entry path j
    older ← predecessors disk path j
    rest ← entries disk older
    ok (first ∷ rest)
