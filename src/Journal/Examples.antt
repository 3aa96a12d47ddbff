-- ===== src/Journal/Examples.antt =====
-- The theorems about journals at disks with one and two of them. A scope is a number, which is its
-- operation and its digest; its task is a hundred above.
use orchd_ai.Engine.Cancellation.{is_reason}
use orchd_ai.Prelude.{
  ℕ, ◌⊎◌, ◌+◌, ◌≤◌, String, ◌≡◌, refl, true, false, some, none, List, [], ◌∷◌, length, arith, ok,
  is_ok, Bool-cases, inl, inr, none-some, ◌==◌, subst, is_blank, is_space, strip,
}
use orchd_ai.Table.{find, put, total}
use orchd_ai.Journal.{
  Family, Intent, Journal, uncertain, new_journal, is_live, get, live_rows, remaining_records,
  remaining_bytes,
}
use orchd_ai.Journal.Families.{github, jira, reconcile, by_kind}
use orchd_ai.Journal.Reconciling.{reserve-reconcile}
use orchd_ai.Journal.Succession.{
  Disk, chain_limit, predecessors, check_admission, read_retired, audited_reason, read_follows,
  require_open, walk, none_holds, count,
}
use orchd_ai.Journal.Operations.{
  staged, reserve, stage_scope, already_bound, admit, settle, withdraw,
}
use orchd_ai.Journal.Limits.{Sound}
use orchd_ai.Journal.Requests.{
  Request, stage_req, reserve_req, withdraw_req, serve_all, serve_all-consumed,
}
use orchd_ai.Journal.Keeping.{DiskSound, serve_all-Sound}
use orchd_ai.Journal.Chains.{NoneHolds, stage_scope-chain}
use orchd_ai.Journal.Staging.{stage_scope-again}
use orchd_ai.Journal.Retirement.{Notice, begin_retirement, retire, appoint, close, ready}
use orchd_ai.Journal.Interruption.{begin_retirement-interrupted, retire-closed}

abbrev same_text : String → String
same_text s = s

-- Scopes of one kind.
abbrev plain : Family ℕ
plain = record {
  bytes = λ n. n;
  digest = λ n. n;
  task_of = λ n. n + 100;
  operation_of = λ n. n;
  is_valid = λ _. true;
  max_scope = 1000;
}

abbrev numbers : Family (ℕ ⊎ ℕ)
numbers = github plain plain

abbrev tickets : Family (ℕ ⊎ ℕ)
tickets = jira plain plain

abbrev consumed : Intent (ℕ ⊎ ℕ)
consumed = record (staged numbers (inl 5)) { stage = uncertain; reserved_at = some 40 }

abbrev full : Journal (ℕ ⊎ ℕ)
full = record new_journal { version = 3; intents = (5, consumed) ∷ [] }

abbrev one_file : Disk (ℕ ⊎ ℕ)
one_file = (1, full) ∷ []

abbrev calls : List (ℕ × ℕ × Request (ℕ ⊎ ℕ))
calls =
    (50, 1, stage_req (inr 6))
    ∷ (60, 1, withdraw_req 5 5 "Not wanted" "steph")
    ∷ (70, 1, reserve_req 5 5)
    ∷ (80, 1, reserve_req 6 6)
    ∷ []

full-found : find 1 one_file ≡ some full
unfolding find
full-found = refl

consumed-found : find 5 full.intents ≡ some consumed
unfolding find
consumed-found = refl

serve_all-consumed_example :
    (j' : Journal (ℕ ⊎ ℕ)) × (find 1 (serve_all numbers same_text calls one_file) ≡ some j')
    × (find 5 j'.intents ≡ some consumed)
    × ((now sha : ℕ) → is_ok (reserve numbers now 5 sha j') ≡ false)
serve_all-consumed_example =
    serve_all-consumed numbers same_text calls one_file 1 5 full consumed full-found consumed-found
      refl

new-Sound : Sound tickets new_journal
unfolding find total
new-Sound = record {
  sorted = tt;
  unique = λ k l i m found_k found_l same live_i live_m. absurd (none-some found_k);
  within_records = omega arith;
  within_bytes = omega arith;
}

new-DiskSound : DiskSound tickets ((1, new_journal) ∷ [])
unfolding find
new-DiskSound path j found = elim (Bool-cases (path == 1)) [
  | inl same ↦ subst (Sound tickets) (ground arith) new-Sound
  | inr other ↦ absurd (ground arith)
]

serve_all-Sound_example :
    DiskSound tickets (serve_all tickets same_text calls ((1, new_journal) ∷ []))
serve_all-Sound_example =
    serve_all-Sound tickets same_text calls ((1, new_journal) ∷ []) new-DiskSound

abbrev notice : Notice
notice = record { snapshot = 8; reason = "It is full"; principal = "steph"; at = 90 }

abbrev retired_full : Journal (ℕ ⊎ ℕ)
retired_full = record full {
  retired = some (record {
    journal = 1;
    successor = 2;
    snapshot = 8;
    records = 1;
    uncertain_records = 1;
    reason = "It is full";
    principal = "steph";
    retired_at = 90;
  });
}

abbrev heir : Journal (ℕ ⊎ ℕ)
heir = record new_journal {
  version = 2;
  follows = some (record {
    journal = 2;
    predecessor = 1;
    snapshot = 8;
    records = 1;
    reason = "It is full";
    principal = "steph";
    started_at = 90;
  });
}

abbrev linked : Disk (ℕ ⊎ ℕ)
linked = (1, retired_full) ∷ (2, heir) ∷ []

abbrev half_linked : Disk (ℕ ⊎ ℕ)
half_linked = (1, full) ∷ (2, heir) ∷ []

abbrev heir_6 : Journal (ℕ ⊎ ℕ)
heir_6 = record heir { intents = (6, staged numbers (inr 6)) ∷ [] }

abbrev linked_6 : Disk (ℕ ⊎ ℕ)
linked_6 = (1, retired_full) ∷ (2, heir_6) ∷ []

heir-found : find 2 linked ≡ some heir
unfolding find
heir-found = refl

six-new : find 6 heir.intents ≡ none
unfolding find
six-new = refl

six-staged : stage_scope numbers linked 2 (inr 6) ≡ ok (linked_6, staged numbers (inr 6))
unfolding find put total is_blank is_space strip is_reason live_rows get remaining_records
    remaining_bytes audited_reason read_retired read_follows require_open walk predecessors
    none_holds check_admission count already_bound admit settle stage_scope reserve withdraw appoint
    close ready begin_retirement retire
six-staged = refl

stage_scope-chain_example :
    (older : List ℕ) × (predecessors linked 2 heir ≡ ok older)
    × (length older ≤ chain_limit)
    × NoneHolds linked 6 106 older
stage_scope-chain_example =
    stage_scope-chain numbers linked 2 (inr 6) heir (linked_6, staged numbers (inr 6)) heir-found
      six-new six-staged

stage_scope-again_example :
    ((j : Journal (ℕ ⊎ ℕ)) × (find 2 linked_6 ≡ some j)
      × (get numbers 6 j ≡ ok (staged numbers (inr 6))))
    × (stage_scope numbers linked_6 2 (inr 6) ≡ ok (linked_6, staged numbers (inr 6)))
stage_scope-again_example =
    stage_scope-again numbers linked 2 (inr 6) (linked_6, staged numbers (inr 6)) six-staged

begun :
    begin_retirement same_text (λ _ _. false) (λ _. true) (λ _. true) 1 2 notice one_file
    ≡ ok half_linked
unfolding find put total is_blank is_space strip is_reason live_rows get remaining_records
    remaining_bytes audited_reason read_retired read_follows require_open walk predecessors
    none_holds check_admission count already_bound admit settle stage_scope reserve withdraw appoint
    close ready begin_retirement retire
begun = refl

begin_retirement-interrupted_example :
    (j heir : Journal (ℕ ⊎ ℕ)) × (find 1 one_file ≡ some j)
    × (find 1 half_linked ≡ some j)
    × (read_retired 1 j ≡ ok none)
    × (find 2 half_linked ≡ some heir)
    × ((task operation : ℕ) → is_ok (check_admission half_linked 2 heir task operation) ≡ false)
begin_retirement-interrupted_example =
    begin_retirement-interrupted same_text (λ _ _. false) (λ _. true) (λ _. true) 1 2 notice
      one_file half_linked begun

ended : retire same_text (λ _ _. false) (λ _. true) (λ _. true) 1 2 notice one_file ≡ ok linked
unfolding find put total is_blank is_space strip is_reason live_rows get remaining_records
    remaining_bytes audited_reason read_retired read_follows require_open walk predecessors
    none_holds check_admission count already_bound admit settle stage_scope reserve withdraw appoint
    close ready begin_retirement retire
ended = refl

retire-closed_example :
    (j old heir : Journal (ℕ ⊎ ℕ)) × (find 1 one_file ≡ some j)
    × (find 1 linked ≡ some old)
    × (find 2 linked ≡ some heir)
    × (old.intents ≡ j.intents)
    × ((task operation : ℕ) → is_ok (check_admission linked 1 old task operation) ≡ false)
    × ((task operation k : ℕ) (i : Intent (ℕ ⊎ ℕ))
        → find k j.intents ≡ some i
        → is_live operation task k i ≡ true
        → is_ok (check_admission linked 2 heir task operation) ≡ false)
retire-closed_example =
    retire-closed same_text (λ _ _. false) (λ _. true) (λ _. true) 1 2 notice one_file linked ended

abbrev heir_reserved : Journal (ℕ ⊎ ℕ)
heir_reserved = record heir_6 {
  intents = (6, record (staged numbers (inr 6)) { stage = uncertain; reserved_at = some 95 }) ∷ [];
}

six-reserved :
    reserve numbers 95 6 6 heir_6
    ≡ ok (
      heir_reserved,
      record (staged numbers (inr 6)) { stage = uncertain; reserved_at = some 95 },
    )
unfolding find put total is_blank is_space strip is_reason live_rows get remaining_records
    remaining_bytes audited_reason read_retired read_follows require_open walk predecessors
    none_holds check_admission count already_bound admit settle stage_scope reserve withdraw appoint
    close ready begin_retirement retire
six-reserved = refl

reserve-reconcile_example :
    ((any : ℕ) → is_ok (reconcile numbers (by_kind (λ n. n) (λ n. n + 1)) 6 any heir_6) ≡ false)
    × ((before : Intent (ℕ ⊎ ℕ)) × (find 6 heir_6.intents ≡ some before) × (before.scope ≡ inr 6))
    × (reconcile numbers (by_kind (λ n. n) (λ n. n + 1)) 6 6 heir_reserved
        ≡ ok (record (staged numbers (inr 6)) { stage = uncertain; reserved_at = some 95 }, 7))
reserve-reconcile_example =
    reserve-reconcile numbers (by_kind (λ n. n) (λ n. n + 1)) 95 6 6 heir_6
      (heir_reserved, record (staged numbers (inr 6)) { stage = uncertain; reserved_at = some 95 })
      six-reserved
