-- ===== src/Journal/Heirs.antt =====
-- A successor that follows a journal, and a journal that is retired.
use orchd_ai.Prelude.{
  ℕ, suc, ◌≡◌, refl, sym, ap, subst, ◌∙◌, inl, inr, true, false, not, Option, none, some, some-eq,
  List, [], ◌∷◌, contains, arith, ◌==◌, ok, ◌>>=◌, ◌>>◌, ok-bind, ok-eq, ok-raise_if, ok-or_raise,
  Bool-cases, Result-cases, is_some, is_ok, raise_if, raise_if-ok,
}
use orchd_ai.Table.{find, put}
use orchd_ai.Journal.{
  Intent, Retired, Follows, Journal, already_retired, not_empty, already_follows, is_retired,
  is_live, installed, new_journal, cycle, missing_predecessor, not_successor,
}
use orchd_ai.Journal.Succession.{
  Disk, chain_limit, names, is_empty, read_retired, read_follows, require_open, walk, predecessors,
  check_admission,
}
use orchd_ai.Journal.Chains.{NoneHolds, check_admission-chain}
use orchd_ai.Journal.Retirement.{install, opened, appoint, close}

-- A file of a successor that follows by `link`.
abbrev pub heir_of : {S : Type 0} → Follows → Journal S
heir_of link = record (install new_journal) { follows = some link }

read_follows-heir :
    (S : Type 0) (successor : ℕ) (link : Follows)
    → (link.journal == successor) ≡ true
    → read_follows successor (heir_of {S = S} link) ≡ ok (some link)
unfolding read_follows
read_follows-heir S successor link own = ground (arith, own)

pub absent {ℓ} : {A : Type ℓ} (o : Option A) → is_some o ≡ false → o ≡ none
absent none h = refl
absent (some a) h = cc

module _ {S : Type 0} where
  abbrev pub closed : Retired → Journal S → Journal S
  closed link j = record (install j) { retired = some link }

  walk-first :
      (disk : Disk S) (left child : ℕ) (seen : List ℕ) (link : Follows) {older : List ℕ}
      → walk disk (suc left) child seen (some link) ≡ ok older
      → (previous : Journal S) × (retired : Option Retired) × (rest : List ℕ) × (find
            link.predecessor disk
          ≡ some previous)
        × (read_retired link.predecessor previous ≡ ok retired)
        × (names retired child ≡ true)
        × (older ≡ link.predecessor ∷ rest)
  unfolding walk
  walk-first disk left child seen link h =
      let p = link.predecessor in
      let (_, h1) = ok-raise_if (contains p seen) cycle h in
      let (previous, h2, there) = ok-or_raise (find p disk) missing_predecessor h1 in
      let (retired, h3, read) = ok-bind (read_retired p previous) h2 in
      let (_, h4, _) = ok-bind (read_follows p previous) h3 in
      let (named, h5) = ok-raise_if (not (names retired child)) not_successor h4 in
      let (next, h6, _) = ok-bind (read_follows p previous) h5 in
      let (rest, end, _) = ok-bind (walk disk left p (p ∷ seen) next) h6 in
      (previous, retired, rest, there, read, ground arith, sym (ok-eq end))

  install-installed : (j : Journal S) → installed (install j) ≡ true
  install-installed j = elim (Bool-cases (installed j)) [
    | inl has ↦ rw has has
    | inr lacks ↦ rw lacks refl
  ]

  pub read_retired-closed :
      (path : ℕ) (link : Retired) (j : Journal S)
      → (link.journal == path) ≡ true
      → read_retired path (closed link j) ≡ ok (some link)
  unfolding read_retired
  read_retired-closed path link j own = ground (arith, own, install-installed j)

  -- An heir that admits an operation has read its predecessor, which names it.
  pub heir-admits :
      (disk : Disk S) (successor task operation : ℕ) (link : Follows) {u : Unit {0}}
      → (link.journal == successor) ≡ true
      → check_admission disk successor (heir_of link) task operation ≡ ok u
      → (previous : Journal S) × (retired : Option Retired) × (find link.predecessor disk
          ≡ some previous)
        × (read_retired link.predecessor previous ≡ ok retired)
        × (names retired successor ≡ true)
        × ((k : ℕ) (i : Intent S)
            → find k previous.intents ≡ some i
            → is_live operation task k i ≡ false)
  unfolding predecessors
  heir-admits disk successor task operation link own h =
      let (older, read, _, none_holds) =
        check_admission-chain disk successor task operation (heir_of link) h in
      let (follows, walked, got) = ok-bind (read_follows successor (heir_of link)) read in
      let is_link : follows ≡ some link =
        ok-eq (sym got ∙ read_follows-heir S successor link own) in
      let (previous, retired, rest, there, back, named, list) =
        walk-first disk 15 successor (successor ∷ []) link (
          subst (λ x. walk disk chain_limit successor (successor ∷ []) x ≡ ok older) is_link
            walked) in
      let ((first, first_there, free), _) = subst (NoneHolds disk operation task) list none_holds in
      (
        previous,
        retired,
        there,
        back,
        named,
        subst
            (λ (x : Journal S).
              (k : ℕ) (i : Intent S)
              → find k x.intents ≡ some i
              → is_live operation task k i ≡ false)
            (some-eq (sym first_there ∙ there)) free,
      )

  pub appoint-ok :
      (successor : ℕ) (link : Follows) (disk : Disk S) {disk' : Disk S}
      → find successor disk ≡ none
      → appoint successor link disk ≡ ok disk'
      → put successor (heir_of link) disk ≡ disk'
  unfolding appoint
  appoint-ok successor link disk {disk'} free h =
      let h' =
        subst
          (λ (o : Option (Journal S)).
            (do
              raise_if (not (is_empty (opened o).intents)) not_empty
              before ← read_follows successor (install (opened o))
              raise_if (is_some before) already_follows
              ok (put successor (record (install (opened o)) { follows = some link }) disk))
            ≡ ok disk')
          free h in
      let (_, h1) = ok-raise_if (not (is_empty (opened {S = S} none).intents)) not_empty h' in
      let (before, h2, _) = ok-bind (read_follows successor (install new_journal)) h1 in
      let (_, h3) = ok-raise_if (is_some before) already_follows h2 in ok-eq h3

module _ {S : Type 0} where
  pub close-ok :
      (path : ℕ) (link : Retired) (j : Journal S) (disk : Disk S) {disk' : Disk S}
      → close path link j disk ≡ ok disk'
      → put path (closed link j) disk ≡ disk'
  unfolding close
  close-ok path link j disk h =
      let (before, h1, _) = ok-bind (read_retired path (install j)) h in
      let (_, h2) = ok-raise_if (is_some before) already_retired h1 in ok-eq h2

  pub install-intents : (j : Journal S) → (install j).intents ≡ j.intents
  install-intents j = elim (Bool-cases (installed j)) [
    | inl has ↦ rw has refl
    | inr lacks ↦ rw lacks refl
  ]

  pub heir-refuses :
      (disk : Disk S) (successor task operation k : ℕ) (link : Follows) (j : Journal S)
      (i : Intent S)
      → (link.journal == successor) ≡ true
      → find link.predecessor disk ≡ some j
      → find k j.intents ≡ some i
      → is_live operation task k i ≡ true
      → is_ok (check_admission disk successor (heir_of link) task operation) ≡ false
  heir-refuses disk successor task operation k link j i own there found live =
      elim (Result-cases (check_admission disk successor (heir_of link) task operation)) [
        | inl (e, refused) ↦ rw refused refl
        | inr (u, admitted) ↦
            let (previous, _, previous_there, _, _, free) =
              heir-admits disk successor task operation link own admitted in
            let same : j ≡ previous = some-eq (sym there ∙ previous_there) in
            let dead = free k i (ap (λ (x : Journal S). find k x.intents) (sym same) ∙ found) in
            absurd (ground (arith, dead, live))
      ]

  not_open :
      (disk : Disk S) (path task operation : ℕ) (link : Retired) (j : Journal S) {u : Unit {0}}
      → (link.journal == path) ≡ true
      → ¬ (check_admission disk path (closed link j) task operation ≡ ok u)
  unfolding check_admission require_open
  not_open disk path task operation link j own h =
      let (_, _, opened_up) = ok-bind (require_open path (closed link j)) h in
      let (retired, h1, read) = ok-bind (read_retired path (closed link j)) opened_up in
      let (_, h2, _) = ok-bind (read_follows path (closed link j)) h1 in
      let none_there = raise_if-ok (is_some retired) is_retired h2 in
      let is_link = ok-eq (sym read ∙ read_retired-closed path link j own) in
      absurd (ground (arith, none_there, is_link))

  pub closed-refuses :
      (disk : Disk S) (path task operation : ℕ) (link : Retired) (j : Journal S)
      → (link.journal == path) ≡ true
      → is_ok (check_admission disk path (closed link j) task operation) ≡ false
  closed-refuses disk path task operation link j own =
      elim (Result-cases (check_admission disk path (closed link j) task operation)) [
        | inl (e, refused) ↦ rw refused refl
        | inr (u, admitted) ↦ absurd (not_open disk path task operation link j own admitted)
      ]
