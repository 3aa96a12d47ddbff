-- ===== src/Journal/Chains.antt =====
-- Admission against the journals that a journal follows.
use orchd_ai.Prelude.{
  ℕ, zero, suc, ◌≤◌, ◌≡◌, refl, sym, ap, subst, ◌∙◌, inl, inr, false, not, Option, none, some,
  some-eq, none-some, List, [], ◌∷◌, contains, length, arith, ok, ok-bind, ok-eq, ok-raise_if,
  ok-or_raise,
}
use orchd_ai.Table.{find}
use orchd_ai.Journal.{
  Family, Intent, Follows, Journal, cycle, missing_predecessor, not_successor, held_by_predecessor,
  is_live, live_rows,
}
use orchd_ai.Journal.Succession.{
  Disk, chain_limit, names, is_empty, read_retired, read_follows, require_open, walk, predecessors,
  none_holds, check_admission,
}
use orchd_ai.Journal.Operations.{admit, stage_scope}
use orchd_ai.Journal.Lives.{stage_scope-ok, get-Valid}
use orchd_ai.Journal.Limits.{live_rows-not_live}

empty-eq {ℓ} : {A : Type ℓ} (xs : List A) → not (is_empty xs) ≡ false → xs ≡ []
empty-eq [] h = refl
empty-eq (x ∷ xs) h = cc

module _ {S : Type 0} where
  pub walk-bound :
      (disk : Disk S) (left child : ℕ) (seen : List ℕ) (link : Option Follows) {older : List ℕ}
      → walk disk left child seen link ≡ ok older
      → length older ≤ left
  unfolding walk
  walk-bound disk left child seen none h = subst (λ x. length x ≤ left) (ok-eq h) (omega arith)
  walk-bound disk zero child seen (some link) h =
      let (_, h1) = ok-raise_if (contains link.predecessor seen) cycle h in absurd (ground arith)
  walk-bound disk (suc left) child seen (some link) h =
      let p = link.predecessor in
      let (_, h1) = ok-raise_if (contains p seen) cycle h in
      let (previous, h2, _) = ok-or_raise (find p disk) missing_predecessor h1 in
      let (retired, h3, _) = ok-bind (read_retired p previous) h2 in
      let (_, h4, _) = ok-bind (read_follows p previous) h3 in
      let (_, h5) = ok-raise_if (not (names retired child)) not_successor h4 in
      let (next, h6, _) = ok-bind (read_follows p previous) h5 in
      let (older, end, walked) = ok-bind (walk disk left p (p ∷ seen) next) h6 in
      subst (λ x. length x ≤ suc left) (ok-eq end)
        (ground (arith, walk-bound disk left p (p ∷ seen) next walked))

  -- No journal at the paths has the operation, or a live operation of the task.
  abbrev pub NoneHolds : Disk S → ℕ → ℕ → List ℕ → Type 0
  NoneHolds disk operation task [] = Unit
  NoneHolds disk operation task (p ∷ ps) =
      ((previous : Journal S) × (find p disk ≡ some previous)
        × ((k : ℕ) (i : Intent S)
            → find k previous.intents ≡ some i
            → is_live operation task k i ≡ false))
      × NoneHolds disk operation task ps

  pub none_holds-NoneHolds :
      (disk : Disk S) (operation task : ℕ) (ps : List ℕ) {u : Unit {0}}
      → none_holds disk operation task ps ≡ ok u
      → NoneHolds disk operation task ps
  unfolding none_holds
  none_holds-NoneHolds disk operation task [] h = tt
  none_holds-NoneHolds disk operation task (p ∷ ps) h =
      let (previous, h1, there) = ok-or_raise (find p disk) missing_predecessor h in
      let (held, h2) =
        ok-raise_if (not (is_empty (live_rows operation task previous.intents))) held_by_predecessor
          h1 in
      (
        (
          previous,
          there,
          λ k i found. live_rows-not_live operation task k previous.intents (empty-eq _ held) found,
        ),
        none_holds-NoneHolds disk operation task ps h2,
      )

  -- What an admission went through: the journal is open, and its chain was read.
  pub check_admission-chain :
      (disk : Disk S) (path task operation : ℕ) (j : Journal S) {u : Unit {0}}
      → check_admission disk path j task operation ≡ ok u
      → (older : List ℕ) × (predecessors disk path j ≡ ok older)
        × (length older ≤ chain_limit)
        × NoneHolds disk operation task older
  unfolding check_admission predecessors
  check_admission-chain disk path task operation j h =
      let (_, h1, _) = ok-bind (require_open path j) h in
      let (older, h2, read) = ok-bind (predecessors disk path j) h1 in
      let (link, walked, _) = ok-bind (read_follows path j) read in
      (
        older,
        read,
        walk-bound disk chain_limit path (path ∷ []) link walked,
        none_holds-NoneHolds disk operation task older h2,
      )

module _ {S : Type 0} (f : Family S) where
  admit-chain :
      (disk : Disk S) (path : ℕ) (scope : S) (j : Journal S) {j' : Journal S}
      → admit f disk path scope j ≡ ok j'
      → (older : List ℕ) × (predecessors disk path j ≡ ok older)
        × (length older ≤ chain_limit)
        × NoneHolds disk (f.operation_of scope) (f.task_of scope) older
  unfolding admit
  admit-chain disk path scope j h =
      let (_, _, checked) =
        ok-bind (check_admission disk path j (f.task_of scope) (f.operation_of scope)) h in
      check_admission-chain disk path (f.task_of scope) (f.operation_of scope) j checked

  -- A staging that succeeds of an operation that its journal did not have has read the whole chain
  -- of journals before it, at most 16: every one of them is there, and none of them has the
  -- operation, in whatever state, nor an operation of the task that was not withdrawn.
  pub stage_scope-chain :
      (disk : Disk S) (path : ℕ) (scope : S) (j : Journal S) (out : Disk S × Intent S)
      → find path disk ≡ some j
      → find (f.operation_of scope) j.intents ≡ none
      → stage_scope f disk path scope ≡ ok out
      → (older : List ℕ) × (predecessors disk path j ≡ ok older)
        × (length older ≤ chain_limit)
        × NoneHolds disk (f.operation_of scope) (f.task_of scope) older
  stage_scope-chain disk path scope j out there new h =
      let (read, after, read_there, _, given, settled) = stage_scope-ok f disk path scope h in
      let same : read ≡ j = some-eq (sym read_there ∙ there) in
      elim settled [
        | inl unchanged ↦
            let has = (get-Valid f (f.operation_of scope) after given).0 in
            absurd (
              none-some (
                sym new
                ∙ ap (λ (x : Journal S). find (f.operation_of scope) x.intents)
                    (sym same ∙ sym unchanged)
                ∙ has))
        | inr (_, admitted) ↦
            admit-chain disk path scope j
              (subst (λ x. admit f disk path scope x ≡ ok after) same admitted)
      ]
