-- ===== src/Batches/Journals.antt =====
-- A batch when it is made, and when one of its tasks is abandoned.
use orchd_ai.Prelude.{
  ℕ, ◌≡◌, refl, subst, ◌∙◌, ◌≢◌, inl, inr, true, false, not, ◌||◌, none, some, List, [], ◌∷◌, arith,
  leb, ◌==◌, if◌then◌else◌, Bool-cases, ok, ok-bind, ok-eq, ok-raise_if, ok-or_raise,
}
use orchd_ai.Table.{Table, find}
use orchd_ai.Workflow.{is_paused}
use orchd_ai.Records.{Task}
use orchd_ai.Ownership.{Registry, Locks}
use orchd_ai.Batches.{
  abandoned, Item, Entry, Scope, Batch, invalid_batch, batch_changed, busy, unknown_task,
  not_in_batch, finished_entry, unresolved_task, max_steps, is_expected, is_valid_entry, all_valid,
  is_valid,
}
use orchd_ai.Batches.Calls.{is_active, at_rest, entry_of, set_entry, is_finished, abandon}

-- A task that a batch may take in: it is there, at that revision, at rest and not paused.
abbrev pub AtRest : Table Task → Item → Type 0
AtRest tasks item =
    (row : Task) × (find item.task_id tasks ≡ some row)
    × (item.revision ≡ row.state.revision)
    × (is_paused row.state.state ≡ false)
    × (is_active row ≡ false)

entry_of-steps :
    (t : ℕ) (items : List Item) (xs : List Entry) {x : Entry}
    → all_valid items xs ≡ true
    → entry_of t items xs ≡ some x
    → leb x.steps max_steps ≡ true
unfolding entry_of all_valid is_valid_entry
entry_of-steps t [] xs valid there = cc
entry_of-steps t (item ∷ items) [] valid there = cc
entry_of-steps t (item ∷ items) (y ∷ ys) {x} valid there =
    ground (arith, entry_of-steps t items ys {x = x})

abandoned-valid :
    (y : Entry)
    → leb y.steps max_steps ≡ true
    → y.status ≡ abandoned
    → y.result ≡ none
    → (item : Item) → is_valid_entry item y ≡ true
unfolding is_valid_entry
abandoned-valid y short status result item = ground (arith, short, status, result)

set_entry-valid :
    (t : ℕ) (y : Entry) (items : List Item) (xs : List Entry)
    → all_valid items xs ≡ true
    → ((item : Item) → is_valid_entry item y ≡ true)
    → all_valid items (set_entry t y items xs) ≡ true
unfolding set_entry all_valid
set_entry-valid t y [] xs valid fits = valid
set_entry-valid t y (item ∷ items) [] valid fits = valid
set_entry-valid t y (item ∷ items) (x ∷ xs) valid fits =
    ground (arith, set_entry-valid t y items xs, fits item)

entry_of-set_entry :
    (t u : ℕ) (y : Entry) (items : List Item) (xs : List Entry) {x : Entry}
    → entry_of t items xs ≡ some x
    → entry_of u items (set_entry t y items xs) ≡ (if u == t then some y else entry_of u items xs)
unfolding entry_of set_entry
entry_of-set_entry t u y [] xs there = cc
entry_of-set_entry t u y (item ∷ items) [] there = cc
entry_of-set_entry t u y (item ∷ items) (z ∷ zs) {x} there = elim (Bool-cases (item.task_id == t)) [
  | inl same ↦ rw same (ground arith)
  | inr other ↦
      let later = entry_of-set_entry t u y items zs {x = x} (ground (arith, there, other)) in
      rw other (ground (arith, later))
]

module _ (digest_of : Task → ℕ) (tasks : Table Task) where
  -- Abandoning a task succeeds only on an entry that was not finished: that entry is abandoned then,
  -- the entry of each other task is the one from before, and the batch loads again.
  pub abandon-valid :
      (digest : Scope → ℕ) (now : ℕ) (l : Locks) (reg : Registry) (sha revision t expected : ℕ)
      (b b' : Batch)
      → abandon digest_of tasks digest now l reg sha revision t expected b ≡ ok b'
      → (is_valid digest b' ≡ true)
        × ((before after : Entry) × (entry_of t b.scope.tasks b.entries ≡ some before)
            × (is_finished before ≡ false)
            × (entry_of t b.scope.tasks b'.entries ≡ some after)
            × (after.status ≡ abandoned))
        × ((u : ℕ)
            → u ≢ t
            → entry_of u b.scope.tasks b'.entries ≡ entry_of u b.scope.tasks b.entries)
  unfolding abandon is_valid
  abandon-valid digest now l reg sha revision t expected b b' h =
      let (_, h1) = ok-raise_if l.whole busy h in
      let (_, h2, _) = ok-bind (at_rest now l reg) h1 in
      let (loads, h3) = ok-raise_if (not (is_valid digest b)) invalid_batch h2 in
      let (_, h4) = ok-raise_if (not (is_expected sha revision b)) batch_changed h3 in
      let (x, h5, there) = ok-or_raise (entry_of t b.scope.tasks b.entries) not_in_batch h4 in
      let (unfinished, h6) = ok-raise_if (is_finished x) finished_entry h5 in
      let (row, h7, _) = ok-or_raise (find t tasks) unknown_task h6 in
      let (_, h8) =
        ok-raise_if (not (expected == digest_of row) || is_active row) unresolved_task h7 in
      let y : Entry = record x { status = abandoned; result = none; last = digest_of row } in
      let valid : all_valid b.scope.tasks b.entries ≡ true = ground (arith, loads) in
      let kept =
        set_entry-valid t y b.scope.tasks b.entries valid
          (abandoned-valid y (entry_of-steps t b.scope.tasks b.entries valid there) refl refl) in
      let found = λ (u : ℕ). entry_of-set_entry t u y b.scope.tasks b.entries there in
      subst
        (λ (o : Batch).
          (is_valid digest o ≡ true)
          × ((before after : Entry) × (entry_of t b.scope.tasks b.entries ≡ some before)
              × (is_finished before ≡ false)
              × (entry_of t b.scope.tasks o.entries ≡ some after)
              × (after.status ≡ abandoned))
          × ((u : ℕ)
              → u ≢ t
              → entry_of u b.scope.tasks o.entries ≡ entry_of u b.scope.tasks b.entries))
        (ok-eq h8)
        (
          ground (arith, loads, kept),
          (x, y, there, unfinished, found t ∙ ground arith, refl),
          λ u other. found u ∙ ground arith,
        )
