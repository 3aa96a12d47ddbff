-- ===== src/Batches/Running.antt =====
-- A batch while it is run: what becomes of its entries.
use orchd_ai.Prelude.{
  ℕ, ◌+◌, ◌*◌, ◌≤◌, ◌≡◌, refl, sym, subst, ◌⊎◌, inl, inr, true, false, not, List, [], ◌∷◌, any,
  filter, length, arith, Bool-cases, ok, ok-eq, ok-raise_if,
}
use orchd_ai.Batches.{
  Item, Entry, Scope, Batch, invalid_batch, batch_changed, not_current, needs_review, max_steps,
  is_pending, is_expected, is_valid_entry, all_valid, is_valid,
}
use orchd_ai.Batches.Calls.{
  Around, Turned, Ran, started, is_current, turns, run_entries, stands_open, run,
}
use orchd_ai.Batches.Steps.{Runs, Good, turns-Good}

-- How many entries wait, and how many want a review.
abbrev pub waits : List Entry → ℕ
waits xs = length (filter is_pending xs)

abbrev pub opens : List Entry → ℕ
opens xs = length (filter stands_open xs)

-- No entry but a pending one is another than before.
abbrev pub Kept : List Entry → List Entry → Type 0
Kept [] [] = Unit
Kept (x ∷ xs) (y ∷ ys) = ((is_pending x ≡ true) ⊎ (y ≡ x)) × Kept xs ys
Kept _ _ = true ≡ false

same-Kept : (xs : List Entry) → Kept xs xs
same-Kept [] = tt
same-Kept (x ∷ xs) = (inr refl, same-Kept xs)

none_open : (xs : List Entry) → any stands_open xs ≡ false → opens xs ≡ 0
none_open [] h = refl
none_open (x ∷ xs) h = ground (arith, none_open xs)

started-Runs :
    {E : Type 0} (around : Around E) (item : Item) (x : Entry)
    → is_pending x ≡ true
    → is_valid_entry item x ≡ true
    → Runs around max_steps (started x)
unfolding is_valid_entry
started-Runs around item x waiting valid = record {
  status = refl;
  result = ground arith;
  steps = ground arith;
}

module _ {E : Type 0} (around : Around E) where
  pub record Fine (items : List Item) (xs : List Entry) (r : Ran E) : Type 0 where
    pub valid : all_valid items r.entries ≡ true
    pub kept : Kept xs r.entries
    pub one_open : opens r.entries ≤ 1
    pub bounded : r.saves ≤ 41 * waits xs

  run_entries-passed :
      (scope : Scope) (item : Item) (items : List Item) (x : Entry) (xs : List Entry) (e : E)
      → is_pending x ≡ false
      → run_entries around scope (item ∷ items) (x ∷ xs) e
        ≡ record (run_entries around scope items xs e) {
          entries = x ∷ (run_entries around scope items xs e).entries;
        }
  unfolding run_entries
  run_entries-passed scope item items x xs e passed = ground (arith, passed)

  run_entries-halted :
      (scope : Scope) (item : Item) (items : List Item) (x : Entry) (xs : List Entry) (e : E)
      (t : Turned E)
      → is_pending x ≡ true
      → turns around max_steps scope item.task_id (started x) e ≡ t
      → t.goes_on ≡ false
      → run_entries around scope (item ∷ items) (x ∷ xs) e
        ≡ record { entries = t.entry ∷ xs; saves = t.saves + 1; after = t.after }
  unfolding run_entries
  run_entries-halted scope item items x xs e t waiting made halts =
      ground (arith, waiting, made, halts)

  run_entries-goes_on :
      (scope : Scope) (item : Item) (items : List Item) (x : Entry) (xs : List Entry) (e : E)
      (t : Turned E)
      → is_pending x ≡ true
      → turns around max_steps scope item.task_id (started x) e ≡ t
      → t.goes_on ≡ true
      → run_entries around scope (item ∷ items) (x ∷ xs) e ≡ record {
        entries = t.entry ∷ (run_entries around scope items xs t.after).entries;
        saves = t.saves + 1 + (run_entries around scope items xs t.after).saves;
        after = (run_entries around scope items xs t.after).after;
      }
  unfolding run_entries
  run_entries-goes_on scope item items x xs e t waiting made on = ground (arith, waiting, made, on)

  passed-Fine :
      (item : Item) (items : List Item) (x : Entry) (xs : List Entry) (r : Ran E)
      → is_pending x ≡ false
      → is_valid_entry item x ≡ true
      → stands_open x ≡ false
      → Fine items xs r
      → Fine (item ∷ items) (x ∷ xs) (record r { entries = x ∷ r.entries })
  unfolding all_valid
  passed-Fine item items x xs r passed valid shut h = record {
    valid = rw valid h.valid;
    kept = (inr refl, h.kept);
    one_open = ground (arith, shut, h.one_open);
    bounded = ground (arith, passed, h.bounded);
  }

  halted-Fine :
      (item : Item) (items : List Item) (x : Entry) (xs : List Entry) (t : Turned E)
      → is_pending x ≡ true
      → all_valid items xs ≡ true
      → any stands_open xs ≡ false
      → Good around max_steps t
      → Fine
          (item ∷ items)
          (x ∷ xs)
          (record { entries = t.entry ∷ xs; saves = t.saves + 1; after = t.after })
  unfolding all_valid
  halted-Fine item items x xs t waiting valid shut good = record {
    valid = rw (good.valid item) valid;
    kept = (inl waiting, same-Kept xs);
    one_open = ground (arith, none_open xs shut);
    bounded = ground (arith, waiting, good.saves);
  }

  goes_on-Fine :
      (item : Item) (items : List Item) (x : Entry) (xs : List Entry) (t : Turned E) (r : Ran E)
      → is_pending x ≡ true
      → t.goes_on ≡ true
      → Good around max_steps t
      → Fine items xs r
      → Fine
          (item ∷ items)
          (x ∷ xs)
          (record { entries = t.entry ∷ r.entries; saves = t.saves + 1 + r.saves; after = r.after })
  unfolding all_valid
  goes_on-Fine item items x xs t r waiting on good h = record {
    valid = rw (good.valid item) h.valid;
    kept = (inl waiting, h.kept);
    one_open = ground (arith, good.closed on, h.one_open);
    bounded = ground (arith, waiting, good.saves, h.bounded);
  }

  -- The entries that a run leaves.
  pub run_entries-Fine :
      (scope : Scope) (items : List Item) (xs : List Entry) (e : E)
      → all_valid items xs ≡ true
      → any stands_open xs ≡ false
      → Fine items xs (run_entries around scope items xs e)
  unfolding run_entries all_valid
  run_entries-Fine scope [] [] e valid shut = record {
    valid = refl;
    kept = tt;
    one_open = omega arith;
    bounded = omega arith;
  }
  run_entries-Fine scope [] (x ∷ xs) e valid shut = cc
  run_entries-Fine scope (item ∷ items) [] e valid shut = cc
  run_entries-Fine scope (item ∷ items) (x ∷ xs) e valid shut =
      let first : is_valid_entry item x ≡ true = ground arith in
      let others : all_valid items xs ≡ true = ground arith in
      let first_shut : stands_open x ≡ false = ground arith in
      let others_shut : any stands_open xs ≡ false = ground arith in
      let t = turns around max_steps scope item.task_id (started x) e in
      let fine = Fine (item ∷ items) (x ∷ xs) in
      elim (Bool-cases (is_pending x)) [
        | inr passed ↦ subst fine (sym (run_entries-passed scope item items x xs e passed)) (
            passed-Fine item items x xs (run_entries around scope items xs e) passed first
              first_shut (run_entries-Fine scope items xs e others others_shut))
        | inl waiting ↦
            let good =
              turns-Good around max_steps scope item.task_id (started x) e
                (started-Runs around item x waiting first) in
            elim (Bool-cases t.goes_on) [
              | inr halts ↦
                  subst fine (sym (run_entries-halted scope item items x xs e t waiting refl halts))
                    (halted-Fine item items x xs t waiting others others_shut good)
              | inl on ↦
                  subst fine (sym (run_entries-goes_on scope item items x xs e t waiting refl on)) (
                    goes_on-Fine item items x xs t (run_entries around scope items xs t.after)
                      waiting on good (run_entries-Fine scope items xs t.after others others_shut))
            ]
      ]

  -- A run that is admitted ends with a batch that loads again, of the same tasks: no entry but one
  -- that was pending is another than before, at most one entry stands running or wants a review,
  -- and the file was saved at most 41 times for each entry that was pending.
  pub run-valid :
      (digest : Scope → ℕ) (sha revision : ℕ) (b : Batch) (e : E) (out : Batch × E)
      → run around digest sha revision b e ≡ ok out
      → (is_valid digest out.0 ≡ true)
        × (out.0.scope ≡ b.scope)
        × Kept b.entries out.0.entries
        × (opens out.0.entries ≤ 1)
        × (out.0.revision ≤ b.revision + 41 * waits b.entries)
  unfolding run is_valid
  run-valid digest sha revision b e out h =
      let (loads, h1) = ok-raise_if (not (is_valid digest b)) invalid_batch h in
      let (_, h2) = ok-raise_if (not (is_expected sha revision b)) batch_changed h1 in
      let (_, h3) = ok-raise_if (not (is_current around b.scope e)) not_current h2 in
      let (shut, h4) = ok-raise_if (any stands_open b.entries) needs_review h3 in
      let r = run_entries around b.scope b.scope.tasks b.entries e in
      let valid : all_valid b.scope.tasks b.entries ≡ true = ground (arith, loads) in
      let fine = run_entries-Fine b.scope b.scope.tasks b.entries e valid shut in
      subst
        (λ (o : Batch × E).
          (is_valid digest o.0 ≡ true)
          × (o.0.scope ≡ b.scope)
          × Kept b.entries o.0.entries
          × (opens o.0.entries ≤ 1)
          × (o.0.revision ≤ b.revision + 41 * waits b.entries))
        (ok-eq h4)
        (
          ground (arith, loads, fine.valid),
          refl,
          fine.kept,
          fine.one_open,
          omega (arith, fine.bounded),
        )
