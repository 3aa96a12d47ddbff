-- ===== src/Table/Sums.antt =====
-- Totals over a table: `SELECT sum(...)`, and `count(*)` with a condition as a sum of 0 and 1.
use orchd_ai.Table.Keys.{Table, find, put, remove, Above, IsSorted, find-Above, Above-mono}
use orchd_ai.Prelude.{ℕ, ◌+◌, ◌≡◌, refl, true, Option, none, some, [], ◌∷◌, arith, ltb}

module _ {ℓ} {V : Type ℓ} where
  unfoldable pub total : (V → ℕ) → Table V → ℕ
  total f [] = 0
  total f ((k, v) ∷ t) = f v + total f t

  -- What a key adds to a total: nothing where it is absent.
  abbrev pub weight : (V → ℕ) → Option V → ℕ
  weight f none = 0
  weight f (some v) = f v

  -- A written row takes the place of the row that had its key.
  pub total-put :
      (f : V → ℕ) (k : ℕ) (v : V) (t : Table V)
      → IsSorted t
      → total f (put k v t) + weight f (find k t) ≡ total f t + f v
  unfolding total put find
  total-put f k v [] s = omega arith
  total-put f k v ((i, w) ∷ t) s =
      ground (arith, total-put f k v t s.1, find-Above k t, find_below k i t)
    where
      find_below : (k i : ℕ) (t : Table V) → ltb k i ≡ true → Above i t → find k t ≡ none
      find_below k i t h a = find-Above k t (Above-mono k i t (ground arith) a)

  pub total-remove :
      (f : V → ℕ) (k : ℕ) (t : Table V)
      → IsSorted t
      → total f (remove k t) + weight f (find k t) ≡ total f t
  unfolding total remove find
  total-remove f k [] s = refl
  total-remove f k ((i, w) ∷ t) s = ground (arith, total-remove f k t s.1, find-Above k t)
