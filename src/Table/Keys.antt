-- ===== src/Table/Keys.antt =====
-- The rows with their keys, and what a lookup finds after each statement.
use orchd_ai.Prelude.{
  ℕ, ◌<◌, ◌≡◌, refl, Option, none, some, List, [], ◌∷◌, arith, ltb, ◌==◌, if◌then◌else◌,
}

abbrev pub Table {ℓ} : Type ℓ → Type ℓ
Table V = List (ℕ × V)

module _ {ℓ} {V : Type ℓ} where
  -- SELECT ... WHERE key=?
  unfoldable pub find : ℕ → Table V → Option V
  find k [] = none
  find k ((j, v) ∷ t) = if k == j then some v else find k t

  -- INSERT ... ON CONFLICT(key) DO UPDATE: the row goes to the place of its key.
  unfoldable pub put : ℕ → V → Table V → Table V
  put k v [] = (k, v) ∷ []
  put k v ((j, w) ∷ t) =
      let rest = put k v t in
      if k == j then (k, v) ∷ t else if ltb k j then (k, v) ∷ (j, w) ∷ t else (j, w) ∷ rest

  -- DELETE ... WHERE key=?
  unfoldable pub remove : ℕ → Table V → Table V
  remove k [] = []
  remove k ((j, w) ∷ t) = let rest = remove k t in if k == j then rest else (j, w) ∷ rest

  -- Every key is above `k`.
  abbrev pub Above : ℕ → Table V → Type 0
  Above k [] = Unit
  Above k ((j, _) ∷ t) = (k < j) × Above k t

  -- The keys ascend, so each stands once.
  abbrev pub IsSorted : Table V → Type 0
  IsSorted [] = Unit
  IsSorted ((k, _) ∷ t) = Above k t × IsSorted t

  pub find-put :
      (k j : ℕ) (v : V) (t : Table V) → find j (put k v t) ≡ (if j == k then some v else find j t)
  unfolding find put
  find-put k j v [] = refl
  find-put k j v ((i, w) ∷ t) = ground (arith, find-put k j v t)

  pub find-remove :
      (k j : ℕ) (t : Table V) → find j (remove k t) ≡ (if j == k then none else find j t)
  unfolding find remove
  find-remove k j [] = ground arith
  find-remove k j ((i, w) ∷ t) = ground (arith, find-remove k j t)

  pub Above-mono : (j k : ℕ) (t : Table V) → j < k → Above k t → Above j t
  Above-mono j k [] h a = tt
  Above-mono j k ((i, w) ∷ t) h a = (omega arith, Above-mono j k t h a.1)

  pub find-Above : (k : ℕ) (t : Table V) → Above k t → find k t ≡ none
  unfolding find
  find-Above k [] a = refl
  find-Above k ((i, w) ∷ t) a = ground (arith, find-Above k t a.1)

  Above-put : (j k : ℕ) (v : V) (t : Table V) → j < k → Above j t → Above j (put k v t)
  unfolding put
  Above-put j k v [] h a = (h, tt)
  Above-put j k v ((i, w) ∷ t) h a = ground (arith, Above-put j k v t h a.1)

  pub put-IsSorted : (k : ℕ) (v : V) (t : Table V) → IsSorted t → IsSorted (put k v t)
  unfolding put
  put-IsSorted k v [] s = (tt, tt)
  put-IsSorted k v ((i, w) ∷ t) s =
      ground (arith, put-IsSorted k v t s.1, Above-put i k v t, Above-mono k i t)

  Above-remove : (j k : ℕ) (t : Table V) → Above j t → Above j (remove k t)
  unfolding remove
  Above-remove j k [] a = tt
  Above-remove j k ((i, w) ∷ t) a = ground (arith, Above-remove j k t a.1)

  pub remove-IsSorted : (k : ℕ) (t : Table V) → IsSorted t → IsSorted (remove k t)
  unfolding remove
  remove-IsSorted k [] s = tt
  remove-IsSorted k ((i, w) ∷ t) s = ground (arith, remove-IsSorted k t s.1, Above-remove i k t s.0)

pub ruleset table_laws = (find-put, find-remove)

module _ {ℓ κ} {V : Type ℓ} where
  -- A predicate of every row and its key.
  abbrev pub AllRows : (ℕ → V → Type κ) → Table V → Type κ
  AllRows P [] = Unit
  AllRows P ((k, v) ∷ t) = P k v × AllRows P t

  pub AllRows-map :
      {P Q : ℕ → V → Type κ} (t : Table V)
      → ((k : ℕ) (v : V) → P k v → Q k v)
      → AllRows P t
      → AllRows Q t
  AllRows-map [] f h = tt
  AllRows-map ((k, v) ∷ t) f h = (f k v h.0, AllRows-map t f h.1)

module _ {ℓ} {V : Type ℓ} where
  find_later :
      (j : ℕ) (w : V) (s t : Table V)
      → Above j s
      → AllRows (λ k v. find k t ≡ some v) s
      → AllRows (λ k v. find k ((j, w) ∷ t) ≡ some v) s
  unfolding find
  find_later j w [] t a h = tt
  find_later j w ((i, u) ∷ s) t a h = (ground arith, find_later j w s t a.1 h.1)

  -- In a sorted table each row is what a lookup of its key finds.
  pub find_rows : (t : Table V) → IsSorted t → AllRows (λ k v. find k t ≡ some v) t
  unfolding find
  find_rows [] s = tt
  find_rows ((k, v) ∷ t) s = (ground arith, find_later k v t t s.0 (find_rows t s.1))
