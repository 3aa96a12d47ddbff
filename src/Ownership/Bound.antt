-- ===== src/Ownership/Bound.antt =====
-- How many claims are live once one is recorded.
use orchd_ai.Prelude.{
  ℕ, suc, ◌≤◌, ◌≡◌, refl, Bool, not, [], ◌∷◌, filter, length, arith, ◌==◌, Option,
}
use orchd_ai.Table.{put, Above, IsSorted, Above-mono}
use orchd_ai.Ownership.{Owner, Holding, Registry, Locks, live, rows, active_owners, admitted, claim}

-- Each row stands under the task that it names.
abbrev pub IsKeyed : Registry → Type 0
IsKeyed [] = Unit
IsKeyed ((k, h) ∷ t) = (h.task_id ≡ k) × IsKeyed t

abbrev is_other : ℕ → Holding → Bool
is_other t h = not (h.task_id == t)

module _ (p : Holding → Bool) (t : ℕ) where
  -- Rows above a task are all of other tasks.
  others-Above :
      (reg : Registry)
      → IsKeyed reg
      → Above t reg
      → length (filter (is_other t) (filter p (rows reg))) ≡ length (filter p (rows reg))
  others-Above [] keyed above = refl
  others-Above ((k, h) ∷ reg) keyed above = ground (arith, others-Above reg keyed.1 above.1)

  length-filter-put :
      (h : Holding) (reg : Registry)
      → IsSorted reg
      → IsKeyed reg
      → length (filter p (rows (put t h reg)))
        ≤ suc (length (filter (is_other t) (filter p (rows reg))))
  unfolding put
  length-filter-put h [] sorted keyed = ground arith
  length-filter-put h ((k, g) ∷ reg) sorted keyed = ground (
    arith,
    length-filter-put h reg sorted.1 keyed.1,
    others-Above reg keyed.1,
    Above-mono t k reg,
  )

put-IsKeyed :
    (t : ℕ) (h : Holding) (reg : Registry) → h.task_id ≡ t → IsKeyed reg → IsKeyed (put t h reg)
unfolding put
put-IsKeyed t h [] same keyed = (same, tt)
put-IsKeyed t h ((k, g) ∷ reg) same keyed = ground (arith, put-IsKeyed t h reg same keyed.1)

-- A recorded claim keeps the rows under their tasks.
pub claim-IsKeyed :
    (now t : ℕ) (owner : Owner) (revision generation : ℕ) (n : Option ℕ) (reg : Registry)
    → IsKeyed reg
    → IsKeyed (claim now t owner revision generation n reg)
unfolding claim
claim-IsKeyed now t owner revision generation n reg keyed = put-IsKeyed t _ reg refl keyed

-- One claim makes at most one live row more than those of the other tasks.
pub active_owners-claim :
    (now : ℕ) (l : Locks) (t : ℕ) (owner : Owner) (revision generation : ℕ) (n : Option ℕ)
    (reg : Registry)
    → IsSorted reg
    → IsKeyed reg
    → length (active_owners now l (claim now t owner revision generation n reg))
      ≤ suc (length (admitted now l t reg))
unfolding active_owners admitted claim
active_owners-claim now l t owner revision generation n reg sorted keyed =
    length-filter-put (live now l) t _ reg sorted keyed
