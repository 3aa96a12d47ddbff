-- ===== src/Batches/Steps.antt =====
-- One entry of a batch while it is run.
use orchd_ai.Prelude.{
  ℕ, zero, suc, ◌+◌, ◌≤◌, ◌≡◌, sym, subst, inl, inr, true, false, not, none, some, arith,
  Bool-cases, Option-cases,
}
use orchd_ai.Workflow.{State, is_paused}
use orchd_ai.Batches.{running, Item, Entry, Scope, max_steps, is_review, is_valid_entry}
use orchd_ai.Batches.Calls.{Around, Turned, stepped, halted, saved, is_current, turns, stands_open}

module _ {E : Type 0} (around : Around E) where
  turns-late :
      (n : ℕ) (scope : Scope) (t : ℕ) (x : Entry) (e : E)
      → is_current around scope e ≡ false
      → turns around (suc n) scope t x e ≡ halted x e
  unfolding turns
  turns-late n scope t x e late = ground (arith, late)

  turns-refused :
      (n : ℕ) (scope : Scope) (t : ℕ) (x : Entry) (e : E)
      → is_current around scope e ≡ true
      → (around.advance t x.last e).0 ≡ none
      → turns around (suc n) scope t x e ≡ halted x (around.advance t x.last e).1
  unfolding turns
  turns-refused n scope t x e now refused = ground (arith, now, refused)

  turns-paused :
      (n : ℕ) (scope : Scope) (t : ℕ) (x : Entry) (e : E) (snapshot : ℕ) (s : State)
      → is_current around scope e ≡ true
      → (around.advance t x.last e).0 ≡ some (snapshot, s)
      → is_paused s ≡ true
      → turns around (suc n) scope t x e ≡ record {
        entry = stepped snapshot s x;
        saves = 1;
        after = (around.advance t x.last e).1;
        goes_on = not (is_review s);
      }
  unfolding turns
  turns-paused n scope t x e snapshot s now made paused = ground (arith, now, made, paused)

  turns-more :
      (n : ℕ) (scope : Scope) (t : ℕ) (x : Entry) (e : E) (snapshot : ℕ) (s : State)
      → is_current around scope e ≡ true
      → (around.advance t x.last e).0 ≡ some (snapshot, s)
      → is_paused s ≡ false
      → turns around (suc n) scope t x e
        ≡ saved (
            turns around n scope t
              (record x { last = snapshot; steps = x.steps + 1 })
              (around.advance t x.last e).1)
  unfolding turns
  turns-more n scope t x e snapshot s now made paused = ground (arith, now, made, paused)

  -- A running entry, with room for some more steps.
  pub record Runs (n : ℕ) (x : Entry) : Type 0 where
    pub status : x.status ≡ running
    pub result : x.result ≡ none
    pub steps : x.steps + n ≤ max_steps

  -- What a turn makes of it.
  pub record Good (n : ℕ) (t : Turned E) : Type 0 where
    pub valid : (item : Item) → is_valid_entry item t.entry ≡ true
    pub saves : t.saves ≤ n
    pub closed : t.goes_on ≡ true → stands_open t.entry ≡ false

  halted-Good : (n : ℕ) (x : Entry) (e : E) → Runs n x → Good n (halted x e)
  unfolding is_valid_entry
  halted-Good n x e h = record {
    valid = λ item. ground (arith, h.status, h.result, h.steps);
    saves = omega arith;
    closed = λ on. cc;
  }

  paused-Good :
      (n snapshot : ℕ) (s : State) (x : Entry) (e : E)
      → is_paused s ≡ true
      → Runs (suc n) x
      → Good (suc n) (record {
        entry = stepped snapshot s x;
        saves = 1;
        after = e;
        goes_on = not (is_review s);
      })
  unfolding is_valid_entry
  paused-Good n snapshot s x e paused h = rw paused (record {
    valid = λ item. ground (arith, h.steps, paused);
    saves = omega arith;
    closed = λ on. ground arith;
  })

  saved-Good : (n : ℕ) (t : Turned E) → Good n t → Good (suc n) (saved t)
  saved-Good n t h = record { valid = h.valid; saves = omega (arith, h.saves); closed = h.closed }

  pub turns-Good :
      (n : ℕ) (scope : Scope) (t : ℕ) (x : Entry) (e : E)
      → Runs n x
      → Good n (turns around n scope t x e)
  unfolding turns
  turns-Good zero scope t x e h = halted-Good zero x e h
  turns-Good (suc n) scope t x e h =
      let e' = (around.advance t x.last e).1 in
      elim (Bool-cases (is_current around scope e)) [
        | inr late ↦
            subst (Good (suc n)) (sym (turns-late n scope t x e late)) (halted-Good (suc n) x e h)
        | inl now ↦ elim (Option-cases (around.advance t x.last e).0) [
          | inl refused ↦
              subst (Good (suc n)) (sym (turns-refused n scope t x e now refused))
                (halted-Good (suc n) x e' h)
          | inr ((snapshot, s), made) ↦ elim (Bool-cases (is_paused s)) [
            | inl paused ↦
                subst (Good (suc n)) (sym (turns-paused n scope t x e snapshot s now made paused))
                  (paused-Good n snapshot s x e' paused h)
            | inr more ↦
                let x' : Entry = record x { last = snapshot; steps = x.steps + 1 } in
                subst (Good (suc n)) (sym (turns-more n scope t x e snapshot s now made more)) (
                  saved-Good n (turns around n scope t x' e') (
                    turns-Good n scope t x' e' (record {
                      status = h.status;
                      result = h.result;
                      steps = omega (arith, h.steps);
                    })))
          ]
        ]
      ]
