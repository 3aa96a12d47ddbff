-- ===== src/Journal/Lives.antt =====
-- The life of an intent through any calls on any journals.
use orchd_ai.Prelude.{
  ℕ, String, ◌≡◌, refl, sym, ap, subst, ◌∙◌, ◌⊎◌, inl, inr, true, not, ◌&&◌, ◌||◌, none, some,
  some-eq, [], ◌∷◌, arith, ltb, ◌==◌, is_some, ok, ok-bind, ok-eq, ok-raise_if, ok-or_raise,
  Bool-cases, ◌≤◌, none-some,
}
use orchd_ai.Table.{Table, find, put, find-put}
use orchd_ai.Journal.{
  Family, uncertain, withdrawn, Intent, Journal, not_a_journal, too_large, not_prepared,
  not_revisable, already_withdrawn, attempt_consumed, wrong_digest, conflicting, unknown_operation,
  is_prepared, is_withdrawn, live_rows, get, revisable, has_evidence, bad_binding, bad_reservation,
  remaining_records, remaining_bytes, capacity_exhausted,
}
use orchd_ai.Journal.Succession.{Disk, check_admission, audited_reason}
use orchd_ai.Journal.Operations.{
  staged, with_intent, already_bound, admit, stage_scope, reserve, withdraw, settle,
}

-- What an intent may become: nothing but its state and its reservation time changes, and that only
-- while it is prepared.
pub record Continues (S : Type 0) (i i' : Intent S) : Type 0 where
  pub task : i'.task_id ≡ i.task_id
  pub scope : i'.scope ≡ i.scope
  pub sha : i'.sha ≡ i.sha
  pub stage : (i' ≡ i) ⊎ (is_prepared i.stage ≡ true)

module _ {S : Type 0} where
  -- Every intent is still there.
  abbrev pub Grows : Journal S → Journal S → Type 0
  Grows j j' =
      (k : ℕ) (i : Intent S)
      → find k j.intents ≡ some i
      → (i' : Intent S) × (find k j'.intents ≡ some i') × Continues S i i'

  same-Continues : (i : Intent S) → Continues S i i
  same-Continues i = record { task = refl; scope = refl; sha = refl; stage = inl refl }

  pub same-Grows : (j : Journal S) → Grows j j
  same-Grows j k i there = (i, there, same-Continues i)

  -- If no row is found by the clause, the operation is free.
  pub live_rows-free :
      (operation task : ℕ) (t : Table (Intent S))
      → live_rows operation task t ≡ []
      → find operation t ≡ none
  unfolding live_rows find
  live_rows-free operation task [] h = refl
  live_rows-free operation task ((k, i) ∷ t) h = ground (arith, live_rows-free operation task t)

  put-Grows :
      (operation : ℕ) (i : Intent S) (j : Journal S)
      → ((old : Intent S) → find operation j.intents ≡ some old → Continues S old i)
      → Grows j (with_intent operation i j)
  put-Grows operation i j from k old there = elim (Bool-cases (k == operation)) [
    | inl same ↦ (
      i,
      find-put operation k i j.intents ∙ ground arith,
      from old (ap (λ x. find x j.intents) (ground arith) ∙ there),
    )
    | inr other ↦ (old, find-put operation k i j.intents ∙ ground arith, same-Continues old)
  ]

  -- A prepared intent that is written back with the same task, scope and digest.
  update-Grows :
      (operation : ℕ) (i i' : Intent S) (j : Journal S)
      → find operation j.intents ≡ some i
      → is_prepared i.stage ≡ true
      → i'.task_id ≡ i.task_id
      → i'.scope ≡ i.scope
      → i'.sha ≡ i.sha
      → Grows j (with_intent operation i' j)
  update-Grows operation i i' j there usable task scope sha = put-Grows operation i' j (λ old found.
      subst (λ x. Continues S x i') (some-eq (sym there ∙ found))
        (record { task = task; scope = scope; sha = sha; stage = inr usable }))

module _ {S : Type 0} (f : Family S) where
  -- What a row that is given out is like.
  pub record Valid (operation : ℕ) (i : Intent S) : Type 0 where
    pub fits : f.bytes i.scope ≤ f.max_scope
    pub reconstructs : f.is_valid i.scope ≡ true
    pub of_sha : f.digest i.scope ≡ i.sha
    pub of_task : f.task_of i.scope ≡ i.task_id
    pub of_operation : f.operation_of i.scope ≡ operation
    pub evidence : has_evidence f i ≡ true

  pub get-Valid :
      (operation : ℕ) (j : Journal S) {i : Intent S}
      → get f operation j ≡ ok i
      → (find operation j.intents ≡ some i) × Valid operation i
  unfolding get
  get-Valid operation j {i} h =
      let (found, h1, there) = ok-or_raise (find operation j.intents) unknown_operation h in
      let (fits, h2) = ok-raise_if (ltb f.max_scope (f.bytes found.scope)) too_large h1 in
      let (bound, h3) =
        ok-raise_if
          (not (
            f.is_valid found.scope
            && f.digest found.scope == found.sha
            && f.task_of found.scope == found.task_id
            && f.operation_of found.scope == operation))
          bad_binding h2 in
      let (evident, h4) = ok-raise_if (not (has_evidence f found)) bad_reservation h3 in
      let valid : Valid operation found = record {
        fits = ground arith;
        reconstructs = ground arith;
        of_sha = ground arith;
        of_task = ground arith;
        of_operation = ground arith;
        evidence = ground arith;
      } in
      subst (λ x. (find operation j.intents ≡ some x) × Valid operation x) (ok-eq h4) (there, valid)

  pub reserve-Grows :
      (now operation sha : ℕ) (j : Journal S) {out : Journal S × Intent S}
      → reserve f now operation sha j ≡ ok out
      → Grows j out.0
  unfolding reserve
  reserve-Grows now operation sha j {out} h =
      let (i, h1, read) = ok-bind (get f operation j) h in
      let (usable, h2) =
        ok-raise_if (not (i.sha == sha) || not (is_prepared i.stage)) not_prepared h1 in
      let i' : Intent S = record i { stage = uncertain; reserved_at = some now } in
      let (kept, end, _) = ok-bind (get f operation (with_intent operation i' j)) h2 in
      let there = (get-Valid operation j read).0 in
      subst (λ (o : Journal S × Intent S). Grows j o.0) (ok-eq end)
        (update-Grows operation i i' j there (ground arith) refl refl refl)

  pub withdraw-Grows :
      (redact : String → String) (now operation sha : ℕ) (reason principal : String) (j : Journal S)
      {j' : Journal S}
      → withdraw f redact now operation sha reason principal j ≡ ok j'
      → Grows j j'
  unfolding withdraw
  withdraw-Grows redact now operation sha reason principal j h =
      let (line, h1, _) = ok-bind (audited_reason redact reason) h in
      let (_, h2) = ok-raise_if (not (revisable j)) not_revisable h1 in
      let (i, h3, there) = ok-or_raise (find operation j.intents) unknown_operation h2 in
      let (_, h4) = ok-raise_if (is_withdrawn i.stage) already_withdrawn h3 in
      let (prepared_now, h5) = ok-raise_if (not (is_prepared i.stage)) attempt_consumed h4 in
      let (_, h6) = ok-raise_if (not (i.sha == sha)) wrong_digest h5 in
      let (_, h7) = ok-raise_if (is_some (find operation j.withdrawals)) conflicting h6 in
      let i' : Intent S = record i { stage = withdrawn } in
      subst (Grows j) (ok-eq h7) (
        put-Grows operation i' j (λ old found.
          let same : i ≡ old = some-eq (sym there ∙ found) in
          record {
            task = ap (λ (x : Intent S). x.task_id) same;
            scope = ap (λ (x : Intent S). x.scope) same;
            sha = ap (λ (x : Intent S). x.sha) same;
            stage = inr (subst (λ (x : Intent S). is_prepared x.stage ≡ true) same (ground arith));
          }))

  pub admit-Grows :
      (disk : Disk S) (path : ℕ) (scope : S) (j : Journal S) {j' : Journal S}
      → live_rows (f.operation_of scope) (f.task_of scope) j.intents ≡ []
      → admit f disk path scope j ≡ ok j'
      → (with_intent (f.operation_of scope) (staged f scope) j ≡ j') × Grows j j'
  unfolding admit
  admit-Grows disk path scope j free h =
      let (_, h1, _) =
        ok-bind (check_admission disk path j (f.task_of scope) (f.operation_of scope)) h in
      let (_, h2) =
        ok-raise_if (remaining_records f j == 0 || ltb (remaining_bytes f j) (f.bytes scope))
          capacity_exhausted h1 in
      let none_there = live_rows-free (f.operation_of scope) (f.task_of scope) j.intents free in
      (
        ok-eq h2,
        subst (Grows j) (ok-eq h2) (
            put-Grows (f.operation_of scope) (staged f scope) j
              (λ old found. absurd (none-some (sym none_there ∙ found)))),
      )

  -- A journal after its rows were looked up: the scope was there, or is admitted.
  abbrev pub Settled : Disk S → ℕ → S → Journal S → Journal S → Type 0
  Settled disk path scope j j' =
      (j' ≡ j)
      ⊎ ((live_rows (f.operation_of scope) (f.task_of scope) j.intents ≡ [])
          × (admit f disk path scope j ≡ ok j'))

  settle-ok :
      (disk : Disk S) (path : ℕ) (scope : S) (existing : Table (Intent S)) (j : Journal S)
      {j' : Journal S}
      → live_rows (f.operation_of scope) (f.task_of scope) j.intents ≡ existing
      → settle f disk path scope existing j ≡ ok j'
      → Settled disk path scope j j'
  unfolding settle
  settle-ok disk path scope [] j found h = inr (found, h)
  settle-ok disk path scope (row ∷ more) j found h =
      let (_, same, _) = ok-bind (already_bound f scope (row ∷ more) j) h in inl (sym (ok-eq same))

  -- What a staging that succeeds did: the rows were there, or the scope is a new one.
  pub stage_scope-ok :
      (disk : Disk S) (path : ℕ) (scope : S) {out : Disk S × Intent S}
      → stage_scope f disk path scope ≡ ok out
      → (j : Journal S) × (j' : Journal S) × (find path disk ≡ some j)
        × (put path j' disk ≡ out.0)
        × (get f (f.operation_of scope) j' ≡ ok out.1)
        × ((j' ≡ j)
            ⊎ ((live_rows (f.operation_of scope) (f.task_of scope) j.intents ≡ [])
                × (admit f disk path scope j ≡ ok j')))
  unfolding stage_scope
  stage_scope-ok disk path scope {out} h =
      let (j, h1, there) = ok-or_raise (find path disk) not_a_journal h in
      let (_, h2) = ok-raise_if (ltb f.max_scope (f.bytes scope)) too_large h1 in
      let existing = live_rows (f.operation_of scope) (f.task_of scope) j.intents in
      let (j', h3, settled) = ok-bind (settle f disk path scope existing j) h2 in
      let (kept, end, read) = ok-bind (get f (f.operation_of scope) j') h3 in
      (
        j,
        j',
        there,
        ap (λ (o : Disk S × Intent S). o.0) (ok-eq end),
        read ∙ ap (λ (o : Disk S × Intent S). ok o.1) (ok-eq end),
        settle-ok disk path scope existing j refl settled,
      )

  pub Settled-Grows :
      (disk : Disk S) (path : ℕ) (scope : S) (j j' : Journal S)
      → Settled disk path scope j j'
      → Grows j j'
  Settled-Grows disk path scope j j' (inl same) = subst (Grows j) (sym same) (same-Grows j)
  Settled-Grows disk path scope j j' (inr (free, admitted)) =
      (admit-Grows disk path scope j free admitted).1
