-- ===== src/Journal/Limits.antt =====
-- What holds of every journal: a task has one operation that was not withdrawn, and the journal is
-- within its limits.
use orchd_ai.Prelude.{
  ℕ, ◌≤◌, String, ◌≡◌, refl, sym, ap, subst, ◌∙◌, ◌⊎◌, inl, inr, true, false, not, ◌||◌, some,
  some-eq, [], ◌∷◌, arith, ltb, ◌==◌, is_some, ok, ok-bind, ok-eq, ok-raise_if, ok-or_raise,
  Bool-cases,
}
use orchd_ai.Table.{Table, find, put, find-put, total-put, IsSorted, put-IsSorted}
use orchd_ai.Journal.{
  Family, Stage, prepared, uncertain, withdrawn, Intent, Journal, unknown_operation, not_prepared,
  not_revisable, already_withdrawn, attempt_consumed, wrong_digest, conflicting, capacity_exhausted,
  is_prepared, is_withdrawn, is_live, live_rows, records, scope_bytes, get, remaining_records,
  remaining_bytes, max_records, max_total, revisable,
}
use orchd_ai.Journal.Succession.{Disk, check_admission, audited_reason}
use orchd_ai.Journal.Operations.{staged, with_intent, admit, reserve, withdraw}
use orchd_ai.Journal.Lives.{get-Valid, live_rows-free, Settled}

module _ {S : Type 0} where
  pub live_rows-not_live :
      (operation task k : ℕ) (t : Table (Intent S)) {i : Intent S}
      → live_rows operation task t ≡ []
      → find k t ≡ some i
      → is_live operation task k i ≡ false
  unfolding live_rows find
  live_rows-not_live operation task k [] none_live there = cc
  live_rows-not_live operation task k ((l, m) ∷ t) {i} none_live there =
      ground (arith, live_rows-not_live operation task k t {i = i})

module _ {S : Type 0} (f : Family S) where
  pub record Sound (j : Journal S) : Type 0 where
    pub sorted : IsSorted j.intents
    -- Two operations of one task are one, or one of them was withdrawn.
    pub unique :
        (k l : ℕ) (i m : Intent S)
        → find k j.intents ≡ some i
        → find l j.intents ≡ some m
        → i.task_id ≡ m.task_id
        → is_withdrawn i.stage ≡ false
        → is_withdrawn m.stage ≡ false
        → k ≡ l
    pub within_records : records j.intents ≤ max_records
    pub within_bytes : scope_bytes f j.intents ≤ max_total

  -- The live intents of one journal are live intents of another, of the same tasks.
  abbrev LiveWithin : Journal S → Journal S → Type 0
  LiveWithin j' j =
      (k : ℕ) (a : Intent S)
      → find k j'.intents ≡ some a
      → is_withdrawn a.stage ≡ false
      → (old : Intent S) × (find k j.intents ≡ some old)
        × (old.task_id ≡ a.task_id)
        × (is_withdrawn old.stage ≡ false)

  update-LiveWithin :
      (operation : ℕ) (i i' : Intent S) (j : Journal S)
      → find operation j.intents ≡ some i
      → i'.task_id ≡ i.task_id
      → is_withdrawn i.stage ≡ false
      → LiveWithin (with_intent operation i' j) j
  update-LiveWithin operation i i' j there task live k a found live_a =
      elim (Bool-cases (k == operation)) [
        | inl same ↦
            let is_i' : i' ≡ a =
              some-eq (ground arith ∙ sym (find-put operation k i' j.intents) ∙ found) in
            (
              i,
              ap (λ x. find x j.intents) (ground arith) ∙ there,
              sym task ∙ ap (λ (x : Intent S). x.task_id) is_i',
              live,
            )
        | inr other ↦
            (a, ground arith ∙ sym (find-put operation k i' j.intents) ∙ found, refl, live_a)
      ]

  -- Writing back an intent with the same task and scope, of one that was live.
  update-Sound :
      (operation : ℕ) (i i' : Intent S) (j : Journal S)
      → find operation j.intents ≡ some i
      → i'.task_id ≡ i.task_id
      → i'.scope ≡ i.scope
      → is_withdrawn i.stage ≡ false
      → Sound j
      → Sound (with_intent operation i' j)
  update-Sound operation i i' j there task scope live h = record {
    sorted = put-IsSorted operation i' j.intents h.sorted;
    unique = λ k l a b found_k found_l same live_a live_b.
        let within = update-LiveWithin operation i i' j there task live in
        let (old, old_there, old_task, old_live) = within k a found_k live_a in
        let (other, other_there, other_task, other_live) = within l b found_l live_b in
        h.unique k l old other old_there other_there (old_task ∙ same ∙ sym other_task) old_live
          other_live;
    within_records = ground (
      arith,
      total-put (λ (x : Intent S). 1) operation i' j.intents h.sorted,
      there,
      h.within_records,
    );
    within_bytes = ground (
      arith,
      total-put (λ (x : Intent S). f.bytes x.scope) operation i' j.intents h.sorted,
      there,
      scope,
      h.within_bytes,
    );
  }

  -- A row of the journal after an admission: the new one, or another, of which a live one is of
  -- another task.
  abbrev OldRow : ℕ → Intent S → Journal S → ℕ → Intent S → Type 0
  OldRow operation i j k a = (find k j.intents ≡ some a) × (is_live operation i.task_id k a ≡ false)

  admit-row :
      (operation : ℕ) (i : Intent S) (j : Journal S) (k : ℕ) (a : Intent S)
      → live_rows operation i.task_id j.intents ≡ []
      → find k (put operation i j.intents) ≡ some a
      → ((k ≡ operation) × (i ≡ a)) ⊎ OldRow operation i j k a
  admit-row operation i j k a free found = elim (Bool-cases (k == operation)) [
    | inl same ↦
        inl (ground arith, some-eq (ground arith ∙ sym (find-put operation k i j.intents) ∙ found))
    | inr other ↦
        let old : find k j.intents ≡ some a =
          ground arith ∙ sym (find-put operation k i j.intents) ∙ found in
        inr (old, live_rows-not_live operation i.task_id k j.intents free old)
  ]

  -- An operation that is admitted is the one live operation of its task.
  admit_unique :
      (operation : ℕ) (i : Intent S) (j : Journal S)
      → live_rows operation i.task_id j.intents ≡ []
      → Sound j
      → (k l : ℕ) (a b : Intent S) → find k (put operation i j.intents) ≡ some a
      → find l (put operation i j.intents) ≡ some b
      → a.task_id ≡ b.task_id
      → is_withdrawn a.stage ≡ false
      → is_withdrawn b.stage ≡ false
      → k ≡ l
  admit_unique operation i j free h k l a b found_k found_l same live_a live_b =
      elim (admit-row operation i j k a free found_k) [
        | inl (new_k, is_a) ↦ elim (admit-row operation i j l b free found_l) [
          | inl (new_l, is_b) ↦ new_k ∙ sym new_l
          | inr (old_l, dead_l) ↦
              let of_task : i.task_id ≡ b.task_id = ap (λ (x : Intent S). x.task_id) is_a ∙ same in
              ground arith
        ]
        | inr (old_k, dead_k) ↦ elim (admit-row operation i j l b free found_l) [
          | inl (new_l, is_b) ↦
              let of_task : i.task_id ≡ a.task_id =
                ap (λ (x : Intent S). x.task_id) is_b ∙ sym same in
              ground arith
          | inr (old_l, dead_l) ↦ h.unique k l a b old_k old_l same live_a live_b
        ]
      ]

  pub admit-Sound :
      (disk : Disk S) (path : ℕ) (scope : S) (j : Journal S) {j' : Journal S}
      → live_rows (f.operation_of scope) (f.task_of scope) j.intents ≡ []
      → admit f disk path scope j ≡ ok j'
      → Sound j
      → Sound j'
  unfolding admit remaining_records remaining_bytes
  admit-Sound disk path scope j free h sound =
      let operation = f.operation_of scope in
      let i = staged f scope in
      let (_, h1, _) = ok-bind (check_admission disk path j (f.task_of scope) operation) h in
      let (room, h2) =
        ok-raise_if (remaining_records f j == 0 || ltb (remaining_bytes f j) (f.bytes scope))
          capacity_exhausted h1 in
      let absent = live_rows-free operation (f.task_of scope) j.intents free in
      let count = total-put (λ (x : Intent S). 1) operation i j.intents sound.sorted in
      let bytes =
        total-put (λ (x : Intent S). f.bytes x.scope) operation i j.intents sound.sorted in
      subst Sound (ok-eq h2) (record {
        sorted = put-IsSorted operation i j.intents sound.sorted;
        unique = admit_unique operation i j free sound;
        within_records = ground (arith, count, absent, sound.within_records);
        within_bytes = ground (arith, bytes, absent, sound.within_bytes);
      })

  pub Settled-Sound :
      (disk : Disk S) (path : ℕ) (scope : S) (j j' : Journal S)
      → Settled f disk path scope j j'
      → Sound j
      → Sound j'
  Settled-Sound disk path scope j j' (inl same) sound = subst Sound (sym same) sound
  Settled-Sound disk path scope j j' (inr (free, admitted)) sound =
      admit-Sound disk path scope j free admitted sound

  pub reserve-Sound :
      (now operation sha : ℕ) (j : Journal S) {out : Journal S × Intent S}
      → reserve f now operation sha j ≡ ok out
      → Sound j
      → Sound out.0
  unfolding reserve
  reserve-Sound now operation sha j h sound =
      let (i, h1, read) = ok-bind (get f operation j) h in
      let (usable, h2) =
        ok-raise_if (not (i.sha == sha) || not (is_prepared i.stage)) not_prepared h1 in
      let i' : Intent S = record i { stage = uncertain; reserved_at = some now } in
      let (kept, end, _) = ok-bind (get f operation (with_intent operation i' j)) h2 in
      subst (λ (o : Journal S × Intent S). Sound o.0) (ok-eq end)
        (update-Sound operation i i' j (get-Valid f operation j read).0 refl refl
          (prepared-live i.stage (ground arith)) sound)
    where
      prepared-live : (s : Stage) → is_prepared s ≡ true → is_withdrawn s ≡ false
      prepared-live prepared h = refl
      prepared-live uncertain h = refl
      prepared-live withdrawn h = cc

  pub withdraw-Sound :
      (redact : String → String) (now operation sha : ℕ) (reason principal : String) (j : Journal S)
      {j' : Journal S}
      → withdraw f redact now operation sha reason principal j ≡ ok j'
      → Sound j
      → Sound j'
  unfolding withdraw
  withdraw-Sound redact now operation sha reason principal j h sound =
      let (line, h1, _) = ok-bind (audited_reason redact reason) h in
      let (_, h2) = ok-raise_if (not (revisable j)) not_revisable h1 in
      let (i, h3, there) = ok-or_raise (find operation j.intents) unknown_operation h2 in
      let (live, h4) = ok-raise_if (is_withdrawn i.stage) already_withdrawn h3 in
      let (_, h5) = ok-raise_if (not (is_prepared i.stage)) attempt_consumed h4 in
      let (_, h6) = ok-raise_if (not (i.sha == sha)) wrong_digest h5 in
      let (_, h7) = ok-raise_if (is_some (find operation j.withdrawals)) conflicting h6 in
      let i' : Intent S = record i { stage = withdrawn } in
      let kept = update-Sound operation i i' j there refl refl live sound in
      subst Sound (ok-eq h7) (record {
        sorted = kept.sorted;
        unique = kept.unique;
        within_records = kept.within_records;
        within_bytes = kept.within_bytes;
      })
