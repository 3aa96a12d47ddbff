-- ===== src/Journal/Requests.antt =====
-- Stagings, reservations, withdrawals and upgrades on the journals of a disk, one after the other. A
-- refusal leaves every file as it was. Retirement is not among them.
use orchd_ai.Prelude.{
  ℕ, String, ◌≡◌, refl, sym, ap, subst, ◌∙◌, inl, inr, Bool, true, false, not, Option, none, some,
  some-eq, List, [], ◌∷◌, arith, ◌==◌, Result, ok, err, ok-bind, ok-eq, ok-raise_if, Result-cases,
  Bool-cases, is_ok, ◌>>=◌, ◌||◌,
}
use orchd_ai.Table.{find, put, find-put}
use orchd_ai.Journal.{
  Family, Intent, Journal, Refusal, is_prepared, not_matching, already_revisable, not_prepared,
  revisable, get,
}
use orchd_ai.Journal.Succession.{Disk}
use orchd_ai.Journal.Operations.{stage_scope, reserve, withdraw, upgrade, audit}
use orchd_ai.Journal.Lives.{
  Grows, same-Grows, reserve-Grows, withdraw-Grows, Settled-Grows, stage_scope-ok, get-Valid,
}

-- A call on the journal at a path; an upgrade comes with what its snapshot is compared to.
pub data Request (S : Type 0) : Type 0 where
  stage_req : S → Request S
  reserve_req : ℕ → ℕ → Request S
  withdraw_req : ℕ → ℕ → String → String → Request S
  upgrade_req : (Journal S → Bool) → Request S

module _ {S : Type 0} where
  -- The file at a path with what a call makes of it.
  abbrev pub put_result : ℕ → Result Refusal (Journal S) → Disk S → Disk S
  put_result path (ok j) disk = put path j disk
  put_result path (err _) disk = disk

  abbrev pub updated :
      ℕ → (Journal S → Result Refusal (Journal S)) → Option (Journal S) → Disk S → Disk S
  updated path call none disk = disk
  updated path call (some j) disk = put_result path (call j) disk

  -- The file at a path after a call on it.
  unfoldable pub update_at : ℕ → (Journal S → Result Refusal (Journal S)) → Disk S → Disk S
  update_at path call disk = updated path call (find path disk) disk

-- The disk that a staging leaves.
abbrev pub disk_of : {S : Type 0} → Result Refusal (Disk S × Intent S) → Disk S → Disk S
disk_of (ok (disk', _)) disk = disk'
disk_of (err _) disk = disk

module _ {S : Type 0} (f : Family S) (redact : String → String) where
  abbrev pub reserved : ℕ → ℕ → ℕ → Journal S → Result Refusal (Journal S)
  reserved now operation sha j = do out ← reserve f now operation sha j; ok out.0

  -- One call, at its time and on its file.
  unfoldable pub serve : ℕ → ℕ → Request S → Disk S → Disk S
  serve now path (stage_req scope) disk = disk_of (stage_scope f disk path scope) disk
  serve now path (reserve_req operation sha) disk = update_at path (reserved now operation sha) disk
  serve now path (withdraw_req operation sha reason principal) disk =
      update_at path (withdraw f redact now operation sha reason principal) disk
  serve now path (upgrade_req matches) disk = update_at path (upgrade f matches) disk

  unfoldable pub serve_all : List (ℕ × ℕ × Request S) → Disk S → Disk S
  serve_all [] disk = disk
  serve_all ((now, path, r) ∷ rs) disk = serve_all rs (serve now path r disk)

-- Every file is still there, with every intent.
abbrev pub DiskGrows : {S : Type 0} → Disk S → Disk S → Type 0
DiskGrows {S} disk disk' =
    (path : ℕ) (j : Journal S)
    → find path disk ≡ some j
    → (j' : Journal S) × (find path disk' ≡ some j') × Grows j j'

module _ {S : Type 0} where
  same-DiskGrows : (disk : Disk S) → DiskGrows disk disk
  same-DiskGrows disk path j there = (j, there, same-Grows j)

  put-DiskGrows :
      (path : ℕ) (j j' : Journal S) (disk : Disk S)
      → find path disk ≡ some j
      → Grows j j'
      → DiskGrows disk (put path j' disk)
  put-DiskGrows path j j' disk there grows p old found = elim (Bool-cases (p == path)) [
    | inl same ↦
        let is_j : j ≡ old = some-eq (sym there ∙ ap (λ x. find x disk) (ground arith) ∙ found) in
        (j', find-put path p j' disk ∙ ground arith, subst (λ x. Grows x j') is_j grows)
    | inr other ↦ (old, find-put path p j' disk ∙ ground arith, same-Grows old)
  ]

  disk_of-DiskGrows :
      (m : Result Refusal (Disk S × Intent S)) (disk : Disk S)
      → ((out : Disk S × Intent S) → m ≡ ok out → DiskGrows disk out.0)
      → DiskGrows disk (disk_of m disk)
  disk_of-DiskGrows (ok out) disk grows = grows out refl
  disk_of-DiskGrows (err e) disk grows = same-DiskGrows disk

  put_result-DiskGrows :
      (path : ℕ) (j : Journal S) (m : Result Refusal (Journal S)) (disk : Disk S)
      → find path disk ≡ some j
      → ((j' : Journal S) → m ≡ ok j' → Grows j j')
      → DiskGrows disk (put_result path m disk)
  put_result-DiskGrows path j (ok j') disk there grows =
      put-DiskGrows path j j' disk there (grows j' refl)
  put_result-DiskGrows path j (err e) disk there grows = same-DiskGrows disk

  updated-DiskGrows :
      (path : ℕ) (call : Journal S → Result Refusal (Journal S)) (o : Option (Journal S))
      (disk : Disk S)
      → find path disk ≡ o
      → ((j j' : Journal S) → call j ≡ ok j' → Grows j j')
      → DiskGrows disk (updated path call o disk)
  updated-DiskGrows path call none disk there grows = same-DiskGrows disk
  updated-DiskGrows path call (some j) disk there grows =
      put_result-DiskGrows path j (call j) disk there (grows j)

  update_at-DiskGrows :
      (path : ℕ) (call : Journal S → Result Refusal (Journal S)) (disk : Disk S)
      → ((j j' : Journal S) → call j ≡ ok j' → Grows j j')
      → DiskGrows disk (update_at path call disk)
  unfolding update_at
  update_at-DiskGrows path call disk grows =
      updated-DiskGrows path call (find path disk) disk refl grows

module _ {S : Type 0} (f : Family S) (redact : String → String) where
  upgrade-Grows :
      (matches : Journal S → Bool) (j : Journal S) {j' : Journal S}
      → upgrade f matches j ≡ ok j'
      → Grows j j'
  unfolding upgrade
  upgrade-Grows matches j h =
      let (_, h1) = ok-raise_if (not (matches j)) not_matching h in
      let (_, h2, _) = ok-bind (audit f j) h1 in
      let (_, h3) = ok-raise_if (revisable j) already_revisable h2 in
      let (_, h4, _) = ok-bind (audit f (record j { version = 3; withdrawals = [] })) h3 in
      subst (Grows j) (ok-eq h4) (same-Grows j)

  stage_scope-DiskGrows :
      (disk : Disk S) (path : ℕ) (scope : S) {out : Disk S × Intent S}
      → stage_scope f disk path scope ≡ ok out
      → DiskGrows disk out.0
  stage_scope-DiskGrows disk path scope h =
      let (j, j', there, result, _, settled) = stage_scope-ok f disk path scope h in
      subst (DiskGrows disk) result
        (put-DiskGrows path j j' disk there (Settled-Grows f disk path scope j j' settled))

  serve-DiskGrows :
      (now path : ℕ) (r : Request S) (disk : Disk S)
      → DiskGrows disk (serve f redact now path r disk)
  unfolding serve
  serve-DiskGrows now path (stage_req scope) disk =
      disk_of-DiskGrows (stage_scope f disk path scope) disk
        (λ out h. stage_scope-DiskGrows disk path scope h)
  serve-DiskGrows now path (reserve_req operation sha) disk =
      update_at-DiskGrows path (reserved f redact now operation sha) disk (λ j j' h.
        let (out, end, made) = ok-bind (reserve f now operation sha j) h in
        subst (Grows j) (ok-eq end) (reserve-Grows f now operation sha j made))
  serve-DiskGrows now path (withdraw_req operation sha reason principal) disk =
      update_at-DiskGrows path (withdraw f redact now operation sha reason principal) disk
        (λ j j' h. withdraw-Grows f redact now operation sha reason principal j h)
  serve-DiskGrows now path (upgrade_req matches) disk =
      update_at-DiskGrows path (upgrade f matches) disk (λ j j' h. upgrade-Grows matches j h)

  not_reserved :
      (now operation sha : ℕ) (j : Journal S) (i : Intent S) {out : Journal S × Intent S}
      → find operation j.intents ≡ some i
      → is_prepared i.stage ≡ false
      → ¬ (reserve f now operation sha j ≡ ok out)
  unfolding reserve
  not_reserved now operation sha j i there consumed h =
      let (read, h1, given) = ok-bind (get f operation j) h in
      let same : read ≡ i = some-eq (sym (get-Valid f operation j given).0 ∙ there) in
      let (usable, _) =
        ok-raise_if (not (read.sha == sha) || not (is_prepared read.stage)) not_prepared h1 in
      let state : is_prepared i.stage ≡ true =
        subst (λ (x : Intent S). is_prepared x.stage ≡ true) same (ground arith) in
      absurd (ground arith)

  reserve-consumed :
      (now operation sha : ℕ) (j : Journal S) (i : Intent S)
      → find operation j.intents ≡ some i
      → is_prepared i.stage ≡ false
      → is_ok (reserve f now operation sha j) ≡ false
  reserve-consumed now operation sha j i there consumed =
      elim (Result-cases (reserve f now operation sha j)) [
        | inl (e, refused) ↦ rw refused refl
        | inr (out, done) ↦ absurd (not_reserved now operation sha j i there consumed done)
      ]

  -- An intent that was reserved or withdrawn never changes again, whatever is staged, reserved,
  -- withdrawn or upgraded on whatever journals of the disk, and each later call to reserve it is
  -- refused: an operation has one attempt.
  pub serve_all-consumed :
      (requests : List (ℕ × ℕ × Request S)) (disk : Disk S) (path operation : ℕ) (j : Journal S)
      (i : Intent S)
      → find path disk ≡ some j
      → find operation j.intents ≡ some i
      → is_prepared i.stage ≡ false
      → (j' : Journal S) × (find path (serve_all f redact requests disk) ≡ some j')
        × (find operation j'.intents ≡ some i)
        × ((now sha : ℕ) → is_ok (reserve f now operation sha j') ≡ false)
  unfolding serve_all
  serve_all-consumed [] disk path operation j i there kept consumed =
      (j, there, kept, λ now sha. reserve-consumed now operation sha j i kept consumed)
  serve_all-consumed ((now, at, r) ∷ rs) disk path operation j i there kept consumed =
      let (j', there', grows) = serve-DiskGrows now at r disk path j there in
      let (i', kept', life) = grows operation i kept in
      elim life.stage [
        | inl same ↦
            serve_all-consumed rs (serve f redact now at r disk) path operation j' i there'
              (kept' ∙ ap some same) consumed
        | inr usable ↦ cc
      ]
