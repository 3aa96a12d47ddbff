-- ===== src/Journal/Keeping.antt =====
-- The limits of the journals of a disk through any calls on them.
use orchd_ai.Prelude.{
  ℕ, String, ◌≡◌, refl, sym, subst, ◌∙◌, inl, inr, Bool, not, Option, none, some, some-eq, List, [],
  ◌∷◌, arith, ◌==◌, Result, ok, err, ok-bind, ok-eq, ok-raise_if, Bool-cases,
}
use orchd_ai.Table.{find, put, find-put}
use orchd_ai.Journal.{Family, Intent, Journal, Refusal, not_matching, already_revisable, revisable}
use orchd_ai.Journal.Succession.{Disk}
use orchd_ai.Journal.Operations.{stage_scope, reserve, withdraw, upgrade, audit}
use orchd_ai.Journal.Lives.{stage_scope-ok}
use orchd_ai.Journal.Limits.{Sound, Settled-Sound, reserve-Sound, withdraw-Sound}
use orchd_ai.Journal.Requests.{
  Request, stage_req, reserve_req, withdraw_req, upgrade_req, put_result, updated, update_at,
  disk_of, reserved, serve, serve_all,
}

module _ {S : Type 0} (f : Family S) where
  abbrev pub DiskSound : Disk S → Type 0
  DiskSound disk = (path : ℕ) (j : Journal S) → find path disk ≡ some j → Sound f j

  put-DiskSound :
      (path : ℕ) (j : Journal S) (disk : Disk S)
      → Sound f j
      → DiskSound disk
      → DiskSound (put path j disk)
  put-DiskSound path j disk sound all p i found = elim (Bool-cases (p == path)) [
    | inl same ↦
        subst (Sound f) (some-eq (ground arith ∙ sym (find-put path p j disk) ∙ found)) sound
    | inr other ↦ all p i (ground arith ∙ sym (find-put path p j disk) ∙ found)
  ]

  disk_of-DiskSound :
      (m : Result Refusal (Disk S × Intent S)) (disk : Disk S)
      → ((out : Disk S × Intent S) → m ≡ ok out → DiskSound out.0)
      → DiskSound disk
      → DiskSound (disk_of m disk)
  disk_of-DiskSound (ok out) disk done all = done out refl
  disk_of-DiskSound (err e) disk done all = all

  put_result-DiskSound :
      (path : ℕ) (m : Result Refusal (Journal S)) (disk : Disk S)
      → ((j' : Journal S) → m ≡ ok j' → Sound f j')
      → DiskSound disk
      → DiskSound (put_result path m disk)
  put_result-DiskSound path (ok j') disk done all = put-DiskSound path j' disk (done j' refl) all
  put_result-DiskSound path (err e) disk done all = all

  updated-DiskSound :
      (path : ℕ) (call : Journal S → Result Refusal (Journal S)) (o : Option (Journal S))
      (disk : Disk S)
      → find path disk ≡ o
      → ((j j' : Journal S) → call j ≡ ok j' → Sound f j → Sound f j')
      → DiskSound disk
      → DiskSound (updated path call o disk)
  updated-DiskSound path call none disk there keeps all = all
  updated-DiskSound path call (some j) disk there keeps all =
      put_result-DiskSound path (call j) disk (λ j' made. keeps j j' made (all path j there)) all

  update_at-DiskSound :
      (path : ℕ) (call : Journal S → Result Refusal (Journal S)) (disk : Disk S)
      → ((j j' : Journal S) → call j ≡ ok j' → Sound f j → Sound f j')
      → DiskSound disk
      → DiskSound (update_at path call disk)
  unfolding update_at
  update_at-DiskSound path call disk keeps all =
      updated-DiskSound path call (find path disk) disk refl keeps all

  upgrade-Sound :
      (matches : Journal S → Bool) (j : Journal S) {j' : Journal S}
      → upgrade f matches j ≡ ok j'
      → Sound f j
      → Sound f j'
  unfolding upgrade
  upgrade-Sound matches j h sound =
      let (_, h1) = ok-raise_if (not (matches j)) not_matching h in
      let (_, h2, _) = ok-bind (audit f j) h1 in
      let (_, h3) = ok-raise_if (revisable j) already_revisable h2 in
      let (_, h4, _) = ok-bind (audit f (record j { version = 3; withdrawals = [] })) h3 in
      subst (Sound f) (ok-eq h4) (record {
        sorted = sound.sorted;
        unique = sound.unique;
        within_records = sound.within_records;
        within_bytes = sound.within_bytes;
      })

  stage_scope-DiskSound :
      (disk : Disk S) (path : ℕ) (scope : S) (out : Disk S × Intent S)
      → stage_scope f disk path scope ≡ ok out
      → DiskSound disk
      → DiskSound out.0
  stage_scope-DiskSound disk path scope out h all =
      let (j, j', there, result, _, settled) = stage_scope-ok f disk path scope h in
      subst DiskSound result (
        put-DiskSound path j' disk (Settled-Sound f disk path scope j j' settled (all path j there))
          all)

module _ {S : Type 0} (f : Family S) (redact : String → String) where
  serve-DiskSound :
      (now path : ℕ) (r : Request S) (disk : Disk S)
      → DiskSound f disk
      → DiskSound f (serve f redact now path r disk)
  unfolding serve
  serve-DiskSound now path (stage_req scope) disk all =
      disk_of-DiskSound f (stage_scope f disk path scope) disk
        (λ out h. stage_scope-DiskSound f disk path scope out h all) all
  serve-DiskSound now path (reserve_req operation sha) disk all =
      update_at-DiskSound f path (reserved f redact now operation sha) disk
        (λ j j' h sound.
          let (out, end, made) = ok-bind (reserve f now operation sha j) h in
          subst (Sound f) (ok-eq end) (reserve-Sound f now operation sha j made sound))
        all
  serve-DiskSound now path (withdraw_req operation sha reason principal) disk all =
      update_at-DiskSound f path (withdraw f redact now operation sha reason principal) disk
        (λ j j' h sound. withdraw-Sound f redact now operation sha reason principal j h sound) all
  serve-DiskSound now path (upgrade_req matches) disk all =
      update_at-DiskSound f path (upgrade f matches) disk
        (λ j j' h sound. upgrade-Sound f matches j h sound) all

  -- Whatever is staged, reserved, withdrawn or upgraded, if each journal of a disk is within its
  -- limits of records and bytes and has at most one live operation for each task, then each still is
  -- and does.
  pub serve_all-Sound :
      (requests : List (ℕ × ℕ × Request S)) (disk : Disk S)
      → DiskSound f disk
      → DiskSound f (serve_all f redact requests disk)
  unfolding serve_all
  serve_all-Sound [] disk all = all
  serve_all-Sound ((now, path, r) ∷ rs) disk all =
      serve_all-Sound rs (serve f redact now path r disk) (serve-DiskSound now path r disk all)
