-- ===== src/Journal/Interruption.antt =====
-- What a retirement leaves, whether it is interrupted after its first commit or is complete.
use orchd_ai.Prelude.{
  ℕ, String, ◌≡◌, refl, sym, ap, subst, ◌∙◌, inl, inr, Bool, true, false, not, Option, none, some,
  some-eq, arith, ◌==◌, ok, ok-bind, ok-eq, ok-raise_if, ok-or_raise, Result-cases, is_some, is_ok,
}
use orchd_ai.Table.{find, find-put}
use orchd_ai.Journal.{
  Intent, Retired, Journal, not_a_journal, same_file, shared_name, no_parent, already_retired,
  successor_exists, not_matching, is_live,
}
use orchd_ai.Journal.Succession.{
  Disk, audited_reason, names, read_retired, read_follows, check_admission,
}
use orchd_ai.Journal.Retirement.{
  Notice, retired_record, follows_record, appoint, ready, begin_retirement, retire,
}
use orchd_ai.Journal.Heirs.{
  heir_of, closed, absent, appoint-ok, close-ok, closed-refuses, heir-refuses, heir-admits,
  install-intents,
}

module _ {S : Type 0} (redact : String → String) (shares_name : ℕ → ℕ → Bool)
    (has_parent : ℕ → Bool) (matches : Journal S → Bool) where
  ready-ok :
      (path successor : ℕ) (n : Notice) (disk : Disk S) {out : Notice × Journal S}
      → ready redact shares_name has_parent matches path successor n disk ≡ ok out
      → ((path == successor) ≡ false)
        × (find path disk ≡ some out.1)
        × (read_retired path out.1 ≡ ok none)
        × (find successor disk ≡ none)
  unfolding ready
  ready-ok path successor n disk {out} h =
      let (line, h1, _) = ok-bind (audited_reason redact n.reason) h in
      let (apart, h2) = ok-raise_if (path == successor) same_file h1 in
      let (_, h3) = ok-raise_if (shares_name path successor) shared_name h2 in
      let (j, h4, there) = ok-or_raise (find path disk) not_a_journal h3 in
      let (_, h5) = ok-raise_if (not (has_parent successor)) no_parent h4 in
      let (retired, h6, read) = ok-bind (read_retired path j) h5 in
      let (_, h7, _) = ok-bind (read_follows path j) h6 in
      let (open_now, h8) = ok-raise_if (is_some retired) already_retired h7 in
      let (free, h9) = ok-raise_if (is_some (find successor disk)) successor_exists h8 in
      let (_, h10) = ok-raise_if (not (matches j)) not_matching h9 in
      let is_j : j ≡ out.1 = ap (λ (o : Notice × Journal S). o.1) (ok-eq h10) in
      (
        apart,
        there ∙ ap some is_j,
        ap (read_retired path) (sym is_j) ∙ read ∙ ap ok (absent retired open_now),
        absent (find successor disk) free,
      )

  -- The disk after the first commit: the journal as it was, and its heir.
  begin_retirement-disk :
      (path successor : ℕ) (n : Notice) (disk : Disk S) (disk' : Disk S)
      → begin_retirement redact shares_name has_parent matches path successor n disk ≡ ok disk'
      → (j : Journal S) × (kept : Notice) × (find path disk ≡ some j)
        × (find path disk' ≡ some j)
        × (read_retired path j ≡ ok none)
        × (find successor disk' ≡ some (heir_of (follows_record path successor kept j)))
  unfolding begin_retirement
  begin_retirement-disk path successor n disk disk' h =
      let ((kept, j), h1, checked) =
        ok-bind (ready redact shares_name has_parent matches path successor n disk) h in
      let (apart, there, active, free) = ready-ok path successor n disk checked in
      let heir = heir_of (follows_record path successor kept j) in
      let made = appoint-ok successor (follows_record path successor kept j) disk free h1 in
      (
        j,
        kept,
        there,
        subst (λ x. find path x ≡ some j) made (find-put successor path heir disk ∙ rw apart there),
        active,
        subst (λ x. find successor x ≡ some heir) made
            (find-put successor successor heir disk ∙ ground arith),
      )

  -- A retirement that is interrupted between its two commits leaves the journal as it was and not
  -- retired, and an heir that admits no operation of any task.
  pub begin_retirement-interrupted :
      (path successor : ℕ) (n : Notice) (disk disk' : Disk S)
      → begin_retirement redact shares_name has_parent matches path successor n disk ≡ ok disk'
      → (j heir : Journal S) × (find path disk ≡ some j)
        × (find path disk' ≡ some j)
        × (read_retired path j ≡ ok none)
        × (find successor disk' ≡ some heir)
        × ((task operation : ℕ)
            → is_ok (check_admission disk' successor heir task operation) ≡ false)
  begin_retirement-interrupted path successor n disk disk' h =
      let (j, kept, there, still, active, heir_there) =
        begin_retirement-disk path successor n disk disk' h in
      let link = follows_record path successor kept j in
      let refuses : (task operation : ℕ)
          → is_ok (check_admission disk' successor (heir_of link) task operation) ≡ false =
        λ task operation.
          elim (Result-cases (check_admission disk' successor (heir_of link) task operation)) [
            | inl (e, refused) ↦ rw refused refl
            | inr (u, admitted) ↦
                let (previous, retired, previous_there, back, named, _) =
                  heir-admits disk' successor task operation link (ground arith) admitted in
                let same : previous ≡ j = some-eq (sym previous_there ∙ still) in
                let none_named : none ≡ retired =
                  ok-eq (sym active ∙ ap (read_retired path) (sym same) ∙ back) in
                absurd (unnamed successor none_named named)
          ] in
      (j, heir_of link, there, still, active, heir_there, refuses)
    where
      unnamed :
          (successor : ℕ) {retired : Option Retired}
          → none ≡ retired
          → ¬ (names retired successor ≡ true)
      unnamed successor is_none named = cc

  -- A retirement that succeeds leaves every intent as it was, the journal refuses whatever is new to
  -- it, and its successor refuses each operation that the journal has, in whatever state, and each
  -- task of which the journal has an operation that was not withdrawn.
  pub retire-closed :
      (path successor : ℕ) (n : Notice) (disk disk' : Disk S)
      → retire redact shares_name has_parent matches path successor n disk ≡ ok disk'
      → (j old heir : Journal S) × (find path disk ≡ some j)
        × (find path disk' ≡ some old)
        × (find successor disk' ≡ some heir)
        × (old.intents ≡ j.intents)
        × ((task operation : ℕ) → is_ok (check_admission disk' path old task operation) ≡ false)
        × ((task operation k : ℕ) (i : Intent S)
            → find k j.intents ≡ some i
            → is_live operation task k i ≡ true
            → is_ok (check_admission disk' successor heir task operation) ≡ false)
  unfolding retire
  retire-closed path successor n disk disk' h =
      let ((kept, j), h1, checked) =
        ok-bind (ready redact shares_name has_parent matches path successor n disk) h in
      let (apart, there, active, free) = ready-ok path successor n disk checked in
      let follows = follows_record path successor kept j in
      let retired = retired_record path successor kept j in
      let heir : Journal S = heir_of follows in
      let old = closed retired j in
      let (between, h2, first) = ok-bind (appoint successor follows disk) h1 in
      let made = appoint-ok successor follows disk free first in
      let done = close-ok path retired j between h2 in
      let old_there : find path disk' ≡ some old =
        subst (λ x. find path x ≡ some old) done (find-put path path old between ∙ ground arith) in
      let heir_between : find successor between ≡ some heir =
        subst (λ x. find successor x ≡ some heir) made
          (find-put successor successor heir disk ∙ ground arith) in
      let heir_there : find successor disk' ≡ some heir =
        subst (λ x. find successor x ≡ some heir) done
          (find-put path successor old between ∙ ground (arith, apart, heir_between)) in
      (
        j,
        old,
        heir,
        there,
        old_there,
        heir_there,
        install-intents j,
        λ task operation. closed-refuses disk' path task operation retired j (ground arith),
        λ task operation k i found live.
            heir-refuses disk' successor task operation k follows old i (ground arith) old_there
              (ap (find k) (install-intents j) ∙ found) live,
      )
