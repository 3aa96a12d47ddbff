-- ===== src/Journal/Reconciling.antt =====
-- From the reservation of an operation to the reconciling of its outcome.
use orchd_ai.Prelude.{
  ℕ, ◌≡◌, sym, ap, subst, ◌∙◌, true, false, not, ◌||◌, some, some-eq, arith, ◌==◌, ok, is_ok,
  ok-bind, ok-eq, ok-raise_if,
}
use orchd_ai.Table.{find, find-put}
use orchd_ai.Journal.{
  Family, Intent, Journal, uncertain, not_prepared, is_prepared, is_uncertain, get,
}
use orchd_ai.Journal.Operations.{reserve, with_intent}
use orchd_ai.Journal.Lives.{get-Valid}
use orchd_ai.Journal.Families.{reconcile}

prepared-certain :
    {S : Type 0} (i : Intent S) → is_prepared i.stage ≡ true → is_uncertain i.stage ≡ false
prepared-certain i h = ground arith

module _ {S R : Type 0} (f : Family S) (assess : S → R) where
  reconcile-certain :
      (operation sha : ℕ) (j : Journal S) (i : Intent S)
      → get f operation j ≡ ok i
      → is_uncertain i.stage ≡ false
      → is_ok (reconcile f assess operation sha j) ≡ false
  unfolding reconcile
  reconcile-certain operation sha j i read certain = rw read (ground (arith, certain))

  reconcile-uncertain :
      (operation sha : ℕ) (j : Journal S) (i : Intent S)
      → get f operation j ≡ ok i
      → i.sha ≡ sha
      → is_uncertain i.stage ≡ true
      → reconcile f assess operation sha j ≡ ok (i, assess i.scope)
  unfolding reconcile
  reconcile-uncertain operation sha j i read of_sha waits = rw read (ground (arith, of_sha, waits))

  -- A reservation that succeeds turns an operation that could not be reconciled, under whatever
  -- digest, into one that can, under the digest that was reserved; what is assessed is the scope
  -- that was staged.
  pub reserve-reconcile :
      (now operation sha : ℕ) (j : Journal S) (out : Journal S × Intent S)
      → reserve f now operation sha j ≡ ok out
      → ((any : ℕ) → is_ok (reconcile f assess operation any j) ≡ false)
        × ((before : Intent S) × (find operation j.intents ≡ some before)
            × (before.scope ≡ out.1.scope))
        × (reconcile f assess operation sha out.0 ≡ ok (out.1, assess out.1.scope))
  unfolding reserve
  reserve-reconcile now operation sha j out h =
      let (i, h1, read) = ok-bind (get f operation j) h in
      let (usable, h2) =
        ok-raise_if (not (i.sha == sha) || not (is_prepared i.stage)) not_prepared h1 in
      let i' : Intent S = record i { stage = uncertain; reserved_at = some now } in
      let j' = with_intent operation i' j in
      let (kept, end, given) = ok-bind (get f operation j') h2 in
      let is_i' : i' ≡ kept = some-eq (
        sym (find-put operation operation i' j.intents ∙ ground arith)
        ∙ (get-Valid f operation j' given).0) in
      let same : kept ≡ out.1 = ap (λ (o : Journal S × Intent S). o.1) (ok-eq end) in
      let of_sha : i.sha ≡ sha = ground arith in
      (
        λ any. reconcile-certain operation any j i read (prepared-certain i (ground arith)),
        (i, (get-Valid f operation j read).0, ap (λ (x : Intent S). x.scope) (is_i' ∙ same)),
        subst
            (λ (o : Journal S × Intent S).
              reconcile f assess operation sha o.0 ≡ ok (o.1, assess o.1.scope))
            (ok-eq end)
            (reconcile-uncertain operation sha j' kept given
              (ap (λ (x : Intent S). x.sha) (sym is_i') ∙ of_sha)
              (ap (λ (x : Intent S). is_uncertain x.stage) (sym is_i'))),
      )
