-- ===== src/Consultations/Capacity.antt =====
-- How many consultations are open at once.
use orchd_ai.Prelude.{
  ℕ, ◌+◌, ◌≤◌, String, ◌≡◌, Bool, true, false, Option, none, some, List, arith, ok, Option-cases,
  refl, inl, inr, not, str_eq, ◌||◌,
}
use orchd_ai.Table.{Table, find, put, weight, total-put, IsSorted}
use orchd_ai.Roles.{Role, is_agent}
use orchd_ai.Consultations.{
  answering, closed, withdrawn, answered, answerable, fresh, is_closed, Consultation, Rows, Report,
  max_open, open_count, is_open, one_if, take, ask, outside, reported, answer, close, withdraw,
}
use orchd_ai.Consultations.Lifecycle.{IsKeyed}
use orchd_ai.Consultations.Requests.{
  Request, take_req, ask_req, answer_req, withdraw_req, close_req, serve, after,
}

open_count-put :
    (k : ℕ) (r : Consultation) (rows : Rows)
    → IsSorted rows
    → open_count (put k r rows)
        + weight (λ (x : Consultation). one_if (is_open x.state)) (find k rows)
      ≡ open_count rows + one_if (is_open r.state)
unfolding open_count
open_count-put k r rows sorted =
    total-put (λ (x : Consultation). one_if (is_open x.state)) k r rows sorted

-- A question that was closed is taken by any agent of its role: its answer is read again as a
-- question that is open, and one more consultation is open than before.
pub take-closed :
    (now id : ℕ) (agent : String) (roles : List Role) (rows : Rows) {r : Consultation}
    → IsSorted rows
    → find id rows ≡ some r
    → r.id ≡ id
    → r.state ≡ closed
    → is_agent agent ≡ true
    → outside roles r.role ≡ false
    → (rows' : Rows) × (report : Report) × (take now id agent roles rows ≡ ok (rows', report))
      × (report.state ≡ answering)
      × (open_count rows' ≡ open_count rows + 1)
unfolding take reported
take-closed now id agent roles rows {r} sorted there key shut named role =
    let r' : Consultation = record r {
      state = answering;
      agent = some agent;
      taken_at = some now;
    } in
    (
      put r.id r' rows,
      reported r',
      ground arith,
      refl,
      ground (arith, open_count-put r.id r' rows sorted),
    )

-- A request that takes a closed consultation.
abbrev pub reopens : Request → Rows → Bool
reopens (take_req id _ _) rows = elim (find id rows) [ none ↦ false | some r ↦ is_closed r.state ]
reopens _ rows = false

module _ (now id : ℕ) (rows : Rows) (sorted : IsSorted rows) (keyed : IsKeyed rows) where
  abbrev changed : Consultation → ℕ
  changed r' = open_count (put r'.id r' rows)

  -- A version that is open only if the record was keeps the number of open ones, or lowers it.
  open_count-put_le :
      (r r' : Consultation)
      → find id rows ≡ some r
      → r'.id ≡ r.id
      → one_if (is_open r'.state) ≤ one_if (is_open r.state)
      → changed r' ≤ open_count rows
  open_count-put_le r r' there same le =
      ground (arith, keyed id r there, open_count-put r'.id r' rows sorted)

  open_count-take :
      (agent : String) (roles : List Role)
      → reopens (take_req id agent roles) rows ≡ false
      → open_count (after (take now id agent roles rows) rows) ≤ open_count rows
  unfolding take answerable
  open_count-take agent roles shut = elim (Option-cases (find id rows)) [
    | inl missing ↦ ground arith
    | inr (r, there) ↦ ground (
      arith,
      open_count-put_le r (record r { state = answering; agent = some agent; taken_at = some now })
          there refl,
    )
  ]

  open_count-withdraw :
      (who : String) → open_count (after (withdraw now id who rows) rows) ≤ open_count rows
  unfolding withdraw
  open_count-withdraw who = elim (Option-cases (find id rows)) [
    | inl missing ↦ ground arith
    | inr (r, there) ↦ ground (
      arith,
      open_count-put_le r
          (record r { state = withdrawn; withdrawn_by = some who; withdrawn_at = some now }) there
          refl,
    )
  ]

  open_count-close :
      (who : String) → open_count (after (close now id who rows) rows) ≤ open_count rows
  unfolding close
  open_count-close who = elim (Option-cases (find id rows)) [
    | inl missing ↦ ground arith
    | inr (r, there) ↦ ground (
      arith,
      open_count-put_le r (record r { state = closed; closed_by = some who; closed_at = some now })
          there refl,
    )
  ]

  open_count-answer :
      (redact : String → String) (agent reply : String) (roles : List Role)
      → open_count (after (answer redact now id agent reply roles rows) rows) ≤ open_count rows
  unfolding answer
  open_count-answer redact agent reply roles = elim (Option-cases (find id rows)) [
    | inl missing ↦ ground arith
    | inr (r, there) ↦ ground (
      arith,
      open_count-put_le r
          (record r {
            state = answered;
            agent = some agent;
            answer = some (redact reply);
            answered_at = some now;
            redacted = r.redacted || not (str_eq (redact reply) reply);
          })
          there refl,
    )
  ]

module _ {ℓ} (redact : String → String) {T : Type ℓ} (tasks : Table T) where
  open_count-ask :
      (now id : ℕ) (role : Role) (question who : String) (about : Option ℕ) (rows : Rows)
      → IsSorted rows
      → open_count rows ≤ max_open
      → open_count (after (ask redact tasks now id role question who about rows) rows) ≤ max_open
  unfolding ask
  open_count-ask now id role question who about rows sorted le = ground (
    arith,
    open_count-put id (fresh now id role question who about (redact question)) rows sorted,
  )

  -- No request but one that takes a closed consultation opens more than 100 at once.
  pub serve-open_count :
      (now : ℕ) (q : Request) (rows : Rows)
      → IsSorted rows
      → IsKeyed rows
      → reopens q rows ≡ false
      → open_count rows ≤ max_open
      → open_count (after (serve redact tasks now q rows) rows) ≤ max_open
  unfolding serve
  serve-open_count now (ask_req id role question who about) rows sorted keyed shut le =
      open_count-ask now id role question who about rows sorted le
  serve-open_count now (take_req id agent roles) rows sorted keyed shut le =
      omega (arith, open_count-take now id rows sorted keyed agent roles shut)
  serve-open_count now (answer_req id agent reply roles) rows sorted keyed shut le =
      omega (arith, open_count-answer now id rows sorted keyed redact agent reply roles)
  serve-open_count now (withdraw_req id who) rows sorted keyed shut le =
      omega (arith, open_count-withdraw now id rows sorted keyed who)
  serve-open_count now (close_req id who) rows sorted keyed shut le =
      omega (arith, open_count-close now id rows sorted keyed who)
