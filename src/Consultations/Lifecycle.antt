-- ===== src/Consultations/Lifecycle.antt =====
-- How a record changes: along its lifecycle, or from closed back, and never what was asked.
use orchd_ai.Prelude.{
  ℕ, String, ◌≡◌, refl, ◌⊎◌, inl, inr, Option, none, some, List, [], ◌∷◌, arith, ok, err,
  Option-cases,
}
use orchd_ai.Table.{Table, find, put, find-put, AllRows}
use orchd_ai.Roles.{Role}
use orchd_ai.Consultations.{withdrawn, Consultation, Rows, Done, ask, Report, fresh}
use orchd_ai.Consultations.Requests.{
  Request, ask_req, take_req, answer_req, withdraw_req, close_req, serve, serve_all, after,
}
use orchd_ai.Consultations.Updates.{
  moves, reopens, Follows, Update, take-Update, withdraw-Update, close-Update, answer-Update,
}

-- What a question added by `ask` looks like.
abbrev Added : Rows → ℕ → Rows → Type 0
Added rows id rows' =
    (q : Consultation) × (q.id ≡ id) × (find id rows ≡ none) × (rows' ≡ put id q rows)

-- The rows stand under their own identifiers.
abbrev pub IsKeyed : Rows → Type 0
IsKeyed rows = (k : ℕ) (r : Consultation) → find k rows ≡ some r → r.id ≡ k

-- A record is as it was, or is a later version of what it was, and is never lost.
abbrev pub Continues : Consultation → Option Consultation → Type 0
Continues r none = ⊥
Continues r (some r') = (r' ≡ r) ⊎ Follows r r'

Update-Continues :
    (rows : Rows) (id : ℕ) (rows' : Rows)
    → IsKeyed rows
    → Update rows id rows'
    → (k : ℕ) {r : Consultation} → find k rows ≡ some r
    → Continues r (find k rows')
Update-Continues rows id rows' keyed (q, q', found, follows, e) k {r} there =
    rw (e, find-put q.id k q' rows) (ground (arith, keyed id q found))

Update-IsKeyed :
    (rows : Rows) (id : ℕ) (rows' : Rows) → IsKeyed rows → Update rows id rows' → IsKeyed rows'
Update-IsKeyed rows id rows' keyed (q, q', found, follows, e) k r there =
    ground (arith, keyed k r, e, find-put q.id k q' rows)

Added-Continues :
    (rows : Rows) (id : ℕ) (rows' : Rows)
    → Added rows id rows'
    → (k : ℕ) {r : Consultation} → find k rows ≡ some r
    → Continues r (find k rows')
Added-Continues rows id rows' (q, key, free, e) k {r} there =
    rw (e, find-put id k q rows) (ground arith)

Added-IsKeyed :
    (rows : Rows) (id : ℕ) (rows' : Rows) → IsKeyed rows → Added rows id rows' → IsKeyed rows'
Added-IsKeyed rows id rows' keyed (q, key, free, e) k r there =
    ground (arith, keyed k r, e, find-put id k q rows)

module _ {ℓ} (redact : String → String) {T : Type ℓ} (tasks : Table T) where
  ask-Added :
      (now id : ℕ) (role : Role) (question who : String) (about : Option ℕ) (rows : Rows)
      {rows' : Rows} {report : Report}
      → ask redact tasks now id role question who about rows ≡ ok (rows', report)
      → Added rows id rows'
  unfolding ask
  ask-Added now id role question who about rows h = elim (Option-cases (find id rows)) [
    | inl free ↦ (fresh now id role question who about (redact question), refl, free, ground arith)
    | inr (q, found) ↦ absurd (ground arith)
  ]

  -- What holds after an update and after an addition holds after any request.
  serve_rule {κ} :
      (P : Rows → Type κ) (now : ℕ) (q : Request) (rows : Rows)
      → P rows
      → ((id : ℕ) (rows' : Rows) → Update rows id rows' → P rows')
      → ((id : ℕ) (rows' : Rows) → Added rows id rows' → P rows')
      → P (after (serve redact tasks now q rows) rows)
  unfolding ask serve
  serve_rule P now q rows same change add = go q (serve redact tasks now q rows) refl
    where
      go : (q : Request) (d : Done) → serve redact tasks now q rows ≡ d → P (after d rows)
      go q (err e) h = same
      go (ask_req id role question who about) (ok (rows', report)) h =
          add id rows' (ask-Added now id role question who about rows h)
      go (take_req id agent roles) (ok (rows', report)) h =
          change id rows' (take-Update now id rows agent roles h)
      go (answer_req id agent reply roles) (ok (rows', report)) h =
          change id rows' (answer-Update now id rows redact agent reply roles h)
      go (withdraw_req id who) (ok (rows', report)) h =
          change id rows' (withdraw-Update now id rows who h)
      go (close_req id who) (ok (rows', report)) h =
          change id rows' (close-Update now id rows who h)

  -- Whatever a request asks for and however it ends, each record stays as it was or becomes a
  -- later version of itself: none is lost, and the question, role, author, time and reference stay.
  -- The state goes from asked or answering to answering, answered or withdrawn, and from answered
  -- to closed; the one other change is that a closed record is taken, or answered, again.
  pub serve-Continues :
      (now : ℕ) (q : Request) (rows : Rows)
      → IsKeyed rows
      → (k : ℕ) {r : Consultation} → find k rows ≡ some r
      → Continues r (find k (after (serve redact tasks now q rows) rows))
  serve-Continues now q rows keyed k {r} there =
      serve_rule (λ rows'. Continues r (find k rows')) now q rows (rw there (inl refl))
        (λ id rows' u. Update-Continues rows id rows' keyed u k there)
        (λ id rows' a. Added-Continues rows id rows' a k there)

  pub serve-IsKeyed :
      (now : ℕ) (q : Request) (rows : Rows)
      → IsKeyed rows
      → IsKeyed (after (serve redact tasks now q rows) rows)
  serve-IsKeyed now q rows keyed =
      serve_rule IsKeyed now q rows keyed (λ id rows' u. Update-IsKeyed rows id rows' keyed u)
        (λ id rows' a. Added-IsKeyed rows id rows' keyed a)

  Continues-withdrawn :
      (r : Consultation) (o : Option Consultation)
      → r.state ≡ withdrawn
      → Continues r o
      → o ≡ some r
  unfolding moves reopens
  Continues-withdrawn r none w c = absurd c
  Continues-withdrawn r (some r') w c = ground arith

  -- A withdrawn question is never answered, nor changed in any other way, by any requests.
  pub serve_all-withdrawn :
      (qs : List (ℕ × Request)) (rows : Rows)
      → IsKeyed rows
      → (k : ℕ) {r : Consultation} → find k rows ≡ some r
      → r.state ≡ withdrawn
      → find k (serve_all redact tasks qs rows) ≡ some r
  unfolding serve_all
  serve_all-withdrawn [] rows keyed k there w = there
  serve_all-withdrawn ((now, q) ∷ qs) rows keyed k {r} there w =
      serve_all-withdrawn qs (after (serve redact tasks now q rows) rows)
        (serve-IsKeyed now q rows keyed) k
        (Continues-withdrawn r _ w (serve-Continues now q rows keyed k there)) w

pub IsKeyed-of_rows : (rows : Rows) → AllRows (λ k r. r.id ≡ k) rows → IsKeyed rows
unfolding find
IsKeyed-of_rows [] h k r e = cc
IsKeyed-of_rows ((j, q) ∷ rows) h k r e = ground (arith, IsKeyed-of_rows rows h.1 k r)
