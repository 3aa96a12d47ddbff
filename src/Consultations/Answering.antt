-- ===== src/Consultations/Answering.antt =====
-- Who may answer: the roles, and one agent at a time. What the listing offers can be taken.
use orchd_ai.Consultations.Lifecycle.{IsKeyed}
use orchd_ai.Prelude.{
  ℕ, ◌+◌, ◌<◌, ◌-◌, String, ◌≡◌, ◌≢◌, refl, All, ◌⊎◌, true, false, some, List, [], ◌∷◌, arith, ok,
  err, is_ok, str_eq,
}
use orchd_ai.Table.{find, IsSorted, AllRows, AllRows-map, find_rows}
use orchd_ai.Roles.{Role, works_as, is_agent}
use orchd_ai.Consultations.{
  answering, answered, withdrawn, Consultation, Rows, take, answer, taken_by_another, stale,
  answerable, outside, text, max_answer, answering_time,
}
use orchd_ai.Consultations.Listing.{Offer, offer, is_offered, open_for}

-- While an agent is answering, and until its time is over, another agent that takes the same
-- question with a valid name, and for a role that it has, or answers it with a text that is
-- accepted, is told that it is taken.
pub take-held :
    (redact : String → String) (now id : ℕ) (agent holder reply kept : String) (roles : List Role)
    (rows : Rows) {r : Consultation}
    → find id rows ≡ some r
    → r.state ≡ answering
    → r.agent ≡ some holder
    → str_eq holder agent ≡ false
    → stale now r ≡ false
    → is_agent agent ≡ true
    → outside roles r.role ≡ false
    → text redact reply max_answer ≡ ok kept
    → (take now id agent roles rows ≡ err taken_by_another)
      × (answer redact now id agent reply roles rows ≡ err taken_by_another)
unfolding take answer
take-held redact now id agent holder reply kept roles rows there a h other fresh named role said =
    (ground arith, ground arith)

-- Nobody is answering, or the agent itself is, or the one that is took the question more than 15
-- minutes ago.
abbrev pub IsFree : ℕ → String → Consultation → Type 0
IsFree now agent r =
    (r.state ≢ answering)
    ⊎ (r.agent ≡ some agent)
    ⊎ ((t : ℕ) × (r.taken_at ≡ some t) × (t + answering_time < now))

-- What a call found that took or answered a question: it was put to one of the roles given (or no
-- roles were given), it was neither answered nor withdrawn, and it was free for the agent.
abbrev pub MayAnswer : ℕ → ℕ → String → List Role → Rows → Type 0
MayAnswer now id agent roles rows =
    (r : Consultation) × (find id rows ≡ some r)
    × ((roles ≡ []) ⊎ (works_as roles r.role ≡ true))
    × (r.state ≢ answered)
    × (r.state ≢ withdrawn)
    × IsFree now agent r

outside-works :
    (roles : List Role) (role : Role) → works_as roles role ≡ true → outside roles role ≡ false
unfolding works_as
outside-works [] role h = refl
outside-works (x ∷ roles) role h = ground arith

-- The consultation of an offer can be taken.
abbrev pub CanTake : ℕ → String → List Role → Rows → Offer → Type 0
CanTake now agent roles rows o = is_ok (take now o.consultation_id agent roles rows) ≡ true

module _ (now : ℕ) (agent : String) (roles : List Role) (rows : Rows)
    (named : is_agent agent ≡ true) where
  outside_of_works : (role : Role) → works_as roles role ≡ true → outside roles role ≡ false
  outside_of_works role h = outside-works roles role h

  take_offered :
      (k : ℕ) (r : Consultation)
      → (r.id ≡ k) × (find k rows ≡ some r)
      → is_offered now roles r ≡ true
      → CanTake now agent roles rows (offer r)
  unfolding take answerable is_offered
  take_offered k r (key, there) h = ground (arith, outside_of_works r.role)

  open_for-CanTake_from :
      (limit : ℕ) (t : Rows)
      → AllRows (λ k r. (r.id ≡ k) × (find k rows ≡ some r)) t
      → All (CanTake now agent roles rows) (open_for now roles limit t)
  unfolding open_for
  open_for-CanTake_from limit [] h = tt
  open_for-CanTake_from limit ((k, r) ∷ t) h = ground (
    arith,
    take_offered k r h.0,
    open_for-CanTake_from (limit - 1) t h.1,
    open_for-CanTake_from limit t h.1,
  )

  -- Whatever an agent with these roles is offered, it can take at that moment.
  pub open_for-CanTake :
      (limit : ℕ)
      → IsSorted rows
      → IsKeyed rows
      → All (CanTake now agent roles rows) (open_for now roles limit rows)
  open_for-CanTake limit sorted keyed =
      open_for-CanTake_from limit rows
        (AllRows-map rows (λ k r e. (keyed k r e, e)) (find_rows rows sorted))
