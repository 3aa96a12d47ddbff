-- ===== src/Consultations/Updates.antt =====
-- What each operation of orch/consultations.py does to a record when it succeeds.
use orchd_ai.Prelude.{
  ℕ, String, ◌≡◌, ◌⊎◌, inl, inr, Bool, true, false, some, List, arith, ok, Option-cases, not, ◌||◌,
  str_eq,
}
use orchd_ai.Table.{find, put}
use orchd_ai.Roles.{Role}
use orchd_ai.Consultations.{
  State, asked, answering, answered, withdrawn, closed, Consultation, Rows, take, answer, withdraw,
  close, Report, answerable,
}

-- The steps forward: a question is taken, or taken over; it is answered; it is withdrawn before an
-- answer, or closed after one. Nothing follows a withdrawal or a closing.
unfoldable pub moves : State → State → Bool
moves asked answering = true
moves asked answered = true
moves asked withdrawn = true
moves answering answering = true
moves answering answered = true
moves answering withdrawn = true
moves answered closed = true
moves _ _ = false

-- The steps back that the code lets through: a closed record is taken, or answered, again.
unfoldable pub reopens : State → State → Bool
reopens closed answering = true
reopens closed answered = true
reopens _ _ = false

-- A later version of a record: the question, who asked it and when, its role and its reference to
-- a task are the same, and the state has gone a step forward, or a closed record is open again.
pub record Follows (r r' : Consultation) : Type 0 where
  pub id : r'.id ≡ r.id
  pub role : r'.role ≡ r.role
  pub question : r'.question ≡ r.question
  pub asked_by : r'.asked_by ≡ r.asked_by
  pub about : r'.about ≡ r.about
  pub asked_at : r'.asked_at ≡ r.asked_at
  pub step : (moves r.state r'.state ≡ true) ⊎ (reopens r.state r'.state ≡ true)

-- What a call that succeeds on the record `id` has done: it wrote a later version of it.
abbrev pub Update : Rows → ℕ → Rows → Type 0
Update rows id rows' =
    (q : Consultation) × (q' : Consultation) × (find id rows ≡ some q)
    × Follows q q'
    × (rows' ≡ put q.id q' rows)

module _ (now id : ℕ) (rows : Rows) {rows' : Rows} {report : Report} where
  pub take-Update :
      (agent : String) (roles : List Role)
      → take now id agent roles rows ≡ ok (rows', report)
      → Update rows id rows'
  unfolding take answerable moves reopens
  take-Update agent roles h = elim (Option-cases (find id rows)) [
    | inl missing ↦ absurd (ground arith)
    | inr (q, found) ↦ (
      q,
      record q { state = answering; agent = some agent; taken_at = some now },
      found,
      ground arith,
      ground arith,
    )
  ]

  pub withdraw-Update :
      (who : String) → withdraw now id who rows ≡ ok (rows', report) → Update rows id rows'
  unfolding withdraw moves reopens
  withdraw-Update who h = elim (Option-cases (find id rows)) [
    | inl missing ↦ absurd (ground arith)
    | inr (q, found) ↦ (
      q,
      record q { state = withdrawn; withdrawn_by = some who; withdrawn_at = some now },
      found,
      ground arith,
      ground arith,
    )
  ]

  pub close-Update :
      (who : String) → close now id who rows ≡ ok (rows', report) → Update rows id rows'
  unfolding close moves reopens
  close-Update who h = elim (Option-cases (find id rows)) [
    | inl missing ↦ absurd (ground arith)
    | inr (q, found) ↦ (
      q,
      record q { state = closed; closed_by = some who; closed_at = some now },
      found,
      ground arith,
      ground arith,
    )
  ]

  pub answer-Update :
      (redact : String → String) (agent reply : String) (roles : List Role)
      → answer redact now id agent reply roles rows ≡ ok (rows', report)
      → Update rows id rows'
  unfolding answer answerable moves reopens
  answer-Update redact agent reply roles h = elim (Option-cases (find id rows)) [
    | inl missing ↦ absurd (ground arith)
    | inr (q, found) ↦ (
      q,
      record q {
        state = answered;
        agent = some agent;
        answer = some (redact reply);
        answered_at = some now;
        redacted = q.redacted || not (str_eq (redact reply) reply);
      },
      found,
      ground arith,
      ground arith,
    )
  ]
