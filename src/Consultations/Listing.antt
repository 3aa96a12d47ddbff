-- ===== src/Consultations/Listing.antt =====
-- orch/consultations.py: what an agent, an operator and the status view are shown.
use orchd_ai.Prelude.{
  ℕ, ◌+◌, ◌-◌, Bool, true, false, not, ◌&&◌, Option, none, some, List, [], ◌∷◌, filter, length,
  take, ltb, ◌==◌, if◌then◌else◌, String,
}
use orchd_ai.Table.{total}
use orchd_ai.Roles.{Role, works_as}
use orchd_ai.Consultations.{
  State, asked, answering, answered, withdrawn, closed, Consultation, Rows, Report, is_open,
  is_answering, is_answered, one_if, stale, reported,
}

pub record Offer : Type 0 where
  pub consultation_id : ℕ
  pub role : Role
  pub question : String
  pub about : Option ℕ
  pub asked_at : ℕ

abbrev pub offer : Consultation → Offer
offer r = record {
  consultation_id = r.id;
  role = r.role;
  question = r.question;
  about = r.about;
  asked_at = r.asked_at;
}

-- Open, put to one of the roles, and not with an agent that is still answering.
unfoldable pub is_offered : ℕ → List Role → Consultation → Bool
unfolding stale
is_offered now roles r =
    is_open r.state && (works_as roles r.role && not (is_answering r.state && not (stale now r)))

-- `ORDER BY id`, and a `break` once `limit` entries are there; an entry is added before the test.
unfoldable pub open_for : ℕ → List Role → ℕ → Rows → List Offer
unfolding is_offered
open_for now roles limit [] = []
open_for now roles limit ((_, r) ∷ t) =
    let rest = open_for now roles (limit - 1) t in
    let same = open_for now roles limit t in
    if is_offered now roles r then offer r ∷ (if ltb 1 limit then rest else []) else same

pub record Listed : Type 0 where
  pub consultations : List Report
  pub count : ℕ
  pub open_ones : ℕ
  pub answered_ones : ℕ
  pub live_authorized : Bool
  pub retry_allowed : Bool

abbrev place : State → ℕ
place asked = 0
place answering = 1
place answered = 2
place withdrawn = 3
place closed = 4

abbrev in_state : Option State → Report → Bool
in_state none r = true
in_state (some s) r = place r.state == place s

abbrev reports : Rows → List Report
reports [] = []
reports ((_, r) ∷ t) = reported r ∷ reports t

-- A state that is none of `STATES` has no value here, so the refusal of one is not modelled.
unfoldable pub listed : ℕ → Option State → Rows → Listed
unfolding reported
listed limit state rows =
    let records = take limit (filter (in_state state) (reports rows)) in
    record {
      consultations = records;
      count = length records;
      open_ones = length (filter (λ (r : Report). is_open r.state) records);
      answered_ones = length (filter (λ (r : Report). is_answered r.state) records);
      live_authorized = false;
      retry_allowed = false;
    }

pub record Summary : Type 0 where
  pub open_ones : ℕ
  pub answered_ones : ℕ
  pub closed_ones : ℕ
  pub total_ones : ℕ

-- SELECT state, count(*) ... GROUP BY state
unfoldable pub count_of : State → Rows → ℕ
count_of s = total (λ r. one_if (place r.state == place s))

unfoldable pub summary : Rows → Summary
unfolding count_of
summary rows = record {
  open_ones = count_of asked rows + count_of answering rows;
  answered_ones = count_of answered rows;
  closed_ones = count_of closed rows;
  total_ones =
      count_of asked rows
      + count_of answering rows
      + count_of answered rows
      + count_of withdrawn rows
      + count_of closed rows;
}
