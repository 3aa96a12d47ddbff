-- ===== src/Consultations.antt =====
-- orch/consultations.py: the operations. The table `consultations` holds the records by
-- identifier; an operation returns the new table and a report, and a refusal rolls its transaction
-- back. `redact` of orch/contracts.py is a parameter, and a call reads the clock once, in
-- microseconds.

pub mod Listing
pub mod Requests
pub mod Updates
pub mod Lifecycle
pub mod Answering
pub mod Capacity
mod Examples
use orchd_ai.Prelude.{
  ℕ, zero, suc, ◌+◌, ◌*◌, String, ◌≡◌, refl, Bool, true, false, not, ◌&&◌, ◌||◌, Option, none, some,
  List, [], ◌∷◌, any, all, length, codes, is_blank, is_some, leb, ltb, ◌==◌, str_eq, if◌then◌else◌,
  Result, ok, err, ◌>>=◌, ◌>>◌, raise_if, or_raise,
}
use orchd_ai.Table.{Table, find, put, total}
use orchd_ai.Roles.{Role, is_agent_role, works_as, is_agent, is_principal}

abbrev pub max_question : ℕ
max_question = 4000

abbrev pub max_answer : ℕ
max_answer = 5000

abbrev pub max_open : ℕ
max_open = 100

abbrev pub max_listed : ℕ
max_listed = 50

-- ANSWERING_SECONDS, in microseconds
abbrev pub answering_time : ℕ
answering_time = 900000000

pub data State : Type 0 where
  asked answering answered withdrawn closed : State

pub data Refusal : Type 0 where
  bad_text control_character bad_role bad_principal bad_agent unknown_task too_many_open : Refusal
  duplicate unknown_consultation taken_by_another wrong_role already_answered : Refusal
  already_withdrawn not_open not_answered : Refusal

pub record Consultation : Type 0 where
  pub id : ℕ
  pub role : Role
  pub question : String
  pub asked_by : String
  pub about : Option ℕ
  pub asked_at : ℕ
  pub state : State
  pub agent : Option String
  pub taken_at : Option ℕ
  pub answer : Option String
  pub answered_at : Option ℕ
  pub redacted : Bool
  pub withdrawn_by : Option String
  pub withdrawn_at : Option ℕ
  pub closed_by : Option String
  pub closed_at : Option ℕ

abbrev pub Rows : Type 0
Rows = Table Consultation

-- `ord(character) < 32 and character not in "\n\t" or ord(character) == 127`
abbrev pub is_control : ℕ → Bool
is_control c = ltb c 32 && not (c == 10 || c == 9) || c == 127

-- `state IN ('asked','answering')`
abbrev pub is_open : State → Bool
is_open asked = true
is_open answering = true
is_open _ = false

abbrev pub is_answering : State → Bool
is_answering answering = true
is_answering _ = false

abbrev pub is_answered : State → Bool
is_answered answered = true
is_answered _ = false

abbrev pub is_withdrawn : State → Bool
is_withdrawn withdrawn = true
is_withdrawn _ = false

abbrev pub is_closed : State → Bool
is_closed closed = true
is_closed _ = false

abbrev pub one_if : Bool → ℕ
one_if b = if b then 1 else 0

-- SELECT count(*) FROM consultations WHERE state IN ('asked','answering')
unfoldable pub open_count : Rows → ℕ
open_count = total (λ r. one_if (is_open r.state))

-- What a consultation looks like to anybody reading it.
pub record Report : Type 0 where
  pub consultation_id : ℕ
  pub role : Role
  pub question : String
  pub about : Option ℕ
  pub asked_by : String
  pub asked_at : ℕ
  pub state : State
  pub agent : Option String
  pub answer : Option String
  pub answered_at : Option ℕ
  pub answer_is_untrusted : Bool
  pub approves_nothing : Bool
  pub redacted : Bool
  pub live_authorized : Bool
  pub retry_allowed : Bool

unfoldable pub reported : Consultation → Report
reported r = record {
  consultation_id = r.id;
  role = r.role;
  question = r.question;
  about = r.about;
  asked_by = r.asked_by;
  asked_at = r.asked_at;
  state = r.state;
  agent = r.agent;
  answer = r.answer;
  answered_at = r.answered_at;
  answer_is_untrusted = true;
  approves_nothing = true;
  redacted = r.redacted;
  live_authorized = false;
  retry_allowed = false;
}

abbrev pub Done : Type 0
Done = Result Refusal (Rows × Report)

unfoldable pub consultable : Role → Result Refusal Role
consultable role = do raise_if (not (is_agent_role role)) bad_role; ok role

-- `identifier` of orch/agent_sessions.py
unfoldable pub identifier : String → Result Refusal String
identifier agent = do raise_if (not (is_agent agent)) bad_agent; ok agent

-- `principal` of orch/task_drafts.py
unfoldable pub principal : String → Result Refusal String
principal value = do raise_if (not (is_principal value)) bad_principal; ok value

unfoldable pub get : Rows → ℕ → Result Refusal Consultation
get rows consultation = or_raise (find consultation rows) unknown_consultation

unfoldable pub save : Rows → Consultation → Rows × Report
unfolding reported
save rows r = (put r.id r rows, reported r)

abbrev pub later_by : ℕ → Option ℕ → ℕ → Bool
later_by d none now = false
later_by d (some t) now = ltb (t + d) now

-- An agent took this and never came back.
unfoldable pub stale : ℕ → Consultation → Bool
stale now r = is_answering r.state && later_by answering_time r.taken_at now

abbrev pub is_agents : Option String → String → Bool
is_agents none agent = false
is_agents (some a) agent = str_eq a agent

-- `record["state"] == "answering" and record["agent"] != agent and not stale(record)`
unfoldable pub held_by_another : ℕ → Consultation → String → Bool
unfolding stale
held_by_another now r agent =
    is_answering r.state && not (is_agents r.agent agent) && not (stale now r)

-- An empty sequence of roles is no restriction.
abbrev pub outside : List Role → Role → Bool
outside [] role = false
outside (x ∷ roles) role = not (works_as (x ∷ roles) role)

unfoldable pub answerable : Consultation → List Role → Result Refusal (Unit {0})
answerable r roles = do
  raise_if (outside roles r.role) wrong_role
  raise_if (is_answered r.state) already_answered
  raise_if (is_withdrawn r.state) already_withdrawn

unfoldable pub take : ℕ → ℕ → String → List Role → Rows → Done
unfolding identifier get answerable held_by_another save
take now consultation agent roles rows = do
  agent' ← identifier agent
  r ← get rows consultation
  answerable r roles
  raise_if (held_by_another now r agent') taken_by_another
  ok (save rows (record r { state = answering; agent = some agent'; taken_at = some now }))

unfoldable pub withdraw : ℕ → ℕ → String → Rows → Done
unfolding principal get save
withdraw now consultation asked_by rows = do
  who ← principal asked_by
  r ← get rows consultation
  raise_if (not (is_open r.state)) not_open
  ok (save rows (record r { state = withdrawn; withdrawn_by = some who; withdrawn_at = some now }))

unfoldable pub close : ℕ → ℕ → String → Rows → Done
unfolding principal get save
close now consultation by rows = do
  who ← principal by
  r ← get rows consultation
  raise_if (not (is_answered r.state)) not_answered
  ok (save rows (record r { state = closed; closed_by = some who; closed_at = some now }))

-- `store.task(about)` refuses a task that is not there.
abbrev pub missing_task {ℓ} : {T : Type ℓ} → Table T → Option ℕ → Bool
missing_task tasks none = false
missing_task tasks (some t) = not (is_some (find t tasks))

-- The record of a question just asked.
abbrev pub fresh : ℕ → ℕ → Role → String → String → Option ℕ → String → Consultation
fresh now id role question who about kept = record {
  id = id;
  role = role;
  question = kept;
  asked_by = who;
  about = about;
  asked_at = now;
  state = asked;
  agent = none;
  taken_at = none;
  answer = none;
  answered_at = none;
  redacted = not (str_eq kept question);
  withdrawn_by = none;
  withdrawn_at = none;
  closed_by = none;
  closed_at = none;
}

module _ (redact : String → String) where
  unfoldable pub text : String → ℕ → Result Refusal String
  text value limit = do
    raise_if (is_blank (codes value) || ltb limit (length (codes value))) bad_text
    raise_if (any is_control (codes value)) control_character
    ok (redact value)

  unfoldable pub answer : ℕ → ℕ → String → String → List Role → Rows → Done
  unfolding identifier text get answerable held_by_another save
  answer now consultation agent reply roles rows = do
    agent' ← identifier agent
    kept ← text reply max_answer
    r ← get rows consultation
    answerable r roles
    raise_if (held_by_another now r agent') taken_by_another
    ok (
        save rows (record r {
          state = answered;
          agent = some agent';
          answer = some kept;
          answered_at = some now;
          redacted = r.redacted || not (str_eq kept reply);
        }))

  -- A second row with the same identifier is refused by the primary key.
  unfoldable pub ask {ℓ} :
      {T : Type ℓ} → Table T → ℕ → ℕ → Role → String → String → Option ℕ → Rows → Done
  unfolding consultable principal text open_count reported
  ask tasks now id role question asked_by about rows = do
    role' ← consultable role
    who ← principal asked_by
    kept ← text question max_question
    raise_if (missing_task tasks about) unknown_task
    raise_if (leb max_open (open_count rows)) too_many_open
    raise_if (is_some (find id rows)) duplicate
    let r = fresh now id role' question who about kept
    ok (put id r rows, reported r)
