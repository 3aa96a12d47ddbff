-- ===== src/Consultations/Examples.antt =====
-- The theorems about the consultations at concrete tables, and runs of the operations.
use orchd_ai.Prelude.{
  ℕ, ◌+◌, ◌≤◌, String, ◌≡◌, refl, none, some, [], ◌∷◌, arith, ok, err, All, is_blank,
}
use orchd_ai.Table.{Table, find, IsSorted, put, total}
use orchd_ai.Roles.{reviewer, is_principal, is_agent, works_as}
use orchd_ai.Consultations.{
  answering, withdrawn, closed, Consultation, Rows, Report, fresh, take, open_count, max_open,
  taken_by_another, save, stale, answer, text,
}
use orchd_ai.Consultations.Listing.{open_for}
use orchd_ai.Consultations.Requests.{take_req, answer_req, close_req, serve, serve_all, after}
use orchd_ai.Consultations.Lifecycle.{
  IsKeyed, Continues, serve-Continues, serve_all-withdrawn, IsKeyed-of_rows,
}
use orchd_ai.Consultations.Answering.{take-held, CanTake, open_for-CanTake}
use orchd_ai.Consultations.Capacity.{take-closed, serve-open_count}

-- Nothing in these texts looks like a credential.
abbrev plain : String → String
plain s = s

abbrev no_tasks : Table ℕ
no_tasks = []

abbrev question : Consultation
question = fresh 10 1 reviewer "Is this safe?" "steph" none "Is this safe?"

abbrev held : Consultation
held = record question { id = 2; state = answering; agent = some "rev-1"; taken_at = some 20 }

abbrev shut : Consultation
shut = record question {
  id = 3;
  state = closed;
  agent = some "rev-1";
  answer = some "Yes";
  answered_at = some 30;
  closed_by = some "steph";
  closed_at = some 40;
}

abbrev gone : Consultation
gone = record question { id = 4; state = withdrawn; withdrawn_by = some "steph" }

abbrev room : Rows
room = (1, question) ∷ (2, held) ∷ (3, shut) ∷ (4, gone) ∷ []

room-IsKeyed : IsKeyed room
room-IsKeyed = IsKeyed-of_rows room (refl, (refl, (refl, (refl, tt))))

room-IsSorted : IsSorted room
room-IsSorted = omega arith

-- An agent takes the question and answers it, and its author closes it.
answered_and_closed :
    find 1 (
      serve_all plain no_tasks
        ((50, take_req 1 "rev-2" (reviewer ∷ []))
          ∷ (60, answer_req 1 "rev-2" "No" (reviewer ∷ []))
          ∷ (70, close_req 1 "steph")
          ∷ [])
        room)
    ≡ some (record question {
      state = closed;
      agent = some "rev-2";
      taken_at = some 50;
      answer = some "No";
      answered_at = some 60;
      closed_by = some "steph";
      closed_at = some 70;
    })
unfolding serve_all find is_principal is_agent is_blank works_as put
answered_and_closed = refl

serve-Continues_example :
    Continues question (find 1 (after (serve plain no_tasks 50 (take_req 1 "rev-2" []) room) room))
unfolding find
serve-Continues_example =
    serve-Continues plain no_tasks 50 (take_req 1 "rev-2" []) room room-IsKeyed 1 {r = question}
      refl

serve_all-withdrawn_example :
    find 4 (serve_all plain no_tasks ((50, answer_req 4 "rev-2" "No" []) ∷ []) room) ≡ some gone
unfolding find
serve_all-withdrawn_example =
    serve_all-withdrawn plain no_tasks ((50, answer_req 4 "rev-2" "No" []) ∷ []) room room-IsKeyed 4
      refl refl

take-held_example :
    (take 21 2 "rev-2" (reviewer ∷ []) room ≡ err taken_by_another)
    × (answer plain 21 2 "rev-2" "No" (reviewer ∷ []) room ≡ err taken_by_another)
unfolding find stale is_agent works_as text is_blank
take-held_example =
    take-held plain 21 2 "rev-2" "rev-1" "No" "No" (reviewer ∷ []) room {r = held} refl refl refl
      refl refl refl refl refl

taken : Rows × Report
unfolding save
taken = save room (record question { state = answering; agent = some "rev-2"; taken_at = some 50 })

open_for-CanTake_example :
    All (CanTake 50 "rev-2" (reviewer ∷ []) room) (open_for 50 (reviewer ∷ []) 50 room)
unfolding is_agent
open_for-CanTake_example =
    open_for-CanTake 50 "rev-2" (reviewer ∷ []) room refl 50 room-IsSorted room-IsKeyed

take-closed_example :
    (rows' : Rows) × (report : Report) × (take 50 3 "rev-2" (reviewer ∷ []) room
      ≡ ok (rows', report))
    × (report.state ≡ answering)
    × (open_count rows' ≡ open_count room + 1)
unfolding find is_agent works_as
take-closed_example =
    take-closed 50 3 "rev-2" (reviewer ∷ []) room {r = shut} room-IsSorted refl refl refl refl refl

serve-open_count_example :
    open_count (after (serve plain no_tasks 50 (take_req 1 "rev-2" []) room) room) ≤ max_open
unfolding find open_count total
serve-open_count_example =
    serve-open_count plain no_tasks 50 (take_req 1 "rev-2" []) room room-IsSorted room-IsKeyed refl
      (omega arith)
