-- ===== src/Consultations/Requests.antt =====
-- Requests to the consultations, one after another. A refused request leaves the table as it was.
use orchd_ai.Prelude.{ℕ, String, Option, List, [], ◌∷◌, ok, err}
use orchd_ai.Table.{Table}
use orchd_ai.Roles.{Role}
use orchd_ai.Consultations.{Rows, Done, ask, take, answer, withdraw, close}

pub data Request : Type 0 where
  ask_req : ℕ → Role → String → String → Option ℕ → Request
  take_req : ℕ → String → List Role → Request
  answer_req : ℕ → String → String → List Role → Request
  withdraw_req : ℕ → String → Request
  close_req : ℕ → String → Request

abbrev pub after : Done → Rows → Rows
after (ok (rows', _)) rows = rows'
after (err _) rows = rows

module _ {ℓ} (redact : String → String) {T : Type ℓ} (tasks : Table T) where
  unfoldable pub serve : ℕ → Request → Rows → Done
  unfolding ask take answer withdraw close
  serve now (ask_req id role question who about) rows =
      ask redact tasks now id role question who about rows
  serve now (take_req id agent roles) rows = take now id agent roles rows
  serve now (answer_req id agent reply roles) rows = answer redact now id agent reply roles rows
  serve now (withdraw_req id who) rows = withdraw now id who rows
  serve now (close_req id who) rows = close now id who rows

  -- The table after a request at each given time.
  unfoldable pub serve_all : List (ℕ × Request) → Rows → Rows
  unfolding serve
  serve_all [] rows = rows
  serve_all ((now, q) ∷ qs) rows = serve_all qs (after (serve now q rows) rows)
