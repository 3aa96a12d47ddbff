-- ===== src/Histories.antt =====
-- The store through any number of calls at clock readings of their own; a refused call changes
-- nothing. The calls of an operator on orch/engine.py and orch/task_drafts.py are steps. What else
-- orch/engine.py does for a task, `advance`, `advancing`, `recover` and `retry_cleanup`, it does in
-- transactions that write events and transitions, one after the other: each event and each
-- transition is a step as well, with whatever was written before it beside the state, the revision
-- and the count of events. Transactions takes `recover`, `retry_cleanup` and `advancing` apart in
-- this way. Repository tasks are left aside.
mod Examples
mod Approved
pub mod Rows
pub mod Transactions
use orchd_ai.Prelude.{ℕ, String, ◌≡◌, refl, Bool, Option, none, some, subst, List, [], Result, ok}
use orchd_ai.Table.{find}
use orchd_ai.Records.{Scope, Document, Decision, Ruling, Task, World, EventType}
use orchd_ai.Workflow.{State}
use orchd_ai.Engine.{Session, open_task, event, transition, log}
use orchd_ai.Engine.Log.{Logged, SameLog, SameLog-Tracked, event-Logged, open_task-Tracked}
use orchd_ai.Engine.Changes.{Resumes}
use orchd_ai.Engine.Approvals.{approve, renew_approval}
use orchd_ai.Engine.Cancellation.{cancel}
use orchd_ai.Engine.Creation.{create_task}
use orchd_ai.Engine.Creation.Log.{create_task-Logged}
use orchd_ai.Engine.Steps.{approve-Logged, renew_approval-Logged, cancel-Logged, transition-Tracked}
use orchd_ai.Engine.Replay.{AllRead, reconstruct, reconstruct-Logged}
use orchd_ai.Drafts.{Draft, Question, Answer, draft, ask, answer, confirm}
use orchd_ai.Drafts.Log.{draft-Logged, ask-Logged, answer-Logged, confirm-Logged}

-- A store without a row.
abbrev pub no_rows : World
no_rows = record { tasks = []; records = []; approvals = []; operations = []; events = [] }

-- What a transaction has in hand after some writes: the documents, the operations and the other
-- fields may be any. The state to resume stays, or is dropped.
pub record Working (s s' : Session) : Type 0 where
  pub log : SameLog s s'
  pub at : s'.state.state ≡ s.state.state
  pub revision : s'.state.revision ≡ s.state.revision
  pub resumes : Resumes s s'

module _ (digest : Document → ℕ) (scope_digest : Scope → ℕ) (redact : String → String) where
  pub data Step (w : World) : World → Type 0 where
    creates :
        (now id spec_id : ℕ) (title principal : String) (is_draft : Bool) {w' : World}
        → create_task digest scope_digest redact now id spec_id title principal is_draft w ≡ ok w'
        → Step w w'
    drafts :
        (now id t : ℕ) (value : Draft) (expected : Option ℕ) {w' : World}
        → draft digest scope_digest redact now id t value expected w ≡ ok w'
        → Step w w'
    asks :
        (now id t : ℕ) (value : List Question) (expected : Option ℕ) {w' : World}
        → ask digest scope_digest redact now id t value expected w ≡ ok w'
        → Step w w'
    answers_ :
        (now id t : ℕ) (value : List Answer) (who : String) (expected : Option ℕ) {w' : World}
        → answer digest scope_digest redact now id t value who expected w ≡ ok w'
        → Step w w'
    confirms :
        (now id t sha : ℕ) (who : String) (expected : Option ℕ) {w' : World}
        → confirm digest scope_digest redact now id t sha who expected w ≡ ok w'
        → Step w w'
    approves :
        (now id t request_id : ℕ) (d : Decision) (expected : ℕ) (principal : String) (r : Ruling)
        {w' : World}
        → approve digest scope_digest now id t request_id d expected principal w ≡ ok (w', r)
        → Step w w'
    renews :
        (now id t request_id expected : ℕ) (principal : String) {w' : World}
        → renew_approval digest scope_digest now id t request_id expected principal w ≡ ok w'
        → Step w w'
    cancels :
        (now t expected : ℕ) (reason principal : String) {w' : World}
        → cancel digest scope_digest redact now t expected reason principal w ≡ ok w'
        → Step w w'
    notes :
        (t : ℕ) (type : EventType) {s s' : Session} {w' : World}
        → open_task w t ≡ ok s
        → Working s s'
        → (event type none s').world ≡ w'
        → Step w w'
    moves :
        (now t : ℕ) (target : State) {s s' s'' : Session} {w' : World}
        → open_task w t ≡ ok s
        → Working s s'
        → transition digest scope_digest now target s' ≡ ok s''
        → s''.world ≡ w'
        → Step w w'

  pub data Reach : World → Type 0 where
    empty : Reach no_rows
    later : {w w' : World} → Reach w → Step w w' → Reach w'

  no_rows-Logged : Logged no_rows
  unfolding find log
  no_rows-Logged t = refl

  pub Step-Logged : (w w' : World) → Logged w → Step w w' → Logged w'
  Step-Logged w w' l (creates now id spec_id title principal is_draft h) =
      create_task-Logged digest scope_digest redact now id spec_id title principal is_draft w l h
  Step-Logged w w' l (drafts now id t value expected h) =
      draft-Logged digest scope_digest redact now id t value expected w l h
  Step-Logged w w' l (asks now id t value expected h) =
      ask-Logged digest scope_digest redact now id t value expected w l h
  Step-Logged w w' l (answers_ now id t value who expected h) =
      answer-Logged digest scope_digest redact now id t value who expected w l h
  Step-Logged w w' l (confirms now id t sha who expected h) =
      confirm-Logged digest scope_digest redact now id t sha who expected w l h
  Step-Logged w w' l (approves now id t request_id d expected principal r h) =
      approve-Logged digest scope_digest now id t request_id d expected principal w l h
  Step-Logged w w' l (renews now id t request_id expected principal h) =
      renew_approval-Logged digest scope_digest now id t request_id expected principal w l h
  Step-Logged w w' l (cancels now t expected reason principal h) =
      cancel-Logged digest scope_digest now redact t expected reason principal w l h
  Step-Logged w w' l (notes t type {s' = s'} opened work end) =
      let (tracked, _, _) = open_task-Tracked w t l opened in
      subst Logged end (event-Logged type none s' (SameLog-Tracked work.log tracked))
  Step-Logged w w' l (moves now t target {s' = s'} opened work moved end) =
      let (tracked, _, _) = open_task-Tracked w t l opened in
      subst Logged end
        (transition-Tracked digest scope_digest now target s' (SameLog-Tracked work.log tracked)
          moved).1

  pub Reach-Logged : (w : World) → Reach w → Logged w
  Reach-Logged w empty = no_rows-Logged
  Reach-Logged w (later {w = v} r s) = Step-Logged v w (Reach-Logged v r) s

  -- In every store that the steps can leave behind, replaying the events of a task, which checks
  -- that their sequence numbers run from 1 without a gap, gives the row of the task, as its snapshot
  -- reads back from the redacted text that is stored; every snapshot is to read back.
  pub reconstruct-Reach :
      (read : Task → Option Task) (w : World) (t : ℕ) {row : Task}
      → Reach w
      → AllRead read (log w t)
      → find t w.tasks ≡ some row
      → reconstruct read w t ≡ ok (read row)
  reconstruct-Reach read w t {row} r readable there =
      reconstruct-Logged read w t row (Reach-Logged w r) readable there
