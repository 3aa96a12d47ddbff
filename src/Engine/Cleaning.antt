-- ===== src/Engine/Cleaning.antt =====
-- `_finish_recovery_cleanup` of orch/engine.py leaves the state of the task and the operations alone.
use orchd_ai.Prelude.{
  ◌≡◌, refl, subst, ◌∙◌, inl, inr, Option, none, some, ok, ok-eq, ok-or_raise, Bool-cases,
}
use orchd_ai.Table.{find}
use orchd_ai.Workflow.{State}
use orchd_ai.Records.{World, EventType, Task, Recovery, Cleanup}
use orchd_ai.Engine.{Session, event, entered, move_to, close_with, closing_event, missing_key}
use orchd_ai.Engine.Changes.{row_of, Written, id-event, at-event, event-Written}
use orchd_ai.Engine.Recovery.{Broker, is_open_cleanup, with_cleanup, cleaned, finish_cleanup}

pub operations-event :
    (type : EventType) (before : Option State) (s : Session)
    → (event type before s).world.operations ≡ s.world.operations
unfolding event
operations-event type before s = refl

operations-close_with :
    (type : Option EventType) (s : Session)
    → (close_with type s).world.operations ≡ s.world.operations
operations-close_with none s = refl
operations-close_with (some type) s = operations-event type none s

pub operations-move_to :
    (target : State) (s : Session) → (move_to target s).world.operations ≡ s.world.operations
unfolding move_to entered
operations-move_to target s =
    operations-close_with (closing_event target) _
    ∙ operations-event EventType.state_transition (some s.state.state) (entered target s)

-- What the cleanup leaves as it is, and the row that it writes.
pub record Closed (s : Session) (w' : World) : Type 0 where
  pub after : Task
  pub written : find s.state.task_id w'.tasks ≡ some after
  pub at : after.state.state ≡ s.state.state
  pub operations : w'.operations ≡ s.world.operations

event-Closed : (type : EventType) (s : Session) → Closed s (event type none s).world
event-Closed type s = record {
  after = row_of (event type none s);
  written =
      subst (λ k. find k (event type none s).world.tasks ≡ some (row_of (event type none s)))
        (id-event type none s) (event-Written type none s);
  at = at-event type none s;
  operations = operations-event type none s;
}

cleanup-Closed :
    (type : EventType) (c : Cleanup) (r : Recovery) (s : Session)
    → Closed s (event type none (with_cleanup c r s)).world
cleanup-Closed type c r s =
    let h = event-Closed type (with_cleanup c r s) in
    record { after = h.after; written = h.written; at = h.at; operations = h.operations }

cleaned-Closed :
    (b : Broker) (r : Recovery) (s : Session) → Written s → Closed s (cleaned b r s).world
cleaned-Closed b r s written = elim (Bool-cases (is_open_cleanup r.cleanup)) [
  | inr shut ↦
      rw shut (record { after = row_of s; written = written; at = refl; operations = refl })
  | inl waits ↦ elim (Bool-cases (b.cleanup r.operation_id)) [
    | inl clean ↦
        rw (waits, clean)
          (cleanup-Closed EventType.recovery_cleanup_completed Cleanup.completed r s)
    | inr kept ↦
        rw (waits, kept) (cleanup-Closed EventType.recovery_cleanup_deferred Cleanup.deferred r s)
  ]
]

pub finish_cleanup-Closed :
    (b : Broker) (s : Session) {w' : World} → Written s → finish_cleanup b s ≡ ok w' → Closed s w'
unfolding finish_cleanup
finish_cleanup-Closed b s written h =
    let (r, h1, _) = ok-or_raise s.context.recovery missing_key h in
    subst (Closed s) (ok-eq h1) (cleaned-Closed b r s written)
