-- ===== src/Engine/Log.antt =====
-- The event log of orch/engine.py and `reconstruct` of orch/storage.py: the events of a task are
-- numbered without a gap, and the snapshot of the last one is the row of the task.
use orchd_ai.Prelude.{
  ℕ, suc, ◌+◌, ◌≡◌, refl, ◌≢◌, false, Option, none, some, List, [], ◌∷◌, arith, length, ◌==◌,
  if◌then◌else◌, ok, is_some, Option-cases, subst, inl, inr, sym, Bool-cases, ap,
}
use orchd_ai.Table.{find, find-put}
use orchd_ai.Workflow.{State}
use orchd_ai.Records.{TaskState, Task, EventType, Event, World}
use orchd_ai.Engine.{Session, open_task, log, event, move_to, entered, closing_event, close_with}

-- The events by falling sequence numbers, down to 1.
abbrev pub Numbered : List Event → Type 0
Numbered [] = Unit
Numbered (e ∷ es) = (e.sequence ≡ suc (length es)) × Numbered es

-- The log of a row: numbered, and its last snapshot is the row.
abbrev pub IsLog : List Event → Task → Type 0
IsLog [] row = ⊥
IsLog (e ∷ es) row =
    (e.payload ≡ row) × (row.state.last_event_sequence ≡ suc (length es)) × Numbered (e ∷ es)

-- A task's row stands under its identifier and has such a log; where there is no row, there is no
-- event.
abbrev pub RowLog : ℕ → Option Task → List Event → Type 0
RowLog t none es = es ≡ []
RowLog t (some row) es = (row.state.task_id ≡ t) × IsLog es row

abbrev pub Logged : World → Type 0
Logged w = (t : ℕ) → RowLog t (find t w.tasks) (log w t)

-- A transaction that counts its events on top of such a world.
pub record Tracked (s : Session) : Type 0 where
  pub counted : s.state.last_event_sequence ≡ length (log s.world s.state.task_id)
  pub numbered : Numbered (log s.world s.state.task_id)
  pub others : (t : ℕ) → t ≢ s.state.task_id → RowLog t (find t s.world.tasks) (log s.world t)

-- The snapshot that an event appends, and the event.
abbrev counted_state : Session → TaskState
counted_state s = record s.state { last_event_sequence = s.state.last_event_sequence + 1 }

abbrev snapshot : Session → Task
snapshot s = record { state = counted_state s; context = s.context }

abbrev entry : EventType → Option State → Session → Event
entry type before s = record {
  sequence = s.state.last_event_sequence + 1;
  task_revision = s.state.revision;
  event_type = type;
  from_state = before;
  to_state = if is_some before then some s.state.state else none;
  payload = snapshot s;
}

module _ (type : EventType) (before : Option State) (s : Session) where
  log-event :
      (t : ℕ)
      → log (event type before s).world t ≡ (
          if t == s.state.task_id
          then entry type before s ∷ log s.world s.state.task_id
          else log s.world t)
  unfolding event log
  log-event t = ground (
    arith,
    find-put s.state.task_id t (entry type before s ∷ log s.world s.state.task_id) s.world.events,
  )

  pub tasks-event :
      (t : ℕ)
      → find t (event type before s).world.tasks
        ≡ (if t == s.state.task_id then some (snapshot s) else find t s.world.tasks)
  unfolding event
  tasks-event t = find-put s.state.task_id t (snapshot s) s.world.tasks

  pub state-event : (event type before s).state ≡ counted_state s
  unfolding event
  state-event = refl

  log-event_self :
      log (event type before s).world s.state.task_id
      ≡ entry type before s ∷ log s.world s.state.task_id
  log-event_self = rw log-event (ground arith)

  -- An event keeps the count, and leaves a world where every row has its log.
  pub event-Tracked : Tracked s → Tracked (event type before s)
  event-Tracked h = record {
    counted = rw (state-event, log-event_self) (omega (arith, h.counted));
    numbered = rw (state-event, log-event_self) (omega (arith, h.counted), h.numbered);
    others = λ t ne.
        let ne' : t ≢ s.state.task_id = subst (λ (x : TaskState). t ≢ x.task_id) state-event ne in
        let other : (t == s.state.task_id) ≡ false = ground arith in
        rw (log-event t, tasks-event t, other) (h.others t ne');
  }

  pub event-Logged : Tracked s → Logged (event type before s).world
  event-Logged h t = elim (Bool-cases (t == s.state.task_id)) [
    | inl same ↦
        rw (log-event t, tasks-event t, same)
          (ground arith, (refl, omega (arith, h.counted), (omega (arith, h.counted), h.numbered)))
    | inr other ↦ rw (log-event t, tasks-event t, other) (h.others t (ground arith))
  ]

-- Sessions that agree on the task, its count, the rows and the events.
pub record SameLog (s s' : Session) : Type 0 where
  pub id : s'.state.task_id ≡ s.state.task_id
  pub count : s'.state.last_event_sequence ≡ s.state.last_event_sequence
  pub tasks : s'.world.tasks ≡ s.world.tasks
  pub events : s'.world.events ≡ s.world.events

log-cong : (w w' : World) (t : ℕ) → w'.events ≡ w.events → log w' t ≡ log w t
unfolding log
log-cong w w' t e = ground arith

find-cong : (v w : World) (t : ℕ) → w.tasks ≡ v.tasks → find t w.tasks ≡ find t v.tasks
find-cong v w t e = ap (find t) e

pub SameLog-Tracked : {s s' : Session} → SameLog s s' → Tracked s → Tracked s'
SameLog-Tracked {s} {s'} e h = record {
  counted = rw (e.id, e.count, log-cong s.world s'.world s.state.task_id e.events) h.counted;
  numbered = rw (e.id, log-cong s.world s'.world s.state.task_id e.events) h.numbered;
  others = λ t ne.
      let same = h.others t (subst (λ k. t ≢ k) e.id ne) in
      let rows =
        subst (λ o. RowLog t o (log s.world t)) (sym (find-cong s.world s'.world t e.tasks)) same in
      subst (RowLog t (find t s'.world.tasks)) (sym (log-cong s.world s'.world t e.events)) rows;
}

IsLog-counted :
    (es : List Event) (row : Task)
    → IsLog es row
    → (row.state.last_event_sequence ≡ length es) × Numbered es
IsLog-counted [] row h = absurd h
IsLog-counted (e ∷ es) row h = (h.1, h.2)

abbrev opened : World → Task → Session
opened w row = record { world = w; state = row.state; context = row.context }

pub row-Logged :
    (w : World) (t : ℕ) {row : Task}
    → Logged w
    → find t w.tasks ≡ some row
    → (row.state.task_id ≡ t) × IsLog (log w t) row
row-Logged w t h there = subst (λ o. RowLog t o (log w t)) there (h t)

opened-Tracked :
    (w : World) (t : ℕ) (row : Task) → Logged w → find t w.tasks ≡ some row → Tracked (opened w row)
opened-Tracked w t row h there =
    let (key, good) = row-Logged w t h there in
    let (counted, numbered) = IsLog-counted (log w t) row good in
    record { counted = rw key counted; numbered = rw key numbered; others = λ u ne. h u }

-- A transaction starts from the row of its task.
pub open_task-Tracked :
    (w : World) (t : ℕ) {s : Session}
    → Logged w
    → open_task w t ≡ ok s
    → Tracked s × (s.world ≡ w) × (s.state.task_id ≡ t)
unfolding open_task
open_task-Tracked w t {s} h e = elim (Option-cases (find t w.tasks)) [
  | inl missing ↦ absurd (ground arith)
  | inr (row, there) ↦
      let same : opened w row ≡ s = ground arith in
      (
        subst Tracked same (opened-Tracked w t row h there),
        ground arith,
        ground (arith, (row-Logged w t h there).0),
      )
]

module _ (target : State) (s : Session) where
  entered-SameLog : SameLog s (entered target s)
  unfolding entered
  entered-SameLog = record { id = refl; count = refl; tasks = refl; events = refl }

  close_with-Tracked :
      (type : Option EventType) (s : Session)
      → Tracked s
      → Logged s.world
      → Tracked (close_with type s) × Logged (close_with type s).world
  close_with-Tracked none s h l = (h, l)
  close_with-Tracked (some type) s h l = (event-Tracked type none s h, event-Logged type none s h)

  -- A transition keeps the count, and leaves a world where every row has its log.
  pub move_to-Tracked : Tracked s → Tracked (move_to target s) × Logged (move_to target s).world
  unfolding move_to
  move_to-Tracked h =
      let h' = SameLog-Tracked entered-SameLog h in
      close_with-Tracked (closing_event target) _
        (event-Tracked EventType.state_transition (some s.state.state) (entered target s) h')
        (event-Logged EventType.state_transition (some s.state.state) (entered target s) h')
