-- ===== src/Engine/Changes.antt =====
-- What a transaction of orch/engine.py does to the rows of the store: it writes the row of its own
-- task, raises the revision, and follows the workflow.
use orchd_ai.Prelude.{
  ℕ, ◌+◌, ◌<◌, ◌≤◌, ◌≡◌, refl, sym, ap, subst, ◌∙◌, ◌≢◌, ◌⊎◌, inl, inr, true, false, Option, none,
  some, arith, ok, Option-cases, ◌==◌,
}
use orchd_ai.Table.{find}
use orchd_ai.Workflow.{State, allowed, is_terminal}
use orchd_ai.Workflow.Gates.{allowed-live}
use orchd_ai.Records.{TaskState, Task, EventType, World, Document, Scope}
use orchd_ai.Engine.{
  Session, open_task, event, entered, close_with, closing_event, move_to, transition,
}
use orchd_ai.Engine.Log.{Logged, state-event, tasks-event, open_task-Tracked}
use orchd_ai.Engine.Steps.{transition-ok}
use orchd_ai.Engine.Evidence.{transition-Evidence}

-- The state is the same, or a transition that the workflow allows leads from one to the other; the
-- state to resume is the one on record, or was dropped.
abbrev pub Legal : Option State → State → State → Type 0
Legal resume s t =
    (s ≡ t) ⊎ ((r : Option State) × ((r ≡ resume) ⊎ (r ≡ none)) × (allowed s t r ≡ true))

-- From `before` to `after` in one call: the task was in no terminal state, its revision is higher,
-- and the workflow allows the new state.
pub record Advance (before after : Task) : Type 0 where
  pub live : is_terminal before.state.state ≡ false
  pub higher : before.state.revision < after.state.revision
  pub legal : Legal before.state.resume_state before.state.state after.state.state

-- A call on task `t` that changed its row, and no other.
pub record Change (w : World) (t : ℕ) (w' : World) : Type 0 where
  pub before : Task
  pub after : Task
  pub there : find t w.tasks ≡ some before
  pub written : find t w'.tasks ≡ some after
  pub others : (u : ℕ) → u ≢ t → find u w'.tasks ≡ find u w.tasks
  pub advance : Advance before after

-- The rows of the other tasks are those of `w`.
abbrev pub Framed : World → Session → Type 0
Framed w s = (u : ℕ) → u ≢ s.state.task_id → find u s.world.tasks ≡ find u w.tasks

abbrev pub row_of : Session → Task
row_of s = record { state = s.state; context = s.context }

-- The row of the task is what the transaction has in hand.
abbrev pub Written : Session → Type 0
Written s = find s.state.task_id s.world.tasks ≡ some (row_of s)

-- The state to resume is that of `s`, or was dropped.
abbrev pub Resumes : Session → Session → Type 0
Resumes s s' = (s'.state.resume_state ≡ s.state.resume_state) ⊎ (s'.state.resume_state ≡ none)

module _ (type : EventType) (before : Option State) (s : Session) where
  resume-event : (event type before s).state.resume_state ≡ s.state.resume_state
  resume-event = ap (λ (x : TaskState). x.resume_state) (state-event type before s)

  pub event-Resumes : (s0 : Session) → Resumes s0 s → Resumes s0 (event type before s)
  event-Resumes s0 (inl same) = inl (resume-event ∙ same)
  event-Resumes s0 (inr dropped) = inr (resume-event ∙ dropped)

  pub id-event : (event type before s).state.task_id ≡ s.state.task_id
  id-event = ap (λ (x : TaskState). x.task_id) (state-event type before s)

  pub at-event : (event type before s).state.state ≡ s.state.state
  at-event = ap (λ (x : TaskState). x.state) (state-event type before s)

  pub revision-event : (event type before s).state.revision ≡ s.state.revision
  revision-event = ap (λ (x : TaskState). x.revision) (state-event type before s)

  pub event-Framed : (w : World) → Framed w s → Framed w (event type before s)
  event-Framed w h u ne =
      let ne' : u ≢ s.state.task_id = subst (λ k. u ≢ k) id-event ne in
      let other : (u == s.state.task_id) ≡ false = ground arith in
      rw (tasks-event type before s u, other) (h u ne')

  pub event-Written : Written (event type before s)
  unfolding event find
  event-Written = tasks-event type before s s.state.task_id ∙ ground arith

module _ (w : World) (t : ℕ) {s : Session} (logged : Logged w) (opened : open_task w t ≡ ok s) where
  pub opened-there : find t w.tasks ≡ some (row_of s)
  unfolding open_task
  opened-there = elim (Option-cases (find t w.tasks)) [
    | inl missing ↦ absurd (ground arith)
    | inr (row, there) ↦ ground arith
  ]

  pub opened-id : s.state.task_id ≡ t
  opened-id = (open_task-Tracked w t logged opened).2

  pub opened-Framed : Framed w s
  opened-Framed u ne = ap (λ (v : World). find u v.tasks) (open_task-Tracked w t logged opened).1

  -- A transaction that ends with the row written.
  pub written-Change :
      (s' : Session)
      → s'.state.task_id ≡ s.state.task_id
      → Framed w s'
      → Written s'
      → Advance (row_of s) (row_of s')
      → Change w t s'.world
  written-Change s' same framed written advance =
      let id : s'.state.task_id ≡ t = same ∙ opened-id in
      record {
        before = row_of s;
        after = row_of s';
        there = opened-there;
        written = subst (λ k. find k s'.world.tasks ≡ some (row_of s')) id written;
        others = λ u ne. framed u (subst (λ k. u ≢ k) (sym id) ne);
        advance = advance;
      }

-- A session that a transition to `target` from `s` ends in.
record Moved (w : World) (target : State) (s s' : Session) : Type 0 where
  pub id : s'.state.task_id ≡ s.state.task_id
  pub at : s'.state.state ≡ target
  pub revision : s'.state.revision ≡ s.state.revision + 1
  pub framed : Framed w s'
  pub written : Written s'

close_with-Moved :
    (w : World) (target : State) (s s' : Session) (type : Option EventType)
    → Moved w target s s'
    → Moved w target s (close_with type s')
close_with-Moved w target s s' none m = m
close_with-Moved w target s s' (some type) m = record {
  id = id-event type none s' ∙ m.id;
  at = at-event type none s' ∙ m.at;
  revision = revision-event type none s' ∙ m.revision;
  framed = event-Framed type none s' w m.framed;
  written = event-Written type none s';
}

module _ (target : State) (s : Session) where
  at-entered : (entered target s).state.state ≡ target
  unfolding entered
  at-entered = refl

  revision-entered : (entered target s).state.revision ≡ s.state.revision + 1
  unfolding entered
  revision-entered = refl

  id-entered : (entered target s).state.task_id ≡ s.state.task_id
  unfolding entered
  id-entered = refl

  entered-Framed : (w : World) → Framed w s → Framed w (entered target s)
  unfolding entered
  entered-Framed w h = h

  move_to-Moved : (w : World) → Framed w s → Moved w target s (move_to target s)
  unfolding move_to
  move_to-Moved w h =
      let type = EventType.state_transition in
      let from = some s.state.state in
      let s' = entered target s in
      close_with-Moved w target s (event type from s') (closing_event target) (record {
        id = id-event type from s' ∙ id-entered;
        at = at-event type from s' ∙ at-entered;
        revision = revision-event type from s' ∙ revision-entered;
        framed = event-Framed type from s' w (entered-Framed w h);
        written = event-Written type from s';
      })

module _ (digest : Document → ℕ) (scope_digest : Scope → ℕ) (now : ℕ) where
  pub transition-Framed :
      (w : World) (target : State) (s : Session) {s' : Session}
      → Framed w s
      → transition digest scope_digest now target s ≡ ok s'
      → Framed w s' × (s'.state.task_id ≡ s.state.task_id)
  transition-Framed w target s {s'} framed moved =
      let m : Moved w target s s' =
        subst (Moved w target s) (sym (transition-ok digest scope_digest now target s moved).1)
          (move_to-Moved target s w framed) in
      (m.framed, m.id)

  pub transition-Written :
      (target : State) (s : Session) {s' : Session}
      → transition digest scope_digest now target s ≡ ok s'
      → Written s' × (s'.state.state ≡ target) × (s'.state.task_id ≡ s.state.task_id)
  transition-Written target s {s'} moved =
      let m : Moved s.world target s s' =
        subst (Moved s.world target s)
          (sym (transition-ok digest scope_digest now target s moved).1)
          (move_to-Moved target s s.world (λ u ne. refl)) in
      (m.written, m.at, m.id)

  -- A transaction that ends in a transition, from a session that is at the same state of the
  -- workflow.
  pub transition-Change :
      (w : World) (t : ℕ) {s : Session} (target : State) (sx : Session) {s' : Session}
      → Logged w
      → open_task w t ≡ ok s
      → Framed w sx
      → sx.state.task_id ≡ s.state.task_id
      → sx.state.state ≡ s.state.state
      → Resumes s sx
      → s.state.revision ≤ sx.state.revision
      → transition digest scope_digest now target sx ≡ ok s'
      → Change w t s'.world
  transition-Change w t {s} target sx {s'} logged opened framed id at resumes later moved =
      let m : Moved w target sx s' =
        subst (Moved w target sx) (sym (transition-ok digest scope_digest now target sx moved).1)
          (move_to-Moved target sx w framed) in
      let in_order = (transition-Evidence digest scope_digest now target sx moved).in_order in
      let in_order' : allowed s.state.state target sx.state.resume_state ≡ true =
        subst (λ x. allowed x target sx.state.resume_state ≡ true) at in_order in
      written-Change w t logged opened s' (m.id ∙ id) m.framed m.written (record {
        live = allowed-live s.state.state target sx.state.resume_state in_order';
        higher = omega (arith, m.revision, later);
        legal = inr (
          sx.state.resume_state,
          resumes,
          subst (λ x. allowed s.state.state x sx.state.resume_state ≡ true) (sym m.at) in_order',
        );
      })
