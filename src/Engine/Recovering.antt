-- ===== src/Engine/Recovering.antt =====
-- What a recovery of orch/engine.py requires and leaves.
use orchd_ai.Prelude.{
  eq_iff, ℕ, ◌+◌, String, ◌≡◌, sym, ap, subst, ◌∙◌, ◌⊎◌, inl, inr, Bool, true, not, ◌&&◌, Option,
  none, some, arith, ◌==◌, ok, ok-bind, ok-raise_if, ok-or_raise, if-eq, Option-cases, refl,
}
use orchd_ai.Table.{Table, find, put, find-put, total-put, IsSorted}
use orchd_ai.Workflow.{State, changes_requested, blocked, same_state}
use orchd_ai.Workflow.Paths.{same_state-eq}
use orchd_ai.Records.{plan, Scope, Document, World, EventType, Task, Operation, Recovery, done}
use orchd_ai.Engine.{
  Session, open_task, event, transition, approved, not_recoverable, nothing_unresolved,
  other_unresolved, not_supported, not_stopped,
}
use orchd_ai.Engine.Log.{Logged, open_task-Tracked}
use orchd_ai.Engine.Steps.{transition-ok}
use orchd_ai.Engine.Changes.{row_of, Written, opened-there, id-event, transition-Written}
use orchd_ai.Engine.Approvals.{unresolved, is_started, one_if}
use orchd_ai.Engine.Cleaning.{operations-event, operations-move_to, finish_cleanup-Closed}
use orchd_ai.Engine.Recovery.{
  Broker, stopped, worker_stage, own_operation, retired, was_recovered, recovering, not_resuming,
  reconcile, recover,
}

own-found :
    (t : ℕ) (o : Option Operation) {mine : Operation}
    → own_operation t o ≡ some mine
    → (o ≡ some mine) × (mine.task_id ≡ t)
own-found t none h = cc
own-found t (some o) h = ground arith

-- The one unresolved operation of a task is retired.
retired-unresolved :
    (w : World) (ops : Table Operation) (t id : ℕ) (o : Operation)
    → IsSorted w.operations
    → find id w.operations ≡ some o
    → o.task_id ≡ t
    → is_started o.status ≡ true
    → unresolved w t ≡ 1
    → ops ≡ put id (retired o) w.operations
    → (w' : World) → w'.operations ≡ ops
    → unresolved w' t ≡ 0
unfolding unresolved
retired-unresolved w ops t id o sorted there of_task begun one made w' same =
    let f = λ (x : Operation). one_if (x.task_id == t && is_started x.status) in
    let sum = total-put f id (retired o) w.operations sorted in
    let both : w'.operations ≡ put id (retired o) w.operations = same ∙ made in
    rw both (ground (arith, sum, there, of_task, begun, one))

-- The unresolved operation of the task, which is retired: its execution was found to be stopped.
pub record Retires (b : Broker) (w : World) (t : ℕ) (w' : World) : Type 0 where
  pub id : ℕ
  pub o : Operation
  pub unclean : Bool
  pub there : find id w.operations ≡ some o
  pub of_task : o.task_id ≡ t
  pub begun : is_started o.status ≡ true
  pub halted : stopped b id o.generation ≡ ok unclean
  pub after : Operation
  pub kept : find id w'.operations ≡ some after
  pub finished : after.status ≡ done
  pub reconciled : after.is_reconciled ≡ true
  pub next : after.generation ≡ o.generation + 1
  pub resolved : unresolved w' t ≡ 0

-- The row of the task says that this recovery was made, and that nothing has moved the task since.
pub record Recovered (w : World) (t expected : ℕ) (principal : String) : Type 0 where
  pub before : Task
  pub made : Recovery
  pub there : find t w.tasks ≡ some before
  pub at : before.state.state ≡ changes_requested
  pub recorded : before.context.recovery ≡ some made
  pub asked : made.expected_revision ≡ expected
  pub by : made.principal ≡ principal
  pub unmoved : made.completed_revision ≡ before.state.revision

-- The task is blocked at the revision that the call names.
abbrev pub BlockedAt : World → ℕ → ℕ → Type 0
BlockedAt w t expected =
    (before : Task) × (find t w.tasks ≡ some before)
    × (before.state.state ≡ blocked)
    × (before.state.revision ≡ expected)

recovered-at :
    (expected : ℕ) (principal : String) (s : Session)
    → was_recovered expected principal s ≡ true
    → s.state.state ≡ changes_requested
unfolding was_recovered
recovered-at expected principal s h = elim (Option-cases s.context.recovery) [
  | inl none_there ↦ absurd (ground arith)
  | inr (r, there) ↦ same_state-eq s.state.state changes_requested (ground arith)
]

was_recovered-Recovered :
    (w : World) (t expected : ℕ) (principal : String) (s : Session)
    → find t w.tasks ≡ some (row_of s)
    → was_recovered expected principal s ≡ true
    → Recovered w t expected principal
unfolding was_recovered
was_recovered-Recovered w t expected principal s there h = elim (Option-cases s.context.recovery) [
  | inl none_there ↦ absurd (ground arith)
  | inr (r, recorded) ↦ record {
    before = row_of s;
    made = r;
    there = there;
    at = recovered-at expected principal s h;
    recorded = recorded;
    asked = ground arith;
    by = (eq_iff r.principal principal).0 (ground arith);
    unmoved = ground arith;
  }
]

reconcile-BlockedAt :
    (digest : Document → ℕ) (scope_digest : Scope → ℕ) (now : ℕ) (b : Broker) (t expected : ℕ)
    (principal : String) (w : World) (s : Session) {w' : World}
    → find t w.tasks ≡ some (row_of s)
    → reconcile digest scope_digest now b t expected principal s ≡ ok w'
    → BlockedAt w t expected
unfolding reconcile
reconcile-BlockedAt digest scope_digest now b t expected principal w s there h =
    let (here, _) =
      ok-raise_if (not (same_state s.state.state blocked && s.state.revision == expected))
        not_recoverable h in
    (row_of s, there, same_state-eq s.state.state blocked (ground arith), ground arith)

module _ (digest : Document → ℕ) (scope_digest : Scope → ℕ) (now : ℕ) (b : Broker) where
  transition-operations :
      (target : State) (s : Session) {s' : Session}
      → transition digest scope_digest now target s ≡ ok s'
      → s'.world.operations ≡ s.world.operations
  transition-operations target s moved =
      ap (λ (x : Session). x.world.operations)
        (transition-ok digest scope_digest now target s moved).1
      ∙ operations-move_to target s

  reconcile-Retires :
      (t expected : ℕ) (principal : String) (s : Session) {w' : World}
      → IsSorted s.world.operations
      → s.state.task_id ≡ t
      → reconcile digest scope_digest now b t expected principal s ≡ ok w'
      → ((after : Task) × (find t w'.tasks ≡ some after) × (after.state.state ≡ changes_requested))
        × Retires b s.world t w'
  unfolding reconcile
  reconcile-Retires t expected principal s {w'} sorted id_t h =
      let (_, h1) =
        ok-raise_if (not (same_state s.state.state blocked && s.state.revision == expected))
          not_recoverable h in
      let (id, h2, _) = ok-or_raise s.state.active_operation_id nothing_unresolved h1 in
      let (o, h3, own) =
        ok-or_raise (own_operation t (find id s.world.operations)) nothing_unresolved h2 in
      let (begun, h4) = ok-raise_if (not (is_started o.status)) nothing_unresolved h3 in
      let (one, h5) = ok-raise_if (not (unresolved s.world t == 1)) other_unresolved h4 in
      let (target, h6, _) = ok-or_raise (worker_stage s.state.resume_state) not_supported h5 in
      let (_, h7, _) = ok-bind (approved digest scope_digest now plan s) h6 in
      let (unclean, h8, halted) = ok-bind (stopped b id o.generation) h7 in
      let (_, h9) = ok-raise_if (unclean && not (b.reconcile id)) not_stopped h8 in
      let s0 = recovering expected principal id o s in
      let type = EventType.operator_recovery in
      let (s1, h10, first) =
        ok-bind (transition digest scope_digest now target (event type none s0)) h9 in
      let (s2, h11, then_on) =
        ok-bind (transition digest scope_digest now changes_requested (not_resuming s1)) h10 in
      let (_, _, same1) = transition-Written digest scope_digest now target _ first in
      let (written, at, same2) =
        transition-Written digest scope_digest now changes_requested (not_resuming s1) then_on in
      let closed = finish_cleanup-Closed b s2 written h11 in
      let is_t : s2.state.task_id ≡ t = same2 ∙ same1 ∙ id-event type none s0 ∙ id_t in
      let (there, of_task) = own-found t (find id s.world.operations) own in
      let made : s2.world.operations ≡ put id (retired o) s.world.operations =
        transition-operations changes_requested (not_resuming s1) then_on
        ∙ transition-operations target (event type none s0) first
        ∙ operations-event type none s0 in
      (
        (
          closed.after,
          subst (λ k. find k w'.tasks ≡ some closed.after) is_t closed.written,
          closed.at ∙ at,
        ),
        record {
          id = id;
          o = o;
          unclean = unclean;
          there = there;
          of_task = of_task;
          begun = ground arith;
          halted = halted;
          after = retired o;
          finished = refl;
          reconciled = refl;
          next = refl;
          kept =
              ap (find id) (closed.operations ∙ made)
              ∙ find-put id id (retired o) s.world.operations
              ∙ ground arith;
          resolved =
              retired-unresolved s.world s2.world.operations t id o sorted there of_task
                (ground arith) (ground arith) made w' closed.operations;
        },
      )

  -- A recovery that succeeds leaves the task in CHANGES_REQUESTED. Either the task is there already
  -- and its row has this very recovery on record, made at its revision: then the operations stay as
  -- they are. Or the task was blocked at the revision named, and its one unresolved operation was
  -- found to be stopped: that operation is done then, by a reconciliation and under its next generation,
  -- and none is unresolved.
  pub recover-Retires :
      (t expected : ℕ) (principal : String) (w : World) {w' : World}
      → Logged w
      → IsSorted w.operations
      → recover digest scope_digest now b t expected principal w ≡ ok w'
      → ((after : Task) × (find t w'.tasks ≡ some after) × (after.state.state ≡ changes_requested))
        × ((Recovered w t expected principal × (w'.operations ≡ w.operations))
            ⊎ (BlockedAt w t expected × Retires b w t w'))
  unfolding recover
  recover-Retires t expected principal w {w'} logged sorted h =
      let (s, h1, opened) = ok-bind (open_task w t) h in
      let (_, base, id_t) = open_task-Tracked w t logged opened in
      let there = opened-there w t logged opened in
      let written : Written s =
        subst (λ (v : World). find s.state.task_id v.tasks ≡ some (row_of s)) (sym base)
          (subst (λ k. find k w.tasks ≡ some (row_of s)) (sym id_t) there) in
      elim (if-eq (was_recovered expected principal s) h1) [
        | inl (was, again) ↦
            let closed = finish_cleanup-Closed b s written again in
            let made = was_recovered-Recovered w t expected principal s there was in
            (
              (
                closed.after,
                subst (λ k. find k w'.tasks ≡ some closed.after) id_t closed.written,
                closed.at ∙ recovered-at expected principal s was,
              ),
              inl (made, closed.operations ∙ ap (λ (v : World). v.operations) base),
            )
        | inr (_, fresh) ↦
            let sorted_s : IsSorted s.world.operations =
              subst (λ (v : World). IsSorted v.operations) (sym base) sorted in
            let (row, retires) = reconcile-Retires t expected principal s sorted_s id_t fresh in
            (
              row,
              inr (
                reconcile-BlockedAt digest scope_digest now b t expected principal w s there fresh,
                subst (λ (v : World). Retires b v t w') base retires,
              ),
            )
      ]
