-- ===== src/Histories/Transactions.antt =====
-- The transactions of `recover` and `retry_cleanup` of orch/engine.py, and of `advancing`, as steps:
-- a transaction writes one event or transition after the other, each on what the one before left.
use orchd_ai.Prelude.{
  ℕ, String, ◌≡◌, refl, sym, subst, inl, inr, not, ◌&&◌, some, none, ok, ok-bind, ok-eq,
  ok-raise_if, ok-or_raise, if-eq, Bool-cases, ◌==◌, arith, str_eq, ◌||◌, true, false, ◌∙◌, ap,
  is_some, contains, leb, length, List, Option,
}
use orchd_ai.Table.{find}
use orchd_ai.Workflow.{State, changes_requested, blocked, same_state}
use orchd_ai.Records.{plan, Scope, Document, World, EventType, Recovery, Cleanup}
use orchd_ai.Engine.{
  Session, open_task, event, transition, approved, missing_key, not_recoverable, nothing_unresolved,
  other_unresolved, not_supported, not_stopped, no_cleanup,
}
use orchd_ai.Engine.Log.{Logged, open_task-Tracked}
use orchd_ai.Engine.Changes.{row_of, Written, opened-there, event-Written, transition-Written}
use orchd_ai.Engine.Approvals.{unresolved, is_started}
use orchd_ai.Engine.Recovery.{
  Broker, stopped, worker_stage, own_operation, is_open_cleanup, with_cleanup, cleaned,
  finish_cleanup, was_recovered, recovering, not_resuming, reconcile, recover, retry_cleanup,
}
use orchd_ai.Ownership.{
  Owner, same_owner, Holding, Registry, Locks, live, admitted, deciding, advancing, of_engine,
  registered, already_advancing, too_many,
}
use orchd_ai.Ownership.Advancing.{if-ok}
use orchd_ai.Sessions.Claims.{of_engine-ok}
use orchd_ai.Histories.{Working, notes, moves}
use orchd_ai.Histories.Rows.{Calls, no_call, call}

-- A session whose row is written is what opening the task gives.
Written-opened : (s : Session) → Written s → open_task s.world s.state.task_id ≡ ok s
unfolding open_task
Written-opened s there = ground arith

same-Working : (s : Session) → Working s s
same-Working s = record {
  log = record { id = refl; count = refl; tasks = refl; events = refl };
  at = refl;
  revision = refl;
  resumes = inl refl;
}

not_resuming-Working : (s : Session) → Working s (not_resuming s)
not_resuming-Working s = record {
  log = record { id = refl; count = refl; tasks = refl; events = refl };
  at = refl;
  revision = refl;
  resumes = inr refl;
}

with_cleanup-Working : (c : Cleanup) (r : Recovery) (s : Session) → Working s (with_cleanup c r s)
with_cleanup-Working c r s = record {
  log = record { id = refl; count = refl; tasks = refl; events = refl };
  at = refl;
  revision = refl;
  resumes = inl refl;
}

module _ (digest : Document → ℕ) (scope_digest : Scope → ℕ) (redact : String → String) where
  abbrev pub Made : World → World → Type 0
  Made w w' = Calls digest scope_digest redact w w'

  noted :
      (w : World) (type : EventType) (s s' : Session)
      → Made w s.world
      → Written s
      → Working s s'
      → Made w (event type none s').world
  noted w type s s' c there work =
      call c (notes s.state.task_id type (Written-opened s there) work refl)

  moved :
      (w : World) (now : ℕ) (target : State) (s s' : Session) {s'' : Session}
      → Made w s.world
      → Written s
      → Working s s'
      → transition digest scope_digest now target s' ≡ ok s''
      → Made w s''.world
  moved w now target s s' c there work h =
      call c (moves now s.state.task_id target (Written-opened s there) work h refl)

  cleaned-Made :
      (w : World) (b : Broker) (r : Recovery) (s : Session)
      → Made w s.world
      → Written s
      → Made w (cleaned b r s).world
  cleaned-Made w b r s c there = elim (Bool-cases (is_open_cleanup r.cleanup)) [
    | inr shut ↦ rw shut c
    | inl waits ↦ elim (Bool-cases (b.cleanup r.operation_id)) [
      | inl clean ↦
          rw (waits, clean)
            (noted w EventType.recovery_cleanup_completed s (with_cleanup Cleanup.completed r s) c
              there (with_cleanup-Working Cleanup.completed r s))
      | inr kept ↦
          rw (waits, kept)
            (noted w EventType.recovery_cleanup_deferred s (with_cleanup Cleanup.deferred r s) c
              there (with_cleanup-Working Cleanup.deferred r s))
    ]
  ]

  finish_cleanup-Made :
      (w : World) (b : Broker) (s : Session) {w' : World}
      → Made w s.world
      → Written s
      → finish_cleanup b s ≡ ok w'
      → Made w w'
  unfolding finish_cleanup
  finish_cleanup-Made w b s c there h =
      let (r, h1, _) = ok-or_raise s.context.recovery missing_key h in
      subst (Made w) (ok-eq h1) (cleaned-Made w b r s c there)

  reconcile-Made :
      (now : ℕ) (b : Broker) (t expected : ℕ) (principal : String) (s : Session) {w' : World}
      → Written s
      → reconcile digest scope_digest now b t expected principal s ≡ ok w'
      → Made s.world w'
  unfolding reconcile
  reconcile-Made now b t expected principal s {w'} there h =
      let (_, h1) =
        ok-raise_if (not (same_state s.state.state blocked && s.state.revision == expected))
          not_recoverable h in
      let (id, h2, _) = ok-or_raise s.state.active_operation_id nothing_unresolved h1 in
      let (o, h3, own) =
        ok-or_raise (own_operation t (find id s.world.operations)) nothing_unresolved h2 in
      let (begun, h4) = ok-raise_if (not (is_started o.status)) nothing_unresolved h3 in
      let (one, h5) = ok-raise_if (not (unresolved s.world t == 1)) other_unresolved h4 in
      let (target, h6, _) = ok-or_raise (worker_stage s.state.resume_state) not_supported h5 in
      let (_, h7, _) = ok-bind (approved digest scope_digest now plan s) h6 in
      let (unclean, h8, halted) = ok-bind (stopped b id o.generation) h7 in
      let (_, h9) = ok-raise_if (unclean && not (b.reconcile id)) not_stopped h8 in
      let s0 = recovering expected principal id o s in
      let type = EventType.operator_recovery in
      let (s1, h10, first) =
        ok-bind (transition digest scope_digest now target (event type none s0)) h9 in
      let (s2, h11, then_on) =
        ok-bind (transition digest scope_digest now changes_requested (not_resuming s1)) h10 in
      let work : Working s s0 = record {
        log = record { id = refl; count = refl; tasks = refl; events = refl };
        at = refl;
        revision = refl;
        resumes = inl refl;
      } in
      let c1 = noted s.world type s s0 no_call there work in
      let c2 =
        moved s.world now target (event type none s0) (event type none s0) c1
          (event-Written type none s0) (same-Working (event type none s0)) first in
      let (written1, _, _) = transition-Written digest scope_digest now target _ first in
      let c3 =
        moved s.world now changes_requested s1 (not_resuming s1) c2 written1
          (not_resuming-Working s1) then_on in
      let (written2, _, _) =
        transition-Written digest scope_digest now changes_requested (not_resuming s1) then_on in
      finish_cleanup-Made s.world b s2 c3 written2 h11

  opened-Written :
      (w : World) (t : ℕ) {s : Session}
      → Logged w
      → open_task w t ≡ ok s
      → (s.world ≡ w) × Written s
  opened-Written w t {s} logged opened =
      let (_, base, id_t) = open_task-Tracked w t logged opened in
      (
        base,
        subst (λ (v : World). find s.state.task_id v.tasks ≡ some (row_of s)) (sym base)
            (subst (λ k. find k w.tasks ≡ some (row_of s)) (sym id_t)
              (opened-there w t logged opened)),
      )

  -- A recovery that succeeds is a sequence of steps.
  pub recover-Calls :
      (now : ℕ) (b : Broker) (t expected : ℕ) (principal : String) (w : World) {w' : World}
      → Logged w
      → recover digest scope_digest now b t expected principal w ≡ ok w'
      → Calls digest scope_digest redact w w'
  unfolding recover
  recover-Calls now b t expected principal w {w'} logged h =
      let (s, h1, opened) = ok-bind (open_task w t) h in
      let (base, there) = opened-Written w t logged opened in
      subst (λ v. Made v w') base
        (elim (if-eq (was_recovered expected principal s) h1) [
          | inl (_, again) ↦ finish_cleanup-Made s.world b s no_call there again
          | inr (_, fresh) ↦ reconcile-Made now b t expected principal s there fresh
        ])

  retried :
      (b : Broker) (r : Recovery) (s : Session) {w' : World}
      → Written s
      → finish_cleanup b
          (event EventType.operator_cleanup_retry none (with_cleanup Cleanup.pending r s))
        ≡ ok w'
      → Made s.world w'
  retried b r s there h =
      let type = EventType.operator_cleanup_retry in
      let s' = with_cleanup Cleanup.pending r s in
      finish_cleanup-Made s.world b (event type none s')
        (noted s.world type s s' no_call there (with_cleanup-Working Cleanup.pending r s))
        (event-Written type none s') h

  retried-Made :
      (b : Broker) (r : Recovery) (s : Session) (c : Cleanup) {w w' : World}
      → s.world ≡ w
      → Written s
      → elim c [
        | Cleanup.completed ↦ ok w
        | _ ↦
            finish_cleanup b
              (event EventType.operator_cleanup_retry none (with_cleanup Cleanup.pending r s))
      ]
        ≡ ok w'
      → Made s.world w'
  retried-Made b r s Cleanup.completed base there h = subst (Made s.world) (base ∙ ok-eq h) no_call
  retried-Made b r s Cleanup.pending base there h = retried b r s there h
  retried-Made b r s Cleanup.deferred base there h = retried b r s there h

  -- A retry of the cleanup that succeeds is a sequence of steps.
  pub retry_cleanup-Calls :
      (now : ℕ) (b : Broker) (t id expected : ℕ) (principal : String) (w : World) {w' : World}
      → Logged w
      → retry_cleanup digest scope_digest now b t id expected principal w ≡ ok w'
      → Calls digest scope_digest redact w w'
  unfolding retry_cleanup
  retry_cleanup-Calls now b t id expected principal w {w'} logged h =
      let (s, h1, opened) = ok-bind (open_task w t) h in
      let (base, there) = opened-Written w t logged opened in
      let (r, h2, _) = ok-or_raise s.context.recovery no_cleanup h1 in
      let (_, h3) =
        ok-raise_if
          (not (
            same_state s.state.state changes_requested
            && s.state.revision == expected
            && r.completed_revision == expected
            && r.operation_id == id
            && str_eq r.principal principal))
          no_cleanup h2 in
      let (o, h4, _) = ok-or_raise (own_operation t (find id w.operations)) no_cleanup h3 in
      let (_, h5) =
        ok-raise_if
          (is_started o.status
            || not o.is_reconciled
            || not (elim s.state.active_operation_id [ none ↦ true | some _ ↦ false ])
            || not (unresolved w t == 0))
          no_cleanup h4 in
      subst (λ v. Made v w') base (retried-Made b r s r.cleanup base there h5)

  registered-Made :
      (now : ℕ) (l : Locks) (me : Owner) (t : ℕ) (existing : Option Holding) (s : Session)
      (reg reg' : Registry) {w' : World}
      → Written s
      → registered now l me t existing s reg ≡ ok (w', reg')
      → Made s.world w'
  unfolding registered
  registered-Made now l me t none s reg reg' there h =
      subst (Made s.world) (ap (λ (o : World × Registry). o.0) (ok-eq h)) no_call
  registered-Made now l me t (some old) s reg reg' {w'} there h =
      let (_, h1) = if-ok (is_some old.expires_at && live now l old) h in
      elim (if-eq (same_owner old.owner me) h1) [
        | inl (_, again) ↦
            subst (Made s.world) (ap (λ (o : World × Registry). o.0) (ok-eq again)) no_call
        | inr (_, taken) ↦
            subst (Made s.world) (ap (λ (o : World × Registry). o.0) (ok-eq taken))
              (noted s.world EventType.task_ownership_taken s s no_call there (same-Working s))
      ]

  -- What a worker writes when it begins to advance a task is a sequence of steps.
  pub advancing-Calls :
      (now bound : ℕ) (l : Locks) (mine : List ℕ) (me : Owner) (t : ℕ) (w : World)
      (reg reg' : Registry) {w' : World}
      → Logged w
      → advancing now bound l mine me t w reg ≡ ok (w', reg')
      → Calls digest scope_digest redact w w'
  unfolding advancing
  advancing-Calls now bound l mine me t w reg reg' {w'} logged h =
      let (_, h1) = ok-raise_if (contains t mine) already_advancing h in
      let (l', h2, _) = ok-bind (deciding t l) h1 in
      let (_, h3) = ok-raise_if (leb bound (length (admitted now l' t reg))) too_many h2 in
      let (s, h4, opened) = ok-bind (of_engine (open_task w t)) h3 in
      let (base, there) = opened-Written w t logged (of_engine-ok (open_task w t) opened) in
      subst (λ v. Made v w') base (registered-Made now l' me t (find t reg) s reg reg' there h4)
