-- ===== src/Workflow/Gates.antt =====
-- The gates that every path of the workflow to a pull request passes.
use orchd_ai.Prelude.{
  ◌≡◌, refl, sym, ap, subst, some-eq, or_right, ◌≢◌, ◌⊎◌, inl, inr, Bool, true, false, Option, none,
  some, List, [], ◌∷◌, arith, Bool-cases,
}
use orchd_ai.Workflow.{
  State, draft_spec, awaiting_clarification, spec_ready, planning, awaiting_plan_approval,
  ready_for_implementation, implementing, testing, reviewing, changes_requested,
  awaiting_action_approval, ready_for_pr, pr_created, blocked, failed, completed, cancelled, edges,
  allowed, is_terminal, is_exit, is_resume, same_state,
}
use orchd_ai.Workflow.Paths.{Position, move, run, passes, start, same_state-eq, same_state_refl}

-- States before the plan is approved.
abbrev before_plan : State → Bool
before_plan draft_spec = true
before_plan awaiting_clarification = true
before_plan spec_ready = true
before_plan planning = true
before_plan awaiting_plan_approval = true
before_plan _ = false

-- States before the tests have passed.
abbrev before_tests : State → Bool
before_tests ready_for_implementation = true
before_tests implementing = true
before_tests testing = true
before_tests changes_requested = true
before_tests s = before_plan s

-- States before the external action is approved.
abbrev before_action : State → Bool
before_action reviewing = true
before_action awaiting_action_approval = true
before_action s = before_tests s

-- A position that has not passed a gate: its state, or the state it was blocked in, lies before
-- the gate, or the task was given up.
abbrev Within : (State → Bool) → Position → Type 0
Within b p =
    (b p.at ≡ true)
    ⊎ (((p.at ≡ blocked) × ((r : State) → p.resume ≡ some r → b r ≡ true))
        ⊎ ((p.at ≡ failed) ⊎ (p.at ≡ cancelled)))

plan_edges :
    (s t : State)
    → edges s t ≡ true
    → before_plan s ≡ true
    → (before_plan t ≡ true) ⊎ ((s ≡ awaiting_plan_approval) × (t ≡ ready_for_implementation))
unfolding edges
plan_edges draft_spec t e h = ground arith
plan_edges _ t e h = ground arith

test_edges :
    (s t : State)
    → edges s t ≡ true
    → before_tests s ≡ true
    → (before_tests t ≡ true) ⊎ ((s ≡ testing) × (t ≡ reviewing))
unfolding edges
test_edges draft_spec t e h = ground arith
test_edges _ t e h = ground arith

action_edges :
    (s t : State)
    → edges s t ≡ true
    → before_action s ≡ true
    → (before_action t ≡ true) ⊎ ((s ≡ awaiting_action_approval) × (t ≡ ready_for_pr))
unfolding edges
action_edges draft_spec t e h = ground arith
action_edges _ t e h = ground arith

-- The three reasons for which a transition is allowed.
data Cause (s t : State) (r : Option State) : Type 0 where
  leave : is_exit t ≡ true → Cause s t r
  resumed : s ≡ blocked → r ≡ some t → Cause s t r
  edge : edges s t ≡ true → is_exit t ≡ false → Cause s t r

pub allowed-live : (s t : State) (r : Option State) → allowed s t r ≡ true → is_terminal s ≡ false
unfolding allowed
allowed-live s t r h = ground arith

resume-eq : (t : State) (r : Option State) → is_resume t r ≡ true → r ≡ some t
resume-eq t none h = cc
resume-eq t (some u) h = ap some (sym (same_state-eq t u h))

allowed-Cause : (s t : State) (r : Option State) → allowed s t r ≡ true → Cause s t r
unfolding allowed
allowed-Cause s t r h = elim (Bool-cases (is_exit t)) [
  | inl e ↦ leave e
  | inr e ↦ elim (Bool-cases (same_state s blocked)) [
    | inl b ↦ resumed (same_state-eq s blocked b) (resume-eq t r (ground arith))
    | inr b ↦ edge (ground arith) e
  ]
]

edges_stuck :
    (s t : State) → edges s t ≡ true → ¬ ((s ≡ blocked) ⊎ ((s ≡ failed) ⊎ (s ≡ cancelled)))
unfolding edges
edges_stuck s t e h = ground arith

-- A blocked task is not blocked again.
blocked_once :
    (p : Position) (t : State) → allowed p.at t p.resume ≡ true → p.at ≡ blocked → t ≢ blocked
unfolding allowed
blocked_once p t a e f = ground arith

-- A move stays within a gate's near side, or goes through the gate.
module _ (b : State → Bool) (x y : State)
    (across : (s t : State) → edges s t ≡ true → b s ≡ true → (b t ≡ true) ⊎ ((s ≡ x) × (t ≡ y)))
    (closed : b blocked ≡ false) where
  exit_Within :
      (p : Position) (t : State)
      → is_exit t ≡ true
      → is_terminal p.at ≡ false
      → (p.at ≡ blocked → t ≢ blocked)
      → Within b p
      → Within b (move p t)
  exit_Within p failed e l d h = inr (inr (inl refl))
  exit_Within p cancelled e l d h = inr (inr (inr refl))
  exit_Within p blocked e l d (inl h) = inr (inl (refl, λ r q. ground arith))
  exit_Within p blocked e l d (inr (inl h)) = absurd (d h.0 refl)
  exit_Within p blocked e l d (inr (inr (inl h))) = absurd (ground arith)
  exit_Within p blocked e l d (inr (inr (inr h))) = absurd (ground arith)
  exit_Within p _ e l d h = cc

  edge_Within :
      (p : Position) (t : State)
      → edges p.at t ≡ true
      → Within b p
      → Within b (move p t) ⊎ ((p.at ≡ x) × (t ≡ y))
  edge_Within p t e (inl h) = elim (across p.at t e h) [ inl n ↦ inl (inl n) | inr g ↦ inr g ]
  edge_Within p t e (inr (inl h)) = absurd (edges_stuck p.at t e (inl h.0))
  edge_Within p t e (inr (inr h)) = absurd (edges_stuck p.at t e (inr h))

  resume_Within :
      (p : Position) (t : State)
      → p.at ≡ blocked
      → p.resume ≡ some t
      → Within b p
      → Within b (move p t)
  resume_Within p t e r (inl h) = absurd (ground arith)
  resume_Within p t e r (inr (inl h)) = inl (h.1 t r)
  resume_Within p t e r (inr (inr h)) = absurd (ground arith)

  move-Within :
      (p : Position) (t : State)
      → allowed p.at t p.resume ≡ true
      → Within b p
      → Within b (move p t) ⊎ ((p.at ≡ x) × (t ≡ y))
  move-Within p t a h = elim (allowed-Cause p.at t p.resume a) [
    | leave e ↦ inl (exit_Within p t e (allowed-live p.at t p.resume a) (blocked_once p t a) h)
    | resumed w r ↦ inl (resume_Within p t w r h)
    | edge e _ ↦ edge_Within p t e h
  ]

  -- A path from the near side stays there unless it goes through the gate.
  run-Within :
      (p : Position) (ts : List State) {q : Position}
      → run p ts ≡ some q
      → Within b p
      → Within b q ⊎ (passes x y p ts ≡ true)
  unfolding run passes
  run-Within p [] {q} e h = inl (subst (Within b) (some-eq e) h)
  run-Within p (t ∷ ts) {q} e h = elim (Bool-cases (allowed p.at t p.resume)) [
    | inr no_move ↦ cc
    | inl a ↦ elim (move-Within p t a h) [
      | inr g ↦ inr (ground (arith, same_state_refl x, same_state_refl y))
      | inl w ↦ elim (run-Within (move p t) ts (ground arith) w) [
        | inl n ↦ inl n
        | inr g ↦ inr (or_right _ _ g)
      ]
    ]
  ]

-- The states that only an approved external action leads to.
abbrev pub past_action : State → Bool
past_action ready_for_pr = true
past_action pr_created = true
past_action completed = true
past_action _ = false

not-Within :
    (b : State → Bool) (q : Position)
    → past_action q.at ≡ true
    → ((s : State) → past_action s ≡ true → b s ≡ false)
    → ¬ Within b q
not-Within b q h far (inl w) = cc (far q.at h)
not-Within b q h far (inr (inl w)) = absurd (ground arith)
not-Within b q h far (inr (inr (inl w))) = absurd (ground arith)
not-Within b q h far (inr (inr (inr w))) = absurd (ground arith)

module _ (ts : List State) {q : Position} (e : run start ts ≡ some q)
    (h : past_action q.at ≡ true) where
  plan_gate : passes awaiting_plan_approval ready_for_implementation start ts ≡ true
  plan_gate = elim (run-Within before_plan _ _ plan_edges refl start ts e (inl refl)) [
    | inl w ↦ absurd (not-Within before_plan q h (λ s k. ground arith) w)
    | inr g ↦ g
  ]

  test_gate : passes testing reviewing start ts ≡ true
  test_gate = elim (run-Within before_tests _ _ test_edges refl start ts e (inl refl)) [
    | inl w ↦ absurd (not-Within before_tests q h (λ s k. ground arith) w)
    | inr g ↦ g
  ]

  action_gate : passes awaiting_action_approval ready_for_pr start ts ≡ true
  action_gate = elim (run-Within before_action _ _ action_edges refl start ts e (inl refl)) [
    | inl w ↦ absurd (not-Within before_action q h (λ s k. ground arith) w)
    | inr g ↦ g
  ]

-- Whatever transitions a new task makes, blocking and resumption included, once it stands in
-- READY_FOR_PR, PR_CREATED or COMPLETED it has moved from AWAITING_PLAN_APPROVAL to
-- READY_FOR_IMPLEMENTATION, from TESTING to REVIEWING, and from AWAITING_ACTION_APPROVAL to
-- READY_FOR_PR.
pub run_gates :
    (ts : List State) {q : Position}
    → run start ts ≡ some q
    → past_action q.at ≡ true
    → (passes awaiting_plan_approval ready_for_implementation start ts ≡ true)
      × (passes testing reviewing start ts ≡ true)
      × (passes awaiting_action_approval ready_for_pr start ts ≡ true)
run_gates ts e h = (plan_gate ts e h, test_gate ts e h, action_gate ts e h)
