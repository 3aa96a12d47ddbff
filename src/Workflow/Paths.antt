-- ===== src/Workflow/Paths.antt =====
-- Paths of the transition table of orch/engine.py: a task's position, and the runs of transitions.
use orchd_ai.Prelude.{
  ◌≡◌, refl, Bool, true, false, ◌&&◌, ◌||◌, Option, none, some, List, [], ◌∷◌, arith, if◌then◌else◌,
}
use orchd_ai.Workflow.{State, draft_spec, blocked, allowed, same_state}

-- Where a task stands, and the state that it was blocked in.
pub record Position : Type 0 where
  pub at : State
  pub resume : Option State

-- `_transition` sets `resume_state` when the target is BLOCKED, and keeps it otherwise.
abbrev pub move : Position → State → Position
move p t = record { at = t; resume = if same_state t blocked then some p.at else p.resume }

-- Follows the targets; `none` where a transition is forbidden.
unfoldable pub run : Position → List State → Option Position
unfolding allowed
run p [] = some p
run p (t ∷ ts) = let rest = run (move p t) ts in if allowed p.at t p.resume then rest else none

-- Whether the targets take the task from `a` directly to `b` at some point.
unfoldable pub passes : State → State → Position → List State → Bool
passes a b p [] = false
passes a b p (t ∷ ts) = same_state p.at a && same_state t b || passes a b (move p t) ts

abbrev pub start : Position
start = record { at = draft_spec; resume = none }

pub same_state-eq : (s t : State) → same_state s t ≡ true → s ≡ t
same_state-eq draft_spec t h = ground arith
same_state-eq _ t h = ground arith

pub same_state_refl : (s : State) → same_state s s ≡ true
same_state_refl draft_spec = refl
same_state_refl _ = refl
