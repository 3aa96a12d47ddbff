-- ===== src/Workflow.antt =====
-- orch/engine.py: the workflow's states, `EDGES`, `TERMINAL`, `PAUSED` and `allowed`.
-- The dictionary and the sets are tables by clauses; `x in s` is a Boolean function.
pub mod Paths
pub mod Gates
mod Examples
use orchd_ai.Prelude.{
  Bool, true, false, not, ◌&&◌, ◌||◌, Option, none, some, ℕ, ◌==◌, if◌then◌else◌,
}

pub data State : Type 0 where
  draft_spec awaiting_clarification spec_ready planning awaiting_plan_approval : State
  ready_for_implementation implementing testing reviewing changes_requested : State
  awaiting_action_approval ready_for_pr pr_created : State
  blocked failed completed cancelled : State

pub State-discrete : Discrete State
State-discrete = hlevel

-- The position of a state in the source's enumeration, by which two names are compared.
abbrev pub index : State → ℕ
index draft_spec = 0
index awaiting_clarification = 1
index spec_ready = 2
index planning = 3
index awaiting_plan_approval = 4
index ready_for_implementation = 5
index implementing = 6
index testing = 7
index reviewing = 8
index changes_requested = 9
index awaiting_action_approval = 10
index ready_for_pr = 11
index pr_created = 12
index blocked = 13
index failed = 14
index completed = 15
index cancelled = 16

-- `source == target` on two state names.
abbrev pub same_state : State → State → Bool
same_state a b = index a == index b

-- `target in EDGES[source]`
unfoldable pub edges : State → State → Bool
edges draft_spec awaiting_clarification = true
edges draft_spec spec_ready = true
edges awaiting_clarification draft_spec = true
edges spec_ready planning = true
edges planning awaiting_plan_approval = true
edges awaiting_plan_approval ready_for_implementation = true
edges awaiting_plan_approval planning = true
edges ready_for_implementation implementing = true
edges implementing testing = true
edges implementing changes_requested = true
edges testing reviewing = true
edges testing changes_requested = true
edges reviewing awaiting_action_approval = true
edges reviewing changes_requested = true
edges changes_requested ready_for_implementation = true
edges changes_requested planning = true
edges changes_requested draft_spec = true
edges awaiting_action_approval ready_for_pr = true
edges awaiting_action_approval changes_requested = true
edges ready_for_pr pr_created = true
edges pr_created completed = true
edges _ _ = false

-- `state in TERMINAL`
abbrev pub is_terminal : State → Bool
is_terminal failed = true
is_terminal completed = true
is_terminal cancelled = true
is_terminal _ = false

-- `state in PAUSED`
abbrev pub is_paused : State → Bool
is_paused awaiting_plan_approval = true
is_paused awaiting_action_approval = true
is_paused blocked = true
is_paused s = is_terminal s

-- `target in {"FAILED", "CANCELLED", "BLOCKED"}`
abbrev is_exit : State → Bool
is_exit failed = true
is_exit cancelled = true
is_exit blocked = true
is_exit _ = false

-- `target == resume`, where `resume` may be `None`
abbrev is_resume : State → Option State → Bool
is_resume target none = false
is_resume target (some r) = same_state target r

unfoldable pub allowed : State → State → Option State → Bool
unfolding edges
allowed source target resume =
    if is_terminal source
    then false
    else if is_exit target
    then not (same_state source target)
    else if same_state source blocked
    then is_resume target resume && not (is_paused target || same_state target blocked)
    else edges source target
