-- ===== src/Roles.antt =====
-- orch/agent_sessions.py and orch/task_drafts.py: roles, and the names that agents and people go by.
mod Examples
use orchd_ai.Prelude.{
  ℕ, String, ◌≡◌, refl, Bool, true, false, not, ◌&&◌, ◌||◌, Option, none, some, List, [], ◌∷◌, any,
  all, length, codes, is_alnum, is_word, leb, ◌==◌, str_eq, if◌then◌else◌,
}
use orchd_ai.Workflow.{
  State, draft_spec, awaiting_clarification, spec_ready, planning, awaiting_plan_approval,
  ready_for_implementation, implementing, testing, reviewing, changes_requested,
  awaiting_action_approval, ready_for_pr, pr_created, blocked,
}

-- A role is a text in the source: `other` is one that no table names.
pub data Role : Type 0 where
  project_manager human lead_planner junior test_runner reviewer action_broker : Role
  guardian orchestrator lead_clarifier : Role
  other : String → Role

-- `ROLE_FOR_STATE.get(state)`: READY_FOR_PR and the finished states have no entry.
unfoldable pub role_for : State → Option Role
role_for draft_spec = some project_manager
role_for awaiting_clarification = some human
role_for spec_ready = some lead_planner
role_for planning = some lead_planner
role_for awaiting_plan_approval = some human
role_for ready_for_implementation = some junior
role_for changes_requested = some junior
role_for implementing = some junior
role_for testing = some test_runner
role_for reviewing = some reviewer
role_for awaiting_action_approval = some human
role_for pr_created = some action_broker
role_for blocked = some human
role_for _ = none

-- The place of a role among the named ones.
abbrev pub place : Role → ℕ
place project_manager = 0
place human = 1
place lead_planner = 2
place junior = 3
place test_runner = 4
place reviewer = 5
place action_broker = 6
place guardian = 7
place orchestrator = 8
place lead_clarifier = 9
place (other _) = 10

abbrev pub same_role : Role → Role → Bool
same_role (other a) (other b) = str_eq a b
same_role a b = place a == place b

-- `role in ROLES`
abbrev pub is_role : Role → Bool
is_role (other _) = false
is_role _ = true

-- `role in AGENT_ROLES`
abbrev pub is_agent_role : Role → Bool
is_agent_role human = false
is_agent_role r = is_role r

-- `role in set(ROLE_FOR_STATE.values())`
abbrev pub is_state_role : Role → Bool
is_state_role guardian = false
is_state_role orchestrator = false
is_state_role lead_clarifier = false
is_state_role r = is_role r

-- `role in {role for role in roles if role in AGENT_ROLES}`
unfoldable pub works_as : List Role → Role → Bool
works_as roles r = any (λ x. is_agent_role x && same_role x r) roles

-- A letter or a digit, and at most `rest` letters, digits, dashes or underscores.
unfoldable pub is_name : ℕ → List ℕ → Bool
is_name rest [] = false
is_name rest (c ∷ cs) = is_alnum c && all is_word cs && leb (length cs) rest

-- `AGENT.fullmatch(agent)`
unfoldable pub is_agent : String → Bool
unfolding is_name is_alnum is_word
is_agent agent = is_name 63 (codes agent)

-- `PRINCIPAL.fullmatch(value)`
unfoldable pub is_principal : String → Bool
unfolding is_name is_alnum is_word
is_principal value = is_name 127 (codes value)
