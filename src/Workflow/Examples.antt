-- ===== src/Workflow/Examples.antt =====
-- The theorems about the workflow at concrete paths.
use orchd_ai.Prelude.{◌≡◌, refl, true, some, List, [], ◌∷◌}
use orchd_ai.Workflow.{
  State, planning, awaiting_plan_approval, ready_for_implementation, testing, reviewing,
  awaiting_action_approval, ready_for_pr, blocked, implementing, pr_created,
}
use orchd_ai.Workflow.Paths.{run, passes, start}
use orchd_ai.Workflow.Gates.{run_gates}

-- A path to a pull request that is blocked while it is implemented, and resumed.
abbrev interrupted : List State
interrupted =
    State.spec_ready ∷ planning ∷ awaiting_plan_approval ∷ ready_for_implementation ∷ implementing
    ∷ blocked ∷ implementing ∷ testing ∷ reviewing ∷ awaiting_action_approval ∷ ready_for_pr
    ∷ pr_created ∷ []

run-interrupted :
    run start interrupted ≡ some (record { at = pr_created; resume = some implementing })
unfolding run
run-interrupted = refl

run_gates_example :
    (passes awaiting_plan_approval ready_for_implementation start interrupted ≡ true)
    × (passes testing reviewing start interrupted ≡ true)
    × (passes awaiting_action_approval ready_for_pr start interrupted ≡ true)
run_gates_example = run_gates interrupted run-interrupted refl
