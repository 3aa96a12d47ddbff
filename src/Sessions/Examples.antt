-- ===== src/Sessions/Examples.antt =====
-- The theorems about sessions at a store with two tasks.
use orchd_ai.Ownership.Advancing.{Registered, advancing-Registered}
use orchd_ai.Engine.{Session, open_task, event, log}
use orchd_ai.Prelude.{
  ℕ, ◌+◌, ◌*◌, ◌≤◌, ◌≡◌, ◌≢◌, refl, true, false, some, none, [], ◌∷◌, All, length, arith, ok,
  is_alnum, is_word, err, Result,
}
use orchd_ai.Table.{find, put, total}
use orchd_ai.Records.{World, Task, is_later, second, is_over, text_rank}
use orchd_ai.Roles.{project_manager, is_name, is_agent, role_for, works_as}
use orchd_ai.Engine.Creation.{new_state, new_context}
use orchd_ai.Ownership.{
  agent, worker, Holding, Registry, Locks, active_owners, exclusive_task, held, live, admitted,
  claim, disclaim, deciding, advancing, registered, Denied,
}
use orchd_ai.Sessions.{
  available, duration, is_taken, renew, release, take, next_generation, identifier, session,
  is_held, is_wanted, offered, offers,
}
use orchd_ai.Sessions.Claims.{own_locks, take-bound, take-lapsed, take-worker}
use orchd_ai.Sessions.Lifetimes.{lease, take-release, take-renew}
use orchd_ai.Sessions.Offers.{CanClaim, available-CanClaim}

abbrev fresh_task : ℕ → Task
fresh_task t = record { state = new_state t; context = new_context }

abbrev two_tasks : World
two_tasks = record {
  tasks = (1, fresh_task 1) ∷ (2, fresh_task 2) ∷ [];
  records = [];
  approvals = [];
  operations = [];
  events = [];
}

abbrev no_locks : Locks
no_locks = record { tasks = λ _. false; whole = false }

abbrev running : Holding
running = record {
  task_id = 2;
  owner = agent "pm-2" project_manager 77;
  claimed_at = 0;
  revision = 0;
  generation = 1;
  expires_at = some 900000000;
}

abbrev dropped : Holding
dropped = record {
  task_id = 1;
  owner = worker 5;
  claimed_at = 0;
  revision = 0;
  generation = 1;
  expires_at = none;
}

-- Task 2 is leased until 900 seconds, and task 1 is free.
abbrev one_lease : Registry
one_lease = (2, running) ∷ []

-- The claim of task 1 for a minute, at second 0.
abbrev claimed : Registry
claimed = (1, lease 0 1 (agent "pm-1" project_manager 9) 0 1 60) ∷ one_lease

claimed-take :
    take 0 4 no_locks 9 1 "pm-1" project_manager (some 60) none two_tasks one_lease ≡ ok claimed
unfolding find put total is_alnum is_word is_over text_rank is_later is_name is_agent role_for
    works_as open_task exclusive_task held live active_owners admitted claim disclaim deciding
    identifier session duration is_held take renew release is_wanted offered offers available
claimed-take = refl

take-bound_example : length (active_owners 0 (own_locks 1 no_locks) claimed) ≤ 4
take-bound_example =
    take-bound 0 4 no_locks 9 1 "pm-1" project_manager (some 60) none two_tasks one_lease (tt, tt)
      (refl, tt) claimed-take

-- At second 1000 the lease of task 2 has run out.
abbrev reclaimed : Registry
reclaimed = (2, lease 1000000000 2 (agent "pm-1" project_manager 9) 0 2 60) ∷ []

reclaimed-take :
    take 1000000000 4 no_locks 9 2 "pm-1" project_manager (some 60) none two_tasks one_lease
    ≡ ok reclaimed
unfolding find put total is_alnum is_word is_over text_rank is_later is_name is_agent role_for
    works_as open_task exclusive_task held live active_owners admitted claim disclaim deciding
    identifier session duration is_held take renew release is_wanted offered offers available
reclaimed-take = refl

running-found : find 2 one_lease ≡ some running
unfolding find
running-found = refl

take-lapsed_example :
    (end : ℕ) × (running.expires_at ≡ some end) × (is_later end 1000000000 ≡ false)
take-lapsed_example =
    take-lapsed 1000000000 4 no_locks 9 2 "pm-1" project_manager (some 60) none two_tasks one_lease
      running-found refl refl reclaimed-take

dropped-found : find 1 ((1, dropped) ∷ []) ≡ some dropped
unfolding find
dropped-found = refl

take-worker_example :
    (is_taken 50 no_locks 1 ((1, dropped) ∷ []) ≡ false)
    × ((reg' : Registry)
        → ¬ (
            take 50 4 no_locks 9 1 "pm-1" project_manager none none two_tasks ((1, dropped) ∷ [])
            ≡ ok reg'))
take-worker_example =
    take-worker 50 4 no_locks 9 1 "pm-1" project_manager none none two_tasks ((1, dropped) ∷ [])
      dropped-found refl refl refl refl

take-release_example :
    (reg'' : Registry) × (release no_locks 1 "pm-1" claimed ≡ ok reg'')
    × (find 1 reg'' ≡ none)
    × ((u : ℕ) → u ≢ 1 → find u reg'' ≡ find u one_lease)
take-release_example =
    take-release 0 4 no_locks 9 1 "pm-1" project_manager (some 60) none two_tasks one_lease
      claimed-take

duration-60 : duration (some 60) ≡ ok 60
unfolding duration
duration-60 = refl

in_time : is_later (0 + 60 * second) 30000000 ≡ true
unfolding is_later
in_time = refl

take-renew_example :
    (reg'' : Registry) × (s : Session) × (open_task two_tasks 1 ≡ ok s)
    × (find 1 claimed
        ≡ some (
            lease 0 1
              (agent "pm-1" project_manager 9)
              s.state.revision
              (next_generation (find 1 one_lease))
              60))
    × (renew 30000000 no_locks 1 "pm-1" (some 60) claimed ≡ ok reg'')
    × (find 1 reg''
        ≡ some (
            lease 30000000 1
              (agent "pm-1" project_manager 9)
              s.state.revision
              (next_generation (find 1 one_lease))
              60))
    × ((u : ℕ) → u ≢ 1 → find u reg'' ≡ find u one_lease)
take-renew_example =
    take-renew 0 4 no_locks 9 1 "pm-1" project_manager (some 60) none two_tasks one_lease 60
      30000000 60 (some 60) claimed-take duration-60 duration-60 in_time

one_active : length (active_owners 0 no_locks one_lease) ≡ 1
unfolding find put total is_alnum is_word is_over text_rank is_later is_name is_agent role_for
    works_as open_task exclusive_task held live active_owners admitted claim disclaim deciding
    identifier session duration is_held take renew release is_wanted offered offers available
one_active = refl

-- Task 1 is offered, and task 2 is not.
listed :
    (available 0 4 no_locks (project_manager ∷ []) 10 two_tasks one_lease).available
    ≡ (record { task_id = 1; state = (new_state 1).state; role = project_manager; revision = 0 })
      ∷ []
unfolding find put total is_alnum is_word is_over text_rank is_later is_name is_agent role_for
    works_as open_task exclusive_task held live active_owners admitted claim disclaim deciding
    identifier session duration is_held take renew release is_wanted offered offers available
listed = refl

pm-1_is_agent : is_agent "pm-1" ≡ true
unfolding find put total is_alnum is_word is_over text_rank is_later is_name is_agent role_for
    works_as open_task exclusive_task held live active_owners admitted claim disclaim deciding
    identifier session duration is_held take renew release is_wanted offered offers available
pm-1_is_agent = refl

available-CanClaim_example :
    All
      (CanClaim 0 4 no_locks 9 "pm-1" two_tasks one_lease)
      (available 0 4 no_locks (project_manager ∷ []) 10 two_tasks one_lease).available
available-CanClaim_example =
    available-CanClaim 0 4 no_locks 9 "pm-1" (project_manager ∷ []) two_tasks one_lease (refl, tt)
      pm-1_is_agent (λ t. refl) refl (omega (arith, one_active)) 10 (omega arith)

-- A worker takes over task 2, of which the lease has run out.
abbrev begun : Result Denied (World × Registry)
begun = advancing 1000000000 4 no_locks [] (worker 3) 2 two_tasks one_lease

abbrev left_by : Result Denied (World × Registry) → World × Registry
left_by (ok out) = out
left_by (err _) = (two_tasks, one_lease)

begun_well : begun ≡ ok (left_by begun)
unfolding find put is_over text_rank is_later open_task exclusive_task held live active_owners
    admitted claim deciding registered advancing event log
begun_well = refl

advancing-Registered_example :
    Registered 2 (worker 3) (left_by begun).1
    × ((h : Holding) (end : ℕ)
        → find 2 one_lease ≡ some h
        → h.expires_at ≡ some end
        → is_later end 1000000000 ≡ false)
advancing-Registered_example =
    advancing-Registered 1000000000 4 no_locks [] (worker 3) 2 two_tasks one_lease begun_well
