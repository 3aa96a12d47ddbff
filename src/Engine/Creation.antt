-- ===== src/Engine/Creation.antt =====
-- orch/engine.py: opening a task, with a specification to be drafted or with the fixture's.
pub mod Log
pub mod Rows
use orchd_ai.Prelude.{
  ℕ, String, Bool, true, false, not, ◌||◌, Option, none, some, List, [], ◌∷◌, length, codes, ◌==◌,
  if◌then◌else◌, is_some, Result, ok, err, ◌>>=◌, ◌>>◌, raise_if, str_eq, ltb,
}
use orchd_ai.Table.{find, put}
use orchd_ai.Workflow.{State, draft_spec, spec_ready}
use orchd_ai.Records.{Scope, Spec, Body, Document, TaskState, Context, EventType, Ref, World}
use orchd_ai.Engine.{Refusal, conflicting, bad_title, Session, event, store, transition}

-- The state and the context of a new task.
abbrev pub new_state : ℕ → TaskState
new_state id = record {
  task_id = id;
  revision = 0;
  state = draft_spec;
  active_invocation_id = none;
  active_operation_id = none;
  container_id = none;
  resume_state = none;
  spec = none;
  plan = none;
  work_order = none;
  patch = none;
  pending_approval = none;
  last_event_sequence = 0;
  error = none;
}

abbrev pub new_context : Context
new_context = record {
  is_repository = false;
  attempt = 0;
  planning_attempt = 0;
  spec_confirmed = false;
  confirmed_sha = none;
  plan_request = none;
  plan_approval = none;
  action_request = none;
  action_approval_request = none;
  action_approval = none;
  test = none;
  review = none;
  external = none;
  clarification_request = none;
  clarification_response = none;
  clarification_questions = [];
  draft_title = none;
  renewal = none;
  cancellation = none;
  recovery = none;
}

-- The specification of the fixture, which its operator has confirmed.
abbrev pub fixture_spec : String → String → Spec
fixture_spec title principal = record {
  revision = 0;
  title = title;
  request = "Replace hello with hello world in greeting.txt";
  acceptance_criteria = "greeting.txt equals hello world followed by newline" ∷ [];
  constraints = "offline fixture only" ∷ [];
  allowed_paths = "greeting.txt" ∷ [];
  external_references = [];
  confirmed_by = some principal;
}

-- The row that is inserted before the first event.
abbrev pub inserted : ℕ → World → Session
inserted id w = record {
  world = record w {
    tasks = put id (record { state = new_state id; context = new_context }) w.tasks;
  };
  state = new_state id;
  context = new_context;
}

-- The context of a draft keeps its title.
abbrev pub titled : String → Session → Session
titled title s = record s { context = record s.context { draft_title = some title } }

abbrev pub with_spec : World × Ref → Session → Session
with_spec kept s = record s { world = kept.0; state = record s.state { spec = some kept.1 } }

abbrev pub confirmed : Session → Session
confirmed s = record s { context = record s.context { spec_confirmed = true } }

module _ (digest : Document → ℕ) (scope_digest : Scope → ℕ) (redact : String → String)
    (now : ℕ) where
  -- `create_task`; `spec_id` is the identifier of the fixture's specification. An identifier that
  -- is taken is refused by the primary key.
  unfoldable pub create_task : ℕ → ℕ → String → String → Bool → World → Result Refusal World
  create_task id spec_id title principal draft w = do
    raise_if
        (str_eq title "" || ltb 200 (length (codes title)) || not (str_eq (redact title) title))
        bad_title
    raise_if (is_some (find id w.tasks)) conflicting
    let opened = (event EventType.task_created none (titled title (inserted id w))).world
    let fixture = do
      kept ←
          store digest
            (record {
              id = spec_id;
              task_id = id;
              body = Body.task_spec (fixture_spec title principal);
            })
            (inserted id w).world
      s ← transition digest scope_digest now spec_ready (
          event EventType.spec_confirmed none
            (confirmed (event EventType.task_created none (with_spec kept (inserted id w)))))
      ok s.world
    if draft then ok opened else fixture
