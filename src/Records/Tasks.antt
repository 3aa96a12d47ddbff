-- ===== src/Records/Tasks.antt =====
-- The row of a task, its events, and the store. A row holds the contract `TaskState` and the
-- engine's `context`, of which a key that is absent is `none`.
use orchd_ai.Prelude.{ℕ, String, Bool, Option, List}
use orchd_ai.Table.{Table}
use orchd_ai.Workflow.{State}
use orchd_ai.Records.Documents.{Ref, Document}

pub record TaskState : Type 0 where
  pub task_id : ℕ
  pub revision : ℕ
  pub state : State
  pub active_invocation_id : Option ℕ
  pub active_operation_id : Option ℕ
  pub container_id : Option ℕ
  pub resume_state : Option State
  pub spec : Option Ref
  pub plan : Option Ref
  pub work_order : Option Ref
  pub patch : Option Ref
  pub pending_approval : Option Ref
  pub last_event_sequence : ℕ
  pub error : Option String

-- `context["approval_renewal"]`
pub record Renewal : Type 0 where
  pub request_id : ℕ
  pub expected_revision : ℕ
  pub principal : String
  pub replacement : Option Ref

-- `context["cancellation"]`
pub record Cancellation : Type 0 where
  pub principal : String
  pub reason : String
  pub expected_revision : ℕ
  pub cancelled_at : ℕ
  pub previous_state : State
  pub pending_approval : Option Ref

-- `context["operator_recovery"]`
pub data Cleanup : Type 0 where
  pending completed deferred : Cleanup

pub record Recovery : Type 0 where
  pub expected_revision : ℕ
  pub principal : String
  pub operation_id : ℕ
  pub completed_revision : ℕ
  pub cleanup : Cleanup

pub record Context : Type 0 where
  -- whether `context["workload"]` is the repository workload
  pub is_repository : Bool
  pub attempt : ℕ
  pub planning_attempt : ℕ
  pub spec_confirmed : Bool
  pub confirmed_sha : Option ℕ
  pub plan_request : Option Ref
  pub plan_approval : Option Ref
  pub action_request : Option Ref
  pub action_approval_request : Option Ref
  pub action_approval : Option Ref
  pub test : Option Ref
  pub review : Option Ref
  pub external : Option Ref
  pub clarification_request : Option Ref
  pub clarification_response : Option Ref
  pub clarification_questions : List String
  pub draft_title : Option String
  pub renewal : Option Renewal
  pub cancellation : Option Cancellation
  pub recovery : Option Recovery

pub record Task : Type 0 where
  pub state : TaskState
  pub context : Context

pub data EventType : Type 0 where
  task_created spec_drafted spec_confirmed state_transition changes_requested : EventType
  workflow_failed workflow_completed approval_requested approval_renewed : EventType
  approval_granted approval_rejected external_action_approved external_action_rejected : EventType
  operator_cancellation operator_recovery operator_cleanup_retry : EventType
  recovery_cleanup_completed recovery_cleanup_deferred : EventType
  clarification_requested clarification_answered task_ownership_taken : EventType

-- The payload is the snapshot that was handed to the event's artifact, which holds its text redacted.
pub record Event : Type 0 where
  pub sequence : ℕ
  pub task_revision : ℕ
  pub event_type : EventType
  pub from_state : Option State
  pub to_state : Option State
  pub payload : Task

pub data Status : Type 0 where
  started done : Status

pub record Operation : Type 0 where
  pub task_id : ℕ
  pub status : Status
  -- whether the recorded result says that an interrupted attempt was reconciled
  pub is_reconciled : Bool
  pub generation : ℕ

-- The tables that the engine reads and writes; `events` keeps each task's, the latest first.
pub record World : Type 0 where
  pub tasks : Table Task
  pub records : Table Document
  pub approvals : Table ℕ
  pub operations : Table Operation
  pub events : Table (List Event)
