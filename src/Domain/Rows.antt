-- ===== src/Domain/Rows.antt =====
-- The rows of the tables workflows, jobs and customer_requests, as internal/domain reads them.
-- Identifiers, texts and JSON documents that the code only carries or compares are opaque numbers,
-- the empty text 0; a nullable column is an Option; a time is a number of seconds.
use mathlib.Core.Bool.{Bool}
use mathlib.Core.Option.{Option, none}
use mathlib.Core.List.{List}
use Prim.Native.Nat.{ℕ}
use boundflow.Base.{Map}
use boundflow.Domain.Status.{
  LifecycleState, WorkflowState, InvokeMode, JobStatus, RequestStatus, RequestType, RunOutcome,
}
use boundflow.Domain.Policy.{Policy, Snapshot}
use boundflow.Domain.Metrics.{AgentMetrics, RunMetrics}

pub record WorkflowConfig : Type 0 where
  pub invoke_timeout_seconds : ℕ
  pub repeat_every_seconds : ℕ
  pub triggerable : Bool
  pub invoke_mode : InvokeMode
  pub max_queue_depth : ℕ
  pub resumable : Bool

pub record Suspension : Type 0 where
  pub id : Option ℕ
  pub reason : ℕ
  pub stop_current : Bool
  pub requested_at : Option ℕ
  pub finalized_at : Option ℕ

-- The columns of a gate: approval_* and input_* of a job, last_gate_* of a workflow.
pub record Gate : Type 0 where
  pub id : Option ℕ
  pub detail : ℕ
  pub metadata : Option ℕ
  pub opened_at : Option ℕ
  pub timeout_at : Option ℕ

-- `tenant_group_id` is the group of the workflow's tenant, which the statements join in.
pub record Workflow : Type 0 where
  pub workflow_type : ℕ
  pub tenant_group_id : ℕ
  pub config : WorkflowConfig
  pub lifecycle_state : LifecycleState
  pub last_completed_request_at : Option ℕ
  pub last_interrupted_request_id : ℕ
  pub last_gate : Gate
  pub workflow_state : WorkflowState
  pub lifecycle_policy : Policy
  pub invocation_metrics : List Snapshot
  pub cooldown_until : Option ℕ
  pub last_policy_decision_request_id : ℕ
  pub lifecycle_last_resolved : ℕ
  pub current_workflow_version : ℕ
  pub scheduler_partition_id : ℕ
  pub target_version : ℕ
  pub current_version : ℕ
  pub metrics_emitted_at : ℕ
  pub created_at : ℕ
  pub deletion_requested_at : Option ℕ
  pub deletion_finalized_at : Option ℕ
  pub suspension : Suspension

pub record NextOperation : Type 0 where
  pub operation_name : ℕ
  pub context : ℕ
  pub timeout_seconds : ℕ

-- ApprovalBranch and InputBranch.
pub record Branch : Type 0 where
  pub next : Option NextOperation
  pub result : Option ℕ

-- ApprovalGateMetadata (`accept` is on_approve, `refuse` on_reject) and InputGateMetadata
-- (`accept` is on_answer, `refuse` on_timeout).
pub record Branches : Type 0 where
  pub accept : Branch
  pub refuse : Branch

pub record JobMetadata : Type 0 where
  pub approval_gate : Option Branches
  pub input_gate : Option Branches

pub record Job : Type 0 where
  pub request_id : ℕ
  pub version : ℕ
  pub current_atomic_operation : ℕ
  pub context : ℕ
  pub status : JobStatus
  pub job_type : RequestType
  pub workflow_type : ℕ
  pub tenant_group_id : ℕ
  pub timeout_seconds : ℕ
  pub workflow_version : ℕ
  pub agent_metrics : Map AgentMetrics
  pub workflow_metrics : RunMetrics
  pub result_type : Option RunOutcome
  pub failure_reason : ℕ
  pub result : Option ℕ
  pub attempts : ℕ
  pub owner : Option ℕ
  pub lease_expires_at : Option ℕ
  pub dispatch_at : Option ℕ
  pub abandon_requested_at : Option ℕ
  pub created_at : ℕ
  pub job_metadata : JobMetadata
  pub approval : Gate
  pub approval_reason : ℕ
  pub input : Gate
  pub input_answer : Option ℕ

pub record Request : Type 0 where
  pub id : ℕ
  pub status : RequestStatus
  pub request_type : RequestType
  pub request_info : ℕ
  pub version : ℕ
  pub run_outcome : Option RunOutcome
  pub failure_reason : ℕ
  pub result : Option ℕ
  pub created_at : ℕ
  pub completed_at : Option ℕ

abbrev pub no_metadata : JobMetadata
no_metadata = record { approval_gate = none; input_gate = none }

-- The gate columns as the statements that move a run on write them: `opened_at` stays.
abbrev pub closed_gate : Gate → Gate
closed_gate g = record g { id = none; detail = 0; metadata = none; timeout_at = none }
