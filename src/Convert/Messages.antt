-- ===== src/Convert/Messages.antt =====
-- internal/convert/workflow.go: the messages of a workflow, a run and a request, and the open gate
-- of internal/domain/workflow.go (PendingApproval, PendingInput). A text that the messages take over
-- from an enumeration stays that enumeration. New of timestamppb, NewStruct of structpb and the
-- conversion of a float64 to an int32 are fields of Wire.
use boundflow.Base.{ℕ, Bool, Option, none, some}
use boundflow.Domain.Policy.{Float64}
use boundflow.Domain.Status.{LifecycleState, WorkflowState, RequestType, RequestStatus, RunOutcome}
use boundflow.Domain.Rows.{Gate, Workflow, Request, Suspension}
use boundflow.Convert.{invoke_mode_to_proto}
use boundflow.Convert.Agents.{to_32}
use boundflow.Convert.Config.{WireConfig}

-- A struct of NewStruct, `none` for its error.
pub record Wire (Timestamp Struct : Type 0) : Type 0 where
  pub stamp : ℕ → Timestamp
  pub struct_of : ℕ → Option Struct
  pub to_int32 : Float64 → ℕ

-- PendingApproval and PendingInput of the domain, `detail` the justification and the prompt.
pub record PendingGate : Type 0 where
  pub id : ℕ
  pub detail : ℕ
  pub metadata : Option ℕ
  pub opened_at : Option ℕ
  pub timeout_at : Option ℕ

abbrev open_gate : Gate → Option ℕ → Option PendingGate
open_gate g none = none
open_gate g (some id) = some (record {
  id = id;
  detail = g.detail;
  metadata = g.metadata;
  opened_at = g.opened_at;
  timeout_at = g.timeout_at;
})

-- LifecycleInfo.PendingApproval.
unfoldable pub pending_approval : LifecycleState → Gate → Option PendingGate
pending_approval LifecycleState.awaiting_approval g = open_gate g g.id
pending_approval _ g = none

-- LifecycleInfo.PendingInput.
unfoldable pub pending_input : LifecycleState → Gate → Option PendingGate
pending_input LifecycleState.awaiting_input g = open_gate g g.id
pending_input _ g = none

-- workflowStateToProto.
unfoldable pub workflow_state_to_proto : WorkflowState → ℕ
workflow_state_to_proto WorkflowState.active = 1
workflow_state_to_proto WorkflowState.paused = 2
workflow_state_to_proto WorkflowState.cooldown = 3
workflow_state_to_proto WorkflowState.disabled = 4
workflow_state_to_proto WorkflowState.suspended = 5

pub record ShownGate (Timestamp Struct : Type 0) : Type 0 where
  pub id : ℕ
  pub detail : ℕ
  pub metadata : Option Struct
  pub opened_at : Option Timestamp
  pub timeout_at : Option Timestamp

pub record ShownSuspension (Timestamp : Type 0) : Type 0 where
  pub suspension_id : ℕ
  pub reason : ℕ
  pub stop_current : Bool
  pub requested_at : Option Timestamp
  pub finalized_at : Option Timestamp

pub record WireWorkflow (Timestamp Struct : Type 0) : Type 0 where
  pub id : ℕ
  pub workflow_type : ℕ
  pub tenant_id : ℕ
  pub created_at : Timestamp
  pub workflow_config : WireConfig
  pub lifecycle_state : LifecycleState
  pub workflow_state : ℕ
  pub last_interrupted_request_id : ℕ
  pub last_policy_decision_request_id : ℕ
  pub pending_approval : Option (ShownGate Timestamp Struct)
  pub pending_input : Option (ShownGate Timestamp Struct)
  pub deletion_requested_at : Option Timestamp
  pub suspension : Option (ShownSuspension Timestamp)
  pub cooldown_until : Option Timestamp

pub record WireRun (Timestamp : Type 0) : Type 0 where
  pub request_id : ℕ
  pub request_type : RequestType
  pub status : RequestStatus
  pub run_outcome : Option RunOutcome
  pub failure_reason : ℕ
  pub created_at : Timestamp
  pub completed_at : Option Timestamp

pub record WireRequestInfo (Timestamp Struct : Type 0) : Type 0 where
  pub request_id : ℕ
  pub workflow_id : ℕ
  pub request_type : RequestType
  pub status : RequestStatus
  pub run_outcome : Option RunOutcome
  pub failure_reason : ℕ
  pub version : ℕ
  pub created_at : Timestamp
  pub completed_at : Option Timestamp
  pub result : Option Struct
  pub invoke_context : Option Struct
  pub operation_timeout_seconds : ℕ
  pub agent_runtime_policies : Option Struct

-- What the code finds in the document of a request: the object `input`, the number
-- `operationTimeoutSeconds` and the object `agentRuntimePolicies`, each where it has that form.
pub record InfoFields : Type 0 where
  pub input : Option ℕ
  pub operation_timeout_seconds : Option Float64
  pub agent_runtime_policies : Option ℕ

module _ {Timestamp Struct : Type 0} (w : Wire Timestamp Struct) where
  -- `if t != nil { x = timestamppb.New(*t) }`.
  abbrev stamped : Option ℕ → Option Timestamp
  stamped none = none
  stamped (some t) = some (w.stamp t)

  -- `if m != nil { if s, err := structpb.NewStruct(m); err == nil { x = s } }`.
  abbrev struct_from : Option ℕ → Option Struct
  struct_from none = none
  struct_from (some m) = w.struct_of m

  -- pendingApprovalToProto and pendingInputToProto, behind `!= nil`.
  unfoldable pub pending_gate_to_proto : Option PendingGate → Option (ShownGate Timestamp Struct)
  pending_gate_to_proto none = none
  pending_gate_to_proto (some p) = some (record {
    id = p.id;
    detail = p.detail;
    metadata = struct_from p.metadata;
    opened_at = stamped p.opened_at;
    timeout_at = stamped p.timeout_at;
  })

  abbrev identified : Option ℕ → ℕ
  identified none = 0
  identified (some id) = id

  -- suspensionToProto, behind `RequestedAt != nil`.
  unfoldable pub suspension_to_proto : Option ℕ → Suspension → Option (ShownSuspension Timestamp)
  suspension_to_proto none s = none
  suspension_to_proto (some requested) s = some (record {
    suspension_id = identified s.id;
    reason = s.reason;
    stop_current = s.stop_current;
    requested_at = stamped s.requested_at;
    finalized_at = stamped s.finalized_at;
  })

  -- WorkflowToProto, of the workflow `id` of the tenant `tenant_id`.
  unfoldable pub workflow_to_proto :
      ℕ → ℕ → Option Workflow → Option (WireWorkflow Timestamp Struct)
  workflow_to_proto id tenant_id none = none
  workflow_to_proto id tenant_id (some r) = some (record {
    id = id;
    workflow_type = r.workflow_type;
    tenant_id = tenant_id;
    created_at = w.stamp r.created_at;
    workflow_config = record {
      version = to_32 r.current_workflow_version;
      invoke_timeout_seconds = r.config.invoke_timeout_seconds;
      repeat_every_seconds = r.config.repeat_every_seconds;
      triggerable = r.config.triggerable;
      invoke_mode = invoke_mode_to_proto r.config.invoke_mode;
      max_queue_depth = r.config.max_queue_depth;
      resumable = r.config.resumable;
    };
    lifecycle_state = r.lifecycle_state;
    workflow_state = workflow_state_to_proto r.workflow_state;
    last_interrupted_request_id = r.last_interrupted_request_id;
    last_policy_decision_request_id = r.last_policy_decision_request_id;
    pending_approval = pending_gate_to_proto (pending_approval r.lifecycle_state r.last_gate);
    pending_input = pending_gate_to_proto (pending_input r.lifecycle_state r.last_gate);
    deletion_requested_at = stamped r.deletion_requested_at;
    suspension = suspension_to_proto r.suspension.requested_at r.suspension;
    cooldown_until = stamped r.cooldown_until;
  })

  -- RunToProto.
  unfoldable pub run_to_proto : Option Request → Option (WireRun Timestamp)
  run_to_proto none = none
  run_to_proto (some r) = some (record {
    request_id = r.id;
    request_type = r.request_type;
    status = r.status;
    run_outcome = r.run_outcome;
    failure_reason = r.failure_reason;
    created_at = w.stamp r.created_at;
    completed_at = stamped r.completed_at;
  })

  abbrev timeout_from : Option Float64 → ℕ
  timeout_from none = 0
  timeout_from (some t) = w.to_int32 t

  -- RequestInfoToProto, of a request of the workflow `workflow_id` whose document `read` opens.
  unfoldable pub request_info_to_proto :
      (ℕ → InfoFields) → ℕ → Option Request → Option (WireRequestInfo Timestamp Struct)
  request_info_to_proto read workflow_id none = none
  request_info_to_proto read workflow_id (some r) = some (record {
    request_id = r.id;
    workflow_id = workflow_id;
    request_type = r.request_type;
    status = r.status;
    run_outcome = r.run_outcome;
    failure_reason = r.failure_reason;
    version = r.version;
    created_at = w.stamp r.created_at;
    completed_at = stamped r.completed_at;
    result = struct_from r.result;
    invoke_context = struct_from (read r.request_info).input;
    operation_timeout_seconds = timeout_from (read r.request_info).operation_timeout_seconds;
    agent_runtime_policies = struct_from (read r.request_info).agent_runtime_policies;
  })
