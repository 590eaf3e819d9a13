-- ===== src/Domain/Audit.antt =====
-- internal/domain/audit.go: the rows of the governance audit log, with the payload of each type.
-- The tenant group and the workflow of a row are those of the slice that the store models.
use mathlib.Core.Option.{Option}
use Prim.Native.Nat.{ℕ}
use boundflow.Domain.Status.{WorkflowState}
use boundflow.Domain.Policy.{Float64, Rule}

pub data ApprovalDecision : Type 0 where
  approved rejected timed_out : ApprovalDecision

pub record ApprovalDetails : Type 0 where
  pub approval_id : ℕ
  pub opened_at : Option ℕ
  pub decided_at : ℕ
  pub decision : ApprovalDecision
  pub justification : ℕ
  pub reason : ℕ

pub data InputDecision : Type 0 where
  answered timed_out : InputDecision

pub record InputDetails : Type 0 where
  pub input_id : ℕ
  pub opened_at : Option ℕ
  pub decided_at : ℕ
  pub decision : InputDecision
  pub answer : Option ℕ
  pub prompt : ℕ

-- PolicyActionDetails of a workflow rule; its scope is always "workflow".
pub record PolicyAction : Type 0 where
  pub rule : Rule
  pub trigger_value : Float64
  pub previous_version : ℕ
  pub previous_state : WorkflowState

pub data Details : Type 0 where
  approval : ApprovalDetails → Details
  input : InputDetails → Details
  policy_action : PolicyAction → Details
  agent_policy_action : ℕ → Details

pub record AuditEvent : Type 0 where
  pub request_id : ℕ
  pub actor : ℕ
  pub occurred_at : ℕ
  pub details : Details
