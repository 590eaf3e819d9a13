-- ===== src/Convert/Shown.antt =====
-- internal/convert/workflow.go and internal/storage/postgres: the gate that the message of a workflow
-- shows, beside the gate of the job that a decision or an answer closes.
use mathlib.Mathlib.Data.Bool.Basic.{decide-false}
use boundflow.Base.{ℕ, ◌≡◌, ◌≢◌, false, Option, none, some, arith}
use boundflow.Domain.Status.{LifecycleState, LifecycleState-discrete, JobStatus, is_protected}
use boundflow.Domain.Rows.{Job}
use boundflow.Store.{Store}
use boundflow.Store.Gates.{resolve_approval, resolve_input}
use boundflow.Store.Scheduling.{reconcile_workflow_lifecycle, projected_state}
use boundflow.Convert.Messages.{
  Wire, ShownGate, WireWorkflow, workflow_to_proto, pending_approval, pending_input,
  pending_gate_to_proto,
}

abbrev shown_id : {Timestamp Struct : Type 0} → Option (ShownGate Timestamp Struct) → Option ℕ
shown_id none = none
shown_id (some g) = some g.id

-- The ids of the open approval and of the open input in a message.
abbrev pub shown_approval :
    {Timestamp Struct : Type 0} → Option (WireWorkflow Timestamp Struct) → Option ℕ
shown_approval none = none
shown_approval (some m) = shown_id m.pending_approval

abbrev pub shown_input :
    {Timestamp Struct : Type 0} → Option (WireWorkflow Timestamp Struct) → Option ℕ
shown_input none = none
shown_input (some m) = shown_id m.pending_input

module _ {Timestamp Struct : Type 0} (w : Wire Timestamp Struct) (id tenant_id : ℕ) where
  -- After ReconcileWorkflowLifecycles on the partition of a workflow whose state is neither
  -- protected nor awaiting_approval and whose job waits for the approval `a`, the message of the
  -- workflow shows `a` and no input, and the decision of `a` finds its gate.
  pub shown_approval_answers :
      (now partition blocked_after : ℕ) (s : Store) (j : Job) (a : ℕ) (status : JobStatus)
      (reason : ℕ)
      → s.job ≡ some j
      → j.status ≡ JobStatus.awaiting_approval
      → j.approval.id ≡ some a
      → s.workflow.scheduler_partition_id ≡ partition
      → is_protected s.workflow.lifecycle_state ≡ false
      → LifecycleState.awaiting_approval ≢ s.workflow.lifecycle_state
      → let t = (reconcile_workflow_lifecycle now partition blocked_after s).0 in
        (shown_approval (workflow_to_proto w id tenant_id (some t.workflow)) ≡ some a)
        × (shown_input (workflow_to_proto w id tenant_id (some t.workflow)) ≡ none)
        × ((resolve_approval a status reason t).1 ≢ none)
  unfolding reconcile_workflow_lifecycle projected_state resolve_approval workflow_to_proto
      pending_approval pending_input pending_gate_to_proto
  shown_approval_answers now partition after s j a status reason job waits opened part free moved =
      ground (
        arith,
        decide-false
            (LifecycleState-discrete LifecycleState.awaiting_approval s.workflow.lifecycle_state)
            moved,
      )

  -- After ReconcileWorkflowLifecycles on the partition of a workflow whose state is neither
  -- protected nor awaiting_input and whose job waits for the input `a`, the message of the workflow
  -- shows `a` and no approval, and an answer to `a` finds its gate.
  pub shown_input_answers :
      (now partition blocked_after : ℕ) (s : Store) (j : Job) (a : ℕ) (answer : Option ℕ)
      → s.job ≡ some j
      → j.status ≡ JobStatus.awaiting_input
      → j.input.id ≡ some a
      → s.workflow.scheduler_partition_id ≡ partition
      → is_protected s.workflow.lifecycle_state ≡ false
      → LifecycleState.awaiting_input ≢ s.workflow.lifecycle_state
      → let t = (reconcile_workflow_lifecycle now partition blocked_after s).0 in
        (shown_input (workflow_to_proto w id tenant_id (some t.workflow)) ≡ some a)
        × (shown_approval (workflow_to_proto w id tenant_id (some t.workflow)) ≡ none)
        × ((resolve_input a answer t).1 ≢ none)
  unfolding reconcile_workflow_lifecycle projected_state resolve_input workflow_to_proto
      pending_approval pending_input pending_gate_to_proto
  shown_input_answers now partition after s j a answer job waits opened part free moved = ground (
    arith,
    decide-false (LifecycleState-discrete LifecycleState.awaiting_input s.workflow.lifecycle_state)
        moved,
  )
