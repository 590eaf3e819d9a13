-- ===== src/Store/Gates.antt =====
-- internal/storage/postgres/job.go: the two gates at which a run waits for a person. A session
-- parks the job, and one decision or one timeout moves it on.
use boundflow.Base.{
  ℕ, ◌+◌, Bool, true, false, ◌&&◌, Option, none, some, ◌==◌, is, reached, if◌then◌else◌,
}
use boundflow.Domain.Status.{LifecycleState, JobStatus, is_awaiting_approval, is_awaiting_input}
use boundflow.Domain.Rows.{Job, Gate, JobMetadata}
use boundflow.Store.{Store, update_job}
use boundflow.Store.Jobs.{Metrics, is_owned}

-- What a session hands to ParkForApproval and ParkForInput about the gate it opens.
pub record Opening : Type 0 where
  pub gate_id : ℕ
  pub timeout_seconds : ℕ
  pub detail : ℕ
  pub gate_metadata : Option ℕ
  pub branches : JobMetadata

abbrev opened : ℕ → Opening → Gate
opened now o = record {
  id = some o.gate_id;
  detail = o.detail;
  metadata = o.gate_metadata;
  opened_at = some now;
  timeout_at = some (now + o.timeout_seconds);
}

-- What both statements write besides the gate's own columns: the row keeps no operation.
abbrev parked : Opening → Metrics → Job → Job
parked o m j = record j {
  job_metadata = o.branches;
  agent_metrics = m.agents;
  workflow_metrics = m.run;
  context = 0;
  timeout_seconds = 0;
  current_atomic_operation = 0;
}

-- ParkForApproval.
unfoldable pub park_for_approval : ℕ → ℕ → Opening → Metrics → Store → Store × Bool
park_for_approval now owner o m =
    update_job (is_owned owner)
      (λ j. record (parked o m j) { status = JobStatus.awaiting_approval; approval = opened now o })

-- ParkForInput.
unfoldable pub park_for_input : ℕ → ℕ → Opening → Metrics → Store → Store × Bool
park_for_input now owner o m =
    update_job (is_owned owner)
      (λ j. record (parked o m j) { status = JobStatus.awaiting_input; input = opened now o })

-- ResolvedApproval and ResolvedInput: what the caller audits.
pub record Resolved : Type 0 where
  pub request_id : ℕ
  pub opened_at : Option ℕ
  pub detail : ℕ

-- The two updates of one statement: the job's, and with it lifecycle_state = 'invoking'.
abbrev moved_on : Job → Store → Store
moved_on j s = record s {
  job = some j;
  workflow = record (s.workflow) { lifecycle_state = LifecycleState.invoking };
}

-- ResolveApproval, to 'approved' or to 'rejected'.
unfoldable pub resolve_approval : ℕ → JobStatus → ℕ → Store → Store × Option Resolved
resolve_approval approval_id status reason s = elim s.job [
  | none ↦ (s, none)
  | some j ↦
      if is j.approval.id approval_id && is_awaiting_approval j.status
      then (
        moved_on (record j { status = status; approval_reason = reason }) s,
        some (record {
          request_id = j.request_id;
          opened_at = j.approval.opened_at;
          detail = j.approval.detail;
        }),
      )
      else (s, none)
]

-- ResolveInput.
unfoldable pub resolve_input : ℕ → Option ℕ → Store → Store × Option Resolved
resolve_input input_id answer s = elim s.job [
  | none ↦ (s, none)
  | some j ↦
      if is j.input.id input_id && is_awaiting_input j.status
      then (
        moved_on (record j { status = JobStatus.answered; input_answer = answer }) s,
        some (record {
          request_id = j.request_id;
          opened_at = j.input.opened_at;
          detail = j.input.detail;
        }),
      )
      else (s, none)
]

-- SweepExpiredApprovals: whether this workflow's gate was among the expired.
unfoldable pub sweep_expired_approvals : ℕ → ℕ → Store → Store × Bool
sweep_expired_approvals now partition s = elim s.job [
  | none ↦ (s, false)
  | some j ↦
      if s.workflow.scheduler_partition_id == partition
        && is_awaiting_approval j.status
        && reached j.approval.timeout_at now
      then (moved_on (record j { status = JobStatus.rejected }) s, true)
      else (s, false)
]

-- SweepExpiredInputs.
unfoldable pub sweep_expired_inputs : ℕ → ℕ → Store → Store × Bool
sweep_expired_inputs now partition s = elim s.job [
  | none ↦ (s, false)
  | some j ↦
      if s.workflow.scheduler_partition_id == partition
        && is_awaiting_input j.status
        && reached j.input.timeout_at now
      then (moved_on (record j { status = JobStatus.input_timed_out }) s, true)
      else (s, false)
]
