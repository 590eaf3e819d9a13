-- ===== src/Store/Scheduling.antt =====
-- internal/storage/postgres/scheduler.go: how requests become jobs, and how the state of a job is
-- projected onto its workflow and its request.
use boundflow.Base.{
  ℕ, ◌+◌, Bool, true, false, ◌&&◌, ◌||◌, not, Option, none, some, List, [], ◌∷◌, ◌==◌, ltb, is_none,
  if◌then◌else◌,
}
use mathlib.Core.Bool.{decide}
use boundflow.Domain.Status.{
  LifecycleState, LifecycleState-discrete, InvokeMode, JobStatus, RequestStatus, is_protected,
  is_queue, is_available, is_pending, is_awaiting_approval, is_awaiting_input, is_over,
  is_unscheduled, is_scheduled, is_supercedable,
}
use boundflow.Domain.Metrics.{no_metrics}
use boundflow.Domain.Rows.{Workflow, Job, Gate, Request, no_metadata}
use boundflow.Store.{Store, update_workflow, update_requests}
use boundflow.Store.Jobs.{is_due}
use boundflow.Store.Requests.{find_request}

-- The row that `ORDER BY (CASE WHEN invoke_mode = 'queue' THEN version ELSE -version END)` puts
-- first, of two unscheduled requests.
abbrev pub precedes : InvokeMode → Request → Request → Bool
precedes mode a b = if is_queue mode then ltb a.version b.version else ltb b.version a.version

abbrev pub first_of_two : InvokeMode → Request → Option Request → Request
first_of_two mode a none = a
first_of_two mode a (some b) = if precedes mode b a then b else a

unfoldable pub first_unscheduled : InvokeMode → List Request → Option Request
first_unscheduled mode [] = none
first_unscheduled mode (r ∷ rs) =
    let rest = first_unscheduled mode rs in
    if is_unscheduled r.status then some (first_of_two mode r rest) else rest

-- GetTopUnscheduledRequests, for this workflow.
unfoldable pub top_unscheduled_request : ℕ → Store → Option Request
top_unscheduled_request partition s =
    if s.workflow.scheduler_partition_id == partition
    then first_unscheduled s.workflow.config.invoke_mode s.requests
    else none

-- What ScheduleRequest assembles for UpsertJobAndSchedule.
pub record Plan : Type 0 where
  pub context : ℕ
  pub operation : ℕ
  pub timeout_seconds : ℕ
  pub workflow_version : ℕ
  pub expected_current_version : ℕ
  pub invoke_mode : InvokeMode

abbrev no_gate : Gate
no_gate = record { id = none; detail = 0; metadata = none; opened_at = none; timeout_at = none }

-- The inserted row: the columns that the statement does not name take their defaults.
abbrev pub inserted_job : ℕ → Request → Plan → Workflow → Job
inserted_job now r p w = record {
  request_id = r.id;
  version = r.version;
  current_atomic_operation = p.operation;
  context = p.context;
  status = JobStatus.pending;
  job_type = r.request_type;
  workflow_type = w.workflow_type;
  tenant_group_id = w.tenant_group_id;
  timeout_seconds = p.timeout_seconds;
  workflow_version = p.workflow_version;
  agent_metrics = [];
  workflow_metrics = no_metrics;
  result_type = none;
  failure_reason = 0;
  result = none;
  attempts = 0;
  owner = none;
  lease_expires_at = none;
  dispatch_at = none;
  abandon_requested_at = none;
  created_at = now;
  job_metadata = no_metadata;
  approval = no_gate;
  approval_reason = 0;
  input = no_gate;
  input_answer = none;
}

-- `ON CONFLICT (workflow_id) DO UPDATE SET`: the columns that are not named keep their values.
abbrev pub replaced_job : Request → Plan → Workflow → Job → Job
replaced_job r p w j = record j {
  request_id = r.id;
  version = r.version;
  current_atomic_operation = p.operation;
  context = p.context;
  job_type = r.request_type;
  workflow_type = w.workflow_type;
  timeout_seconds = p.timeout_seconds;
  workflow_version = p.workflow_version;
  status = JobStatus.pending;
  owner = none;
  lease_expires_at = none;
  attempts = 0;
  abandon_requested_at = none;
  tenant_group_id = w.tenant_group_id;
}

-- The WHERE of the conflict branch.
abbrev pub is_replaceable : Request → Plan → Job → Bool
is_replaceable r p j =
    ltb j.version r.version
    && is_pending j.status
    && j.attempts == 0
    && not (is_queue p.invoke_mode)

-- The row that the upsert leaves, or none where the conflict branch matched nothing.
abbrev pub upserted_job : ℕ → Request → Plan → Workflow → Option Job → Option Job
upserted_job now r p w none = some (inserted_job now r p w)
upserted_job now r p w (some j) = if is_replaceable r p j then some (replaced_job r p w j) else none

abbrev pub is_slot : Request → Request → Bool
is_slot r q = q.id == r.id && is_unscheduled q.status

abbrev pub as_scheduled : Request → Request
as_scheduled q = record q { status = RequestStatus.scheduled }

abbrev scheduled_as : Request → Job → Store → Store
scheduled_as r j s = record (update_requests (is_slot r) as_scheduled s) { job = some j }

-- The candidate of the statement.
abbrev is_candidate : Plan → Store → Request → Bool
is_candidate p s r =
    is_unscheduled r.status && s.workflow.current_version == p.expected_current_version

-- UpsertJobAndSchedule: the version that was scheduled, or none for written=false.
unfoldable pub upsert_job_and_schedule : ℕ → ℕ → Plan → Store → Store × Option ℕ
upsert_job_and_schedule now request_id p s = elim (find_request request_id s.requests) [
  | none ↦ (s, none)
  | some r ↦
      if is_candidate p s r
      then (elim (upserted_job now r p s.workflow s.job) [
        | none ↦ (s, none)
        | some j ↦ (scheduled_as r j s, some r.version)
      ])
      else (s, none)
]

-- SupercedeOlderRequests.
unfoldable pub supercede_older_requests : ℕ → Store → Store
supercede_older_requests version =
    update_requests (λ r. is_supercedable r.status && ltb r.version version)
      (λ r. record r { status = RequestStatus.superceded })

abbrev has_job : Store → Bool
has_job s = elim s.job [ none ↦ false | some j ↦ true ]

-- MarkWorkflowScheduled and MarkWorkflowInvoking.
unfoldable pub mark_workflow : LifecycleState → Store → Store
mark_workflow state s =
    (update_workflow (λ w. has_job s && not (is_protected w.lifecycle_state))
      (λ w. record w { lifecycle_state = state }) s).0

-- MarkWorkflowAwaitingApproval.
unfoldable pub mark_workflow_awaiting_approval : Store → Store
mark_workflow_awaiting_approval s = elim s.job [
  | none ↦ s
  | some j ↦
      if is_awaiting_approval j.status
      then record s {
        workflow = record (s.workflow) {
          lifecycle_state = LifecycleState.awaiting_approval;
          last_gate = j.approval;
        };
      }
      else s
]

-- MarkWorkflowAwaitingInput.
unfoldable pub mark_workflow_awaiting_input : Store → Store
mark_workflow_awaiting_input s = elim s.job [
  | none ↦ s
  | some j ↦
      if is_awaiting_input j.status
      then record s {
        workflow = record (s.workflow) {
          lifecycle_state = LifecycleState.awaiting_input;
          last_gate = j.input;
        };
      }
      else s
]

-- The fourth WHEN of the CASE: nobody took the job for `blocked_after` seconds.
abbrev is_blocked : ℕ → ℕ → Job → Bool
is_blocked now blocked_after j =
    is_available j.status
    && is_none j.owner
    && is_due now j
    && ltb (j.created_at + blocked_after) now

-- The CASE of ReconcileWorkflowLifecycles, NULL where no WHEN holds.
unfoldable pub projected_state : ℕ → ℕ → JobStatus → Job → Option LifecycleState
projected_state now blocked_after JobStatus.dispatched j = some LifecycleState.invoking
projected_state now blocked_after JobStatus.running j = some LifecycleState.invoking
projected_state now blocked_after JobStatus.awaiting_approval j =
    some LifecycleState.awaiting_approval
projected_state now blocked_after JobStatus.awaiting_input j = some LifecycleState.awaiting_input
projected_state now blocked_after JobStatus.pending j =
    some
      (if is_blocked now blocked_after j then LifecycleState.blocked else LifecycleState.scheduled)
projected_state now blocked_after _ j =
    if is_blocked now blocked_after j then some LifecycleState.blocked else none

abbrev reconciled_gate : LifecycleState → Job → Gate → Gate
reconciled_gate LifecycleState.awaiting_approval j g = j.approval
reconciled_gate LifecycleState.awaiting_input j g = j.input
reconciled_gate _ j g = g

abbrev reconciled : Job → LifecycleState → Workflow → Workflow
reconciled j state w = record w {
  lifecycle_state = state;
  last_gate = reconciled_gate state j w.last_gate;
}

-- ReconcileWorkflowLifecycles: whether the workflow was written.
unfoldable pub reconcile_workflow_lifecycle : ℕ → ℕ → ℕ → Store → Store × Bool
reconcile_workflow_lifecycle now partition blocked_after s = elim s.job [
  | none ↦ (s, false)
  | some j ↦ elim (projected_state now blocked_after j.status j) [
    | none ↦ (s, false)
    | some state ↦
        update_workflow
          (λ w.
            w.scheduler_partition_id == partition
            && not (is_protected w.lifecycle_state)
            && not (decide (LifecycleState-discrete state w.lifecycle_state)))
          (reconciled j state) s
  ]
]

-- MarkRequestInProgress.
unfoldable pub mark_request_in_progress : ℕ → Store → Store
mark_request_in_progress request_id =
    update_requests (λ r. r.id == request_id && is_scheduled r.status)
      (λ r. record r { status = RequestStatus.in_progress })

-- SweepRequestsInProgress.
unfoldable pub sweep_requests_in_progress : ℕ → Store → Store
sweep_requests_in_progress partition s = elim s.job [
  | none ↦ s
  | some j ↦
      if s.workflow.scheduler_partition_id == partition
        && not (is_over j.status)
        && (not (is_pending j.status) || ltb 0 j.attempts)
      then mark_request_in_progress j.request_id s
      else s
]
