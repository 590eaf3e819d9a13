-- ===== src/Store/Jobs.antt =====
-- internal/storage/postgres/job.go: the statements by which a worker session takes a job, keeps its
-- lease, writes to the row and gives it back. A session is its owner id.
use boundflow.Base.{
  ℕ, ◌+◌, Bool, true, false, ◌&&◌, ◌||◌, not, Option, none, some, List, [], ◌∷◌, Map, ◌==◌, ltb, is,
  is_none, is_some, before, reached, if◌then◌else◌,
}
use boundflow.Domain.Status.{JobStatus, RunOutcome, is_available, is_dispatched}
use boundflow.Domain.Metrics.{AgentMetrics, RunMetrics}
use boundflow.Domain.Rows.{Job, no_metadata, closed_gate}
use boundflow.Store.{Store, update_job}

-- `owner IS NULL OR lease_expires_at < now()`.
abbrev pub is_unheld : ℕ → Job → Bool
is_unheld now j = is_none j.owner || before j.lease_expires_at now

-- `dispatch_at IS NULL OR dispatch_at <= now()`.
abbrev pub is_due : ℕ → Job → Bool
is_due now j = is_none j.dispatch_at || reached j.dispatch_at now

-- `(workflow_type, workflow_version) IN (SELECT ... FROM unnest(...))`.
unfoldable pub has_capability : ℕ → ℕ → List (ℕ × ℕ) → Bool
has_capability type version [] = false
has_capability type version ((t, v) ∷ rest) =
    t == type && v == version || has_capability type version rest

abbrev can_take : ℕ → ℕ → Job → Bool
can_take now tenant j =
    is_available j.status && is_unheld now j && is_due now j && j.tenant_group_id == tenant

-- Whether GetAvailableJob may answer with this workflow.
unfoldable pub is_available_job : ℕ → ℕ → List (ℕ × ℕ) → Store → Bool
is_available_job now tenant capabilities s = elim s.job [
  | none ↦ false
  | some j ↦ can_take now tenant j && has_capability j.workflow_type j.workflow_version capabilities
]

-- AcquireJob: the row as the statement returns it, or none where it matched nothing.
unfoldable pub acquire_job : ℕ → ℕ → ℕ → ℕ → Store → Store × Option Job
acquire_job now owner lease tenant s = elim s.job [
  | none ↦ (s, none)
  | some j ↦
      let taken = record j { owner = some owner; lease_expires_at = some (now + lease) } in
      if can_take now tenant j then (record s { job = some taken }, some taken) else (s, none)
]

abbrev pub is_owned : ℕ → Job → Bool
is_owned owner j = is j.owner owner

-- RenewJobLease: whether the lease was renewed, and whether a stop was asked for.
unfoldable pub renew_job_lease : ℕ → ℕ → ℕ → Store → Store × Bool × Bool
renew_job_lease now owner lease s = elim s.job [
  | none ↦ (s, false, false)
  | some j ↦
      if is_owned owner j
      then (
        record s { job = some (record j { lease_expires_at = some (now + lease) }) },
        true,
        is_some j.abandon_requested_at,
      )
      else (s, false, false)
]

-- ReleaseJob.
unfoldable pub release_job : ℕ → Store → Store × Bool
release_job owner =
    update_job (is_owned owner) (λ j. record j { owner = none; lease_expires_at = none })

-- UpdateJobStatus.
unfoldable pub update_job_status : ℕ → JobStatus → Store → Store × Bool
update_job_status owner status = update_job (is_owned owner) (λ j. record j { status = status })

-- What a session reports with each write: the metrics of the job so far.
pub record Metrics : Type 0 where
  pub agents : Map AgentMetrics
  pub run : RunMetrics

abbrev with_metrics : Metrics → Job → Job
with_metrics m j = record j { agent_metrics = m.agents; workflow_metrics = m.run }

-- FailJobWithMetrics.
unfoldable pub fail_job_with_metrics : ℕ → ℕ → Metrics → Store → Store × Bool
fail_job_with_metrics owner reason m =
    update_job (is_owned owner)
      (λ j. record (with_metrics m j) { status = JobStatus.failed; failure_reason = reason })

-- UpdateJobStatusWithMetrics.
unfoldable pub update_job_status_with_metrics :
    ℕ → JobStatus → RunOutcome → ℕ → Option ℕ → Metrics → Store → Store × Bool
update_job_status_with_metrics owner status outcome reason result m =
    update_job (is_owned owner) (λ j. record (with_metrics m j) {
      status = status;
      result_type = some outcome;
      failure_reason = reason;
      result = result;
    })

-- UpdateJobMetrics.
unfoldable pub update_job_metrics : ℕ → Map AgentMetrics → Store → Store × Bool
update_job_metrics owner agents =
    update_job (is_owned owner) (λ j. record j { agent_metrics = agents })

-- The columns that DispatchJob, UpdateJob and UpdateJobWithMetrics reset: both gates.
abbrev pub without_gates : Job → Job
without_gates j = record j {
  approval = closed_gate j.approval;
  approval_reason = 0;
  input = closed_gate j.input;
  input_answer = none;
  job_metadata = no_metadata;
}

-- The operation that the row is to run.
pub record Operation : Type 0 where
  pub name : ℕ
  pub timeout_seconds : ℕ
  pub context : ℕ

abbrev with_operation : Operation → Job → Job
with_operation op j = record j {
  current_atomic_operation = op.name;
  timeout_seconds = op.timeout_seconds;
  context = op.context;
}

-- DispatchJob.
unfoldable pub dispatch_job : ℕ → Operation → Metrics → Store → Store × Bool
dispatch_job owner op m =
    update_job (λ j. is_owned owner j && not (is_dispatched j.status))
      (λ j. record (without_gates (with_operation op (with_metrics m j))) {
        status = JobStatus.dispatched;
      })

-- UpdateJob.
unfoldable pub update_job_operation : ℕ → JobStatus → Operation → Store → Store × Bool
update_job_operation owner status op =
    update_job (is_owned owner)
      (λ j. record (without_gates (with_operation op j)) { status = status })

-- UpdateJobWithMetrics: a positive delay holds the next dispatch back.
unfoldable pub update_job_with_metrics :
    ℕ → ℕ → JobStatus → Operation → ℕ → Metrics → Store → Store × Bool
update_job_with_metrics now owner status op delay m = update_job (is_owned owner) (λ j.
    record (without_gates (with_operation op (with_metrics m j))) {
      status = status;
      dispatch_at = if ltb 0 delay then some (now + delay) else none;
    })
