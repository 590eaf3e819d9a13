-- ===== src/Store/Recovery.antt =====
-- internal/storage/postgres/job.go: what happens to a job whose worker is lost, whose operation
-- failed or whose run is to be stopped. DeleteTerminalJob is in internal/storage/postgres/scheduler.go.
use boundflow.Base.{
  ℕ, ◌+◌, Bool, true, false, ◌&&◌, ◌||◌, not, Option, none, some, ◌==◌, is, is_none, is_some,
  before, if◌then◌else◌,
}
use boundflow.Domain.Status.{
  JobStatus, RunOutcome, is_live, is_failed, is_failure, is_over, is_terminal,
}
use boundflow.Store.{Store, update_job}
use boundflow.Store.Jobs.{is_unheld}

-- The reason that a stopped run carries, "stopped by workflow suspension".
abbrev pub stopped_reason : ℕ
stopped_reason = 1

abbrev in_partition : ℕ → Store → Bool
in_partition partition s = s.workflow.scheduler_partition_id == partition

-- `status NOT IN ('completed', 'failed', 'dispatched', 'running')`.
abbrev pub is_stoppable : JobStatus → Bool
is_stoppable t = not (is_over t) && not (is_live t)

-- SweepAbandonedJobs.
unfoldable pub sweep_abandoned_jobs : ℕ → ℕ → Store → Store × Bool
sweep_abandoned_jobs now partition s =
    update_job
      (λ j.
        in_partition partition s
        && is_some j.abandon_requested_at
        && is_stoppable j.status
        && is_unheld now j)
      (λ j. record j {
        status = JobStatus.completed;
        result_type = some RunOutcome.suspended;
        failure_reason = stopped_reason;
      })
      s

-- MarkAbandonRequested.
unfoldable pub mark_abandon_requested : ℕ → ℕ → Store → Store × Bool
mark_abandon_requested now suspension_id s =
    update_job
      (λ j.
        is_none j.abandon_requested_at
        && not (is_over j.status)
        && is s.workflow.suspension.id suspension_id)
      (λ j. record j { abandon_requested_at = some now }) s

-- `lease_expires_at < now() - grace`, written without a subtraction.
abbrev expired_for : ℕ → ℕ → Option ℕ → Bool
expired_for now grace none = false
expired_for now grace (some t) = before (some (t + grace)) now

-- MarkOrphanedJobsFailed.
unfoldable pub mark_orphaned_jobs_failed : ℕ → ℕ → ℕ → Store → Store × Bool
mark_orphaned_jobs_failed now partition grace s =
    update_job
      (λ j.
        in_partition partition s
        && is_live j.status
        && (is_none j.owner || expired_for now grace j.lease_expires_at))
      (λ j. record j { status = JobStatus.failed }) s

-- RequeueJob.
unfoldable pub requeue_job : ℕ → ℕ → Store → Store × Bool
requeue_job request_id expected_attempts =
    update_job
      (λ j. j.request_id == request_id && is_failed j.status && j.attempts == expected_attempts)
      (λ j. record j {
        status = JobStatus.pending;
        owner = none;
        lease_expires_at = none;
        attempts = j.attempts + 1;
      })

-- ClaimFailedJob.
unfoldable pub claim_failed_job : ℕ → ℕ → Store → Store × Bool
claim_failed_job request_id expected_attempts =
    update_job
      (λ j. j.request_id == request_id && is_failure j.status && j.attempts == expected_attempts)
      (λ j. record j { status = JobStatus.terminal_failed })

-- DeleteTerminalJob.
unfoldable pub delete_terminal_job : ℕ → Store → Store × Bool
delete_terminal_job request_id s = elim s.job [
  | none ↦ (s, false)
  | some j ↦
      if j.request_id == request_id && is_terminal j.status
      then (record s { job = none }, true)
      else (s, false)
]
