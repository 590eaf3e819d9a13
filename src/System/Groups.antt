-- ===== src/System/Groups.antt =====
-- internal/storage/postgres: a workflow stays with the tenant group that it was created for.
use boundflow.Base.{◌≡◌, ◌∙◌, refl, arith}
use boundflow.Store.{Store}
use boundflow.Store.Jobs
use boundflow.Store.Gates
use boundflow.Store.Recovery
use boundflow.Store.Requests
use boundflow.Store.Scheduling
use boundflow.Store.Lifecycle
use boundflow.Store.Suspension
use boundflow.Store.Resolution
use boundflow.System.{session_write, Step, Reach}

step-group :
    (s : Store) {t : Store} → Step s t → t.workflow.tenant_group_id ≡ s.workflow.tenant_group_id
unfolding session_write Jobs.renew_job_lease Jobs.release_job Jobs.update_job_status
    Jobs.fail_job_with_metrics Jobs.update_job_status_with_metrics Jobs.update_job_metrics
    Jobs.dispatch_job Jobs.update_job_with_metrics Gates.park_for_approval Gates.park_for_input
    Jobs.acquire_job Gates.resolve_approval Gates.resolve_input Gates.sweep_expired_approvals
    Gates.sweep_expired_inputs Recovery.sweep_abandoned_jobs Recovery.mark_abandon_requested
    Recovery.mark_orphaned_jobs_failed Recovery.requeue_job Recovery.claim_failed_job
    Recovery.delete_terminal_job Requests.create_invocation_request
    Requests.create_due_periodic_request Requests.abandon_queued_requests
    Requests.complete_request_row Requests.fail_request_row Scheduling.upsert_job_and_schedule
    Scheduling.supercede_older_requests Scheduling.mark_workflow
    Scheduling.mark_workflow_awaiting_approval Scheduling.mark_workflow_awaiting_input
    Scheduling.reconcile_workflow_lifecycle Scheduling.mark_request_in_progress
    Scheduling.sweep_requests_in_progress Lifecycle.update_config Lifecycle.update_lifecycle_policy
    Lifecycle.mark_deletion_requested Lifecycle.finalize_deleted Lifecycle.apply_completed_job
    Lifecycle.apply_failed_job Lifecycle.resolve_interrupted_workflow
    Lifecycle.try_activate_workflow Lifecycle.expire_cooldown Suspension.mark_suspension_requested
    Suspension.finalize_suspended Suspension.abort_suspension Suspension.restore_from_suspension
    Resolution.try_apply_version_resolution Resolution.try_apply_state_resolution
    Resolution.emit_metrics
step-group s (Step.session owner w usual) = ground arith
step-group s step = ground arith

-- Whatever runs, the group of the workflow is the one it had.
pub history-group :
    {s t : Store} → Reach s t → t.workflow.tenant_group_id ≡ s.workflow.tenant_group_id
history-group Reach.here = refl
history-group (Reach.next reach step) = step-group _ step ∙ history-group reach
