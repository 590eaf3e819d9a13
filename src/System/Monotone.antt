-- ===== src/System/Monotone.antt =====
-- internal/storage/postgres: the counters of a workflow never go back, whatever runs.
use boundflow.Base.{ℕ, ◌≤◌, ◌≡◌, false, arith}
use boundflow.Store.{Store}
use boundflow.Store.Jobs
use boundflow.Store.Gates
use boundflow.Store.Recovery
use boundflow.Store.Requests
use boundflow.Store.Scheduling
use boundflow.Store.Lifecycle
use boundflow.Store.Suspension
use boundflow.Store.Resolution
use boundflow.System.{session_write, may_resolve, Step, Reach}
use boundflow.System.Invariant.{Inv}
use boundflow.System.History.{history-Inv}

-- The counters of `s` are at most those of `t`.
pub record IsPast (s t : Store) : Type 0 where
  pub target : s.workflow.target_version ≤ t.workflow.target_version
  pub current : s.workflow.current_version ≤ t.workflow.current_version
  pub emitted : s.workflow.metrics_emitted_at ≤ t.workflow.metrics_emitted_at
  pub resolved : s.workflow.lifecycle_last_resolved ≤ t.workflow.lifecycle_last_resolved
  pub refused :
      (v : ℕ)
      → v ≤ s.workflow.current_version
      → may_resolve v s.workflow ≡ false
      → may_resolve v t.workflow ≡ false

step-IsPast : (s : Store) {t : Store} → Inv s → Step s t → IsPast s t
unfolding session_write Jobs.renew_job_lease Jobs.release_job Jobs.update_job_status
    Jobs.fail_job_with_metrics Jobs.update_job_status_with_metrics Jobs.update_job_metrics
    Jobs.dispatch_job Jobs.update_job_with_metrics Gates.park_for_approval Gates.park_for_input
    Jobs.acquire_job Gates.resolve_approval Gates.resolve_input Gates.sweep_expired_approvals
    Gates.sweep_expired_inputs Recovery.sweep_abandoned_jobs Recovery.mark_abandon_requested
    Recovery.mark_orphaned_jobs_failed Recovery.requeue_job Recovery.claim_failed_job
    Recovery.delete_terminal_job Requests.create_invocation_request
    Requests.create_due_periodic_request Requests.abandon_queued_requests
    Requests.complete_request_row Requests.fail_request_row Scheduling.upsert_job_and_schedule
    Scheduling.supercede_older_requests Scheduling.mark_workflow
    Scheduling.mark_workflow_awaiting_approval Scheduling.mark_workflow_awaiting_input
    Scheduling.reconcile_workflow_lifecycle Scheduling.mark_request_in_progress
    Scheduling.sweep_requests_in_progress Lifecycle.update_config Lifecycle.update_lifecycle_policy
    Lifecycle.mark_deletion_requested Lifecycle.finalize_deleted Lifecycle.apply_completed_job
    Lifecycle.apply_failed_job Lifecycle.resolve_interrupted_workflow
    Lifecycle.try_activate_workflow Lifecycle.expire_cooldown Suspension.mark_suspension_requested
    Suspension.finalize_suspended Suspension.abort_suspension Suspension.restore_from_suspension
    Resolution.try_apply_version_resolution Resolution.try_apply_state_resolution
    Resolution.emit_metrics
step-IsPast s h (Step.session owner w usual) = ground arith
step-IsPast s h (Step.acquire now owner lease tenant) = ground arith
step-IsPast s h (Step.decide_approval id status reason fits) = ground arith
step-IsPast s h (Step.answer id a) = ground arith
step-IsPast s h (Step.expire_approval now p) = ground arith
step-IsPast s h (Step.expire_input now p) = ground arith
step-IsPast s h (Step.sweep_abandoned now p) = ground arith
step-IsPast s h (Step.abandon now id) = ground arith
step-IsPast s h (Step.orphan now p grace) = ground arith
step-IsPast s h (Step.requeue id a below) = ground arith
step-IsPast s h (Step.claim id a) = ground arith
step-IsPast s h (Step.delete_job id) = ground arith
step-IsPast s h (Step.invoke now n) = ground arith
step-IsPast s h (Step.invoke_periodic now n gap) = ground arith
step-IsPast s h (Step.drop_queued ids) = ground arith
step-IsPast s h (Step.close_completed now id o reason result) = ground arith
step-IsPast s h (Step.close_failed now id reason) = ground arith
step-IsPast s h (Step.upsert now id p) = ground arith
step-IsPast s h (Step.supercede version) = ground arith
step-IsPast s h (Step.mark state) = ground arith
step-IsPast s h Step.mark_awaiting_approval = ground arith
step-IsPast s h Step.mark_awaiting_input = ground arith
step-IsPast s h (Step.reconcile now p after) = ground arith
step-IsPast s h (Step.mark_in_progress id) = ground arith
step-IsPast s h (Step.sweep_in_progress p) = ground arith
step-IsPast s h (Step.configure c version) = ground arith
step-IsPast s h (Step.set_policy p) = ground arith
step-IsPast s h (Step.request_deletion now) = ground arith
step-IsPast s h (Step.finish_deletion now) = ground arith
step-IsPast s h (Step.complete now state version le) = ground arith
step-IsPast s h (Step.interrupt now id version le) = ground arith
step-IsPast s h (Step.acknowledge id) = ground (arith, h.resolved)
step-IsPast s h (Step.activate id) = ground arith
step-IsPast s h (Step.warm_up now p) = ground arith
step-IsPast s h (Step.suspend now id reason stop) = ground arith
step-IsPast s h (Step.finalize now id) = ground arith
step-IsPast s h (Step.abort id) = ground arith
step-IsPast s h (Step.resume id t free) = ground arith
step-IsPast s h (Step.resolve_version r e t id le) = ground arith
step-IsPast s h (Step.resolve_state r st u id le free) = ground arith
step-IsPast s h (Step.emit e le) = ground arith
step-IsPast s h (Step.append_audit a) = ground arith
step-IsPast s h (Step.set_agents a) = ground arith

IsPast-trans : {s t u : Store} → IsPast s t → IsPast t u → IsPast s u
IsPast-trans p q = record {
  target = omega (arith, p.target, q.target);
  current = omega (arith, p.current, q.current);
  emitted = omega (arith, p.emitted, q.emitted);
  resolved = omega (arith, p.resolved, q.resolved);
  refused = λ v le no. q.refused v (omega (arith, le, p.current)) (p.refused v le no);
}

-- Along any history of statements from consistent rows, the last version allocated, the current
-- version, the version whose metrics were last emitted and the version last resolved never go back,
-- and a resolution of the current version or an earlier one that the row refuses stays refused.
pub history-IsPast : {s t : Store} → Inv s → Reach s t → IsPast s t
history-IsPast h Reach.here = ground arith
history-IsPast h (Reach.next reach step) =
    IsPast-trans (history-IsPast h reach) (step-IsPast _ (history-Inv h reach) step)
