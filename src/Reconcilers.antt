-- ===== src/Reconcilers.antt =====
-- internal/scheduler: the rounds of the reconcilers (suspensionresolver.go, deletionreconciler.go,
-- abandonedjobresolver.go) and the tick of a partition (scheduler.go), on one workflow of it. What a
-- round selects is read in the same state that it acts on.
pub mod Ticks
pub mod Draining
use boundflow.Base.{
  ℕ, Bool, true, false, ◌&&◌, ◌||◌, not, Option, none, some, List, [], ◌∷◌, ◌==◌, is_none, is_some,
  if◌then◌else◌,
}
use boundflow.Domain.Status.{
  LifecycleState, WorkflowState, JobStatus, RunOutcome, is_suspended, is_deleted, is_failure,
  is_completed,
}
use boundflow.Domain.Policy.{Floats}
use boundflow.Domain.Rows.{Workflow, Job, Request}
use boundflow.Store.{Store}
use boundflow.Store.Requests.{abandon_queued_requests, has_running_request}
use boundflow.Store.Recovery.{
  mark_abandon_requested, mark_orphaned_jobs_failed, sweep_abandoned_jobs,
}
use boundflow.Store.Lifecycle.{finalize_deleted}
use boundflow.Store.Scheduling.{
  top_unscheduled_request, reconcile_workflow_lifecycle, sweep_requests_in_progress,
}
use boundflow.Store.Suspension.{abort_suspension}
use boundflow.Scheduler.{
  Faults, ScheduleFaults, Completion, Failure, Assembly, complete_request, fail_request,
  schedule_request, get_workflow,
}
use boundflow.Service.{HoldFaults, finalize_if_idle}

-- ListPendingSuspension and ListPendingDeletion: whether they list the workflow.
unfoldable pub is_pending_suspension : ℕ → Store → Bool
is_pending_suspension partition s =
    s.workflow.scheduler_partition_id == partition
    && is_some s.workflow.suspension.requested_at
    && is_none s.workflow.suspension.finalized_at

unfoldable pub is_pending_deletion : ℕ → Store → Bool
is_pending_deletion partition s =
    s.workflow.scheduler_partition_id == partition
    && is_some s.workflow.deletion_requested_at
    && not (is_deleted s.workflow.lifecycle_state)

-- `if suspensionID != nil { w.Suspension.ID = *suspensionID }`.
abbrev pub id_or_empty : Option ℕ → ℕ
id_or_empty none = 0
id_or_empty (some id) = id

-- SuspensionReconciler.reconcileOne while the workflow is still suspended.
unfoldable pub drain_suspension : HoldFaults → ℕ → ℕ → Bool → Store → Store
drain_suspension x now id stop_current s =
    if stop_current
    then (if x.abandon then s else finalize_if_idle x now id (mark_abandon_requested now id s).0)
    else finalize_if_idle x now id s

-- SuspensionReconciler.reconcileOne.
unfoldable pub reconcile_suspension : HoldFaults → ℕ → Workflow → Store → Store
reconcile_suspension x now w s =
    let id = id_or_empty w.suspension.id in
    if not (is_suspended w.workflow_state)
    then (if x.mark then s else abort_suspension id s)
    else drain_suspension x now id w.suspension.stop_current s

-- SuspensionReconciler.sweep.
unfoldable pub sweep_suspensions : Bool → HoldFaults → ℕ → ℕ → Store → Store
sweep_suspensions list x now partition s =
    if list || not (is_pending_suspension partition s)
    then s
    else reconcile_suspension x now s.workflow s

-- DeletionReconciler.reconcileOne.
unfoldable pub reconcile_deletion : HoldFaults → ℕ → Store → Store
reconcile_deletion x now s =
    if x.abandon
    then s
    else let t = (abandon_queued_requests none s).0 in
      if x.running || has_running_request t || x.finalize then t else finalize_deleted now t

-- DeletionReconciler.sweep.
unfoldable pub sweep_deletions : Bool → HoldFaults → ℕ → ℕ → Store → Store
sweep_deletions list x now partition s =
    if list || not (is_pending_deletion partition s) then s else reconcile_deletion x now s

-- A tick of a scheduler on its partition: which reads fail, and the parameters of its calls.
pub record Tick : Type 0 where
  pub floats : Floats
  pub now : ℕ
  pub partition : ℕ
  pub grace : ℕ
  pub read : Bool
  pub handler : Faults
  pub schedule : ScheduleFaults
  pub assembly : Request → Assembly

-- blockedAfterSecs.
abbrev pub blocked_after_seconds : ℕ
blocked_after_seconds = 60

-- The five tasks that a tick runs side by side, before it schedules.
pub data Task : Type 0 where
  failing completing reconciling orphaning sweeping : Task

-- GetFailedJobs and GetCompletedJobs: the workflow's job, where they list it. A completed job without
-- an outcome cannot be read.
unfoldable pub failed_job : ℕ → Store → Option Failure
failed_job partition s = elim s.job [
  | none ↦ none
  | some j ↦
      if s.workflow.scheduler_partition_id == partition && is_failure j.status
      then some (record {
        request_id = j.request_id;
        version = j.version;
        reason = j.failure_reason;
        attempts = j.attempts;
      })
      else none
]

abbrev with_outcome : Job → Option RunOutcome → Option Completion
with_outcome j none = none
with_outcome j (some outcome) = some (record {
  request_id = j.request_id;
  version = j.version;
  request_type = j.job_type;
  outcome = outcome;
  reason = j.failure_reason;
  result = j.result;
})

unfoldable pub completed_job : ℕ → Store → Option Completion
completed_job partition s = elim s.job [
  | none ↦ none
  | some j ↦
      if s.workflow.scheduler_partition_id == partition && is_completed j.status
      then with_outcome j j.result_type
      else none
]

-- failJobs.
unfoldable pub fail_jobs : Tick → Store → Store
fail_jobs k s = if k.read then s else (elim (failed_job k.partition s) [
  | none ↦ s
  | some a ↦ (fail_request k.handler k.floats k.now a s).0
])

-- completeJobs.
unfoldable pub complete_jobs : Tick → Store → Store
complete_jobs k s = if k.read then s else (elim (completed_job k.partition s) [
  | none ↦ s
  | some c ↦ (complete_request k.handler k.floats k.now c s).0
])

-- reconcileWorkflowLifecycles, markOrphanedJobsFailed and sweepRequestsInProgress.
unfoldable pub reconcile_lifecycles : Tick → Store → Store
reconcile_lifecycles k s =
    if k.read then s else (reconcile_workflow_lifecycle k.now k.partition blocked_after_seconds s).0

unfoldable pub mark_orphaned : Tick → Store → Store
mark_orphaned k s = if k.read then s else (mark_orphaned_jobs_failed k.now k.partition k.grace s).0

unfoldable pub sweep_progress : Tick → Store → Store
sweep_progress k s = if k.read then s else sweep_requests_in_progress k.partition s

-- The goroutines of a tick.
unfoldable pub run_task : Tick → Task → Store → Store
run_task k Task.failing s = fail_jobs k s
run_task k Task.completing s = complete_jobs k s
run_task k Task.reconciling s = reconcile_lifecycles k s
run_task k Task.orphaning s = mark_orphaned k s
run_task k Task.sweeping s = sweep_progress k s

-- scheduleJobs.
unfoldable pub schedule_jobs : Tick → Store → Store
schedule_jobs k s = if k.read then s else (elim (top_unscheduled_request k.partition s) [
  | none ↦ s
  | some r ↦ (schedule_request k.schedule k.now r.id (k.assembly r) (get_workflow s) s).0
])

-- A tick whose tasks run in any order, each with what fails of it.
unfoldable pub run_tasks : List (Tick × Task) → Store → Store
run_tasks [] s = s
run_tasks ((k, task) ∷ rest) s = run_tasks rest (run_task k task s)

unfoldable pub run_tick : List (Tick × Task) → Tick → Store → Store
run_tick tasks k s = schedule_jobs k (run_tasks tasks s)
