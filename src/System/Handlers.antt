-- ===== src/System/Handlers.antt =====
-- internal/scheduler/scheduler.go: the handlers of the scheduler, whichever of their calls fail, keep
-- the rows of a workflow consistent.
use boundflow.Base.{
  ℕ, ◌≤◌, inl, inr, Bool, true, false, Option, none, some, arith, Bool-cases, ltb, Map,
}
use boundflow.Domain.Status.{LifecycleState, WorkflowState, InvokeMode}
use boundflow.Domain.Policy.{Floats}
use boundflow.Domain.Metrics.{AgentMetrics, RunMetrics}
use boundflow.Domain.Rows.{Workflow}
use boundflow.Store.{Store}
use boundflow.Store.Recovery
use boundflow.Store.Scheduling
use boundflow.Store.Lifecycle
use boundflow.Metrics.{handle_agent_metrics, emission_of}
use boundflow.Scheduler.{
  Faults, Failure, Assembly, max_job_attempts, plan_for, delete_job, record_interrupted_metrics,
  close_failed, tear_down, claim_and_tear_down, fail_request, job_metrics, get_workflow,
  ScheduleFaults, after_scheduling, upsert_and_follow, schedule_request, stated_reason,
}
use boundflow.System.Invariant.{Inv, recovery-Inv, workflow-Inv}
use boundflow.System.Progress.{queue-Inv, upsert-Inv, interrupt-Inv, resolution-Inv}

pub delete_job-Inv : (fault : Bool) (id : ℕ) (s : Store) → Inv s → Inv (delete_job fault id s)
unfolding delete_job
delete_job-Inv true id s h = h
delete_job-Inv false id s h = (recovery-Inv s h).5 id

pub handle-Inv :
    (f : Floats) (now id : ℕ) (m : Map AgentMetrics) (run : RunMetrics) (w : Workflow) (s : Store)
    → w.current_version ≤ s.workflow.current_version
    → Inv s
    → Inv (handle_agent_metrics f now id m run w s).store
unfolding handle_agent_metrics emission_of
handle-Inv f now id m run w s le h = (resolution-Inv s h).2 (emission_of f now id m run w s) le

record_interrupted-Inv :
    (x : Faults) (f : Floats) (now id : ℕ) (s : Store)
    → Inv s
    → Inv (record_interrupted_metrics x f now id s)
unfolding record_interrupted_metrics
record_interrupted-Inv x f now id s h = ground (
  arith,
  h,
  handle-Inv f now id (job_metrics id s).0 (job_metrics id s).1 (get_workflow s) s (omega arith) h,
)

close_failed-Inv :
    (x : Faults) (now : ℕ) (a : Failure) (applied : Bool) (s : Store)
    → Inv s
    → Inv (close_failed x now a applied s).0
unfolding close_failed
close_failed-Inv x now a applied s h =
    let t = delete_job x.delete a.request_id s in
    let k = delete_job-Inv x.delete a.request_id s h in
    ground (arith, k, (queue-Inv t k).2 now a.request_id (stated_reason a.reason))

tear_down-Inv :
    (x : Faults) (f : Floats) (now : ℕ) (a : Failure) (s : Store)
    → a.version ≤ s.workflow.target_version
    → Inv s
    → Inv (tear_down x f now a s).0
unfolding tear_down
tear_down-Inv x f now a s le h =
    let r =
      Lifecycle.apply_failed_job now a.request_id LifecycleState.interrupted WorkflowState.disabled
        a.version s in
    let k = interrupt-Inv s now a.request_id a.version le h in
    ground (
      arith,
      h,
      close_failed-Inv x now a false r.0 k,
      close_failed-Inv x now a true (record_interrupted_metrics x f now a.request_id r.0)
          (record_interrupted-Inv x f now a.request_id r.0 k),
    )

claim-Inv :
    (x : Faults) (f : Floats) (now : ℕ) (a : Failure) (s : Store)
    → a.version ≤ s.workflow.target_version
    → Inv s
    → Inv (claim_and_tear_down x f now a s).0
unfolding claim_and_tear_down Recovery.claim_failed_job
claim-Inv x f now a s le h =
    let t = (Recovery.claim_failed_job a.request_id a.attempts s).0 in
    let k = (recovery-Inv s h).4 a.request_id a.attempts in
    ground (arith, h, k, tear_down-Inv x f now a t (ground (arith, le)) k)

-- FailRequest for a version that its workflow allocated keeps the rows consistent, whichever of its
-- calls fail and on every branch: requeued, left alone, torn down or broken off.
pub fail_request-Inv :
    (x : Faults) (f : Floats) (now : ℕ) (a : Failure) (s : Store)
    → a.version ≤ s.workflow.target_version
    → Inv s
    → Inv (fail_request x f now a s).0
unfolding fail_request Recovery.requeue_job
fail_request-Inv x f now a s le h = elim (Bool-cases (ltb a.attempts max_job_attempts)) [
  | inl e ↦
      let t = (Recovery.requeue_job a.request_id a.attempts s).0 in
      let k = (recovery-Inv s h).3 a.request_id a.attempts (ground (arith, e)) in
      ground
        (arith, e, h, k, claim-Inv x f now a s le h, claim-Inv x f now a t (ground (arith, le)) k)
  | inr e ↦ ground (arith, e, h, claim-Inv x f now a s le h)
]

after_scheduling-Inv :
    (x : ScheduleFaults) (mode : InvokeMode) (v : Option ℕ) (s : Store)
    → Inv s
    → Inv (after_scheduling x mode v s).0
unfolding after_scheduling
after_scheduling-Inv x mode none s h = h
after_scheduling-Inv x mode (some v) s h =
    let k = (queue-Inv s h).3 v in
    ground (
      arith,
      h,
      k,
      (workflow-Inv s h).0 LifecycleState.scheduled,
      (workflow-Inv (Scheduling.supercede_older_requests v s) k).0 LifecycleState.scheduled,
    )

-- ScheduleRequest keeps the rows consistent, whatever of it fails and whatever the reading of the workflow that it acts on.
pub schedule_request-Inv :
    (x : ScheduleFaults) (now id : ℕ) (a : Assembly) (w : Workflow) (s : Store)
    → Inv s
    → Inv (schedule_request x now id a w s).0
unfolding schedule_request upsert_and_follow
schedule_request-Inv x now id a w s h =
    let p = plan_for w a in
    let r = Scheduling.upsert_job_and_schedule now id p s in
    ground (arith, h, after_scheduling-Inv x p.invoke_mode r.1 r.0 (upsert-Inv s now id p h))
