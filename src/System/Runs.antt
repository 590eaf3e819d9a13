-- ===== src/System/Runs.antt =====
-- Histories put together: one after another, and those of internal/scheduler/scheduler.go.
use boundflow.Base.{
  ℕ, ◌≤◌, inl, inr, Bool, true, false, Option, none, some, arith, Bool-cases, Map, ltb,
  if◌then◌else◌,
}
use boundflow.Domain.Status.{LifecycleState, WorkflowState, InvokeMode}
use boundflow.Domain.Policy.{Floats}
use boundflow.Domain.Metrics.{AgentMetrics, RunMetrics}
use boundflow.Domain.Audit.{PolicyAction}
use boundflow.Domain.Rows.{Workflow}
use boundflow.Store.{Store}
use boundflow.Store.Recovery
use boundflow.Store.Scheduling
use boundflow.Store.Lifecycle
use boundflow.Metrics.{handle_agent_metrics, emission_of}
use boundflow.Scheduler.{
  Faults, Failure, Assembly, max_job_attempts, plan_for, delete_job, record_interrupted_metrics,
  close_failed, tear_down, claim_and_tear_down, fail_request, job_metrics, get_workflow,
  ScheduleFaults, mark_scheduled, after_scheduling, upsert_and_follow, schedule_request,
  stated_reason, record_policy_action,
}
use boundflow.System.{Step, Reach}

pub Reach-trans : {s t u : Store} → Reach s t → Reach t u → Reach s u
Reach-trans r Reach.here = r
Reach-trans r (Reach.next q step) = Reach.next (Reach-trans r q) step

pub once : {s t : Store} → Step s t → Reach s t
once step = Reach.next Reach.here step

-- A change that a test lets through or leaves out.
pub either-Reach : {s t u : Store} (b : Bool) → Reach s t → Reach s u → Reach s (if b then t else u)
either-Reach true r q = r
either-Reach false r q = q

pub audit-Reach :
    (fault : Bool) (now id : ℕ) (a : Option PolicyAction) (s : Store)
    → Reach s (record_policy_action fault now id a s)
unfolding record_policy_action
audit-Reach fault now id none s = Reach.here
audit-Reach true now id (some a) s = Reach.here
audit-Reach false now id (some a) s = once (Step.append_audit _)

pub delete_job-Reach : (fault : Bool) (id : ℕ) (s : Store) → Reach s (delete_job fault id s)
unfolding delete_job
delete_job-Reach true id s = Reach.here
delete_job-Reach false id s = once (Step.delete_job id)

pub handle-Reach :
    (f : Floats) (now id : ℕ) (m : Map AgentMetrics) (run : RunMetrics) (w : Workflow) (s : Store)
    → w.current_version ≤ s.workflow.current_version
    → Reach s (handle_agent_metrics f now id m run w s).store
unfolding handle_agent_metrics emission_of
handle-Reach f now id m run w s le = once (Step.emit (emission_of f now id m run w s) le)

interrupted-Reach :
    (x : Faults) (f : Floats) (now id : ℕ) (s : Store)
    → Reach s (record_interrupted_metrics x f now id s)
unfolding record_interrupted_metrics
interrupted-Reach x f now id s =
    let m = job_metrics id s in
    either-Reach _ Reach.here (handle-Reach f now id m.0 m.1 (get_workflow s) s (omega arith))

close_failed-Reach :
    (x : Faults) (now : ℕ) (a : Failure) (applied : Bool) (s : Store)
    → Reach s (close_failed x now a applied s).0
unfolding close_failed
close_failed-Reach x now a applied s =
    let t = delete_job x.delete a.request_id s in
    let d = delete_job-Reach x.delete a.request_id s in
    ground (arith, d, Reach.next d (Step.close_failed now a.request_id (stated_reason a.reason)))

tear_down-Reach :
    (x : Faults) (f : Floats) (now : ℕ) (a : Failure) (s : Store)
    → a.version ≤ s.workflow.target_version
    → Reach s (tear_down x f now a s).0
unfolding tear_down
tear_down-Reach x f now a s le =
    let r =
      Lifecycle.apply_failed_job now a.request_id LifecycleState.interrupted WorkflowState.disabled
        a.version s in
    let u = record_interrupted_metrics x f now a.request_id r.0 in
    let k : Reach s r.0 = once (Step.interrupt now a.request_id a.version le) in
    let here : Reach s s = Reach.here in
    let m = Reach-trans k (interrupted-Reach x f now a.request_id r.0) in
    ground (
      arith,
      here,
      Reach-trans k (close_failed-Reach x now a false r.0),
      Reach-trans m (close_failed-Reach x now a true u),
    )

claim-Reach :
    (x : Faults) (f : Floats) (now : ℕ) (a : Failure) (s : Store)
    → a.version ≤ s.workflow.target_version
    → Reach s (claim_and_tear_down x f now a s).0
unfolding claim_and_tear_down Recovery.claim_failed_job
claim-Reach x f now a s le =
    let t = (Recovery.claim_failed_job a.request_id a.attempts s).0 in
    let k : Reach s t = once (Step.claim a.request_id a.attempts) in
    let here : Reach s s = Reach.here in
    ground (arith, here, k, Reach-trans k (tear_down-Reach x f now a t (ground (arith, le))))

-- FailRequest runs only statements of the system, whichever of its calls fail.
pub fail_request-Reach :
    (x : Faults) (f : Floats) (now : ℕ) (a : Failure) (s : Store)
    → a.version ≤ s.workflow.target_version
    → Reach s (fail_request x f now a s).0
unfolding fail_request Recovery.requeue_job
fail_request-Reach x f now a s le =
    let here : Reach s s = Reach.here in
    elim (Bool-cases (ltb a.attempts max_job_attempts)) [
      | inl e ↦
          let t = (Recovery.requeue_job a.request_id a.attempts s).0 in
          let k : Reach s t = once (Step.requeue a.request_id a.attempts (ground (arith, e))) in
          ground (
            arith,
            e,
            here,
            k,
            claim-Reach x f now a s le,
            Reach-trans k (claim-Reach x f now a t (ground (arith, le))),
          )
      | inr e ↦ ground (arith, e, here, claim-Reach x f now a s le)
    ]

mark_scheduled-Reach : (fault : Bool) (s : Store) → Reach s (mark_scheduled fault s).0
mark_scheduled-Reach fault s = either-Reach fault Reach.here (once (Step.mark _))

after_scheduling-Reach :
    (x : ScheduleFaults) (mode : InvokeMode) (v : Option ℕ) (s : Store)
    → Reach s (after_scheduling x mode v s).0
unfolding after_scheduling
after_scheduling-Reach x mode none s = Reach.here
after_scheduling-Reach x mode (some v) s =
    let here : Reach s s = Reach.here in
    ground (
      arith,
      here,
      mark_scheduled-Reach x.mark s,
      Reach-trans (once (Step.supercede v))
          (mark_scheduled-Reach x.mark (Scheduling.supercede_older_requests v s)),
    )

pub schedule_request-Reach :
    (x : ScheduleFaults) (now id : ℕ) (a : Assembly) (w : Workflow) (s : Store)
    → Reach s (schedule_request x now id a w s).0
unfolding schedule_request upsert_and_follow
schedule_request-Reach x now id a w s =
    let p = plan_for w a in
    let r = Scheduling.upsert_job_and_schedule now id p s in
    let here : Reach s s = Reach.here in
    ground (
      arith,
      here,
      Reach-trans (once (Step.upsert now id p)) (after_scheduling-Reach x p.invoke_mode r.1 r.0),
    )
