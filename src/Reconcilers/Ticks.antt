-- ===== src/Reconcilers/Ticks.antt =====
-- internal/scheduler: the rounds of the reconcilers and the ticks of a partition as histories of
-- statements.
use boundflow.Base.{
  ℕ, ◌≤◌, ◌≡◌, inl, inr, Bool, true, false, ◌||◌, none, some, List, [], ◌∷◌, arith, Option-cases,
}
use boundflow.Store.{Store}
use boundflow.Store.Requests
use boundflow.Store.Recovery
use boundflow.Store.Scheduling
use boundflow.Scheduler.{Failure, Completion, get_workflow}
use boundflow.System.{Step, Reach}
use boundflow.System.Runs.{
  Reach-trans, once, either-Reach, fail_request-Reach, schedule_request-Reach,
}
use boundflow.System.Reached.{complete_request-Reach}
use boundflow.System.Invariant.{Inv}
use boundflow.System.History.{history-Inv}
use boundflow.Service
use boundflow.Service.{HoldFaults}
use boundflow.Reconcilers
use boundflow.Reconcilers.{Tick, Task, run_task, run_tasks, run_tick, schedule_jobs}

pub finalize-Reach :
    (x : HoldFaults) (now id : ℕ) (s : Store) → Reach s (Service.finalize_if_idle x now id s)
unfolding Service.finalize_if_idle
finalize-Reach x now id s =
    either-Reach (x.running || Requests.has_running_request s || x.finalize) Reach.here
      (once (Step.finalize now id))

drain-Reach :
    (x : HoldFaults) (now id : ℕ) (stop : Bool) (s : Store)
    → Reach s (Reconcilers.drain_suspension x now id stop s)
unfolding Reconcilers.drain_suspension
drain-Reach x now id true s = either-Reach x.abandon Reach.here (
    Reach-trans (once (Step.abandon now id))
      (finalize-Reach x now id (Recovery.mark_abandon_requested now id s).0))
drain-Reach x now id false s = finalize-Reach x now id s

pub sweep_suspensions-Reach :
    (list : Bool) (x : HoldFaults) (now partition : ℕ) (s : Store)
    → Reach s (Reconcilers.sweep_suspensions list x now partition s)
unfolding Reconcilers.sweep_suspensions Reconcilers.reconcile_suspension
sweep_suspensions-Reach list x now partition s = either-Reach _ Reach.here (
    either-Reach _ (either-Reach x.mark Reach.here (once (Step.abort _)))
      (drain-Reach x now _ s.workflow.suspension.stop_current s))

pub sweep_deletions-Reach :
    (list : Bool) (x : HoldFaults) (now partition : ℕ) (s : Store)
    → Reach s (Reconcilers.sweep_deletions list x now partition s)
unfolding Reconcilers.sweep_deletions Reconcilers.reconcile_deletion
sweep_deletions-Reach list x now partition s =
    let k = once {s = s} (Step.drop_queued none) in
    either-Reach _ Reach.here (
      either-Reach x.abandon Reach.here
        (either-Reach _ k (Reach.next k (Step.finish_deletion now))))

failed-version :
    (partition : ℕ) (s : Store) (a : Failure)
    → Inv s
    → Reconcilers.failed_job partition s ≡ some a
    → a.version ≤ s.workflow.target_version
unfolding Reconcilers.failed_job
failed-version partition s a h e = ground (arith, h.job, e)

completed-version :
    (partition : ℕ) (s : Store) (c : Completion)
    → Inv s
    → Reconcilers.completed_job partition s ≡ some c
    → c.version ≤ s.workflow.target_version
unfolding Reconcilers.completed_job
completed-version partition s c h e = ground (arith, h.job, e)

task-Reach : (k : Tick) (task : Task) (s : Store) → Inv s → Reach s (run_task k task s)
unfolding run_task Reconcilers.fail_jobs Reconcilers.complete_jobs Reconcilers.reconcile_lifecycles
    Reconcilers.mark_orphaned Reconcilers.sweep_progress
task-Reach k Task.failing s h =
    either-Reach k.read Reach.here (elim (Option-cases (Reconcilers.failed_job k.partition s)) [
      | inl e ↦ rw e Reach.here
      | inr (a, e) ↦
          rw e
            (fail_request-Reach k.handler k.floats k.now a s (failed-version k.partition s a h e))
    ])
task-Reach k Task.completing s h =
    either-Reach k.read Reach.here (elim (Option-cases (Reconcilers.completed_job k.partition s)) [
      | inl e ↦ rw e Reach.here
      | inr (c, e) ↦ rw e (
          complete_request-Reach k.handler k.floats k.now c s
            (completed-version k.partition s c h e))
    ])
task-Reach k Task.reconciling s h =
    either-Reach k.read Reach.here
      (once (Step.reconcile k.now k.partition Reconcilers.blocked_after_seconds))
task-Reach k Task.orphaning s h =
    either-Reach k.read Reach.here (once (Step.orphan k.now k.partition k.grace))
task-Reach k Task.sweeping s h =
    either-Reach k.read Reach.here (once (Step.sweep_in_progress k.partition))

schedule_jobs-Reach : (k : Tick) (s : Store) → Reach s (schedule_jobs k s)
unfolding schedule_jobs
schedule_jobs-Reach k s =
    either-Reach k.read Reach.here
      (elim (Option-cases (Scheduling.top_unscheduled_request k.partition s)) [
        | inl e ↦ rw e Reach.here
        | inr (r, e) ↦
            rw e (schedule_request-Reach k.schedule k.now r.id (k.assembly r) (get_workflow s) s)
      ])

tasks-Reach : (tasks : List (Tick × Task)) (s : Store) → Inv s → Reach s (run_tasks tasks s)
unfolding run_tasks
tasks-Reach [] s h = Reach.here
tasks-Reach ((k, task) ∷ rest) s h =
    let r = task-Reach k task s h in
    Reach-trans r (tasks-Reach rest (run_task k task s) (history-Inv h r))

-- A tick of a scheduler over consistent rows, whatever of it fails and in whatever order its tasks run, is
-- a history of the system's statements.
pub tick-Reach :
    (tasks : List (Tick × Task)) (k : Tick) (s : Store) → Inv s → Reach s (run_tick tasks k s)
unfolding run_tick
tick-Reach tasks k s h =
    Reach-trans (tasks-Reach tasks s h) (schedule_jobs-Reach k (run_tasks tasks s))
