-- ===== src/Tests/Rows.antt =====
-- Tests of the rows along a history and through a suspension.
use boundflow.Base.{◌≡◌, refl, true, false, none, arith}
use boundflow.Domain.Status.{JobStatus, WorkflowState}
use boundflow.Store.{Store}
use boundflow.Store.Lifecycle
use boundflow.Store.Suspension
use boundflow.Store.Suspension.{Target}
use boundflow.System.{Step, Reach}
use boundflow.System.Invariant.{Inv}
use boundflow.System.Monotone.{IsPast, history-IsPast}
use boundflow.System.Traces.{Trace, Trace-Inv}
use boundflow.Store.Resolution
use boundflow.System.Hold.{suspend_then_resume}
use boundflow.Scheduler.{complete_request}
use boundflow.System.Completion.{complete_request-Inv}
use boundflow.Samples.{floats, store_in, no_faults, completion}

abbrev running : Store
running = store_in JobStatus.running

pub sample-Inv : (status : JobStatus) → Inv (store_in status)
sample-Inv status = record {
  resolved = omega arith;
  emitted = omega arith;
  current = omega arith;
  held = λ e. cc;
  requests = ground arith;
  job = omega arith;
}

-- The server suspends the workflow.
abbrev suspended : Store
suspended = (Suspension.mark_suspension_requested 90 60 4 false running).0

history-IsPast_example : IsPast running suspended
history-IsPast_example =
    history-IsPast (sample-Inv JobStatus.running)
      (Reach.next Reach.here (Step.suspend 90 60 4 false))

abbrev target : Target
target = record {
  state = WorkflowState.active;
  expected_version = 1;
  version = 2;
  cooldown_until = none;
}

abbrev finalized : Store
finalized = Suspension.finalize_suspended 95 60 suspended

abbrev resumed : Store
resumed = (Suspension.restore_from_suspension 60 target finalized).0

-- A resolution that read the suspended workflow is overtaken by the resume.
Trace-Inv_example :
    Inv
      (Resolution.try_apply_state_resolution suspended.workflow.current_version
        WorkflowState.suspended none 12 resumed).0
unfolding Suspension.mark_suspension_requested
Trace-Inv_example = Trace-Inv (sample-Inv JobStatus.running) (
    Trace.resolved {t = suspended} {u = resumed}
      (Trace.next Trace.here (Step.suspend 90 60 4 false) refl)
      (Trace.next (Trace.next {t = suspended} Trace.here (Step.finalize 95 60) refl)
        (Step.resume 60 target refl) refl)
      WorkflowState.suspended none 12 (λ e. refl))

suspend_then_resume_example :
    let (u, resumed) =
      Suspension.restore_from_suspension 60 target
        (Suspension.finalize_suspended 95 60 suspended) in
    (resumed ≡ true)
    × (u.requests ≡ running.requests)
    × (u.workflow.suspension ≡ Lifecycle.no_suspension)
    × (u.workflow.workflow_state ≡ target.state)
unfolding Suspension.mark_suspension_requested
suspend_then_resume_example =
    suspend_then_resume running 90 60 4 false 95 target (sample-Inv JobStatus.running) refl refl

complete_request-Inv_example :
    Inv (complete_request no_faults floats 95 completion (store_in JobStatus.completed)).0
complete_request-Inv_example =
    complete_request-Inv no_faults floats 95 completion (store_in JobStatus.completed) (omega arith)
      (sample-Inv JobStatus.completed)
