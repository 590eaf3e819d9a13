-- ===== src/Tests/Handlers.antt =====
-- Tests of the scheduler's handlers.
use boundflow.Base.{◌≡◌, refl, true, none, some, arith}
use boundflow.Domain.Status.{JobStatus, RequestStatus, LifecycleState}
use boundflow.Policy
use boundflow.Metrics
use boundflow.Resolver
use boundflow.Store.{Store}
use boundflow.Store.Requests
use boundflow.Store.Recovery
use boundflow.Store.Lifecycle
use boundflow.Store.Resolution
use boundflow.Store.Scheduling
use boundflow.Scheduler
use boundflow.Scheduler.{
  Answer, done, failed, panicked, complete_request, fail_request, schedule_request, completed_state,
}
use boundflow.Scheduler.Complete.{Told, complete_request-Told}
use boundflow.Scheduler.Fail.{IsInterrupted, torn_down}
use boundflow.Scheduler.Schedule.{displaced, in_progress}
use boundflow.Scheduler.Order.{request_outlives_job}
use boundflow.Samples.{
  floats, workflow, job_in, store_in, store_with, request_in, no_faults, no_schedule_faults,
  completion, failure, assembly,
}

complete_request-Told_example :
    Told completion
      (store_in JobStatus.completed)
      (complete_request no_faults floats 95 completion (store_in JobStatus.completed))
complete_request-Told_example =
    complete_request-Told no_faults floats 95 completion (store_in JobStatus.completed)

-- The last attempt of the sample job.
abbrev exhausted : Store
exhausted = store_with (some (record (job_in JobStatus.failed) { attempts = 20 }))

torn_down_example :
    IsInterrupted
      (record failure { attempts = 20 })
      (fail_request no_faults floats 95 (record failure { attempts = 20 }) exhausted).0
unfolding fail_request Scheduler.claim_and_tear_down Recovery.claim_failed_job Scheduler.tear_down
    Scheduler.close_failed Requests.find_request Scheduler.delete_job Recovery.delete_terminal_job
    Lifecycle.apply_failed_job Scheduler.record_interrupted_metrics Scheduler.job_metrics
    Metrics.handle_agent_metrics Resolution.emit_metrics Metrics.emission_of
torn_down_example = torn_down no_faults floats 95 (record failure { attempts = 20 }) exhausted refl

-- The workflow as read before its second run was applied, and after that run was resolved.
abbrev ended : Store
ended = record (store_with none) {
  workflow = record workflow { current_version = 2; lifecycle_last_resolved = 2 };
}

-- The job of the second request was given back before its first attempt counted.
abbrev given_back : Store
given_back = store_with (some (record (job_in JobStatus.pending) { attempts = 0 }))

displaced_example :
    let t = (schedule_request no_schedule_faults 96 13 assembly workflow given_back).0 in
    (t.job
      ≡ some (
          Scheduling.replaced_job
            (request_in 13 3 RequestStatus.unscheduled)
            (Scheduler.plan_for workflow assembly)
            workflow
            (record (job_in JobStatus.pending) { attempts = 0 })))
    × (in_progress t.requests ≡ in_progress given_back.requests)
unfolding Scheduler.validate_workflow_state Requests.find_request
displaced_example =
    displaced no_schedule_faults 96 13 assembly workflow given_back
      (record (job_in JobStatus.pending) { attempts = 0 })
      (request_in 13 3 RequestStatus.unscheduled) refl refl refl refl refl refl refl refl refl
      (omega arith)

abbrev finished : Store
finished = store_in JobStatus.completed

request_outlives_job_example :
    let (t, answer) =
      complete_request (record no_faults { close_request = true }) floats 95 completion finished in
    (answer ≡ failed) × (t.job ≡ none) × (t.requests ≡ finished.requests)
unfolding complete_request completed_state Lifecycle.apply_completed_job Scheduler.count_and_resolve
    Scheduler.job_metrics Scheduler.resolve_and_close Scheduler.close_completed
    Metrics.handle_agent_metrics Metrics.emission_of Metrics.run_totals Metrics.fold_agents
    Metrics.fold_agent Metrics.fold_run Metrics.acc_int Metrics.count_failures Metrics.trim
    Resolution.emit_metrics Scheduler.sort_runs Policy.resolve_policy Policy.resolve_rules
    Policy.settle Policy.evaluate_rule Policy.last_run Policy.metric_emitted Policy.window_total
    Policy.lookback Policy.sum_runs Policy.run_value Policy.action_priority
    Resolver.resolve_lifecycle_policy Resolver.apply_decision Resolution.current_version_metrics
request_outlives_job_example =
    request_outlives_job (record no_faults { close_request = true }) floats 95 completion finished
      LifecycleState.active
      (record { apply = refl; read = refl; resolve = refl; delete = refl; close = refl }) refl
      (record { job = job_in JobStatus.completed; there = refl; same = refl; over = refl })
      (λ e. cc)
