-- ===== src/Tests/Calls.antt =====
-- Tests of the service and of the reconcilers.
use boundflow.Base.{ℕ, ◌≡◌, ◌≤◌, refl, true, false, some, [], ◌∷◌, ◌-◌, arith}
use boundflow.Domain.Status.{JobStatus, RequestStatus, InvokeMode, is_active}
use boundflow.Domain.Audit.{ApprovalDecision, InputDecision}
use boundflow.Domain.Rows.{Workflow}
use boundflow.Store.{Store}
use boundflow.Store.Requests
use boundflow.Store.Suspension
use boundflow.System.{Reach}
use boundflow.Service
use boundflow.Service.{Reply, refused, ServiceError, HoldFaults, InvokeFaults, Invocation}
use boundflow.Service.Decisions
use boundflow.Service.Decisions.{IsAnswered, DecisionFaults, decisions_answered}
use boundflow.Service.Admission.{invoke-count}
use boundflow.Reconcilers
use boundflow.Reconcilers.{Tick, Task, run_tick}
use boundflow.Reconcilers.Ticks.{tick-Reach}
use boundflow.Reconcilers.Draining.{rounds_settle}
use boundflow.Samples.{
  floats, store_in, request_in, no_faults, no_schedule_faults, assembly, workflow, config,
}
use boundflow.Tests.Rows.{sample-Inv}

abbrev faultless : HoldFaults
faultless = record { mark = false; abandon = false; running = false; finalize = false }

abbrev waiting : Store
waiting = store_in JobStatus.awaiting_approval

decisions_answered_example :
    IsAnswered waiting
      (Decisions.approve_workflow (record { resolve = false; audit = false }) 90 70 8 3 waiting)
      70
      JobStatus.awaiting_approval
      JobStatus.approved
      (λ j. j.approval)
      (Decisions.approval_row 90 70 8 3 ApprovalDecision.approved)
    × IsAnswered waiting
        (Decisions.reject_workflow (record { resolve = false; audit = false }) 90 70 8 3 waiting)
        70
        JobStatus.awaiting_approval
        JobStatus.rejected
        (λ j. j.approval)
        (Decisions.approval_row 90 70 8 3 ApprovalDecision.rejected)
    × IsAnswered waiting
        (Decisions.submit_input
          (record { resolve = false; audit = false })
          90
          70
          8
          (some 4)
          waiting)
        70
        JobStatus.awaiting_input
        JobStatus.answered
        (λ j. j.input)
        (Decisions.input_row 90 70 8 InputDecision.answered (some 4))
decisions_answered_example =
    decisions_answered (record { resolve = false; audit = false }) 90 70 8 3 (some 4) waiting refl

abbrev tick : Tick
tick = record {
  floats = floats;
  now = 90;
  partition = 0;
  grace = 30;
  read = false;
  handler = no_faults;
  schedule = no_schedule_faults;
  assembly = λ r. assembly;
}

tick-Reach_example :
    let s = store_in JobStatus.completed in
    Reach s (run_tick ((tick, Task.completing) ∷ (tick, Task.failing) ∷ []) tick s)
tick-Reach_example =
    tick-Reach ((tick, Task.completing) ∷ (tick, Task.failing) ∷ []) tick
      (store_in JobStatus.completed) (sample-Inv JobStatus.completed)

-- A suspended workflow whose one request waits.
abbrev drained : Store
drained =
    (Suspension.mark_suspension_requested 90 60 4 true
      (record waiting { requests = request_in 13 3 RequestStatus.unscheduled ∷ [] })).0

rounds_settle_example :
    let t = Reconcilers.sweep_deletions false faultless 91 0 drained in
    (Reconcilers.is_pending_suspension 0
        (Reconcilers.sweep_suspensions false faultless 91 0 drained)
      ≡ false)
    × (Reconcilers.is_pending_deletion 0 t ≡ false)
    × (Reconcilers.is_pending_deletion 0 drained ≡ true
        → t.tenant_workflow_count ≡ drained.tenant_workflow_count - 1)
unfolding Suspension.mark_suspension_requested Requests.has_running_request
rounds_settle_example =
    rounds_settle faultless 91 0 drained
      (record { mark = refl; abandon = refl; running = refl; finalize = refl }) refl (λ e. refl)

-- A workflow that queues one request at most, and has one.
abbrev queueing : Workflow
queueing = record workflow {
  config = record config { invoke_mode = InvokeMode.queue; max_queue_depth = 1 };
}

abbrev invocation : Invocation
invocation = record {
  id = 14;
  timeout_seconds = 30;
  info = λ timeout. timeout;
  assembly = λ timeout. assembly;
}

abbrev invoked : Store × Reply ℕ
invoked =
    Service.invoke_workflow
      (record { reads = false; create = false; schedule = no_schedule_faults }) 90 invocation
      queueing waiting

invoke-count_example :
    (Requests.count_unscheduled_requests waiting ≤ Service.depth_cap queueing.config
      → Requests.count_unscheduled_requests invoked.0 ≤ Service.depth_cap queueing.config)
    × (Service.depth_cap queueing.config ≤ Requests.count_unscheduled_requests waiting
        → is_active queueing.workflow_state ≡ true
        → false ≡ false
        → invoked ≡ (waiting, refused ServiceError.queue_full))
unfolding Requests.count_unscheduled_requests
invoke-count_example =
    invoke-count (record { reads = false; create = false; schedule = no_schedule_faults }) 90
      invocation queueing waiting refl (omega arith)
