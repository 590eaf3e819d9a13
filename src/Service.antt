-- ===== src/Service.antt =====
-- internal/service/lifecycle.go: the calls of an operator and of a caller. A call reads the workflow,
-- runs its statements and answers; what a failed call of a repository does is an argument of each.
pub mod Resume
pub mod Decisions
pub mod Histories
pub mod Admission
use boundflow.Base.{
  ℕ, ◌<◌, ◌+◌, ◌-◌, ◌%◌, ◌^◌, Bool, true, false, ◌&&◌, ◌||◌, not, Option, none, some, List, ◌==◌,
  ltb, leb, if◌then◌else◌,
}
use boundflow.Domain.Status.{
  WorkflowState, InvokeMode, RequestType, is_active, is_queue, is_suspended,
}
use boundflow.Domain.Rows.{Workflow, WorkflowConfig}
use boundflow.Store.{Store}
use boundflow.Store.Requests.{
  NewRequest, create_invocation_request, create_due_periodic_request, abandon_queued_requests,
  has_running_request, count_unscheduled_requests,
}
use boundflow.Store.Recovery.{mark_abandon_requested}
use boundflow.Store.Lifecycle.{
  update_config, mark_deletion_requested, finalize_deleted, try_activate_workflow,
  resolve_interrupted_workflow,
}
use boundflow.Store.Suspension.{mark_suspension_requested, finalize_suspended}
use boundflow.Scheduler.{Assembly, ScheduleFaults, get_workflow, schedule_request}

-- What a call answers.
pub data ServiceError : Type 0 where
  invalid_workflow_state queue_full not_triggerable no_version no_timeout : ServiceError
  invalid_repeat_interval already_requested activate_mismatch not_interrupted : ServiceError
  invalid_lifecycle_state storage : ServiceError

pub data Reply {ℓ} (A : Type ℓ) : Type ℓ where
  ok : A → Reply A
  refused : ServiceError → Reply A

-- DefaultMaxQueueDepth.
abbrev pub default_max_queue_depth : ℕ
default_max_queue_depth = 1000

-- The number of an int32 pattern is above 0.
abbrev pub is_positive_32 : ℕ → Bool
is_positive_32 n = ltb 0 n && ltb n (2 ^ 31)

-- `depthCap` of InvokeWorkflow.
unfoldable pub depth_cap : WorkflowConfig → ℕ
depth_cap c =
    if is_positive_32 c.max_queue_depth then c.max_queue_depth else default_max_queue_depth

-- `int32(depth) >= depthCap`, for a cap above 0.
unfoldable pub is_full : ℕ → ℕ → Bool
is_full depth cap = let d = depth % 2 ^ 32 in ltb d (2 ^ 31) && leb cap d

-- ResolveRuntimeParams: the timeout of the run; the run's own comes before the workflow's.
unfoldable pub resolve_runtime_params : ℕ → Workflow → Bool → Reply ℕ
resolve_runtime_params timeout w user_triggered =
    if not w.config.triggerable && user_triggered
    then refused ServiceError.not_triggerable
    else if w.current_workflow_version == 0
    then refused ServiceError.no_version
    else if not (timeout == 0)
    then ok timeout
    else if w.config.invoke_timeout_seconds == 0
    then refused ServiceError.no_timeout
    else ok w.config.invoke_timeout_seconds

-- Which calls of an invocation fail: the reads before the request is created, its creation, and the
-- scheduling after it, whose failure is only logged.
pub record InvokeFaults : Type 0 where
  pub reads : Bool
  pub create : Bool
  pub schedule : ScheduleFaults

-- A new invocation: its id, the timeout its caller asks for, the document that its request carries
-- for a timeout, and what ScheduleRequest assembles from it.
pub record Invocation : Type 0 where
  pub id : ℕ
  pub timeout_seconds : ℕ
  pub info : ℕ → ℕ
  pub assembly : ℕ → Assembly

abbrev pub request_of : Invocation → ℕ → NewRequest
request_of i timeout = record {
  id = i.id;
  request_type = RequestType.invoke;
  request_info = i.info timeout;
}

-- ScheduleRequest, which reads the workflow itself; its error is only logged, and the document that was
-- just stored has its timeout.
unfoldable pub try_schedule : ScheduleFaults → ℕ → ℕ → Assembly → Store → Store
try_schedule x now id a s = (schedule_request x now id a (get_workflow s) s).0

-- InvokeWorkflow from CreateInvocationRequest on.
unfoldable pub create_and_schedule : InvokeFaults → ℕ → Invocation → ℕ → Store → Store × Reply ℕ
create_and_schedule x now i timeout s =
    if x.create
    then (s, refused ServiceError.storage)
    else let (t, version) = create_invocation_request now (request_of i timeout) s in
      (elim version [
        | none ↦ (t, refused ServiceError.invalid_lifecycle_state)
        | some v ↦ (try_schedule x.schedule now i.id (i.assembly timeout) t, ok i.id)
      ])

unfoldable pub create_if_valid : InvokeFaults → ℕ → Invocation → Reply ℕ → Store → Store × Reply ℕ
create_if_valid x now i (refused e) s = (s, refused e)
create_if_valid x now i (ok timeout) s = create_and_schedule x now i timeout s

abbrev pub refuses : Workflow → Store → Bool
refuses w s =
    is_queue w.config.invoke_mode && is_full (count_unscheduled_requests s) (depth_cap w.config)

-- InvokeWorkflow, for the workflow `w` as it was read.
unfoldable pub invoke_workflow : InvokeFaults → ℕ → Invocation → Workflow → Store → Store × Reply ℕ
invoke_workflow x now i w s =
    if not (is_active w.workflow_state)
    then (s, refused ServiceError.invalid_workflow_state)
    else if x.reads
    then (s, refused ServiceError.storage)
    else if refuses w s
    then (s, refused ServiceError.queue_full)
    else create_if_valid x now i (resolve_runtime_params i.timeout_seconds w true) s

-- createPeriodicRequest (internal/scheduler/periodicworkflowhandler.go) from CreateDuePeriodicRequest
-- on.
unfoldable pub create_periodic :
    InvokeFaults → ℕ → Invocation → ℕ → ℕ → Store → Store × Reply (Option ℕ)
create_periodic x now i gap timeout s =
    if x.reads || x.create
    then (s, refused ServiceError.storage)
    else let (t, version) = create_due_periodic_request now (request_of i timeout) gap s in
      (elim version [
        | none ↦ (t, ok none)
        | some v ↦ (try_schedule x.schedule now i.id (i.assembly timeout) t, ok (some i.id))
      ])

unfoldable pub periodic_if_valid :
    InvokeFaults → ℕ → Invocation → ℕ → Reply ℕ → Store → Store × Reply (Option ℕ)
periodic_if_valid x now i gap (refused e) s = (s, refused e)
periodic_if_valid x now i gap (ok timeout) s = create_periodic x now i gap timeout s

-- createPeriodicRequest, for the workflow as GetDuePeriodicWorkflows read it.
unfoldable pub create_periodic_request :
    InvokeFaults → ℕ → Invocation → Workflow → Store → Store × Reply (Option ℕ)
create_periodic_request x now i w s =
    periodic_if_valid x now i w.config.repeat_every_seconds (resolve_runtime_params 0 w false) s

-- `cfg.RepeatEverySeconds > 0 && int(cfg.RepeatEverySeconds) < s.minRepeatSeconds`.
unfoldable pub is_repeat_too_short : ℕ → WorkflowConfig → Bool
is_repeat_too_short least c = ltb 0 c.repeat_every_seconds && ltb c.repeat_every_seconds least

-- SetWorkflowConfig.
unfoldable pub set_workflow_config :
    Bool → ℕ → WorkflowConfig → ℕ → Store → Store × Reply (Unit {0})
set_workflow_config fault least c version s =
    if is_repeat_too_short least c
    then (s, refused ServiceError.invalid_repeat_interval)
    else if fault
    then (s, refused ServiceError.storage)
    else (update_config c version s, ok tt)

-- Which calls of a suspension or a deletion fail.
pub record HoldFaults : Type 0 where
  pub mark : Bool
  pub abandon : Bool
  pub running : Bool
  pub finalize : Bool

-- The end of SuspendWorkflow and of the reconciler's round: nothing that is running holds it up.
unfoldable pub finalize_if_idle : HoldFaults → ℕ → ℕ → Store → Store
finalize_if_idle x now id s =
    if x.running || has_running_request s || x.finalize then s else finalize_suspended now id s

abbrev pub stop_if_asked : HoldFaults → ℕ → ℕ → Bool → Store → Store
stop_if_asked x now id stop_current s =
    if stop_current && not x.abandon then (mark_abandon_requested now id s).0 else s

-- SuspendWorkflow: once the suspension is marked, a failure is left to the reconciler.
unfoldable pub suspend_workflow : HoldFaults → ℕ → ℕ → ℕ → Bool → Store → Store × Reply (Unit {0})
suspend_workflow x now id reason stop_current s =
    if x.mark
    then (s, refused ServiceError.storage)
    else let (t, marked) = mark_suspension_requested now id reason stop_current s in
      if marked
      then (finalize_if_idle x now id (stop_if_asked x now id stop_current t), ok tt)
      else (t, refused ServiceError.already_requested)

-- DeleteWorkflow after MarkDeletionRequested.
unfoldable pub drain_and_delete : HoldFaults → ℕ → Store → Store × Reply (Unit {0})
drain_and_delete x now s =
    if x.abandon
    then (s, refused ServiceError.storage)
    else let t = (abandon_queued_requests none s).0 in
      if x.running
      then (t, refused ServiceError.storage)
      else if has_running_request t
      then (t, ok tt)
      else if x.finalize
      then (t, refused ServiceError.storage)
      else (finalize_deleted now t, ok tt)

-- DeleteWorkflow.
unfoldable pub delete_workflow : HoldFaults → ℕ → Store → Store × Reply (Unit {0})
delete_workflow x now s =
    if x.mark
    then (s, refused ServiceError.storage)
    else let (t, marked) = mark_deletion_requested now s in
      if marked then drain_and_delete x now t else (t, refused ServiceError.already_requested)

-- ActivateWorkflow and ResolveInterruptedWorkflow.
unfoldable pub activate_workflow : Bool → ℕ → Store → Store × Reply (Unit {0})
activate_workflow fault request_id s =
    if fault
    then (s, refused ServiceError.storage)
    else let (t, resolved) = try_activate_workflow request_id s in
      (t, if resolved then ok tt else refused ServiceError.activate_mismatch)

unfoldable pub resolve_interrupted : Bool → ℕ → Store → Store × Reply (Unit {0})
resolve_interrupted fault request_id s =
    if fault
    then (s, refused ServiceError.storage)
    else let (t, resolved) = resolve_interrupted_workflow request_id s in
      (t, if resolved then ok tt else refused ServiceError.not_interrupted)
