-- ===== src/Domain/Status.antt =====
-- The string enums of internal/domain (workflow.go, job.go, customer_request.go), and the tests
-- that the SQL statements and the handlers make on them.
use mathlib.Core.Bool.{Bool, true, false}

pub data LifecycleState : Type 0 where
  creating active scheduled blocked invoking awaiting_approval awaiting_input : LifecycleState
  deleted interrupted halted : LifecycleState

pub data WorkflowState : Type 0 where
  active paused cooldown disabled suspended : WorkflowState

-- `unset` is the empty string, which means coalesce.
pub data InvokeMode : Type 0 where
  coalesce queue unset : InvokeMode

pub data JobStatus : Type 0 where
  pending dispatched running awaiting_next awaiting_approval approved rejected : JobStatus
  awaiting_input answered input_timed_out completed failed terminal_failed : JobStatus

pub data RequestStatus : Type 0 where
  unscheduled scheduled in_progress failed completed superceded abandoned paused : RequestStatus

pub data RequestType : Type 0 where
  create invoke healthcheck : RequestType

pub data RunOutcome : Type 0 where
  successful customer_marked uncaught_exception operation_timeout interrupted suspended : RunOutcome

unfoldable pub LifecycleState-discrete : Discrete LifecycleState
LifecycleState-discrete = hlevel

unfoldable pub WorkflowState-discrete : Discrete WorkflowState
WorkflowState-discrete = hlevel

-- `lifecycle_state NOT IN ('creating', 'deleted', 'interrupted', 'halted')`, negated.
abbrev pub is_protected : LifecycleState → Bool
is_protected LifecycleState.creating = true
is_protected LifecycleState.deleted = true
is_protected LifecycleState.interrupted = true
is_protected LifecycleState.halted = true
is_protected _ = false

abbrev pub is_deleted : LifecycleState → Bool
is_deleted LifecycleState.deleted = true
is_deleted _ = false

abbrev pub is_interrupted : LifecycleState → Bool
is_interrupted LifecycleState.interrupted = true
is_interrupted _ = false

abbrev pub is_active : WorkflowState → Bool
is_active WorkflowState.active = true
is_active _ = false

abbrev pub is_cooldown : WorkflowState → Bool
is_cooldown WorkflowState.cooldown = true
is_cooldown _ = false

abbrev pub is_disabled : WorkflowState → Bool
is_disabled WorkflowState.disabled = true
is_disabled _ = false

abbrev pub is_suspended : WorkflowState → Bool
is_suspended WorkflowState.suspended = true
is_suspended _ = false

-- `workflow_state IN ('paused', 'cooldown')`: what ActivateWorkflow may lift.
abbrev pub is_held_by_policy : WorkflowState → Bool
is_held_by_policy WorkflowState.paused = true
is_held_by_policy WorkflowState.cooldown = true
is_held_by_policy _ = false

-- `workflow_state NOT IN ('disabled', 'suspended')`.
abbrev pub is_resolvable : WorkflowState → Bool
is_resolvable WorkflowState.disabled = false
is_resolvable WorkflowState.suspended = false
is_resolvable _ = true

abbrev pub is_queue : InvokeMode → Bool
is_queue InvokeMode.queue = true
is_queue _ = false

-- The statuses that GetAvailableJob and AcquireJob take.
abbrev pub is_available : JobStatus → Bool
is_available JobStatus.pending = true
is_available JobStatus.awaiting_next = true
is_available JobStatus.approved = true
is_available JobStatus.rejected = true
is_available JobStatus.answered = true
is_available JobStatus.input_timed_out = true
is_available _ = false

abbrev pub is_pending : JobStatus → Bool
is_pending JobStatus.pending = true
is_pending _ = false

abbrev pub is_dispatched : JobStatus → Bool
is_dispatched JobStatus.dispatched = true
is_dispatched _ = false

abbrev pub is_awaiting_approval : JobStatus → Bool
is_awaiting_approval JobStatus.awaiting_approval = true
is_awaiting_approval _ = false

abbrev pub is_awaiting_input : JobStatus → Bool
is_awaiting_input JobStatus.awaiting_input = true
is_awaiting_input _ = false

-- `status IN ('dispatched', 'running')`: a worker is on it.
abbrev pub is_live : JobStatus → Bool
is_live JobStatus.dispatched = true
is_live JobStatus.running = true
is_live _ = false

abbrev pub is_failed : JobStatus → Bool
is_failed JobStatus.failed = true
is_failed _ = false

-- `status IN ('failed', 'terminal_failed')`.
abbrev pub is_failure : JobStatus → Bool
is_failure JobStatus.failed = true
is_failure JobStatus.terminal_failed = true
is_failure _ = false

abbrev pub is_completed : JobStatus → Bool
is_completed JobStatus.completed = true
is_completed _ = false

-- `status IN ('completed', 'failed')`: over, as the statements older than 'terminal_failed' say it.
abbrev pub is_over : JobStatus → Bool
is_over JobStatus.completed = true
is_over JobStatus.failed = true
is_over _ = false

-- `status IN ('completed', 'failed', 'terminal_failed')`.
abbrev pub is_terminal : JobStatus → Bool
is_terminal JobStatus.completed = true
is_terminal JobStatus.failed = true
is_terminal JobStatus.terminal_failed = true
is_terminal _ = false

abbrev pub is_unscheduled : RequestStatus → Bool
is_unscheduled RequestStatus.unscheduled = true
is_unscheduled _ = false

abbrev pub is_scheduled : RequestStatus → Bool
is_scheduled RequestStatus.scheduled = true
is_scheduled _ = false

abbrev pub is_paused : RequestStatus → Bool
is_paused RequestStatus.paused = true
is_paused _ = false

-- `status IN ('unscheduled', 'paused')`.
abbrev pub is_queued : RequestStatus → Bool
is_queued RequestStatus.unscheduled = true
is_queued RequestStatus.paused = true
is_queued _ = false

-- `status IN ('unscheduled', 'scheduled')`.
abbrev pub is_supercedable : RequestStatus → Bool
is_supercedable RequestStatus.unscheduled = true
is_supercedable RequestStatus.scheduled = true
is_supercedable _ = false

-- `status IN ('scheduled', 'in_progress')`.
abbrev pub is_running : RequestStatus → Bool
is_running RequestStatus.scheduled = true
is_running RequestStatus.in_progress = true
is_running _ = false

-- `status IN ('completed', 'failed', 'superceded', 'abandoned')`.
abbrev pub is_closed : RequestStatus → Bool
is_closed RequestStatus.completed = true
is_closed RequestStatus.failed = true
is_closed RequestStatus.superceded = true
is_closed RequestStatus.abandoned = true
is_closed _ = false
