-- ===== src/Session/Dispatch.antt =====
-- internal/rpcworker/rpcworker.go: the state ConnectedIdle after a worker said that it is ready. A
-- session polls for a job, takes it, and launches the operation it is to run next: the stored one,
-- or the branch of a gate that was resolved meanwhile.
use boundflow.Base.{
  ℕ, ◌==◌, ◌||◌, Bool, true, false, not, Option, none, some, List, [], is_some, if◌then◌else◌,
  add_64,
}
use boundflow.Domain.Status.{LifecycleState, JobStatus}
use boundflow.Domain.Rows.{Job, Branch, Branches, NextOperation}
use boundflow.Store.{Store}
use boundflow.Store.Jobs.{Operation, is_available_job, acquire_job}
use boundflow.Store.Scheduling.{mark_workflow, mark_request_in_progress}
use boundflow.System.{SessionWrite, session_write}
use boundflow.Session.{
  OperationStatus, OperationFailureType, CancelReason, OperationResult, Held, Env, Calls, attempt,
  write, let_go, job_totals,
}
use boundflow.Session.Endings.{complete_operation, suspend_operation}

-- How the goroutine of a session ended: it returned nil or an error, or it panicked.
pub data Exit : Type 0 where
  clean broken crashed : Exit

-- The states of the machine. `polling` is ConnectedIdle between two looks for a job; `unattended` is
-- ConnectedIdle with an operation that no ending was run for, and the machine is not followed from
-- there.
pub data Session : Type 0 where
  idle : Session
  polling : List (ℕ × ℕ) → Session
  waiting : Held → Session
  busy : Held → Session
  cancelling : Held → Session
  unattended : Held → Session
  over : Exit → Session

-- What the status of an acquired job asks for.
pub data Move : Type 0 where
  launch : Held → Move
  finish : Held → Option ℕ → Move
  skip : Move
  crash : Move

-- recordGateOutcome.
abbrev rejections : Bool → Option ℕ → Option ℕ
rejections rejected none = some (if rejected then 1 else 0)
rejections rejected (some n) = some (if rejected then add_64 n 1 else n)

unfoldable pub record_gate_outcome : Bool → Held → Held
record_gate_outcome rejected h = record h {
  job = record (h.job) {
    workflow_metrics = record (h.job.workflow_metrics) {
      approval_rejections = rejections rejected h.job.workflow_metrics.approval_rejections;
    };
  };
}

abbrev pub with_next : NextOperation → ℕ → Held → Held
with_next n context h = record h {
  job = record (h.job) {
    context = context;
    timeout_seconds = n.timeout_seconds;
    current_atomic_operation = n.operation_name;
  };
}

-- resolveBranch: the reason of the decision goes into the context, unless it is empty.
unfoldable pub resolve_branch : Env → Held → Branch → Move
resolve_branch e h b = elim b.next [
  | none ↦ Move.finish h b.result
  | some n ↦
      let context =
        if h.job.approval_reason == 0
        then n.context
        else e.with_reason n.context h.job.approval_reason in
      Move.launch (with_next n context h)
]

abbrev pub context_with : Env → ℕ → Option ℕ → ℕ
context_with e context none = context
context_with e context (some a) = e.with_answer context a

-- resolveInputBranch.
unfoldable pub resolve_input_branch : Env → Held → Option ℕ → Branch → Move
resolve_input_branch e h answer b = elim b.next [
  | none ↦ Move.finish h b.result
  | some n ↦ Move.launch (with_next n (context_with e n.context answer) h)
]

-- The branch of a gate; a gate that is not there is a nil pointer.
unfoldable pub through_gate : Option Branches → (Branches → Move) → Move
through_gate none f = Move.crash
through_gate (some g) f = f g

-- `switch job.Status`.
unfoldable pub move_in : JobStatus → Env → Held → Move
move_in JobStatus.approved e h =
    through_gate h.job.job_metadata.approval_gate
      (λ g. resolve_branch e (record_gate_outcome false h) g.accept)
move_in JobStatus.rejected e h =
    through_gate h.job.job_metadata.approval_gate
      (λ g. resolve_branch e (record_gate_outcome true h) g.refuse)
move_in JobStatus.answered e h =
    through_gate h.job.job_metadata.input_gate
      (λ g. resolve_input_branch e h h.job.input_answer g.accept)
move_in JobStatus.input_timed_out e h =
    through_gate h.job.job_metadata.input_gate (λ g. resolve_input_branch e h none g.refuse)
move_in JobStatus.awaiting_next e h = Move.launch h
move_in JobStatus.pending e h = Move.launch h
move_in _ e h = Move.skip

abbrev pub next_move : Env → Held → Move
next_move e h = move_in h.job.status e h

-- `completionResult`.
abbrev pub branch_result : Option ℕ → OperationResult
branch_result result = record {
  status = OperationStatus.completed;
  message = 0;
  next_operation = none;
  agent_state_updates = [];
  approval_gate = none;
  input_gate = none;
  workflow_metrics = none;
  agent_policy_actions = [];
  failure_type = OperationFailureType.unspecified;
  failure_reason = 0;
  result = result;
  cancel_reason = CancelReason.unspecified;
}

abbrev pub operation_of : Job → Operation
operation_of j = record {
  name = j.current_atomic_operation;
  timeout_seconds = j.timeout_seconds;
  context = j.context;
}

-- The marks after DispatchJob, and the launch: a launch that was not sent puts the job back.
unfoldable pub send_launch : Env → Calls → Held → Store → Store × Session
send_launch e x h s =
    let t =
      attempt x.progress (mark_request_in_progress h.job.request_id)
        (attempt x.mark (mark_workflow LifecycleState.invoking) s) in
    if x.send
    then (
      let_go e x (attempt x.requeue (write e (SessionWrite.set_status JobStatus.pending)) t),
      Session.over Exit.broken,
    )
    else (t, Session.waiting h)

unfoldable pub launch_operation : Env → Calls → List (ℕ × ℕ) → Held → Store → Store × Session
launch_operation e x capabilities h s =
    if x.dispatch
    then (let_go e x s, Session.over Exit.broken)
    else let (t, dispatched) =
        session_write e.session_id
          (SessionWrite.dispatch (operation_of h.job) (job_totals e.floats h)) s in
      if dispatched then send_launch e x h t else (let_go e x t, Session.polling capabilities)

unfoldable pub follow : Env → Calls → List (ℕ × ℕ) → Move → Store → Store × Session
follow e x capabilities (Move.launch h) s =
    if x.encode
    then (let_go e x s, Session.polling capabilities)
    else launch_operation e x capabilities h s
follow e x capabilities (Move.finish h result) s =
    let r = branch_result (if x.encode then none else result) in
    (complete_operation e x h r s, Session.polling capabilities)
follow e x capabilities Move.skip s = (let_go e x s, Session.polling capabilities)
follow e x capabilities Move.crash s = (s, Session.over Exit.crashed)

-- A job that was taken with a stop asked for is not launched.
unfoldable pub begin_job : Env → Calls → List (ℕ × ℕ) → Held → Store → Store × Session
begin_job e x capabilities h s =
    if is_some h.job.abandon_requested_at
    then (suspend_operation e x h s, Session.polling capabilities)
    else follow e x capabilities (next_move e h) s

-- One look for a job.
unfoldable pub poll : Env → Calls → List (ℕ × ℕ) → Store → Store × Session
poll e x capabilities s =
    if x.poll || x.acquire || not (is_available_job e.now e.tenant_group_id capabilities s)
    then (s, Session.polling capabilities)
    else let (t, taken) = acquire_job e.now e.session_id e.lease e.tenant_group_id s in
      (elim taken [
        | none ↦ (t, Session.polling capabilities)
        | some j ↦ begin_job e x capabilities (record { job = j; this_op = [] }) t
      ])
