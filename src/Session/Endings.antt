-- ===== src/Session/Endings.antt =====
-- internal/rpcworker/rpcworker.go: completeOperation, failOperation, softFailOperation and
-- suspendOperation. Each writes the job as its owner, tells the scheduler where the write reached the
-- row, and gives the lease back. The error that the write answers ends up in a log.
use boundflow.Base.{ℕ, Option, none, some, [], ◌∷◌, Map, if◌then◌else◌, add_64}
use boundflow.Domain.Status.{JobStatus, RunOutcome}
use boundflow.Domain.Audit.{Details}
use boundflow.Domain.Rows.{Job, no_metadata}
use boundflow.Store.{Store}
use boundflow.Store.Jobs.{Operation}
use boundflow.Store.Recovery.{stopped_reason}
use boundflow.Store.Scheduling.{mark_workflow_awaiting_approval, mark_workflow_awaiting_input}
use boundflow.Scheduler.{Completion, Failure, complete_request, fail_request, system_actor}
use boundflow.System.{SessionWrite, session_write}
use boundflow.Session.{
  OperationResult, Following, GateMessage, Held, Env, Calls, attempt, let_go, counted, job_totals,
  outcome_of, opening_of, branches_of,
}

-- The text "operation exceeded its timeout".
abbrev pub timed_out_reason : ℕ
timed_out_reason = 3

abbrev pub completion_of : Job → RunOutcome → ℕ → Option ℕ → Completion
completion_of j outcome reason result = record {
  request_id = j.request_id;
  version = j.version;
  request_type = j.job_type;
  outcome = outcome;
  reason = reason;
  result = result;
}

-- A write that completes the job, and CompleteRequest where it reached the row.
unfoldable pub finish_job : Env → Calls → Held → RunOutcome → ℕ → Option ℕ → Store → Store
finish_job e x h outcome reason result s =
    let (t, updated) =
      session_write e.session_id
        (SessionWrite.finish JobStatus.completed outcome reason result (job_totals e.floats h)) s in
    if updated
    then (complete_request x.handler e.floats e.now (completion_of h.job outcome reason result) t).0
    else t

abbrev following_operation : Following → Operation
following_operation n = record {
  name = n.name;
  timeout_seconds = n.timeout_seconds;
  context = n.context;
}

-- UpdateJobWithMetrics of a result that names a next operation.
unfoldable pub advance_job : Env → Held → Following → Store → Store
advance_job e h n s =
    (session_write e.session_id
      (SessionWrite.advance e.now JobStatus.awaiting_next (following_operation n) n.delay_seconds
        (job_totals e.floats h))
      s).0

-- ParkForApproval and ParkForInput, and the mark on the workflow, which is written also where the
-- session lost the job.
unfoldable pub park_approval : Env → Calls → Held → GateMessage → Store → Store
park_approval e x h g s =
    attempt x.mark mark_workflow_awaiting_approval
      (session_write e.session_id
        (SessionWrite.ask_approval e.now
          (opening_of (record no_metadata { approval_gate = some (branches_of g) }) g)
          (job_totals e.floats h))
        s).0

unfoldable pub park_input : Env → Calls → Held → GateMessage → Store → Store
park_input e x h g s =
    attempt x.mark mark_workflow_awaiting_input
      (session_write e.session_id
        (SessionWrite.ask_input e.now
          (opening_of (record no_metadata { input_gate = some (branches_of g) }) g)
          (job_totals e.floats h))
        s).0

-- The branches of completeOperation.
unfoldable pub settle_without_next : Env → Calls → Held → OperationResult → Store → Store
settle_without_next e x h r s = elim r.approval_gate [
  | some g ↦ park_approval e x h g s
  | none ↦ elim r.input_gate [
    | some g ↦ park_input e x h g s
    | none ↦ finish_job e x h (outcome_of r).0 (outcome_of r).1 r.result s
  ]
]

unfoldable pub settle_result : Env → Calls → Held → OperationResult → Store → Store
settle_result e x h r s = elim r.next_operation [
  | some n ↦ advance_job e h n s
  | none ↦ settle_without_next e x h r s
]

abbrev pub with_action : Env → ℕ → ℕ → Store → Store
with_action e request_id action s = record s {
  audit =
      record {
        request_id = request_id;
        actor = system_actor;
        occurred_at = e.now;
        details = Details.agent_policy_action action;
      }
      ∷ s.audit;
}

-- One audit row for an agent whose rules changed its policy; a failed one is left out.
unfoldable pub append_actions : Env → Calls → ℕ → Map ℕ → Store → Store
append_actions e x request_id [] s = s
append_actions e x request_id ((agent, action) ∷ rest) s =
    append_actions e x request_id rest (attempt (x.audit agent) (with_action e request_id action) s)

unfoldable pub complete_operation : Env → Calls → Held → OperationResult → Store → Store
complete_operation e x h r s = let_go e x (
    attempt x.write
      (λ t.
        append_actions e x h.job.request_id r.agent_policy_actions
          (settle_result e x (counted r h) r t))
      s)

abbrev pub failure_of : Job → ℕ → Failure
failure_of j reason = record {
  request_id = j.request_id;
  version = j.version;
  reason = reason;
  attempts = j.attempts;
}

unfoldable pub fail_job : Env → Calls → Held → ℕ → Store → Store
fail_job e x h reason s =
    let (t, updated) =
      session_write e.session_id (SessionWrite.fail reason (job_totals e.floats h)) s in
    if updated then (fail_request x.handler e.floats e.now (failure_of h.job reason) t).0 else t

unfoldable pub fail_operation : Env → Calls → Held → ℕ → Store → Store
fail_operation e x h reason s = let_go e x (attempt x.write (fail_job e x h reason) s)

-- `job.WorkflowMetrics.Failures++`.
abbrev pub with_failure : Held → Held
with_failure h = record h {
  job = record (h.job) {
    workflow_metrics = record (h.job.workflow_metrics) {
      failures = add_64 h.job.workflow_metrics.failures 1;
    };
  };
}

unfoldable pub soft_fail_operation : Env → Calls → Held → RunOutcome → ℕ → Store → Store
soft_fail_operation e x h outcome reason s =
    let_go e x (attempt x.write (finish_job e x (with_failure h) outcome reason none) s)

unfoldable pub suspend_operation : Env → Calls → Held → Store → Store
suspend_operation e x h s =
    let_go e x (attempt x.write (finish_job e x h RunOutcome.suspended stopped_reason none) s)
