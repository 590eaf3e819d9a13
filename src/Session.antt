-- ===== src/Session.antt =====
-- internal/rpcworker/rpcworker.go: what a worker reports (proto/boundflow/v1/operation.proto and
-- worker.proto), what a session holds of the operation in flight, and how an operation ends.
pub mod Endings
pub mod Dispatch
pub mod Machine
pub mod Refines
pub mod Moves
pub mod Runs
pub mod Whole
pub mod Gated
pub mod Stages
pub mod Leaving
pub mod Totals
use boundflow.Base.{
  ℕ, Bool, true, false, ◌&&◌, ◌||◌, Option, none, some, List, [], ◌∷◌, Map, is_some, if◌then◌else◌,
  add_64, int_of_32,
}
use boundflow.Domain.Status.{LifecycleState, JobStatus, RunOutcome}
use boundflow.Domain.Policy.{Floats}
use boundflow.Domain.Metrics.{AgentMetrics, RunMetrics}
use boundflow.Domain.Audit.{Details}
use boundflow.Domain.Rows.{Job, NextOperation, Branch, Branches, JobMetadata}
use boundflow.Metrics.{merge_agent_metrics, merge_workflow_metrics}
use boundflow.Store.{Store}
use boundflow.Store.Jobs.{Metrics, Operation}
use boundflow.Store.Gates.{Opening}
use boundflow.Scheduler.{Faults}
use boundflow.System.{SessionWrite, session_write}

pub data OperationStatus : Type 0 where
  unspecified in_progress completed failed cancelled : OperationStatus

pub data OperationFailureType : Type 0 where
  unspecified customer_marked uncaught_exception : OperationFailureType

pub data CancelReason : Type 0 where
  unspecified timeout suspension : CancelReason

-- The fields of AtomicOperation that a result's next operation is read for. Seconds of the messages
-- are taken as not negative.
pub record Following : Type 0 where
  pub name : ℕ
  pub context : ℕ
  pub timeout_seconds : ℕ
  pub delay_seconds : ℕ

-- ApprovalGate and InputGate of the messages: `detail` is the justification or the prompt.
pub record GateMessage : Type 0 where
  pub gate_id : ℕ
  pub timeout_seconds : ℕ
  pub detail : ℕ
  pub metadata : Option ℕ
  pub on_accept : Option Following
  pub on_accept_result : Option ℕ
  pub on_refuse : Option Following
  pub on_refuse_result : Option ℕ

-- AtomicOperationResult: `workflow_metrics` holds its failures, an int32 pattern, and an agent's
-- policy action is the document that is audited for it.
pub record OperationResult : Type 0 where
  pub status : OperationStatus
  pub message : ℕ
  pub next_operation : Option Following
  pub agent_state_updates : Map AgentMetrics
  pub approval_gate : Option GateMessage
  pub input_gate : Option GateMessage
  pub workflow_metrics : Option ℕ
  pub agent_policy_actions : Map ℕ
  pub failure_type : OperationFailureType
  pub failure_reason : ℕ
  pub result : Option ℕ
  pub cancel_reason : CancelReason

-- `currentJob` and `thisOp`.
pub record Held : Type 0 where
  pub job : Job
  pub this_op : Map AgentMetrics

-- What a session runs with: the clock, its id, the length of a lease, its tenant group, and the
-- changes of a JSON document that set ctx["input"]["approval_reason"] and ctx["input"]["answer"].
pub record Env : Type 0 where
  pub floats : Floats
  pub now : ℕ
  pub session_id : ℕ
  pub lease : ℕ
  pub tenant_group_id : ℕ
  pub with_reason : ℕ → ℕ → ℕ
  pub with_answer : ℕ → ℕ → ℕ

-- Which calls of a session fail in one of its moves.
pub record Calls : Type 0 where
  pub poll : Bool
  pub acquire : Bool
  pub encode : Bool
  pub dispatch : Bool
  pub mark : Bool
  pub progress : Bool
  pub send : Bool
  pub requeue : Bool
  pub report : Bool
  pub write : Bool
  pub audit : ℕ → Bool
  pub release : Bool
  pub handler : Faults

-- A statement of the session, and what a call of it leaves where it fails.
abbrev pub write : Env → SessionWrite → Store → Store
write e w s = (session_write e.session_id w s).0

abbrev pub attempt : Bool → (Store → Store) → Store → Store
attempt fault f s = if fault then s else f s

-- `cancelLease`: the goroutine that keeps the lease runs ReleaseJob and ends.
abbrev pub let_go : Env → Calls → Store → Store
let_go e x = attempt x.release (write e SessionWrite.release)

-- recordSnapshot.
abbrev replaced : Map AgentMetrics → Held → Held
replaced [] h = h
replaced (m ∷ rest) h = record h { this_op = m ∷ rest }

unfoldable pub record_snapshot : OperationResult → Held → Held
record_snapshot r h = replaced r.agent_state_updates h

-- agentMetrics, beside the workflow's metrics of the job.
unfoldable pub job_totals : Floats → Held → Metrics
job_totals f h = record {
  agents = merge_agent_metrics f h.this_op h.job.agent_metrics;
  run = h.job.workflow_metrics;
}

abbrev with_failures : Option ℕ → Held → Held
with_failures none h = h
with_failures (some n) h = record h {
  job = record (h.job) {
    workflow_metrics =
        merge_workflow_metrics (record { failures = int_of_32 n; approval_rejections = none })
          h.job.workflow_metrics;
  };
}

-- The metrics that completeOperation takes from the result before it writes.
unfoldable pub counted : OperationResult → Held → Held
counted r h = with_failures r.workflow_metrics (record_snapshot r h)

-- `outcome, reason` of a clean completion.
unfoldable pub outcome_of : OperationResult → RunOutcome × ℕ
outcome_of r = elim r.failure_type [
  | OperationFailureType.unspecified ↦ (RunOutcome.successful, 0)
  | OperationFailureType.customer_marked ↦ (RunOutcome.customer_marked, r.failure_reason)
  | OperationFailureType.uncaught_exception ↦ (RunOutcome.uncaught_exception, r.failure_reason)
]

-- buildBranch and buildInputBranch.
unfoldable pub build_branch : Option Following → Option ℕ → Branch
build_branch none result = record { next = none; result = result }
build_branch (some n) result = record {
  next = some (record {
    operation_name = n.name;
    context = n.context;
    timeout_seconds = n.timeout_seconds;
  });
  result = none;
}

abbrev pub branches_of : GateMessage → Branches
branches_of g = record {
  accept = build_branch g.on_accept g.on_accept_result;
  refuse = build_branch g.on_refuse g.on_refuse_result;
}

abbrev pub opening_of : JobMetadata → GateMessage → Opening
opening_of branches g = record {
  gate_id = g.gate_id;
  timeout_seconds = g.timeout_seconds;
  detail = g.detail;
  gate_metadata = g.metadata;
  branches = branches;
}
