-- ===== src/Samples.antt =====
-- One workflow with a job and three requests, and the rows that the tests vary: the state after
-- the second of its runs has ended.
use boundflow.Base.{ℕ, true, false, Option, none, some, List, [], ◌∷◌, ◌+◌, leb}
use boundflow.Domain.Status.{
  LifecycleState, WorkflowState, InvokeMode, JobStatus, RequestStatus, RequestType, RunOutcome,
}
use boundflow.Domain.Policy.{Floats, Metric, ActionType, Rule, Snapshot, VersionMetrics}
use boundflow.Domain.Metrics.{AgentMetrics, RunMetrics}
use boundflow.Domain.Rows.{Workflow, WorkflowConfig, Gate, Job, Request, no_metadata}
use boundflow.Store.{Store}
use boundflow.Store.Lifecycle.{no_suspension}
use boundflow.Store.Scheduling.{Plan}
use boundflow.Scheduler.{Assembly, Completion, Failure, Faults, ScheduleFaults}

-- Floats that count: the numbers of the tests are whole.
abbrev pub floats : Floats
floats = record { zero_float = 0; add = λ a b. a + b; ge = λ a b. leb b a; of_int = λ n. n }

abbrev pub no_gate : Gate
no_gate = record { id = none; detail = 0; metadata = none; opened_at = none; timeout_at = none }

abbrev pub config : WorkflowConfig
config = record {
  invoke_timeout_seconds = 60;
  repeat_every_seconds = 0;
  triggerable = true;
  invoke_mode = InvokeMode.coalesce;
  max_queue_depth = 10;
  resumable = true;
}

abbrev pub pause_on_failures : Rule
pause_on_failures = record {
  metric = Metric.num_failures;
  threshold = 2;
  window = 5;
  tool_name = 0;
  action = record { type = ActionType.pause; cooldown_seconds = 0; target_version = 0 };
}

-- Two failures in one run.
abbrev pub failed_run : Snapshot
failed_run = record {
  cost_usd = none;
  llm_calls = none;
  latency_seconds = none;
  failures = some 2;
  approval_rejections = none;
  tool_failure_counts = [];
  ran_at = 50;
  request_id = 11;
}

abbrev pub workflow : Workflow
workflow = record {
  workflow_type = 7;
  tenant_group_id = 5;
  config = config;
  lifecycle_state = LifecycleState.invoking;
  last_completed_request_at = some 50;
  last_interrupted_request_id = 0;
  last_gate = no_gate;
  workflow_state = WorkflowState.active;
  lifecycle_policy = record { rules = pause_on_failures ∷ [] };
  invocation_metrics = failed_run ∷ [];
  cooldown_until = none;
  last_policy_decision_request_id = 0;
  lifecycle_last_resolved = 1;
  current_workflow_version = 1;
  scheduler_partition_id = 0;
  target_version = 3;
  current_version = 1;
  metrics_emitted_at = 1;
  created_at = 10;
  deletion_requested_at = none;
  deletion_finalized_at = none;
  suspension = no_suspension;
}

abbrev pub agent_run : AgentMetrics
agent_run = record {
  cost_usd = some 3;
  llm_calls = some 4;
  tokens_used = none;
  latency_seconds = none;
  failures = none;
  approval_rejections = some 1;
  tool_failure_counts = (8, 2) ∷ [];
  calls_per_tool = [];
  ran_at = 90;
}

abbrev pub run_metrics : RunMetrics
run_metrics = record { failures = 1; approval_rejections = none }

-- The job of the second request, in any status.
abbrev pub job_in : JobStatus → Job
job_in status = record {
  request_id = 12;
  version = 2;
  current_atomic_operation = 30;
  context = 31;
  status = status;
  job_type = RequestType.invoke;
  workflow_type = 7;
  tenant_group_id = 5;
  timeout_seconds = 60;
  workflow_version = 1;
  agent_metrics = (40, agent_run) ∷ [];
  workflow_metrics = run_metrics;
  result_type = none;
  failure_reason = 0;
  result = none;
  attempts = 1;
  owner = some 21;
  lease_expires_at = some 100;
  dispatch_at = none;
  abandon_requested_at = none;
  created_at = 60;
  job_metadata = no_metadata;
  approval = record no_gate { id = some 70; opened_at = some 80; timeout_at = some 95 };
  approval_reason = 0;
  input = record no_gate { id = some 71; opened_at = some 80; timeout_at = some 95 };
  input_answer = none;
}

abbrev pub request_in : ℕ → ℕ → RequestStatus → Request
request_in id version status = record {
  id = id;
  status = status;
  request_type = RequestType.invoke;
  request_info = 0;
  version = version;
  run_outcome = none;
  failure_reason = 0;
  result = none;
  created_at = 60;
  completed_at = none;
}

abbrev pub requests : List Request
requests =
    request_in 11 1 RequestStatus.completed
    ∷ request_in 12 2 RequestStatus.in_progress
    ∷ request_in 13 3 RequestStatus.unscheduled
    ∷ []

abbrev pub totals : VersionMetrics
totals = record {
  version = 1;
  epoch = 1;
  total_cost = 2;
  run_count = 1;
  total_failures = 2;
  total_llm_calls = 3;
  total_latency_seconds = 0;
  total_approval_rejections = 0;
  tool_failure_counts = [];
}

abbrev pub store_with : Option Job → Store
store_with job = record {
  workflow = workflow;
  job = job;
  requests = requests;
  version_metrics = totals ∷ [];
  agents = [];
  audit = [];
  tenant_workflow_count = 1;
}

abbrev pub store_in : JobStatus → Store
store_in status = store_with (some (job_in status))

abbrev pub no_schedule_faults : ScheduleFaults
no_schedule_faults = record {
  get_request = false;
  get_workflow = false;
  agents = false;
  encode = false;
  no_timeout = false;
  upsert = false;
  supercede = false;
  mark = false;
}

abbrev pub no_faults : Faults
no_faults = record {
  get_workflow = false;
  reread = false;
  requeue = false;
  claim = false;
  apply = false;
  job_metrics = false;
  handle_metrics = false;
  resolve = false;
  audit = false;
  delete = false;
  close_request = false;
}

abbrev pub completion : Completion
completion = record {
  request_id = 12;
  version = 2;
  request_type = RequestType.invoke;
  outcome = RunOutcome.successful;
  reason = 0;
  result = some 99;
}

abbrev pub failure : Failure
failure = record { request_id = 12; version = 2; reason = 0; attempts = 1 }

abbrev pub assembly : Assembly
assembly = record { context = 32; operation = 33; timeout_seconds = 60 }

abbrev pub plan : Plan
plan = record {
  context = 32;
  operation = 33;
  timeout_seconds = 60;
  workflow_version = 1;
  expected_current_version = 1;
  invoke_mode = InvokeMode.coalesce;
}
