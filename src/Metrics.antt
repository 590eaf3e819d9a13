-- ===== src/Metrics.antt =====
-- internal/metrics/metricshandler.go: the sums over the operations of a job (MergeAgentMetrics) and
-- over the agents of a run (HandleAgentMetrics). A map holds no nil message, since neither the wire
-- nor the column yields one; a map is ranged over in the order of its list.
pub mod Merge
pub mod Emit
use boundflow.Base.{
  ℕ, ◌-◌, Bool, true, false, Option, none, some, List, [], ◌∷◌, ◌++◌, map, Map, lookup, insert,
  length, drop, ltb, if◌then◌else◌, add_32, add_64, int_of_32,
}
use boundflow.Domain.Policy.{Float64, Floats, Snapshot, VersionMetrics, max_lifecycle_window}
use boundflow.Domain.Metrics.{AgentMetrics, AgentSnapshot, AgentState, RunMetrics}
use boundflow.Domain.Rows.{Workflow}
use boundflow.Store.{Store}
use boundflow.Store.Lifecycle.{fresh_totals}
use boundflow.Store.Resolution.{Emission, current_version_metrics, emit_metrics}

-- accF64 and accInt: nil is not emitted, and the first value is taken as it is.
unfoldable pub acc_f64 : Floats → Option Float64 → Float64 → Option Float64
acc_f64 f none v = some v
acc_f64 f (some x) v = some (f.add x v)

unfoldable pub acc_int : Option ℕ → ℕ → Option ℕ
acc_int none v = some v
acc_int (some x) v = some (add_64 x v)

-- addF64 and addI32.
unfoldable pub add_f64 : Floats → Option Float64 → Option Float64 → Option Float64
add_f64 f dst none = dst
add_f64 f none (some v) = some v
add_f64 f (some x) (some v) = some (f.add x v)

unfoldable pub add_i32 : Option ℕ → Option ℕ → Option ℕ
add_i32 dst none = dst
add_i32 none (some v) = some v
add_i32 (some x) (some v) = some (add_32 x v)

-- `m[k]` of a map of numbers: 0 where the key is missing.
abbrev pub count_at : ℕ → Map ℕ → ℕ
count_at k m = elim (lookup k m) [ none ↦ 0 | some n ↦ n ]

-- `for tool, count := range src { dst[tool] += count }` at int32.
unfoldable pub merge_counts : Map ℕ → Map ℕ → Map ℕ
merge_counts [] dst = dst
merge_counts ((tool, n) ∷ rest) dst =
    merge_counts rest (insert tool (add_32 (count_at tool dst) n) dst)

-- The body of MergeAgentMetrics for an agent that the job knows.
unfoldable pub sum_metrics : Floats → AgentMetrics → AgentMetrics → AgentMetrics
sum_metrics f op job = record job {
  cost_usd = add_f64 f job.cost_usd op.cost_usd;
  llm_calls = add_i32 job.llm_calls op.llm_calls;
  tokens_used = add_i32 job.tokens_used op.tokens_used;
  latency_seconds = add_f64 f job.latency_seconds op.latency_seconds;
  failures = add_i32 job.failures op.failures;
  approval_rejections = add_i32 job.approval_rejections op.approval_rejections;
  tool_failure_counts = merge_counts op.tool_failure_counts job.tool_failure_counts;
  calls_per_tool = merge_counts op.calls_per_tool job.calls_per_tool;
}

abbrev merged_with : Floats → AgentMetrics → Option AgentMetrics → AgentMetrics
merged_with f op none = op
merged_with f op (some job) = sum_metrics f op job

-- MergeAgentMetrics.
unfoldable pub merge_agent_metrics : Floats → Map AgentMetrics → Map AgentMetrics → Map AgentMetrics
merge_agent_metrics f [] job = job
merge_agent_metrics f ((agent, op) ∷ rest) job =
    merge_agent_metrics f rest (insert agent (merged_with f op (lookup agent job)) job)

abbrev acc_opt : Option ℕ → Option ℕ → Option ℕ
acc_opt dst none = dst
acc_opt dst (some v) = acc_int dst v

-- MergeWorkflowMetrics.
unfoldable pub merge_workflow_metrics : RunMetrics → RunMetrics → RunMetrics
merge_workflow_metrics op job = record {
  failures = add_64 job.failures op.failures;
  approval_rejections = acc_opt job.approval_rejections op.approval_rejections;
}

abbrev int_opt : Option ℕ → Option ℕ
int_opt none = none
int_opt (some v) = some (int_of_32 v)

abbrev int_counts : Map ℕ → Map ℕ
int_counts = map (λ e. (e.0, int_of_32 e.1))

-- toAgentInvocationSnapshot.
unfoldable pub to_agent_snapshot : AgentMetrics → ℕ → AgentSnapshot
to_agent_snapshot m request_id = record {
  cost_usd = m.cost_usd;
  llm_calls = int_opt m.llm_calls;
  tokens_used = int_opt m.tokens_used;
  latency_seconds = m.latency_seconds;
  failures = int_opt m.failures;
  approval_rejections = int_opt m.approval_rejections;
  tool_failure_counts = int_counts m.tool_failure_counts;
  calls_per_tool = int_counts m.calls_per_tool;
  ran_at = m.ran_at;
  request_id = request_id;
}

-- `if n := len(xs); n > MaxLifecycleWindow { xs = xs[n-MaxLifecycleWindow:] }`.
unfoldable pub trim {ℓ} : {A : Type ℓ} → List A → List A
trim xs =
    if ltb max_lifecycle_window (length xs) then drop (length xs - max_lifecycle_window) xs else xs

abbrev pub with_run : ℕ → AgentSnapshot → Option AgentState → AgentState
with_run agent s none = record {
  agent_name = agent;
  runtime_policy = 0;
  lifecycle_policy = 0;
  invocation_metrics = s ∷ [];
}
with_run agent s (some a) = record a {
  invocation_metrics = trim (a.invocation_metrics ++ (s ∷ []));
}

-- The variables of HandleAgentMetrics's loop over the agents.
pub record Totals : Type 0 where
  pub version : VersionMetrics
  pub run : Snapshot
  pub agents : Map AgentState

-- One field of the run's snapshot and of the version's totals, for one agent.
abbrev total_f64 : Floats → Float64 → Option Float64 → Float64
total_f64 f t none = t
total_f64 f t (some v) = f.add t v

abbrev total_int : ℕ → Option ℕ → ℕ
total_int t none = t
total_int t (some v) = add_64 t (int_of_32 v)

abbrev seen_f64 : Floats → Option Float64 → Option Float64 → Option Float64
seen_f64 f dst none = dst
seen_f64 f dst (some v) = acc_f64 f dst v

abbrev seen_int : Option ℕ → Option ℕ → Option ℕ
seen_int dst none = dst
seen_int dst (some v) = acc_int dst (int_of_32 v)

-- `counts[tool] += int(failCount)` over the tools of one agent.
unfoldable pub count_failures : Map ℕ → Map ℕ → Map ℕ
count_failures [] dst = dst
count_failures ((tool, n) ∷ rest) dst =
    count_failures rest (insert tool (add_64 (count_at tool dst) (int_of_32 n)) dst)

-- The body of the loop.
unfoldable pub fold_agent : Floats → ℕ → ℕ → AgentMetrics → Totals → Totals
fold_agent f request_id agent m t = record {
  version = record (t.version) {
    total_cost = total_f64 f t.version.total_cost m.cost_usd;
    total_llm_calls = total_int t.version.total_llm_calls m.llm_calls;
    total_latency_seconds = total_f64 f t.version.total_latency_seconds m.latency_seconds;
    total_approval_rejections = total_int t.version.total_approval_rejections m.approval_rejections;
    tool_failure_counts = count_failures m.tool_failure_counts t.version.tool_failure_counts;
  };
  run = record (t.run) {
    cost_usd = seen_f64 f t.run.cost_usd m.cost_usd;
    llm_calls = seen_int t.run.llm_calls m.llm_calls;
    latency_seconds = seen_f64 f t.run.latency_seconds m.latency_seconds;
    approval_rejections = seen_int t.run.approval_rejections m.approval_rejections;
    tool_failure_counts = count_failures m.tool_failure_counts t.run.tool_failure_counts;
  };
  agents =
      insert agent (with_run agent (to_agent_snapshot m request_id) (lookup agent t.agents))
        t.agents;
}

-- `for agent, metrics := range invocationMetrics`.
unfoldable pub fold_agents : Floats → ℕ → Map AgentMetrics → Totals → Totals
fold_agents f request_id [] t = t
fold_agents f request_id ((agent, m) ∷ rest) t =
    fold_agents f request_id rest (fold_agent f request_id agent m t)

abbrev total_opt : ℕ → Option ℕ → ℕ
total_opt t none = t
total_opt t (some v) = add_64 t v

-- The fold of the workflow-level metrics after the loop.
unfoldable pub fold_run : RunMetrics → Totals → Totals
fold_run m t = record t {
  version = record (t.version) {
    total_failures = add_64 t.version.total_failures m.failures;
    total_approval_rejections = total_opt t.version.total_approval_rejections m.approval_rejections;
  };
  run = record (t.run) {
    failures = acc_int t.run.failures m.failures;
    approval_rejections = acc_opt t.run.approval_rejections m.approval_rejections;
  };
}

abbrev or_fresh : ℕ → Option VersionMetrics → VersionMetrics
or_fresh version none = fresh_totals version 1
or_fresh version (some m) = m

-- The row that GetCurrentVersionMetrics answers, or an empty one of epoch 1 where there is none.
abbrev pub stored_totals : Workflow → Store → VersionMetrics
stored_totals w s =
    or_fresh w.current_workflow_version
      (current_version_metrics w.current_workflow_version s.version_metrics)

abbrev pub empty_run : ℕ → ℕ → Snapshot
empty_run now request_id = record {
  cost_usd = none;
  llm_calls = none;
  latency_seconds = none;
  failures = none;
  approval_rejections = none;
  tool_failure_counts = [];
  ran_at = now;
  request_id = request_id;
}

-- What HandleAgentMetrics computes before it writes: the totals of the version as they are stored,
-- one run more, with the metrics of this run.
unfoldable pub run_totals :
    Floats → ℕ → ℕ → Map AgentMetrics → RunMetrics → Workflow → Store → Totals
run_totals f now request_id metrics run w s =
    let stored = stored_totals w s in
    fold_run run (
      fold_agents f request_id metrics (record {
        version = record stored { run_count = add_64 stored.run_count 1 };
        run = empty_run now request_id;
        agents = s.agents;
      }))

abbrev pub histories_of : Map AgentMetrics → Map AgentState → Map (List AgentSnapshot)
histories_of metrics states =
    map (λ e. (e.0, (elim (lookup e.0 states) [ none ↦ [] | some a ↦ a.invocation_metrics ])))
      metrics

-- What HandleAgentMetrics hands to EmitMetrics.
unfoldable pub emission_of :
    Floats → ℕ → ℕ → Map AgentMetrics → RunMetrics → Workflow → Store → Emission
emission_of f now request_id metrics run w s =
    let t = run_totals f now request_id metrics run w s in
    record {
      version = w.current_version;
      rolling = trim (w.invocation_metrics ++ (t.run ∷ []));
      totals = t.version;
      histories = histories_of metrics t.agents;
    }

-- What the caller of HandleAgentMetrics goes on with: the store, its copy of the workflow with the
-- run appended, and the totals. It has both also where the gate of EmitMetrics let nothing through.
pub record Handled : Type 0 where
  pub store : Store
  pub workflow : Workflow
  pub totals : VersionMetrics

-- HandleAgentMetrics, for the workflow `w` as the caller read it.
unfoldable pub handle_agent_metrics :
    Floats → ℕ → ℕ → Map AgentMetrics → RunMetrics → Workflow → Store → Handled
handle_agent_metrics f now request_id metrics run w s =
    let e = emission_of f now request_id metrics run w s in
    record {
      store = (emit_metrics e s).0;
      workflow = record w { invocation_metrics = e.rolling };
      totals = e.totals;
    }
