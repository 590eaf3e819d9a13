-- ===== src/Store/Agents.antt =====
-- internal/storage/postgres/agent_state.go: the policies of the agents of a workflow. A column that an
-- insert leaves out takes its default, the empty document.
use boundflow.Base.{ℕ, Option, none, some, [], ◌==◌, not, keep, lookup, insert}
use boundflow.Domain.Metrics.{AgentState}
use boundflow.Store.{Store}

abbrev with_runtime : ℕ → ℕ → Option AgentState → AgentState
with_runtime agent policy none = record {
  agent_name = agent;
  runtime_policy = policy;
  lifecycle_policy = 0;
  invocation_metrics = [];
}
with_runtime agent policy (some a) = record a { runtime_policy = policy }

abbrev with_lifecycle : ℕ → ℕ → Option AgentState → AgentState
with_lifecycle agent policy none = record {
  agent_name = agent;
  runtime_policy = 0;
  lifecycle_policy = policy;
  invocation_metrics = [];
}
with_lifecycle agent policy (some a) = record a { lifecycle_policy = policy }

-- UpsertRuntimePolicy.
unfoldable pub upsert_runtime_policy : ℕ → ℕ → Store → Store
upsert_runtime_policy agent policy s = record s {
  agents = insert agent (with_runtime agent policy (lookup agent s.agents)) s.agents;
}

-- UpsertLifecyclePolicy.
unfoldable pub upsert_lifecycle_policy : ℕ → ℕ → Store → Store
upsert_lifecycle_policy agent policy s = record s {
  agents = insert agent (with_lifecycle agent policy (lookup agent s.agents)) s.agents;
}

-- Delete.
unfoldable pub delete_agent : ℕ → Store → Store
delete_agent agent s = record s { agents = keep (λ e. not (e.0 == agent)) s.agents }
