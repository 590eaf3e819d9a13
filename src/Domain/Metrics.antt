-- ===== src/Domain/Metrics.antt =====
-- The metrics of one run: what a worker reports for an agent (the fields of the generated message
-- AgentInvocationMetrics that the code reads), what is stored for it (internal/domain/agent_state.go)
-- and what a job sums for its workflow (WorkflowJobMetrics of internal/domain/job.go).
use mathlib.Core.Bool.{Bool}
use mathlib.Core.Option.{Option, none}
use mathlib.Core.List.{List}
use Prim.Native.Nat.{ℕ}
use boundflow.Base.{Map, ◌==◌, ◌&&◌, is_none}
use boundflow.Domain.Policy.{Float64}

-- The counts are int32 patterns.
pub record AgentMetrics : Type 0 where
  pub cost_usd : Option Float64
  pub llm_calls : Option ℕ
  pub tokens_used : Option ℕ
  pub latency_seconds : Option Float64
  pub failures : Option ℕ
  pub approval_rejections : Option ℕ
  pub tool_failure_counts : Map ℕ
  pub calls_per_tool : Map ℕ
  pub ran_at : ℕ

pub record AgentSnapshot : Type 0 where
  pub cost_usd : Option Float64
  pub llm_calls : Option ℕ
  pub tokens_used : Option ℕ
  pub latency_seconds : Option Float64
  pub failures : Option ℕ
  pub approval_rejections : Option ℕ
  pub tool_failure_counts : Map ℕ
  pub calls_per_tool : Map ℕ
  pub ran_at : ℕ
  pub request_id : ℕ

-- The policies are opaque documents to the server.
pub record AgentState : Type 0 where
  pub agent_name : ℕ
  pub runtime_policy : ℕ
  pub lifecycle_policy : ℕ
  pub invocation_metrics : List AgentSnapshot

-- WorkflowJobMetrics: `approval_rejections` is nil until a gate resolves.
pub record RunMetrics : Type 0 where
  pub failures : ℕ
  pub approval_rejections : Option ℕ

abbrev pub no_metrics : RunMetrics
no_metrics = record { failures = 0; approval_rejections = none }

-- IsZero.
unfoldable pub is_zero : RunMetrics → Bool
is_zero m = m.failures == 0 && is_none m.approval_rejections
