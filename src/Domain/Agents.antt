-- ===== src/Domain/Agents.antt =====
-- internal/domain/agent_policy.go: an agent's runtime policy, its rules, and what is audited when the
-- rules change the policy. The scope of such an audit is always "agent" and is left out.
use mathlib.Core.List.{List}
use Prim.Native.Nat.{ℕ}
use boundflow.Domain.Policy.{Float64}

-- The empty string, which stands for an unknown value, is `unknown`.
pub data AgentMetric : Type 0 where
  unknown tokens_used cost_usd llm_calls calls_per_tool : AgentMetric

pub data AgentOp : Type 0 where
  unknown less_than less_than_or_equal greater_than greater_than_or_equal equal : AgentOp

pub record ToolCallLimit : Type 0 where
  pub tool : ℕ
  pub max_calls : ℕ

pub record AgentRuntimePolicy : Type 0 where
  pub model : ℕ
  pub max_llm_calls : ℕ
  pub max_cost_usd : Float64
  pub max_tokens_per_call : ℕ
  pub max_call_seconds : Float64
  pub tool_call_limits : List ToolCallLimit

-- `Field`; the empty string is `unset`.
pub data AgentActionField : Type 0 where
  unset model max_llm_calls max_cost_usd max_tokens_per_call : AgentActionField

pub record AgentRuleAction : Type 0 where
  pub field : AgentActionField
  pub model : ℕ
  pub max_llm_calls : ℕ
  pub max_cost_usd : Float64
  pub max_tokens_per_call : ℕ

pub record AgentRule : Type 0 where
  pub metric : AgentMetric
  pub op : AgentOp
  pub threshold : Float64
  pub window : ℕ
  pub tool : ℕ
  pub action : AgentRuleAction

pub record FiredAgentRule : Type 0 where
  pub rule : AgentRule
  pub trigger_value : Float64

pub record AgentPolicyActionDetails : Type 0 where
  pub agent : ℕ
  pub base_policy : AgentRuntimePolicy
  pub effective_policy : AgentRuntimePolicy
  pub fired_rules : List FiredAgentRule
