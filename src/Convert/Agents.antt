-- ===== src/Convert/Agents.antt =====
-- internal/convert/agent_policy.go: the policy action that a worker reports, as it is audited and as
-- the audit is read. An absent message is `none`; counts of messages are int32 patterns.
use boundflow.Base.{ℕ, ◌%◌, ◌^◌, Option, none, some, List, [], map, int_of_32}
use boundflow.Domain.Policy.{Float64}
use boundflow.Domain.Agents.{
  AgentMetric, AgentOp, AgentActionField, ToolCallLimit, AgentRuntimePolicy, AgentRuleAction,
  AgentRule, FiredAgentRule, AgentPolicyActionDetails,
}

-- The enumerations of the messages; `other` is a number that this version does not know.
pub data WireMetric : Type 0 where
  unspecified tokens_used cost_usd llm_calls calls_per_tool : WireMetric
  other : ℕ → WireMetric

pub data WireOp : Type 0 where
  unspecified lt lte gt gte eq : WireOp
  other : ℕ → WireOp

pub data WireField : Type 0 where
  unspecified set_model set_max_llm_calls set_max_cost_usd set_max_tokens_per_call : WireField
  other : ℕ → WireField

pub record WireLimit : Type 0 where
  pub tool : ℕ
  pub max_calls : ℕ

pub record WirePolicy : Type 0 where
  pub model : ℕ
  pub max_llm_calls : ℕ
  pub max_cost_usd : Float64
  pub max_tokens_per_call : ℕ
  pub max_call_seconds : Float64
  pub tool_call_limits : List WireLimit

pub record WireRuleAction : Type 0 where
  pub field : WireField
  pub model : ℕ
  pub max_llm_calls : ℕ
  pub max_cost_usd : Float64
  pub max_tokens_per_call : ℕ

pub record WireRule : Type 0 where
  pub metric : WireMetric
  pub op : WireOp
  pub threshold : Float64
  pub window : ℕ
  pub tool : ℕ
  pub action : Option WireRuleAction

pub record WireFired : Type 0 where
  pub rule : Option WireRule
  pub trigger_value : Float64

pub record WirePolicyAction : Type 0 where
  pub base_policy : Option WirePolicy
  pub effective_policy : Option WirePolicy
  pub fired_rules : List WireFired

unfoldable pub agent_metric_from_proto : WireMetric → AgentMetric
agent_metric_from_proto WireMetric.tokens_used = AgentMetric.tokens_used
agent_metric_from_proto WireMetric.cost_usd = AgentMetric.cost_usd
agent_metric_from_proto WireMetric.llm_calls = AgentMetric.llm_calls
agent_metric_from_proto WireMetric.calls_per_tool = AgentMetric.calls_per_tool
agent_metric_from_proto m = AgentMetric.unknown

unfoldable pub agent_metric_to_proto : AgentMetric → WireMetric
agent_metric_to_proto AgentMetric.tokens_used = WireMetric.tokens_used
agent_metric_to_proto AgentMetric.cost_usd = WireMetric.cost_usd
agent_metric_to_proto AgentMetric.llm_calls = WireMetric.llm_calls
agent_metric_to_proto AgentMetric.calls_per_tool = WireMetric.calls_per_tool
agent_metric_to_proto AgentMetric.unknown = WireMetric.unspecified

unfoldable pub agent_op_from_proto : WireOp → AgentOp
agent_op_from_proto WireOp.lt = AgentOp.less_than
agent_op_from_proto WireOp.lte = AgentOp.less_than_or_equal
agent_op_from_proto WireOp.gt = AgentOp.greater_than
agent_op_from_proto WireOp.gte = AgentOp.greater_than_or_equal
agent_op_from_proto WireOp.eq = AgentOp.equal
agent_op_from_proto o = AgentOp.unknown

unfoldable pub agent_op_to_proto : AgentOp → WireOp
agent_op_to_proto AgentOp.less_than = WireOp.lt
agent_op_to_proto AgentOp.less_than_or_equal = WireOp.lte
agent_op_to_proto AgentOp.greater_than = WireOp.gt
agent_op_to_proto AgentOp.greater_than_or_equal = WireOp.gte
agent_op_to_proto AgentOp.equal = WireOp.eq
agent_op_to_proto AgentOp.unknown = WireOp.unspecified

-- `int32(x)`.
abbrev pub to_32 : ℕ → ℕ
to_32 n = n % 2 ^ 32

abbrev pub limit_from : WireLimit → ToolCallLimit
limit_from l = record { tool = l.tool; max_calls = int_of_32 l.max_calls }

abbrev pub limit_to : ToolCallLimit → WireLimit
limit_to l = record { tool = l.tool; max_calls = to_32 l.max_calls }

unfoldable pub agent_runtime_policy_from_proto : Option WirePolicy → AgentRuntimePolicy
agent_runtime_policy_from_proto none = record {
  model = 0;
  max_llm_calls = 0;
  max_cost_usd = 0;
  max_tokens_per_call = 0;
  max_call_seconds = 0;
  tool_call_limits = [];
}
agent_runtime_policy_from_proto (some p) = record {
  model = p.model;
  max_llm_calls = int_of_32 p.max_llm_calls;
  max_cost_usd = p.max_cost_usd;
  max_tokens_per_call = int_of_32 p.max_tokens_per_call;
  max_call_seconds = p.max_call_seconds;
  tool_call_limits = map limit_from p.tool_call_limits;
}

unfoldable pub agent_runtime_policy_to_proto : AgentRuntimePolicy → WirePolicy
agent_runtime_policy_to_proto p = record {
  model = p.model;
  max_llm_calls = to_32 p.max_llm_calls;
  max_cost_usd = p.max_cost_usd;
  max_tokens_per_call = to_32 p.max_tokens_per_call;
  max_call_seconds = p.max_call_seconds;
  tool_call_limits = map limit_to p.tool_call_limits;
}

-- The zero value of domain.AgentRuleAction.
abbrev no_change : AgentRuleAction
no_change = record {
  field = AgentActionField.unset;
  model = 0;
  max_llm_calls = 0;
  max_cost_usd = 0;
  max_tokens_per_call = 0;
}

-- `switch a.Field` of a message.
unfoldable pub rule_action_by : WireField → WireRuleAction → AgentRuleAction
rule_action_by WireField.set_model a = record no_change {
  field = AgentActionField.model;
  model = a.model;
}
rule_action_by WireField.set_max_llm_calls a = record no_change {
  field = AgentActionField.max_llm_calls;
  max_llm_calls = int_of_32 a.max_llm_calls;
}
rule_action_by WireField.set_max_cost_usd a = record no_change {
  field = AgentActionField.max_cost_usd;
  max_cost_usd = a.max_cost_usd;
}
rule_action_by WireField.set_max_tokens_per_call a = record no_change {
  field = AgentActionField.max_tokens_per_call;
  max_tokens_per_call = int_of_32 a.max_tokens_per_call;
}
rule_action_by f a = no_change

unfoldable pub agent_rule_action_from_proto : Option WireRuleAction → AgentRuleAction
agent_rule_action_from_proto none = no_change
agent_rule_action_from_proto (some a) = rule_action_by a.field a

-- The message with nothing set.
abbrev no_action : WireRuleAction
no_action = record {
  field = WireField.unspecified;
  model = 0;
  max_llm_calls = 0;
  max_cost_usd = 0;
  max_tokens_per_call = 0;
}

-- `switch a.Field` of an action.
unfoldable pub action_message : AgentActionField → AgentRuleAction → WireRuleAction
action_message AgentActionField.unset a = no_action
action_message AgentActionField.model a = record no_action {
  field = WireField.set_model;
  model = a.model;
}
action_message AgentActionField.max_llm_calls a = record no_action {
  field = WireField.set_max_llm_calls;
  max_llm_calls = to_32 a.max_llm_calls;
}
action_message AgentActionField.max_cost_usd a = record no_action {
  field = WireField.set_max_cost_usd;
  max_cost_usd = a.max_cost_usd;
}
action_message AgentActionField.max_tokens_per_call a = record no_action {
  field = WireField.set_max_tokens_per_call;
  max_tokens_per_call = to_32 a.max_tokens_per_call;
}

unfoldable pub agent_rule_action_to_proto : AgentRuleAction → WireRuleAction
agent_rule_action_to_proto a = action_message a.field a

unfoldable pub agent_rule_from_proto : Option WireRule → AgentRule
agent_rule_from_proto none = record {
  metric = AgentMetric.unknown;
  op = AgentOp.unknown;
  threshold = 0;
  window = 0;
  tool = 0;
  action = no_change;
}
agent_rule_from_proto (some r) = record {
  metric = agent_metric_from_proto r.metric;
  op = agent_op_from_proto r.op;
  threshold = r.threshold;
  window = int_of_32 r.window;
  tool = r.tool;
  action = agent_rule_action_from_proto r.action;
}

unfoldable pub agent_rule_to_proto : AgentRule → WireRule
agent_rule_to_proto r = record {
  metric = agent_metric_to_proto r.metric;
  op = agent_op_to_proto r.op;
  threshold = r.threshold;
  window = to_32 r.window;
  tool = r.tool;
  action = some (agent_rule_action_to_proto r.action);
}

abbrev pub fired_from : WireFired → FiredAgentRule
fired_from f = record { rule = agent_rule_from_proto f.rule; trigger_value = f.trigger_value }

abbrev pub fired_to : FiredAgentRule → WireFired
fired_to f = record { rule = some (agent_rule_to_proto f.rule); trigger_value = f.trigger_value }

-- AgentPolicyActionFromProto.
unfoldable pub agent_policy_action_from_proto : ℕ → WirePolicyAction → AgentPolicyActionDetails
agent_policy_action_from_proto agent pa = record {
  agent = agent;
  base_policy = agent_runtime_policy_from_proto pa.base_policy;
  effective_policy = agent_runtime_policy_from_proto pa.effective_policy;
  fired_rules = map fired_from pa.fired_rules;
}

-- AgentPolicyActionToProto.
unfoldable pub agent_policy_action_to_proto : AgentPolicyActionDetails → WirePolicyAction
agent_policy_action_to_proto d = record {
  base_policy = some (agent_runtime_policy_to_proto d.base_policy);
  effective_policy = some (agent_runtime_policy_to_proto d.effective_policy);
  fired_rules = map fired_to d.fired_rules;
}
