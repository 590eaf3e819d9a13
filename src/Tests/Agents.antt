-- ===== src/Tests/Agents.antt =====
-- A policy action that a worker reported, with a limit, a fired rule and a field that is not known.
use boundflow.Base.{◌≡◌, none, some, [], ◌∷◌, arith}
use boundflow.Convert.Agents.{
  WireMetric, WireOp, WireField, WirePolicy, WireRuleAction, WireRule, WirePolicyAction,
  agent_policy_action_from_proto, agent_policy_action_to_proto,
}
use boundflow.Convert.Audited.{IsLimit, IsPolicy, IsAction, IsRule, IsWire, policy_action_from-to}

abbrev limited : WirePolicy
limited = record {
  model = 3;
  max_llm_calls = 20;
  max_cost_usd = 7;
  max_tokens_per_call = 4294967295;
  max_call_seconds = 0;
  tool_call_limits = record { tool = 5; max_calls = 2 } ∷ [];
}

abbrev lower_calls : WireRuleAction
lower_calls = record {
  field = WireField.set_max_llm_calls;
  model = 0;
  max_llm_calls = 4;
  max_cost_usd = 0;
  max_tokens_per_call = 0;
}

abbrev costly : WireRule
costly = record {
  metric = WireMetric.cost_usd;
  op = WireOp.other 9;
  threshold = 11;
  window = 6;
  tool = 0;
  action = some lower_calls;
}

abbrev reported : WirePolicyAction
reported = record {
  base_policy = some limited;
  effective_policy = none;
  fired_rules =
      record { rule = some costly; trigger_value = 12 }
      ∷ record { rule = none; trigger_value = 0 }
      ∷ [];
}

reported-IsWire : IsWire reported
unfolding IsLimit IsPolicy IsAction IsRule
reported-IsWire = record {
  base = (omega arith, omega arith, (omega arith, tt));
  effective = tt;
  fired = ((omega arith, (omega arith, omega arith)), (tt, tt));
}

policy_action_from-to_example :
    agent_policy_action_from_proto 8
      (agent_policy_action_to_proto (agent_policy_action_from_proto 8 reported))
    ≡ agent_policy_action_from_proto 8 reported
policy_action_from-to_example = policy_action_from-to 8 reported reported-IsWire
