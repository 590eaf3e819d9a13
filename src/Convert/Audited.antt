-- ===== src/Convert/Audited.antt =====
-- internal/convert/agent_policy.go: an audited policy action goes out and comes in as it was audited.
use boundflow.Base.{
  ℕ, ◌<◌, ◌^◌, ◌≡◌, refl, Option, none, some, List, [], ◌∷◌, map, All, arith, int_of_32,
  int_of_32-mod, int_of_32-Fits,
}
use boundflow.Convert.Agents.{
  WireMetric, WireOp, WireField, WireLimit, WirePolicy, WireRuleAction, WireRule, WireFired,
  WirePolicyAction, to_32, action_message, limit_from, limit_to, fired_from, fired_to,
  agent_metric_from_proto, agent_metric_to_proto, agent_op_from_proto, agent_op_to_proto,
  agent_runtime_policy_from_proto, agent_runtime_policy_to_proto, rule_action_by,
  agent_rule_action_from_proto, agent_rule_action_to_proto, agent_rule_from_proto,
  agent_rule_to_proto, agent_policy_action_from_proto, agent_policy_action_to_proto,
}

-- The counts of a message are int32 patterns.
unfoldable pub IsLimit : WireLimit → Type 0
IsLimit l = l.max_calls < 2 ^ 32

unfoldable pub IsPolicy : Option WirePolicy → Type 0
IsPolicy none = Unit {0}
IsPolicy (some p) =
    (p.max_llm_calls < 2 ^ 32) × (p.max_tokens_per_call < 2 ^ 32) × All IsLimit p.tool_call_limits

unfoldable pub IsAction : Option WireRuleAction → Type 0
IsAction none = Unit {0}
IsAction (some a) = (a.max_llm_calls < 2 ^ 32) × (a.max_tokens_per_call < 2 ^ 32)

unfoldable pub IsRule : Option WireRule → Type 0
IsRule none = Unit {0}
IsRule (some r) = (r.window < 2 ^ 32) × IsAction r.action

pub record IsWire (pa : WirePolicyAction) : Type 0 where
  pub base : IsPolicy pa.base_policy
  pub effective : IsPolicy pa.effective_policy
  pub fired : All (λ f. IsRule f.rule) pa.fired_rules

-- An int that was read off an int32 fits into one.
back_32 : (n : ℕ) → n < 2 ^ 32 → int_of_32 (to_32 (int_of_32 n)) ≡ int_of_32 n
back_32 n lt = int_of_32-mod (int_of_32 n) (int_of_32-Fits n lt)

limits-back :
    (ls : List WireLimit)
    → All IsLimit ls
    → map limit_from (map limit_to (map limit_from ls)) ≡ map limit_from ls
unfolding IsLimit
limits-back [] all = refl
limits-back (l ∷ rest) all = rw (back_32 l.max_calls all.0) (rw (limits-back rest all.1) refl)

policy-back :
    (p : Option WirePolicy)
    → IsPolicy p
    → agent_runtime_policy_from_proto
        (some (agent_runtime_policy_to_proto (agent_runtime_policy_from_proto p)))
      ≡ agent_runtime_policy_from_proto p
unfolding agent_runtime_policy_from_proto agent_runtime_policy_to_proto IsPolicy
policy-back none fits = refl
policy-back (some p) fits =
    rw (back_32 p.max_llm_calls fits.0)
      (rw (back_32 p.max_tokens_per_call fits.1) (rw (limits-back p.tool_call_limits fits.2) refl))

metric-back :
    (m : WireMetric)
    → agent_metric_from_proto (agent_metric_to_proto (agent_metric_from_proto m))
      ≡ agent_metric_from_proto m
unfolding agent_metric_from_proto agent_metric_to_proto
metric-back m = ground arith

op-back :
    (o : WireOp)
    → agent_op_from_proto (agent_op_to_proto (agent_op_from_proto o)) ≡ agent_op_from_proto o
unfolding agent_op_from_proto agent_op_to_proto
op-back o = ground arith

field-back :
    (f : WireField) (a : WireRuleAction)
    → a.max_llm_calls < 2 ^ 32
    → a.max_tokens_per_call < 2 ^ 32
    → agent_rule_action_from_proto (some (agent_rule_action_to_proto (rule_action_by f a)))
      ≡ rule_action_by f a
unfolding agent_rule_action_from_proto agent_rule_action_to_proto action_message rule_action_by
field-back WireField.set_max_llm_calls a calls tokens = rw (back_32 a.max_llm_calls calls) refl
field-back WireField.set_max_tokens_per_call a calls tokens =
    rw (back_32 a.max_tokens_per_call tokens) refl
field-back f a calls tokens = refl

action-back :
    (a : Option WireRuleAction)
    → IsAction a
    → agent_rule_action_from_proto
        (some (agent_rule_action_to_proto (agent_rule_action_from_proto a)))
      ≡ agent_rule_action_from_proto a
unfolding agent_rule_action_from_proto agent_rule_action_to_proto action_message rule_action_by
    IsAction
action-back none fits = refl
action-back (some a) fits = field-back a.field a fits.0 fits.1

-- A fired rule that names no rule.
no_rule-back :
    agent_rule_from_proto (some (agent_rule_to_proto (agent_rule_from_proto none)))
    ≡ agent_rule_from_proto none
unfolding agent_rule_from_proto agent_rule_to_proto agent_metric_from_proto agent_metric_to_proto
    agent_op_from_proto agent_op_to_proto agent_rule_action_from_proto agent_rule_action_to_proto
    action_message rule_action_by
no_rule-back = refl

rule-back :
    (r : Option WireRule)
    → IsRule r
    → agent_rule_from_proto (some (agent_rule_to_proto (agent_rule_from_proto r)))
      ≡ agent_rule_from_proto r
unfolding agent_rule_from_proto agent_rule_to_proto IsRule
rule-back none fits = no_rule-back
rule-back (some r) fits =
    rw (metric-back r.metric)
      (rw (op-back r.op) (rw (back_32 r.window fits.0) (rw (action-back r.action fits.1) refl)))

fired-back :
    (fs : List WireFired)
    → All (λ f. IsRule f.rule) fs
    → map fired_from (map fired_to (map fired_from fs)) ≡ map fired_from fs
fired-back [] all = refl
fired-back (f ∷ rest) all = rw (rule-back f.rule all.0) (rw (fired-back rest all.1) refl)

-- The policy action of an agent, as it was audited from any message whose counts are int32, with known
-- and unknown metrics, operators and fields and with parts left out: writing it to a message and reading
-- that message gives the audited details again.
pub policy_action_from-to :
    (agent : ℕ) (pa : WirePolicyAction)
    → IsWire pa
    → agent_policy_action_from_proto agent
        (agent_policy_action_to_proto (agent_policy_action_from_proto agent pa))
      ≡ agent_policy_action_from_proto agent pa
unfolding agent_policy_action_from_proto agent_policy_action_to_proto
policy_action_from-to agent pa w =
    rw (policy-back pa.base_policy w.base) (
      rw (policy-back pa.effective_policy w.effective)
        (rw (fired-back pa.fired_rules w.fired) refl))
