-- ===== src/Convert/Rules.antt =====
-- The two directions of the rule conversion against one another.
use boundflow.Base.{
  ℕ, ◌^◌, ◌%◌, ◌<◌, ◌≡◌, ◌≢◌, refl, Option, none, some, arith, List, [], ◌∷◌, All, map, Fits,
  int_of_32-mod, int_of_32-Fits,
}
use boundflow.Domain.Policy.{Metric, ActionType, Action, Rule}
use boundflow.Convert.{
  ProtoAction, ProtoRule, metric_from_proto, metric_to_proto, action_from_proto, action_to_proto,
  rule_from_proto, rule_to_proto, policy_from_proto, policy_to_proto, check_rule, check_rules,
}

abbrev pub IsNamed : Metric → Type 0
IsNamed (Metric.other m) = ⊥
IsNamed _ = Unit {0}

abbrev pub IsPlain : ActionType → ℕ → ℕ → Type 0
IsPlain ActionType.pause seconds version = (seconds ≡ 0) × (version ≡ 0)
IsPlain ActionType.cooldown seconds version = Fits seconds × (version ≡ 0)
IsPlain ActionType.set_version seconds version = (seconds ≡ 0) × Fits version
IsPlain (ActionType.other s) seconds version = ⊥

-- What the setter can store: a metric of the source, numbers that an int32 holds, and only the
-- fields that belong to the action.
pub record IsStorable (r : Rule) : Type 0 where
  pub named : IsNamed r.metric
  pub window_fits : Fits r.window
  pub plain : IsPlain r.action.type r.action.cooldown_seconds r.action.target_version

metric_from-to : (m : Metric) → IsNamed m → metric_from_proto (metric_to_proto m) ≡ m
unfolding metric_from_proto metric_to_proto
metric_from-to Metric.num_failures h = refl
metric_from-to Metric.cost h = refl
metric_from-to Metric.num_llm_calls h = refl
metric_from-to Metric.latency h = refl
metric_from-to Metric.approval_rejections h = refl
metric_from-to Metric.tool_failure_rate h = refl
metric_from-to (Metric.other m) h = absurd h

-- The action that WorkflowRuleToProto writes.
abbrev wire_action : Action → ProtoAction
wire_action a = record {
  type = action_to_proto a.type;
  cooldown_seconds = a.cooldown_seconds % 2 ^ 32;
  target_version = a.target_version % 2 ^ 32;
}

action_from-to :
    (t : ActionType) (a : Action)
    → a.type ≡ t
    → IsPlain t a.cooldown_seconds a.target_version
    → action_from_proto (some (wire_action a)) ≡ a
unfolding action_from_proto action_to_proto
action_from-to ActionType.pause a e h = ground arith
action_from-to ActionType.cooldown a e h = ground (arith, int_of_32-mod a.cooldown_seconds h.0)
action_from-to ActionType.set_version a e h = ground (arith, int_of_32-mod a.target_version h.1)
action_from-to (ActionType.other s) a e h = absurd h

rule_from-to : (r : Rule) → IsStorable r → rule_from_proto (rule_to_proto r) ≡ r
unfolding rule_from_proto rule_to_proto
rule_from-to r h = λ i. record {
  metric = metric_from-to r.metric h.named i;
  threshold = r.threshold;
  window = int_of_32-mod r.window h.window_fits i;
  tool_name = r.tool_name;
  action = action_from-to r.action.type r.action refl h.plain i;
}

-- The numbers of a received rule are int32 patterns.
abbrev pub IsWireAction : Option ProtoAction → Type 0
IsWireAction none = Unit {0}
IsWireAction (some a) = (a.cooldown_seconds < 2 ^ 32) × (a.target_version < 2 ^ 32)

abbrev pub IsWire : ProtoRule → Type 0
IsWire r = (r.window < 2 ^ 32) × IsWireAction r.action

metric-IsNamed : (n : ℕ) → IsNamed (metric_from_proto n)
unfolding metric_from_proto
metric-IsNamed n = ground arith

action-IsPlain :
    (a : ProtoAction)
    → (a.cooldown_seconds < 2 ^ 32) × (a.target_version < 2 ^ 32)
    → let b = action_from_proto (some a) in IsPlain b.type b.cooldown_seconds b.target_version
unfolding action_from_proto
action-IsPlain a h =
    ground (arith, int_of_32-Fits a.cooldown_seconds h.0, int_of_32-Fits a.target_version h.1)

given_action :
    (o : Option ProtoAction)
    → IsWireAction o
    → o ≢ none
    → let b = action_from_proto o in IsPlain b.type b.cooldown_seconds b.target_version
given_action none h present = absurd (present refl)
given_action (some a) h present = action-IsPlain a h

pub rule-IsStorable :
    (r : ProtoRule) → IsWire r → check_rule r ≡ none → IsStorable (rule_from_proto r)
unfolding rule_from_proto check_rule
rule-IsStorable r wire h = record {
  named = metric-IsNamed r.metric;
  window_fits = int_of_32-Fits r.window wire.0;
  plain = given_action r.action wire.1 (λ e. cc (rw e at h));
}

pub accepted_head :
    (r : ProtoRule) (rs : List ProtoRule)
    → check_rules (r ∷ rs) ≡ none
    → (check_rule r ≡ none) × (check_rules rs ≡ none)
unfolding check_rules
accepted_head r rs h = ground arith

-- The rules that the setter's checks let through.
pub accepted-IsStorable :
    (rs : List ProtoRule)
    → All IsWire rs
    → check_rules rs ≡ none
    → All IsStorable (map rule_from_proto rs)
accepted-IsStorable [] wire h = tt
accepted-IsStorable (r ∷ rs) wire h =
    let (first, rest) = accepted_head r rs h in
    (rule-IsStorable r wire.0 first, accepted-IsStorable rs wire.1 rest)

rules_from-to :
    (rs : List Rule) → All IsStorable rs → map rule_from_proto (map rule_to_proto rs) ≡ rs
rules_from-to [] h = refl
rules_from-to (r ∷ rs) h = λ i. rule_from-to r h.0 i ∷ rules_from-to rs h.1 i

-- A policy of int32 numbers that the setter's checks accept survives the trip back to the wire:
-- what the getter answers for it is read again as the very policy that was stored, rule by rule.
pub policy_from-to :
    (rules : List ProtoRule)
    → All IsWire rules
    → check_rules rules ≡ none
    → let stored = policy_from_proto (some rules) in
      policy_from_proto (some (policy_to_proto stored)) ≡ stored
unfolding policy_from_proto policy_to_proto
policy_from-to rules wire h =
    λ i. record { rules = rules_from-to _ (accepted-IsStorable rules wire h) i }
