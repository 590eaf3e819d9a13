-- ===== src/Convert.antt =====
-- internal/convert/workflow.go: lifecycle rules between the wire and the domain, and the checks
-- that internal/server/handlers/lifecycle.go (SetWorkflowLifecyclePolicy) makes on them first.
-- The messages are those of the generated package, reduced to the fields that the code reads: an
-- enum is its number, an int32 its pattern. A repeated field of a received message has no nil.
pub mod Rules
pub mod Agents
pub mod Audited
pub mod Config
pub mod PolicySet
pub mod Tenants
pub mod Messages
pub mod Shown
use boundflow.Base.{
  ℕ, ◌^◌, ◌%◌, ◌+◌, Bool, true, false, ◌||◌, Option, none, some, List, [], ◌∷◌, map, ◌==◌, ltb, leb,
  if◌then◌else◌, int_of_32,
}
use boundflow.Domain.Status.{InvokeMode}
use boundflow.Domain.Policy.{
  Float64, Metric, ActionType, Action, Rule, Policy, max_lifecycle_window,
}

pub record ProtoAction : Type 0 where
  pub type : ℕ
  pub cooldown_seconds : ℕ
  pub target_version : ℕ

pub record ProtoRule : Type 0 where
  pub metric : ℕ
  pub threshold : Float64
  pub window : ℕ
  pub tool_name : ℕ
  pub action : Option ProtoAction

-- `switch r.Metric` of workflowRuleFromProto.
unfoldable pub metric_from_proto : ℕ → Metric
metric_from_proto n =
    if n == 1
    then Metric.cost
    else if n == 2
    then Metric.num_llm_calls
    else if n == 3
    then Metric.latency
    else if n == 4
    then Metric.approval_rejections
    else if n == 5
    then Metric.tool_failure_rate
    else Metric.num_failures

-- `switch r.Action.Type`; a message without an action gives the zero action.
unfoldable pub action_from_proto : Option ProtoAction → Action
action_from_proto none = record {
  type = ActionType.other 0;
  cooldown_seconds = 0;
  target_version = 0;
}
action_from_proto (some a) =
    if a.type == 1
    then record {
      type = ActionType.cooldown;
      cooldown_seconds = int_of_32 a.cooldown_seconds;
      target_version = 0;
    }
    else if a.type == 2
    then record {
      type = ActionType.set_version;
      cooldown_seconds = 0;
      target_version = int_of_32 a.target_version;
    }
    else record { type = ActionType.pause; cooldown_seconds = 0; target_version = 0 }

-- workflowRuleFromProto.
unfoldable pub rule_from_proto : ProtoRule → Rule
unfolding metric_from_proto action_from_proto
rule_from_proto r = record {
  metric = metric_from_proto r.metric;
  threshold = r.threshold;
  window = int_of_32 r.window;
  tool_name = r.tool_name;
  action = action_from_proto r.action;
}

-- WorkflowLifecyclePolicyFromProto; a missing policy has no rules.
unfoldable pub policy_from_proto : Option (List ProtoRule) → Policy
policy_from_proto none = record { rules = [] }
policy_from_proto (some rules) = record { rules = map rule_from_proto rules }

-- The two switches of WorkflowRuleToProto.
unfoldable pub metric_to_proto : Metric → ℕ
metric_to_proto Metric.cost = 1
metric_to_proto Metric.num_llm_calls = 2
metric_to_proto Metric.latency = 3
metric_to_proto Metric.approval_rejections = 4
metric_to_proto Metric.tool_failure_rate = 5
metric_to_proto _ = 0

unfoldable pub action_to_proto : ActionType → ℕ
action_to_proto ActionType.cooldown = 1
action_to_proto ActionType.set_version = 2
action_to_proto _ = 0

-- WorkflowRuleToProto: `int32(x)` keeps the low 32 bits.
unfoldable pub rule_to_proto : Rule → ProtoRule
unfolding metric_to_proto action_to_proto
rule_to_proto r = record {
  metric = metric_to_proto r.metric;
  threshold = r.threshold;
  window = r.window % 2 ^ 32;
  tool_name = r.tool_name;
  action = some (record {
    type = action_to_proto r.action.type;
    cooldown_seconds = r.action.cooldown_seconds % 2 ^ 32;
    target_version = r.action.target_version % 2 ^ 32;
  });
}

-- WorkflowLifecyclePolicyToProto.
unfoldable pub policy_to_proto : Policy → List ProtoRule
policy_to_proto p = map rule_to_proto p.rules

-- The InvalidArgument answers of SetWorkflowLifecyclePolicy about one rule.
pub data RuleError : Type 0 where
  action_required window_not_positive window_too_large : RuleError

check_window : ℕ → Option RuleError
check_window w =
    if w == 0 || leb (2 ^ 31) w
    then some RuleError.window_not_positive
    else if ltb max_lifecycle_window w
    then some RuleError.window_too_large
    else none

unfoldable pub check_rule : ProtoRule → Option RuleError
unfolding check_window
check_rule r = elim r.action [
  | none ↦ some RuleError.action_required
  | some a ↦ if a.type == 2 then none else check_window r.window
]

abbrev or_next {ℓ} : {A : Type ℓ} → Option A → Option A → Option A
or_next none next = next
or_next (some a) next = some a

-- The loop over the rules of the request: the first fault is the answer.
unfoldable pub check_rules : List ProtoRule → Option RuleError
check_rules [] = none
check_rules (r ∷ rs) = let next = check_rules rs in or_next (check_rule r) next

-- invokeModeFromProto and invokeModeToProto.
unfoldable pub invoke_mode_from_proto : ℕ → InvokeMode
invoke_mode_from_proto n = if n == 2 then InvokeMode.queue else InvokeMode.coalesce

unfoldable pub invoke_mode_to_proto : InvokeMode → ℕ
invoke_mode_to_proto InvokeMode.queue = 2
invoke_mode_to_proto _ = 1
