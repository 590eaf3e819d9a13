-- ===== src/Policy.antt =====
-- internal/lifecyclepolicy/engine.go: ResolvePolicy picks, among the rules that fire on a run's
-- metrics, the goal state of the most severe action. A nil dereference and a slice bound out of
-- range, where Go panics, are `none`; a rule that the loop passes over by `continue` is skipped.
pub mod Winner
pub mod Goals
pub mod Safety
use boundflow.Base.{
  ℕ, ◌-◌, ◌^◌, ◌<◌, Bool, true, false, Option, none, some, List, [], ◌∷◌, Map, lookup, length, drop,
  keep, is_some, leb, ltb, if◌then◌else◌,
}
use boundflow.Domain.Status.{WorkflowState}
use boundflow.Domain.Policy.{
  Float64, Floats, Metric, ActionType, Rule, Policy, Snapshot, VersionMetrics,
}

-- WorkflowGoalState: the zero `State` is the empty string, here `none`.
pub record GoalState : Type 0 where
  pub version : ℕ
  pub state : Option WorkflowState
  pub cooldown : ℕ
  pub version_change : Bool

abbrev pub no_goal : GoalState
no_goal = record { version = 0; state = none; cooldown = 0; version_change = false }

-- The results of ResolvePolicy; `priority` is winningActionPriority, with `none` for -1.
pub record Resolution : Type 0 where
  pub goal : GoalState
  pub rule : Option Rule
  pub value : Float64
  pub priority : Option ℕ

-- What one round of the loop does with its rule.
pub data Verdict : Type 0 where
  skipped : Verdict
  fired : GoalState → Float64 → Verdict
  panicked : Verdict

-- A lookup in `actionPriorities`, where a missing key reads 0.
unfoldable pub action_priority : ActionType → ℕ
action_priority ActionType.set_version = 0
action_priority ActionType.cooldown = 1
action_priority ActionType.pause = 2
action_priority (ActionType.other s) = 0

unfoldable pub metric_emitted : Snapshot → Metric → ℕ → Bool
metric_emitted s Metric.num_failures tool = is_some s.failures
metric_emitted s Metric.cost tool = is_some s.cost_usd
metric_emitted s Metric.num_llm_calls tool = is_some s.llm_calls
metric_emitted s Metric.latency tool = is_some s.latency_seconds
metric_emitted s Metric.approval_rejections tool = is_some s.approval_rejections
metric_emitted s Metric.tool_failure_rate tool = is_some (lookup tool s.tool_failure_counts)
metric_emitted s (Metric.other m) tool = false

-- `(*rollingMetrics)[len(*rollingMetrics)-1]`, with `none` where the loop passes on: no run at all.
unfoldable pub last_run : List Snapshot → Option Snapshot
last_run [] = none
last_run (s ∷ []) = some s
last_run (s ∷ t ∷ rest) = last_run (t ∷ rest)

abbrev pub int_of : Floats → Option ℕ → Option Float64
int_of f none = none
int_of f (some n) = some (f.of_int n)

-- The version total that a set_version rule reads; `none` where its tool is not on record.
unfoldable pub version_value : Floats → VersionMetrics → Metric → ℕ → Option Float64
version_value f vm Metric.num_failures tool = some (f.of_int vm.total_failures)
version_value f vm Metric.cost tool = some vm.total_cost
version_value f vm Metric.num_llm_calls tool = some (f.of_int vm.total_llm_calls)
version_value f vm Metric.latency tool = some vm.total_latency_seconds
version_value f vm Metric.approval_rejections tool = some (f.of_int vm.total_approval_rejections)
version_value f vm Metric.tool_failure_rate tool = int_of f (lookup tool vm.tool_failure_counts)
version_value f vm (Metric.other m) tool = some f.zero_float

abbrev or_zero : Option ℕ → ℕ
or_zero none = 0
or_zero (some n) = n

-- What a windowed rule reads of one run: the pointers are dereferenced, the map is not checked.
unfoldable pub run_value : Floats → Snapshot → Metric → ℕ → Option Float64
run_value f s Metric.num_failures tool = int_of f s.failures
run_value f s Metric.cost tool = s.cost_usd
run_value f s Metric.num_llm_calls tool = int_of f s.llm_calls
run_value f s Metric.latency tool = s.latency_seconds
run_value f s Metric.approval_rejections tool = int_of f s.approval_rejections
run_value f s Metric.tool_failure_rate tool =
    some (f.of_int (or_zero (lookup tool s.tool_failure_counts)))
run_value f s (Metric.other m) tool = some f.zero_float

infixl 5 ◌>>=◌
abbrev pub ◌>>=◌ {ℓ κ} : {A : Type ℓ} {B : Type κ} → Option A → (A → Option B) → Option B
none >>= f = none
some a >>= f = f a

-- `for _, metric := range lastN { ...; total += val }`.
unfoldable pub sum_runs : Floats → Metric → ℕ → Float64 → List Snapshot → Option Float64
sum_runs f m tool total [] = some total
sum_runs f m tool total (s ∷ rest) =
    run_value f s m tool >>= λ v. sum_runs f m tool (f.add total v) rest

-- The lookback: at most the last `window` runs. A negative int has a pattern of at least 2 ^ 63,
-- passes the test and cuts past the end of the slice.
unfoldable pub lookback {ℓ} : {A : Type ℓ} → ℕ → List A → Option (List A)
lookback window xs =
    if leb (2 ^ 63) window
    then none
    else if ltb window (length xs)
    then some (drop (length xs - window) xs)
    else some xs

abbrev pub set_version_goal : Rule → GoalState
set_version_goal r = record no_goal { version = r.action.target_version; version_change = true }

-- The goal of a windowed rule: the inner `switch rule.Action.Type`.
abbrev pub held_goal : ActionType → ℕ → GoalState
held_goal ActionType.cooldown seconds = record no_goal {
  cooldown = seconds;
  state = some WorkflowState.cooldown;
}
held_goal ActionType.pause seconds = record no_goal { state = some WorkflowState.paused }
held_goal _ seconds = no_goal

-- `if val >= rule.Threshold`.
abbrev pub against : Floats → Rule → GoalState → Float64 → Verdict
against f r goal val = if f.ge val r.threshold then fired goal val else skipped

judge_version : Floats → Rule → Option Float64 → Verdict
judge_version f r none = skipped
judge_version f r (some val) = against f r (set_version_goal r) val

judge_window : Floats → Rule → Option Float64 → Verdict
judge_window f r none = panicked
judge_window f r (some total) =
    against f r (held_goal r.action.type r.action.cooldown_seconds) total

-- The sum over the lookback of the runs that emitted the metric.
unfoldable pub window_total : Floats → Rule → List Snapshot → Option Float64
window_total f r runs =
    lookback r.window (keep (λ s. metric_emitted s r.metric r.tool_name) runs)
    >>= sum_runs f r.metric r.tool_name f.zero_float

-- `switch rule.Action.Type`.
judge : Floats → List Snapshot → VersionMetrics → ActionType → Rule → Verdict
unfolding judge_version judge_window
judge f runs vm ActionType.set_version r =
    judge_version f r (version_value f vm r.metric r.tool_name)
judge f runs vm ActionType.cooldown r = judge_window f r (window_total f r runs)
judge f runs vm ActionType.pause r = judge_window f r (window_total f r runs)
judge f runs vm (ActionType.other s) r = skipped

-- One round up to `if !ruleEnforced`.
unfoldable pub evaluate_rule : Floats → List Snapshot → VersionMetrics → Rule → Verdict
unfolding judge
evaluate_rule f runs vm r = elim (last_run runs) [
  | none ↦ skipped
  | some s ↦
      if metric_emitted s r.metric r.tool_name then judge f runs vm r.action.type r else skipped
]

-- `actionPriority > winningActionPriority`.
abbrev pub outranks : ℕ → Option ℕ → Bool
outranks p none = true
outranks p (some q) = ltb q p

-- The end of a round: a rule that fired takes the lead if its action outranks the leader's.
unfoldable pub settle : Verdict → Rule → Resolution → Option Resolution
settle skipped r lead = some lead
settle panicked r lead = none
settle (fired goal val) r lead =
    let p = action_priority r.action.type in
    if outranks p lead.priority
    then some (record { goal = goal; rule = some r; value = val; priority = some p })
    else some lead

unfoldable pub resolve_rules :
    Floats → List Snapshot → VersionMetrics → List Rule → Resolution → Option Resolution
resolve_rules f runs vm [] lead = some lead
resolve_rules f runs vm (r ∷ rs) lead =
    settle (evaluate_rule f runs vm r) r lead >>= resolve_rules f runs vm rs

-- ResolvePolicy; its error result is always nil.
unfoldable pub resolve_policy : Floats → List Snapshot → Policy → VersionMetrics → Option Resolution
resolve_policy f runs policy vm =
    resolve_rules f runs vm policy.rules
      (record { goal = no_goal; rule = none; value = f.zero_float; priority = none })
