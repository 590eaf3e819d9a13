-- ===== src/Domain/Policy.antt =====
-- internal/domain/workflow_policy.go. A float64 is its bit pattern: what computes on floats takes
-- the operations of the hardware as a `Floats` argument. An int is its 64-bit pattern.
use mathlib.Core.Bool.{Bool}
use mathlib.Core.Option.{Option}
use mathlib.Core.List.{List}
use Prim.Native.Nat.{ℕ}
use boundflow.Base.{Map}

abbrev pub Float64 : Type 0
Float64 = ℕ

-- The float operations that the code uses: `0.0`, `a + b`, `a >= b` and `float64(i)`.
pub record Floats : Type 0 where
  pub zero_float : Float64
  pub add : Float64 → Float64 → Float64
  pub ge : Float64 → Float64 → Bool
  pub of_int : ℕ → Float64

-- `other` is any string that is no constant of the source.
pub data Metric : Type 0 where
  num_failures cost num_llm_calls latency approval_rejections tool_failure_rate : Metric
  other : ℕ → Metric

pub data ActionType : Type 0 where
  pause cooldown set_version : ActionType
  other : ℕ → ActionType

pub record Action : Type 0 where
  pub type : ActionType
  pub cooldown_seconds : ℕ
  pub target_version : ℕ

-- MaxLifecycleWindow.
abbrev pub max_lifecycle_window : ℕ
max_lifecycle_window = 100

-- The window is the pattern of an int: a negative one has its top bit set.
pub record Rule : Type 0 where
  pub metric : Metric
  pub threshold : Float64
  pub window : ℕ
  pub tool_name : ℕ
  pub action : Action

pub record Policy : Type 0 where
  pub rules : List Rule

pub record Snapshot : Type 0 where
  pub cost_usd : Option Float64
  pub llm_calls : Option ℕ
  pub latency_seconds : Option Float64
  pub failures : Option ℕ
  pub approval_rejections : Option ℕ
  pub tool_failure_counts : Map ℕ
  pub ran_at : ℕ
  pub request_id : ℕ

pub record VersionMetrics : Type 0 where
  pub version : ℕ
  pub epoch : ℕ
  pub total_cost : Float64
  pub run_count : ℕ
  pub total_failures : ℕ
  pub total_llm_calls : ℕ
  pub total_latency_seconds : Float64
  pub total_approval_rejections : ℕ
  pub tool_failure_counts : Map ℕ
