-- ===== src/Convert/Config.antt =====
-- internal/convert/workflow.go: the configuration of a workflow as a caller sends it.
use boundflow.Base.{ℕ, Bool, true, Option, none, some, int_of_32, false}
use boundflow.Domain.Status.{InvokeMode}
use boundflow.Domain.Rows.{WorkflowConfig}
use boundflow.Convert.{invoke_mode_from_proto}

-- The message WorkflowConfig: an enumeration by its number, the version as an int32 pattern.
pub record WireConfig : Type 0 where
  pub version : ℕ
  pub invoke_timeout_seconds : ℕ
  pub repeat_every_seconds : ℕ
  pub triggerable : Bool
  pub invoke_mode : ℕ
  pub max_queue_depth : ℕ
  pub resumable : Bool

-- WorkflowConfigFromProto.
unfoldable pub workflow_config_from_proto : Option WireConfig → WorkflowConfig
workflow_config_from_proto none = record {
  invoke_timeout_seconds = 0;
  repeat_every_seconds = 0;
  triggerable = true;
  invoke_mode = InvokeMode.coalesce;
  max_queue_depth = 0;
  resumable = false;
}
workflow_config_from_proto (some p) = record {
  invoke_timeout_seconds = p.invoke_timeout_seconds;
  repeat_every_seconds = p.repeat_every_seconds;
  triggerable = p.triggerable;
  invoke_mode = invoke_mode_from_proto p.invoke_mode;
  max_queue_depth = p.max_queue_depth;
  resumable = p.resumable;
}

-- `int(req.Config.Version)`, and 0 without a configuration.
abbrev pub version_of : Option WireConfig → ℕ
version_of none = 0
version_of (some p) = int_of_32 p.version
