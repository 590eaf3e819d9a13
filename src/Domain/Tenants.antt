-- ===== src/Domain/Tenants.antt =====
-- internal/domain/policy.go and tenant.go: the policies of a tenant group, the rows of a tenant and of
-- its group as the conversions fill them. A duration is the int64 of its nanoseconds, a time a number
-- and the zero time 0, an empty text or identifier 0.
use boundflow.Base.{ℕ, Bool, Option, List}
use boundflow.Domain.Policy.{Float64}

pub record ConcurrencyPolicy : Type 0 where
  pub max_concurrent_operations : ℕ

pub record RetryPolicy : Type 0 where
  pub max_retries : ℕ
  pub initial_backoff : ℕ
  pub max_backoff : ℕ
  pub backoff_multiplier : Float64

pub record FailurePolicy : Type 0 where
  pub enable_rollback : Bool
  pub retry : RetryPolicy

pub record MaintenanceWindow : Type 0 where
  pub cron_expression : ℕ
  pub duration : ℕ

pub record MaintenanceWindowPolicy : Type 0 where
  pub windows : List MaintenanceWindow

pub record UpgradePolicy : Type 0 where
  pub auto_pause : Bool
  pub bake_time : ℕ

pub record PolicySet : Type 0 where
  pub concurrency : ConcurrencyPolicy
  pub failure : FailurePolicy
  pub maintenance_window : MaintenanceWindowPolicy
  pub upgrade : UpgradePolicy
  pub operation_timeout_seconds : ℕ

-- The tenants of a group are not loaded with it.
pub record TenantGroupRow : Type 0 where
  pub id : ℕ
  pub name : ℕ
  pub policies : PolicySet
  pub created_at : ℕ

pub record TenantRow : Type 0 where
  pub id : ℕ
  pub name : ℕ
  pub tenant_group_id : ℕ
  pub policy_overrides : Option PolicySet
  pub created_at : ℕ
  pub deleted_at : Option ℕ
  pub scheduler_partition_id : ℕ
