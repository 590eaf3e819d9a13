-- ===== src/Convert/PolicySet.antt =====
-- internal/convert/policy.go: the policies of a tenant group between the wire and the domain. The
-- messages are those of policy.proto; a message that may be nil is an Option. Duration, New and
-- AsDuration are those of the package durationpb.
use boundflow.Base.{ℕ, ◌≡◌, refl, Bool, false, Option, none, some, List, [], ◌∷◌, map}
use boundflow.Domain.Policy.{Float64}
use boundflow.Domain.Tenants.{
  ConcurrencyPolicy, RetryPolicy, FailurePolicy, MaintenanceWindow, MaintenanceWindowPolicy,
  UpgradePolicy, PolicySet,
}

pub record WireConcurrency : Type 0 where
  pub max_concurrent_operations : ℕ

pub record WireRetry (Duration : Type 0) : Type 0 where
  pub max_retries : ℕ
  pub initial_backoff : Option Duration
  pub max_backoff : Option Duration
  pub backoff_multiplier : Float64

pub record WireFailure (Duration : Type 0) : Type 0 where
  pub enable_rollback : Bool
  pub retry : Option (WireRetry Duration)

pub record WireWindow (Duration : Type 0) : Type 0 where
  pub cron_expression : ℕ
  pub duration : Option Duration

pub record WireWindows (Duration : Type 0) : Type 0 where
  pub windows : List (WireWindow Duration)

pub record WireUpgrade (Duration : Type 0) : Type 0 where
  pub auto_pause : Bool
  pub bake_time : Option Duration

pub record WirePolicySet (Duration : Type 0) : Type 0 where
  pub concurrency : Option WireConcurrency
  pub failure : Option (WireFailure Duration)
  pub maintenance_window : Option (WireWindows Duration)
  pub upgrade : Option (WireUpgrade Duration)
  pub operation_timeout_seconds : ℕ

-- `pb.Concurrency != nil`, and the zero policy without.
abbrev concurrency_from : Option WireConcurrency → ConcurrencyPolicy
concurrency_from none = record { max_concurrent_operations = 0 }
concurrency_from (some c) = record { max_concurrent_operations = c.max_concurrent_operations }

abbrev concurrency_to : ConcurrencyPolicy → WireConcurrency
concurrency_to c = record { max_concurrent_operations = c.max_concurrent_operations }

abbrev zero_retry : RetryPolicy
zero_retry = record {
  max_retries = 0;
  initial_backoff = 0;
  max_backoff = 0;
  backoff_multiplier = 0;
}

module _ {Duration : Type 0} (as_duration : Duration → ℕ) where
  -- `if d != nil { x = d.AsDuration() }`.
  abbrev duration_from : Option Duration → ℕ
  duration_from none = 0
  duration_from (some d) = as_duration d

  abbrev retry_from : Option (WireRetry Duration) → RetryPolicy
  retry_from none = zero_retry
  retry_from (some r) = record {
    max_retries = r.max_retries;
    initial_backoff = duration_from r.initial_backoff;
    max_backoff = duration_from r.max_backoff;
    backoff_multiplier = r.backoff_multiplier;
  }

  abbrev failure_from : Option (WireFailure Duration) → FailurePolicy
  failure_from none = record { enable_rollback = false; retry = zero_retry }
  failure_from (some f) = record { enable_rollback = f.enable_rollback; retry = retry_from f.retry }

  abbrev window_from : WireWindow Duration → MaintenanceWindow
  window_from w = record {
    cron_expression = w.cron_expression;
    duration = duration_from w.duration;
  }

  abbrev windows_from : Option (WireWindows Duration) → MaintenanceWindowPolicy
  windows_from none = record { windows = [] }
  windows_from (some p) = record { windows = map window_from p.windows }

  abbrev upgrade_from : Option (WireUpgrade Duration) → UpgradePolicy
  upgrade_from none = record { auto_pause = false; bake_time = 0 }
  upgrade_from (some u) = record {
    auto_pause = u.auto_pause;
    bake_time = duration_from u.bake_time;
  }

  -- PolicySetFromProto.
  unfoldable pub policy_set_from_proto : Option (WirePolicySet Duration) → PolicySet
  policy_set_from_proto none = record {
    concurrency = concurrency_from none;
    failure = failure_from none;
    maintenance_window = windows_from none;
    upgrade = upgrade_from none;
    operation_timeout_seconds = 0;
  }
  policy_set_from_proto (some p) = record {
    concurrency = concurrency_from p.concurrency;
    failure = failure_from p.failure;
    maintenance_window = windows_from p.maintenance_window;
    upgrade = upgrade_from p.upgrade;
    operation_timeout_seconds = 0;
  }

module _ {Duration : Type 0} (new : ℕ → Duration) where
  abbrev window_to : MaintenanceWindow → WireWindow Duration
  window_to w = record { cron_expression = w.cron_expression; duration = some (new w.duration) }

  abbrev retry_to : RetryPolicy → WireRetry Duration
  retry_to r = record {
    max_retries = r.max_retries;
    initial_backoff = some (new r.initial_backoff);
    max_backoff = some (new r.max_backoff);
    backoff_multiplier = r.backoff_multiplier;
  }

  -- PolicySetToProto.
  unfoldable pub policy_set_to_proto : PolicySet → WirePolicySet Duration
  policy_set_to_proto p = record {
    concurrency = some (concurrency_to p.concurrency);
    failure = some (record {
      enable_rollback = p.failure.enable_rollback;
      retry = some (retry_to p.failure.retry);
    });
    maintenance_window = some (record { windows = map window_to p.maintenance_window.windows });
    upgrade =
        some (record {
          auto_pause = p.upgrade.auto_pause;
          bake_time = some (new p.upgrade.bake_time);
        });
    operation_timeout_seconds = 0;
  }

module _ {Duration : Type 0} (new : ℕ → Duration) (as_duration : Duration → ℕ)
    (duration-new : (n : ℕ) → as_duration (new n) ≡ n) where
  windows_from-to :
      (ws : List MaintenanceWindow) → map (window_from as_duration) (map (window_to new) ws) ≡ ws
  windows_from-to [] = refl
  windows_from-to (w ∷ ws) = λ i.
      record { cron_expression = w.cron_expression; duration = duration-new w.duration i }
      ∷ windows_from-to ws i

  -- Where AsDuration takes back New, the policies that PolicySetToProto writes are read as the same
  -- ones, but for the timeout of an operation, which is 0.
  pub policy_set_from-to :
      (p : PolicySet)
      → policy_set_from_proto as_duration (some (policy_set_to_proto new p))
        ≡ record p { operation_timeout_seconds = 0 }
  unfolding policy_set_from_proto policy_set_to_proto
  policy_set_from-to p = λ i. record p {
    failure = record {
      enable_rollback = p.failure.enable_rollback;
      retry = record {
        max_retries = p.failure.retry.max_retries;
        initial_backoff = duration-new p.failure.retry.initial_backoff i;
        max_backoff = duration-new p.failure.retry.max_backoff i;
        backoff_multiplier = p.failure.retry.backoff_multiplier;
      };
    };
    maintenance_window = record { windows = windows_from-to p.maintenance_window.windows i };
    upgrade = record {
      auto_pause = p.upgrade.auto_pause;
      bake_time = duration-new p.upgrade.bake_time i;
    };
    operation_timeout_seconds = 0;
  }
