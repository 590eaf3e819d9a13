-- ===== src/Tests/Messages.antt =====
-- A tenant and its group with policies, a duration as seconds and nanoseconds, and the message of
-- the sample workflow.
use boundflow.Base.{ℕ, ◌≡◌, ◌≢◌, none, ◌*◌, ◌+◌, ◌/◌, ◌%◌, refl, inr, true, some, [], ◌∷◌, arith}
use boundflow.Domain.Tenants.{PolicySet, TenantRow, TenantGroupRow}
use boundflow.Domain.Status.{JobStatus}
use boundflow.Store.{Store}
use boundflow.Store.Gates
use boundflow.Store.Scheduling
use boundflow.Samples.{job_in, store_in}
use boundflow.Convert.Messages.{Wire, workflow_to_proto}
use boundflow.Convert.Shown.{shown_approval, shown_input, shown_approval_answers}
use boundflow.Convert.Tenants.{
  tenant_from_proto, tenant_to_proto, tenant_group_from_proto, tenant_group_to_proto, registered,
  registered_group, registration_from-to,
}

abbrev wire_duration : ℕ → ℕ × ℕ
wire_duration n = (n / 1000000000, n % 1000000000)

abbrev nanoseconds : ℕ × ℕ → ℕ
nanoseconds d = 1000000000 * d.0 + d.1

nanoseconds-wire_duration : (n : ℕ) → nanoseconds (wire_duration n) ≡ n
nanoseconds-wire_duration n = omega arith

abbrev nightly : PolicySet
nightly = record {
  concurrency = record { max_concurrent_operations = 4 };
  failure = record {
    enable_rollback = true;
    retry = record {
      max_retries = 3;
      initial_backoff = 1500000000;
      max_backoff = 60000000000;
      backoff_multiplier = 2;
    };
  };
  maintenance_window = record {
    windows = record { cron_expression = 8; duration = 3600000000000 } ∷ [];
  };
  upgrade = record { auto_pause = true; bake_time = 7 };
  operation_timeout_seconds = 30;
}

abbrev stored_tenant : TenantRow
stored_tenant = record {
  id = 11;
  name = 2;
  tenant_group_id = 5;
  policy_overrides = some nightly;
  created_at = 900;
  deleted_at = some 950;
  scheduler_partition_id = 3;
}

abbrev stored_group : TenantGroupRow
stored_group = record { id = 5; name = 6; policies = nightly; created_at = 800 }

registration_from-to_example :
    (tenant_from_proto nanoseconds (some (tenant_to_proto wire_duration (λ t. t) stored_tenant))
      ≡ inr (registered stored_tenant))
    × (tenant_group_from_proto nanoseconds
          (some (tenant_group_to_proto wire_duration (λ t. t) stored_group))
        ≡ inr (registered_group stored_group))
registration_from-to_example =
    registration_from-to wire_duration nanoseconds (λ t. t) nanoseconds-wire_duration stored_tenant
      stored_group refl refl

abbrev wire : Wire ℕ ℕ
wire = record { stamp = λ t. t; struct_of = λ m. some m; to_int32 = λ n. n }

-- The write that marks the workflow was lost, and the next tick comes.
abbrev after_tick : Store
after_tick =
    (Scheduling.reconcile_workflow_lifecycle 95 0 60 (store_in JobStatus.awaiting_approval)).0

shown_approval_answers_example :
    (shown_approval (workflow_to_proto wire 1 2 (some after_tick.workflow)) ≡ some 70)
    × (shown_input (workflow_to_proto wire 1 2 (some after_tick.workflow)) ≡ none)
    × ((Gates.resolve_approval 70 JobStatus.approved 3 after_tick).1 ≢ none)
shown_approval_answers_example =
    shown_approval_answers wire 1 2 95 0 60 (store_in JobStatus.awaiting_approval)
      (job_in JobStatus.awaiting_approval) 70 JobStatus.approved 3 refl refl refl refl refl
      (λ e. cc)
