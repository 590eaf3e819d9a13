-- ===== src/Tests/Tenants.antt =====
-- Tests of tenants and of the partitions of the schedulers.
use boundflow.Base.{◌≡◌, refl, true, none, some, [], arith}
use boundflow.Domain.Status.{LifecycleState}
use boundflow.Tenancy.{Tenancy, create_tenant, create_workflow, finalize_workflow, write_lifecycle}
use boundflow.Tenancy.Counted.{IsCounted, TenantStep, TenantReach, history-IsCounted}
use boundflow.Partitions.{Partition, acquire_available, renew}
use boundflow.Partitions.Leases.{Others, others_excluded}

abbrev nothing : Tenancy
nothing = record { tenant = none; workflows = [] }

-- A tenant with two workflows, the first of which is run and then deleted.
history-IsCounted_example : IsCounted true (
    finalize_workflow 90 1 (
      write_lifecycle 1 LifecycleState.invoking
        (create_workflow 2 (create_workflow 1 (create_tenant nothing).0).0).0))
unfolding create_tenant create_workflow
history-IsCounted_example =
    history-IsCounted true {s = nothing}
      (record {
        covers = λ t e. ground (arith, e);
        counts = λ t e o. ground (arith, e);
        deleted = λ t e o d. refl;
        gone = λ e o. refl;
      })
      (TenantReach.next
        (TenantReach.next
          (TenantReach.next
            (TenantReach.next (TenantReach.next TenantReach.here TenantStep.tenant_created)
              (TenantStep.created 1))
            (TenantStep.created 2))
          (TenantStep.ran 1 LifecycleState.invoking refl (λ o. refl)))
        (TenantStep.finalized 90 1))

abbrev taken : Partition
taken = record { owner = some 3; lease_until = some 100 }

others_excluded_example : (renew 95 4 10 (acquire_available 90 5 10 taken).0).0 ≡ taken
others_excluded_example = others_excluded {p = taken} refl refl (
    Others.renewed 95 4 10
      (Others.acquired 90 5 10 Others.nobody (λ e. omega (arith, e)) (omega arith))
      (λ e. omega (arith, e)) (omega arith))
