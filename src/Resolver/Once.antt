-- ===== src/Resolver/Once.antt =====
-- internal/scheduler/lifecycleresolver.go: when a decision of the policy reaches the workflow.
use boundflow.Base.{ℕ, ◌≤◌, ◌≡◌, ◌⊎◌, inl, inr, false, Option, none, some, arith, Option-cases}
use boundflow.Domain.Status.{is_resolvable}
use boundflow.Domain.Policy.{Floats, VersionMetrics}
use boundflow.Domain.Audit.{PolicyAction}
use boundflow.Domain.Rows.{Workflow}
use boundflow.Policy.{resolve_policy}
use boundflow.Store.{Store}
use boundflow.Store.Lifecycle.{start_new_metrics_epoch}
use boundflow.Store.Resolution.{try_apply_version_resolution, try_apply_state_resolution}
use boundflow.Resolver.{apply_decision, audited, resolve_lifecycle_policy}

-- A workflow whose run was resolved already, or that is disabled or suspended, is out of the policy's
-- reach: ResolveLifecyclePolicy changes no row and reports no action for the audit, whatever the
-- policy decides.
pub unresolvable :
    (f : Floats) (now : ℕ) (w : Workflow) (vm : VersionMetrics) (id : ℕ) (s t : Store)
    (a : Option PolicyAction)
    → (w.current_version ≤ s.workflow.lifecycle_last_resolved)
      ⊎ (is_resolvable s.workflow.workflow_state ≡ false)
    → resolve_lifecycle_policy f now w vm id s ≡ some (t, a)
    → (t ≡ s) × (a ≡ none)
unfolding resolve_lifecycle_policy apply_decision audited try_apply_version_resolution
    try_apply_state_resolution start_new_metrics_epoch
unresolvable f now w vm id s t a h e =
    elim (Option-cases (resolve_policy f w.invocation_metrics w.lifecycle_policy vm)) [
      | inl p ↦ ground (arith, p, e)
      | inr (res, p) ↦ ground (arith, p, e, h)
    ]

-- The policy acts once on a run: where ResolveLifecyclePolicy is called again for the same reading
-- of the workflow and the same totals, no row changes and no action is reported.
pub resolved_once :
    (f : Floats) (now : ℕ) (w : Workflow) (vm : VersionMetrics) (id : ℕ) (s t : Store)
    (a : Option PolicyAction) (again : ℕ)
    → resolve_lifecycle_policy f now w vm id s ≡ some (t, a)
    → resolve_lifecycle_policy f now w vm again t ≡ some (t, none)
unfolding resolve_lifecycle_policy apply_decision audited try_apply_version_resolution
    try_apply_state_resolution start_new_metrics_epoch
resolved_once f now w vm id s t a again e =
    elim (Option-cases (resolve_policy f w.invocation_metrics w.lifecycle_policy vm)) [
      | inl p ↦ ground (arith, p, e)
      | inr (res, p) ↦ ground (arith, p, e)
    ]
