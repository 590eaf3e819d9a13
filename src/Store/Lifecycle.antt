-- ===== src/Store/Lifecycle.antt =====
-- internal/storage/postgres/workflow.go: the end of a run on the workflow's row, deletion,
-- configuration and the acknowledgements of an operator. ExpireCooldowns is in
-- internal/storage/postgres/lifecycle_resolver.go.
use boundflow.Base.{
  ℕ, ◌+◌, ◌-◌, Bool, true, false, ◌&&◌, none, some, List, [], ◌∷◌, ◌==◌, ltb, is_none, reached,
  if◌then◌else◌,
}
use boundflow.Domain.Status.{
  LifecycleState, WorkflowState, RequestStatus, is_deleted, is_interrupted, is_cooldown,
  is_held_by_policy, is_paused,
}
use boundflow.Domain.Policy.{Policy, VersionMetrics}
use boundflow.Domain.Rows.{WorkflowConfig, Suspension}
use boundflow.Store.{Store, update_workflow, update_requests}

abbrev larger : ℕ → ℕ → ℕ
larger a b = if ltb a b then b else a

-- `COALESCE(MAX(epoch), 0)` over the rows of a version.
unfoldable pub last_epoch : ℕ → List VersionMetrics → ℕ
last_epoch version [] = 0
last_epoch version (m ∷ ms) =
    let rest = last_epoch version ms in if m.version == version then larger m.epoch rest else rest

-- The row that startNewMetricsEpoch inserts: every total takes its default.
abbrev pub fresh_totals : ℕ → ℕ → VersionMetrics
fresh_totals version epoch = record {
  version = version;
  epoch = epoch;
  total_cost = 0;
  run_count = 0;
  total_failures = 0;
  total_llm_calls = 0;
  total_latency_seconds = 0;
  total_approval_rejections = 0;
  tool_failure_counts = [];
}

-- startNewMetricsEpoch.
unfoldable pub start_new_metrics_epoch : ℕ → Store → Store
start_new_metrics_epoch version s = record s {
  version_metrics =
      fresh_totals version (last_epoch version s.version_metrics + 1) ∷ s.version_metrics;
}

-- UpdateConfig.
unfoldable pub update_config : WorkflowConfig → ℕ → Store → Store
unfolding start_new_metrics_epoch
update_config config version s =
    let t = record s {
      workflow = record (s.workflow) { config = config; current_workflow_version = version };
    } in
    if s.workflow.current_workflow_version == version then t else start_new_metrics_epoch version t

-- UpdateLifecyclePolicy.
unfoldable pub update_lifecycle_policy : Policy → Store → Store
update_lifecycle_policy policy s = record s {
  workflow = record (s.workflow) { lifecycle_policy = policy };
}

-- MarkDeletionRequested: false is ErrDeletionAlreadyRequested.
unfoldable pub mark_deletion_requested : ℕ → Store → Store × Bool
mark_deletion_requested now =
    update_workflow (λ w. is_none w.deletion_requested_at)
      (λ w. record w { workflow_state = WorkflowState.disabled; deletion_requested_at = some now })

-- FinalizeDeleted: the row and, with it, the count of the tenant, which stops at 0.
unfoldable pub finalize_deleted : ℕ → Store → Store
finalize_deleted now s = if is_deleted s.workflow.lifecycle_state then s else record s {
  workflow = record (s.workflow) {
    lifecycle_state = LifecycleState.deleted;
    deletion_finalized_at = some now;
  };
  tenant_workflow_count = s.tenant_workflow_count - 1;
}

-- ApplyCompletedJob.
unfoldable pub apply_completed_job : ℕ → LifecycleState → ℕ → Store → Store × Bool
apply_completed_job now state version =
    update_workflow (λ w. ltb w.current_version version)
      (λ w. record w {
        current_version = version;
        last_completed_request_at = some now;
        lifecycle_state = if w.target_version == version then state else w.lifecycle_state;
      })

-- The columns of a suspension that is over.
abbrev pub no_suspension : Suspension
no_suspension = record {
  id = none;
  reason = 0;
  stop_current = false;
  requested_at = none;
  finalized_at = none;
}

-- `UPDATE customer_requests SET status = 'unscheduled' WHERE status = 'paused'`.
unfoldable pub unfreeze_paused_requests : Store → Store
unfreeze_paused_requests =
    update_requests (λ r. is_paused r.status) (λ r. record r { status = RequestStatus.unscheduled })

-- ApplyFailedJob.
unfoldable pub apply_failed_job : ℕ → ℕ → LifecycleState → WorkflowState → ℕ → Store → Store × Bool
unfolding unfreeze_paused_requests
apply_failed_job now request_id lifecycle state version s =
    if ltb s.workflow.current_version version
    then (
      unfreeze_paused_requests (record s {
        workflow = record (s.workflow) {
          current_version = version;
          last_completed_request_at = some now;
          last_interrupted_request_id = request_id;
          lifecycle_state = lifecycle;
          workflow_state = state;
          suspension = no_suspension;
        };
      }),
      true,
    )
    else (s, false)

-- ResolveInterruptedWorkflow.
unfoldable pub resolve_interrupted_workflow : ℕ → Store → Store × Bool
resolve_interrupted_workflow request_id =
    update_workflow
      (λ w. is_interrupted w.lifecycle_state && w.last_interrupted_request_id == request_id)
      (λ w. record w {
        lifecycle_state = LifecycleState.active;
        workflow_state = WorkflowState.active;
        lifecycle_last_resolved = w.current_version;
      })

-- TryActivateWorkflow.
unfoldable pub try_activate_workflow : ℕ → Store → Store × Bool
try_activate_workflow request_id =
    update_workflow
      (λ w. is_held_by_policy w.workflow_state && w.last_policy_decision_request_id == request_id)
      (λ w. record w { workflow_state = WorkflowState.active; cooldown_until = none })

-- ExpireCooldowns.
unfoldable pub expire_cooldown : ℕ → ℕ → Store → Store × Bool
expire_cooldown now partition =
    update_workflow
      (λ w.
        w.scheduler_partition_id == partition
        && is_cooldown w.workflow_state
        && reached w.cooldown_until now)
      (λ w. record w { workflow_state = WorkflowState.active; cooldown_until = none })
