-- ===== src/Store/Suspension.antt =====
-- internal/storage/postgres/workflow.go: a suspension, from the request that freezes the queue to the
-- resume that releases it.
use boundflow.Base.{
  ℕ, Bool, true, false, ◌&&◌, ◌||◌, not, Option, none, some, ◌==◌, is, is_none, is_some,
  if◌then◌else◌,
}
use boundflow.Domain.Status.{
  LifecycleState, WorkflowState, RequestStatus, is_disabled, is_suspended, is_unscheduled,
}
use boundflow.Domain.Rows.{Workflow, Job, Suspension}
use boundflow.Store.{Store, update_workflow, update_requests}
use boundflow.Store.Lifecycle.{no_suspension, unfreeze_paused_requests, start_new_metrics_epoch}

-- `COALESCE(suspension_requested_at, now())`.
abbrev first_time : Option ℕ → ℕ → Option ℕ
first_time none now = some now
first_time (some t) now = some t

-- The WHERE of MarkSuspensionRequested.
abbrev pub may_suspend : ℕ → Workflow → Bool
may_suspend id w =
    not (is_disabled w.workflow_state)
    && is_none w.suspension.finalized_at
    && (is_none w.suspension.requested_at || is w.suspension.id id)

abbrev requested : ℕ → ℕ → ℕ → Bool → Suspension → Suspension
requested now id reason stop_current u = record u {
  requested_at = first_time u.requested_at now;
  id = some id;
  reason = reason;
  stop_current = stop_current;
}

-- The `uncut` update: a hold that lets the run finish clears an earlier order to stop it.
abbrev uncut : Bool → Option Job → Option Job
uncut stop_current none = none
uncut stop_current (some j) =
    some (if stop_current then j else record j { abandon_requested_at = none })

-- The `frozen` update.
unfoldable pub freeze_unscheduled_requests : Store → Store
freeze_unscheduled_requests =
    update_requests (λ r. is_unscheduled r.status) (λ r. record r { status = RequestStatus.paused })

-- MarkSuspensionRequested: false is ErrSuspensionAlreadyRequested.
unfoldable pub mark_suspension_requested : ℕ → ℕ → ℕ → Bool → Store → Store × Bool
unfolding freeze_unscheduled_requests
mark_suspension_requested now id reason stop_current s =
    if may_suspend id s.workflow
    then (
      freeze_unscheduled_requests (record s {
        workflow = record (s.workflow) {
          workflow_state = WorkflowState.suspended;
          suspension = requested now id reason stop_current s.workflow.suspension;
        };
        job = uncut stop_current s.job;
      }),
      true,
    )
    else (s, false)

abbrev finalized : ℕ → Suspension → Suspension
finalized now u = record u { finalized_at = some now }

-- FinalizeSuspended.
unfoldable pub finalize_suspended : ℕ → ℕ → Store → Store
finalize_suspended now id s =
    (update_workflow
      (λ w.
        is w.suspension.id id
        && is_suspended w.workflow_state
        && is_some w.suspension.requested_at
        && is_none w.suspension.finalized_at)
      (λ w. record w {
        lifecycle_state = LifecycleState.halted;
        suspension = finalized now w.suspension;
      })
      s).0

-- AbortSuspension.
unfoldable pub abort_suspension : ℕ → Store → Store
unfolding unfreeze_paused_requests
abort_suspension id s =
    if is s.workflow.suspension.id id && not (is_suspended s.workflow.workflow_state)
    then unfreeze_paused_requests
        (record s { workflow = record (s.workflow) { suspension = no_suspension } })
    else s

-- What a resume restores: the state, the version and the end of a cooldown.
pub record Target : Type 0 where
  pub state : WorkflowState
  pub expected_version : ℕ
  pub version : ℕ
  pub cooldown_until : Option ℕ

abbrev restored : Target → Workflow → Workflow
restored t w = record w {
  workflow_state = t.state;
  cooldown_until = t.cooldown_until;
  current_workflow_version = t.version;
  lifecycle_state = LifecycleState.active;
  lifecycle_last_resolved = w.current_version;
  suspension = no_suspension;
}

-- RestoreFromSuspension.
unfoldable pub restore_from_suspension : ℕ → Target → Store → Store × Bool
unfolding unfreeze_paused_requests start_new_metrics_epoch
restore_from_suspension id t s =
    if is s.workflow.suspension.id id
      && is_suspended s.workflow.workflow_state
      && is_some s.workflow.suspension.finalized_at
    then (
      (let u = unfreeze_paused_requests (record s { workflow = restored t s.workflow }) in
          if t.version == t.expected_version then u else start_new_metrics_epoch t.version u),
      true,
    )
    else (s, false)
