-- ===== src/Reconcilers/Draining.antt =====
-- internal/scheduler/suspensionresolver.go and deletionreconciler.go: a round that nothing stands in
-- the way of settles what was left over.
use boundflow.Base.{
  ℕ, ◌≡◌, refl, true, false, Option, none, arith, if◌then◌else◌, is_some, List, [], ◌∷◌, map, any,
  ◌-◌,
}
use boundflow.Domain.Status.{RequestStatus, is_running}
use boundflow.Domain.Rows.{Request}
use boundflow.Store.{Store}
use boundflow.Store.Requests
use boundflow.Store.Recovery
use boundflow.Store.Suspension
use boundflow.Store.Lifecycle
use boundflow.Service
use boundflow.Service.{HoldFaults}
use boundflow.Reconcilers
use boundflow.Reconcilers.{sweep_suspensions, sweep_deletions}

-- No call of a round fails.
pub record Works (x : HoldFaults) : Type 0 where
  pub mark : x.mark ≡ false
  pub abandon : x.abandon ≡ false
  pub running : x.running ≡ false
  pub finalize : x.finalize ≡ false

abandon-running :
    (now id : ℕ) (s : Store)
    → Requests.has_running_request (Recovery.mark_abandon_requested now id s).0
      ≡ Requests.has_running_request s
unfolding Requests.has_running_request Recovery.mark_abandon_requested
abandon-running now id s = ground arith

suspension_settles :
    (x : HoldFaults) (now partition : ℕ) (s : Store)
    → Works x
    → Requests.has_running_request s ≡ false
    → (is_some s.workflow.suspension.requested_at ≡ true → is_some s.workflow.suspension.id ≡ true)
    → Reconcilers.is_pending_suspension partition (sweep_suspensions false x now partition s)
      ≡ false
unfolding sweep_suspensions Reconcilers.reconcile_suspension Reconcilers.drain_suspension
    Reconcilers.is_pending_suspension Service.finalize_if_idle Suspension.finalize_suspended
    Suspension.abort_suspension Recovery.mark_abandon_requested Lifecycle.unfreeze_paused_requests
suspension_settles x now partition s w idle named = ground (
  arith,
  w.mark,
  w.abandon,
  w.running,
  w.finalize,
  idle,
  named,
  abandon-running now (Reconcilers.id_or_empty s.workflow.suspension.id) s,
)

-- Dropping the queue neither starts nor stops a run.
drop-running :
    (ids : Option (List ℕ)) (s : Store)
    → Requests.has_running_request (Requests.abandon_queued_requests ids s).0
      ≡ Requests.has_running_request s
unfolding Requests.has_running_request Requests.abandon_queued_requests
drop-running ids s = go s.requests
  where
    go :
        (rs : List Request)
        → any
            (λ r. is_running r.status)
            (map
              (λ r.
                if Requests.is_dropped ids r
                then record r { status = RequestStatus.abandoned }
                else r)
              rs)
          ≡ any (λ r. is_running r.status) rs
    go [] = refl
    go (r ∷ rest) = ground (arith, go rest)

drop-workflow :
    (ids : Option (List ℕ)) (s : Store)
    → let t = (Requests.abandon_queued_requests ids s).0 in
      (t.workflow ≡ s.workflow) × (t.tenant_workflow_count ≡ s.tenant_workflow_count)
unfolding Requests.abandon_queued_requests
drop-workflow ids s = (refl, refl)

deletion_settles :
    (x : HoldFaults) (now partition : ℕ) (s : Store)
    → Works x
    → Requests.has_running_request s ≡ false
    → let t = sweep_deletions false x now partition s in
      (Reconcilers.is_pending_deletion partition t ≡ false)
      × (Reconcilers.is_pending_deletion partition s ≡ true
          → t.tenant_workflow_count ≡ s.tenant_workflow_count - 1)
unfolding sweep_deletions Reconcilers.reconcile_deletion Reconcilers.is_pending_deletion
    Lifecycle.finalize_deleted
deletion_settles x now partition s w idle =
    let t = (Requests.abandon_queued_requests none s).0 in
    let k = drop-running none s in
    (
      ground (arith, w.abandon, w.running, w.finalize, idle, k),
      (λ p. ground (arith, w.abandon, w.running, w.finalize, idle, k, drop-workflow none s, p)),
    )

-- The rounds of the suspension reconciler and of the deletion reconciler, none of whose calls fails,
-- over a workflow none of whose requests is running and whose requested suspension, if any, has an id.
-- After the first no suspension of the workflow is pending, whether it was drained to its end or
-- given up because the workflow was taken over; after the second no deletion is pending, and where one
-- was, the tenant counts one workflow less (down to 0).
pub rounds_settle :
    (x : HoldFaults) (now partition : ℕ) (s : Store)
    → Works x
    → Requests.has_running_request s ≡ false
    → (is_some s.workflow.suspension.requested_at ≡ true → is_some s.workflow.suspension.id ≡ true)
    → let t = sweep_deletions false x now partition s in
      (Reconcilers.is_pending_suspension partition (sweep_suspensions false x now partition s)
        ≡ false)
      × (Reconcilers.is_pending_deletion partition t ≡ false)
      × (Reconcilers.is_pending_deletion partition s ≡ true
          → t.tenant_workflow_count ≡ s.tenant_workflow_count - 1)
rounds_settle x now partition s w idle named =
    let d = deletion_settles x now partition s w idle in
    (suspension_settles x now partition s w idle named, d.0, d.1)
