-- ===== src/System/Progress.antt =====
-- The statements of internal/storage/postgres that schedule, complete, suspend and resolve, each of
-- which keeps the invariant of the rows.
use boundflow.Base.{
  ℕ, ◌≤◌, ◌≡◌, refl, inl, inr, subst, Bool, true, false, ◌&&◌, Option, some, List, [], ◌∷◌, ◌==◌,
  ltb, map, if◌then◌else◌, All, All-map, Bool-cases, Option-cases, is_some, arith,
}
use boundflow.Domain.Status.{
  LifecycleState, WorkflowState, RequestStatus, is_paused, is_suspended, is_queued, is_scheduled,
  is_supercedable, is_unscheduled,
}
use boundflow.Domain.Status.{RunOutcome}
use boundflow.Domain.Policy.{Policy}
use boundflow.Domain.Rows.{Request, WorkflowConfig}
use boundflow.Store.{Store}
use boundflow.Store.Requests
use boundflow.Store.Jobs
use boundflow.Store.Scheduling
use boundflow.Store.Scheduling.{Plan}
use boundflow.Store.Lifecycle
use boundflow.Store.Suspension
use boundflow.Store.Suspension.{Target}
use boundflow.Store.Resolution
use boundflow.Store.Resolution.{Emission}
use boundflow.System.{may_resolve}
use boundflow.System.Invariant.{Inv, IsAllocated, requests-Inv}

pub queue-Inv :
    (s : Store)
    → Inv s
    → ((ids : Option (List ℕ)) → Inv (Requests.abandon_queued_requests ids s).0)
      × ((now id : ℕ) (o : RunOutcome) (reason : ℕ) (result : Option ℕ)
          → Inv (Requests.complete_request_row now id o reason result s))
      × ((now id reason : ℕ) → Inv (Requests.fail_request_row now id reason s))
      × ((version : ℕ) → Inv (Scheduling.supercede_older_requests version s))
      × ((id : ℕ) → Inv (Scheduling.mark_request_in_progress id s))
unfolding Requests.abandon_queued_requests Requests.complete_request_row Requests.fail_request_row
    Scheduling.supercede_older_requests Scheduling.mark_request_in_progress
queue-Inv s h = (
  (λ ids.
      requests-Inv s (λ r. is_queued r.status && Requests.is_named ids r.id)
        (λ r. record r { status = RequestStatus.abandoned }) (λ r. refl) (λ r. refl) h),
  (λ now id o reason result.
      requests-Inv s (λ r. r.id == id)
        (λ r. record r {
          status = RequestStatus.completed;
          run_outcome = some o;
          failure_reason = reason;
          result = result;
          completed_at = some now;
        })
        (λ r. refl) (λ r. refl) h),
  (λ now id reason.
      requests-Inv s (λ r. r.id == id)
        (λ r. record r {
          status = RequestStatus.failed;
          run_outcome = some RunOutcome.interrupted;
          failure_reason = reason;
          completed_at = some now;
        })
        (λ r. refl) (λ r. refl) h),
  (λ version.
      requests-Inv s (λ r. is_supercedable r.status && ltb r.version version)
        (λ r. record r { status = RequestStatus.superceded }) (λ r. refl) (λ r. refl) h),
  (λ id.
      requests-Inv s (λ r. r.id == id && is_scheduled r.status)
        (λ r. record r { status = RequestStatus.in_progress }) (λ r. refl) (λ r. refl) h),
)

pub sweep_in_progress-Inv :
    (s : Store) (p : ℕ) → Inv s → Inv (Scheduling.sweep_requests_in_progress p s)
unfolding Scheduling.sweep_requests_in_progress
sweep_in_progress-Inv s p h = elim (Option-cases s.job) [
  | inl e ↦ ground (arith, e)
  | inr (j, e) ↦ ground (arith, e, (queue-Inv s h).4 j.request_id)
]

-- What holds of every request holds of the one that is found.
find_request-All :
    (P : Request → Type 0) (id : ℕ) (rs : List Request) {r : Request}
    → All P rs
    → Requests.find_request id rs ≡ some r
    → P r
unfolding Requests.find_request
find_request-All P id [] all e = cc
find_request-All P id (q ∷ rs) all e = elim (Bool-cases (q.id == id)) [
  | inl hit ↦ subst P (ground arith) all.0
  | inr miss ↦ find_request-All P id rs all.1 (rw miss at e)
]

-- The requests of a queue that a suspension holds back, and of one that it no longer does.
frozen-All :
    (target : ℕ) (held : Bool) (rs : List Request)
    → All (IsAllocated target held) rs
    → All (IsAllocated target true) (
        map
          (λ r. if is_unscheduled r.status then record r { status = RequestStatus.paused } else r)
          rs)
frozen-All target held rs all = All-map _ _ _ (λ r ok. ground (arith, ok)) rs all

unfrozen-All :
    (target : ℕ) (held after : Bool) (rs : List Request)
    → All (IsAllocated target held) rs
    → All (IsAllocated target after) (
        map
          (λ r. if is_paused r.status then record r { status = RequestStatus.unscheduled } else r)
          rs)
unfrozen-All target held after rs all = All-map _ _ _ (λ r ok. ground (arith, ok)) rs all

pub acquire-Inv :
    (s : Store) (now owner lease tenant : ℕ)
    → Inv s
    → Inv (Jobs.acquire_job now owner lease tenant s).0
unfolding Jobs.acquire_job
acquire-Inv s now owner lease tenant h = ground arith

pub reconcile-Inv :
    (s : Store) (now p after : ℕ)
    → Inv s
    → Inv (Scheduling.reconcile_workflow_lifecycle now p after s).0
unfolding Scheduling.reconcile_workflow_lifecycle
reconcile-Inv s now p after h = ground arith

pub config-Inv :
    (s : Store)
    → Inv s
    → ((c : WorkflowConfig) (version : ℕ) → Inv (Lifecycle.update_config c version s))
      × ((p : Policy) → Inv (Lifecycle.update_lifecycle_policy p s))
unfolding Lifecycle.update_config Lifecycle.start_new_metrics_epoch
    Lifecycle.update_lifecycle_policy
config-Inv s h = ((λ c version. ground arith), (λ p. ground arith))

pub upsert-Inv :
    (s : Store) (now id : ℕ) (p : Plan)
    → Inv s
    → Inv (Scheduling.upsert_job_and_schedule now id p s).0
unfolding Scheduling.upsert_job_and_schedule
upsert-Inv s now id p h = elim (Option-cases (Requests.find_request id s.requests)) [
  | inl e ↦ ground (arith, e)
  | inr (r, e) ↦ ground (
    arith,
    e,
    find_request-All
        (IsAllocated s.workflow.target_version (is_some s.workflow.suspension.requested_at)) id
        s.requests h.requests e,
    requests-Inv s (λ q. q.id == r.id && is_unscheduled q.status)
        (λ q. record q { status = RequestStatus.scheduled }) (λ q. refl) (λ q. refl) h,
  )
]

pub complete-Inv :
    (s : Store) (now : ℕ) (state : LifecycleState) (version : ℕ)
    → version ≤ s.workflow.target_version
    → Inv s
    → Inv (Lifecycle.apply_completed_job now state version s).0
unfolding Lifecycle.apply_completed_job
complete-Inv s now state version le h = ground arith

pub interrupt-Inv :
    (s : Store) (now id version : ℕ)
    → version ≤ s.workflow.target_version
    → Inv s
    → Inv
        (Lifecycle.apply_failed_job now id LifecycleState.interrupted WorkflowState.disabled version
          s).0
unfolding Lifecycle.apply_failed_job Lifecycle.unfreeze_paused_requests
interrupt-Inv s now id version le h = ground (
  arith,
  unfrozen-All s.workflow.target_version (is_some s.workflow.suspension.requested_at) false
      s.requests h.requests,
)

pub suspend-Inv :
    (s : Store) (now id reason : ℕ) (stop : Bool)
    → Inv s
    → Inv (Suspension.mark_suspension_requested now id reason stop s).0
unfolding Suspension.mark_suspension_requested Suspension.freeze_unscheduled_requests
suspend-Inv s now id reason stop h = ground (
  arith,
  frozen-All s.workflow.target_version (is_some s.workflow.suspension.requested_at) s.requests
      h.requests,
)

pub abort-Inv : (s : Store) (id : ℕ) → Inv s → Inv (Suspension.abort_suspension id s)
unfolding Suspension.abort_suspension Lifecycle.unfreeze_paused_requests
abort-Inv s id h = ground (
  arith,
  unfrozen-All s.workflow.target_version (is_some s.workflow.suspension.requested_at) false
      s.requests h.requests,
)

pub resume-Inv :
    (s : Store) (id : ℕ) (t : Target)
    → is_suspended t.state ≡ false
    → Inv s
    → Inv (Suspension.restore_from_suspension id t s).0
unfolding Suspension.restore_from_suspension Lifecycle.unfreeze_paused_requests
    Lifecycle.start_new_metrics_epoch
resume-Inv s id t free h = ground (
  arith,
  unfrozen-All s.workflow.target_version (is_some s.workflow.suspension.requested_at) false
      s.requests h.requests,
)

pub resolution-Inv :
    (s : Store)
    → Inv s
    → ((resolved expected target id : ℕ)
        → resolved ≤ s.workflow.current_version
        → Inv (Resolution.try_apply_version_resolution resolved expected target id s).0)
      × ((resolved : ℕ) (state : WorkflowState) (until : Option ℕ) (id : ℕ)
          → resolved ≤ s.workflow.current_version
          → (is_suspended state ≡ true → may_resolve resolved s.workflow ≡ false)
          → Inv (Resolution.try_apply_state_resolution resolved state until id s).0)
      × ((e : Emission)
          → e.version ≤ s.workflow.current_version
          → Inv (Resolution.emit_metrics e s).0)
unfolding Resolution.try_apply_version_resolution Resolution.try_apply_state_resolution
    Resolution.emit_metrics Lifecycle.start_new_metrics_epoch
resolution-Inv s h = (
  (λ resolved expected target id le. ground arith),
  (λ resolved state until id le free. ground arith),
  (λ e le. ground arith),
)
