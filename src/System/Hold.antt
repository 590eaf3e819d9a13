-- ===== src/System/Hold.antt =====
-- internal/storage/postgres/workflow.go: what a suspension takes from the queue and gives back.
use boundflow.Base.{
  ℕ, ◌≡◌, refl, Bool, true, false, none, some, List, [], ◌∷◌, All, arith, map, if◌then◌else◌,
  is_some, Option-cases, inl, inr, subst,
}
use boundflow.Domain.Status.{RequestStatus, is_paused, is_unscheduled}
use boundflow.Domain.Rows.{Request}
use boundflow.Store.{Store}
use boundflow.Store.Scheduling
use boundflow.Store.Scheduling.{Plan}
use boundflow.Store.Requests
use boundflow.Store.Lifecycle
use boundflow.Store.Suspension
use boundflow.Store.Suspension.{Target}
use boundflow.System.Invariant.{Inv, IsAllocated}

abbrev frozen : List Request → List Request
frozen =
    map (λ r. if is_unscheduled r.status then record r { status = RequestStatus.paused } else r)

abbrev thawed : List Request → List Request
thawed =
    map (λ r. if is_paused r.status then record r { status = RequestStatus.unscheduled } else r)

thawed-frozen :
    (target : ℕ) (rs : List Request) → All (IsAllocated target false) rs → thawed (frozen rs) ≡ rs
thawed-frozen target [] all = refl
thawed-frozen target (r ∷ rs) all = ground (arith, all.0.1, thawed-frozen target rs all.1)

-- The requests are none that the scheduler could take.
abbrev IsClosed : Request → Type 0
IsClosed r = is_unscheduled r.status ≡ false

frozen-IsClosed : (rs : List Request) → All IsClosed (frozen rs)
frozen-IsClosed [] = tt
frozen-IsClosed (r ∷ rs) = (ground arith, frozen-IsClosed rs)

find-IsClosed :
    (id : ℕ) (rs : List Request) (r : Request)
    → All IsClosed rs
    → Requests.find_request id rs ≡ some r
    → is_unscheduled r.status ≡ false
unfolding Requests.find_request
find-IsClosed id [] r all e = cc
find-IsClosed id (q ∷ rs) r all e = ground (arith, find-IsClosed id rs r all.1)

-- From a suspension that was granted on, UpsertJobAndSchedule writes nothing, whatever the request
-- and the plan with which a scheduler comes, however long ago it read the workflow.
held_queue :
    (s : Store) (now id reason : ℕ) (stop : Bool) (later request_id : ℕ) (p : Plan)
    → (Suspension.mark_suspension_requested now id reason stop s).1 ≡ true
    → let t = (Suspension.mark_suspension_requested now id reason stop s).0 in
      Scheduling.upsert_job_and_schedule later request_id p t ≡ (t, none)
unfolding Suspension.mark_suspension_requested Suspension.freeze_unscheduled_requests
    Scheduling.upsert_job_and_schedule
held_queue s now id reason stop later request_id p granted =
    elim (Option-cases (Requests.find_request request_id (frozen s.requests))) [
      | inl e ↦ ground (arith, e)
      | inr (r, e) ↦
          ground (
            arith,
            e,
            find-IsClosed request_id (frozen s.requests) r (frozen-IsClosed s.requests) e,
          )
    ]

-- A workflow whose suspension was granted, finalized and lifted has its queue again exactly as it
-- was, every request with its status, no suspension, and the state of the resume, where its rows
-- were consistent and no suspension was requested before.
pub suspend_then_resume :
    (s : Store) (now id reason : ℕ) (stop : Bool) (later : ℕ) (target : Target)
    → Inv s
    → s.workflow.suspension.requested_at ≡ none
    → (Suspension.mark_suspension_requested now id reason stop s).1 ≡ true
    → let t = (Suspension.mark_suspension_requested now id reason stop s).0 in
      let (u, resumed) =
        Suspension.restore_from_suspension id target (Suspension.finalize_suspended later id t) in
      (resumed ≡ true)
      × (u.requests ≡ s.requests)
      × (u.workflow.suspension ≡ Lifecycle.no_suspension)
      × (u.workflow.workflow_state ≡ target.state)
unfolding Suspension.mark_suspension_requested Suspension.freeze_unscheduled_requests
    Suspension.finalize_suspended Suspension.restore_from_suspension
    Lifecycle.unfreeze_paused_requests Lifecycle.start_new_metrics_epoch
suspend_then_resume s now id reason stop later target h none_yet granted = ground (
  arith,
  none_yet,
  thawed-frozen s.workflow.target_version s.requests (
      subst (λ o. All (IsAllocated s.workflow.target_version (is_some o)) s.requests) none_yet
        h.requests),
)
