-- ===== src/System/Invariant.antt =====
-- What every statement keeps true of the rows of a workflow, and so every history of statements.
use boundflow.Base.{
  ℕ, ◌≤◌, ◌<◌, ◌≡◌, refl, Bool, true, false, Option, none, some, List, [], ◌∷◌, ◌++◌, All, All-map,
  All-append, is_some, arith,
}
use boundflow.Domain.Status.{LifecycleState, JobStatus, is_paused, is_suspended}
use boundflow.Domain.Rows.{Job, Request}
use boundflow.Store.{Store, update_requests}
use boundflow.Store.Jobs
use boundflow.Store.Gates
use boundflow.Store.Recovery
use boundflow.Store.Requests
use boundflow.Store.Requests.{NewRequest}
use boundflow.Store.Scheduling
use boundflow.Store.Lifecycle
use boundflow.Store.Suspension
use boundflow.Scheduler.{max_job_attempts}
use boundflow.System.{SessionWrite, session_write}

-- A request was allocated by its workflow, and is held back only by a suspension.
abbrev pub IsAllocated : ℕ → Bool → Request → Type 0
IsAllocated target held r = (r.version ≤ target) × (is_paused r.status ≡ true → held ≡ true)

abbrev pub IsBounded : ℕ → Option Job → Type 0
IsBounded target none = Unit {0}
IsBounded target (some j) = (j.version ≤ target) × (j.attempts ≤ max_job_attempts)

pub record Inv (s : Store) : Type 0 where
  pub resolved : s.workflow.lifecycle_last_resolved ≤ s.workflow.current_version
  pub emitted : s.workflow.metrics_emitted_at ≤ s.workflow.current_version
  pub current : s.workflow.current_version ≤ s.workflow.target_version
  pub held :
      is_suspended s.workflow.workflow_state ≡ true
      → is_some s.workflow.suspension.requested_at ≡ true
  pub requests :
      All
        (IsAllocated s.workflow.target_version (is_some s.workflow.suspension.requested_at))
        s.requests
  pub job : IsBounded s.workflow.target_version s.job

-- The writes of a session touch the job alone, and neither its version nor its attempts.
pub session-Inv :
    (s : Store) (owner : ℕ) (w : SessionWrite) → Inv s → Inv (session_write owner w s).0
unfolding session_write Jobs.renew_job_lease Jobs.release_job Jobs.update_job_status
    Jobs.fail_job_with_metrics Jobs.update_job_status_with_metrics Jobs.update_job_metrics
    Jobs.dispatch_job Jobs.update_job_with_metrics Gates.park_for_approval Gates.park_for_input
session-Inv s owner SessionWrite.release h = ground arith
session-Inv s owner w h = ground arith

-- A change of single requests that keeps their versions and holds none back keeps the invariant.
pub requests-Inv :
    (s : Store) (guard : Request → Bool) (change : Request → Request)
    → ((r : Request) → (change r).version ≡ r.version)
    → ((r : Request) → is_paused (change r).status ≡ false)
    → Inv s
    → Inv (update_requests guard change s)
requests-Inv s guard change same free h = record {
  resolved = h.resolved;
  emitted = h.emitted;
  current = h.current;
  held = h.held;
  requests = All-map _ _ _ (λ r ok. ground (arith, same r, free r, ok)) s.requests h.requests;
  job = h.job;
}

pub gates-Inv :
    (s : Store)
    → Inv s
    → ((id : ℕ) (status : JobStatus) (reason : ℕ)
        → Inv (Gates.resolve_approval id status reason s).0)
      × ((id : ℕ) (a : Option ℕ) → Inv (Gates.resolve_input id a s).0)
      × ((now p : ℕ) → Inv (Gates.sweep_expired_approvals now p s).0)
      × ((now p : ℕ) → Inv (Gates.sweep_expired_inputs now p s).0)
unfolding Gates.resolve_approval Gates.resolve_input Gates.sweep_expired_approvals
    Gates.sweep_expired_inputs
gates-Inv s h = (
  (λ id status reason. ground arith),
  (λ id a. ground arith),
  (λ now p. ground arith),
  (λ now p. ground arith),
)

pub recovery-Inv :
    (s : Store)
    → Inv s
    → ((now p : ℕ) → Inv (Recovery.sweep_abandoned_jobs now p s).0)
      × ((now id : ℕ) → Inv (Recovery.mark_abandon_requested now id s).0)
      × ((now p grace : ℕ) → Inv (Recovery.mark_orphaned_jobs_failed now p grace s).0)
      × ((id a : ℕ) → a < max_job_attempts → Inv (Recovery.requeue_job id a s).0)
      × ((id a : ℕ) → Inv (Recovery.claim_failed_job id a s).0)
      × ((id : ℕ) → Inv (Recovery.delete_terminal_job id s).0)
unfolding Recovery.sweep_abandoned_jobs Recovery.mark_abandon_requested
    Recovery.mark_orphaned_jobs_failed Recovery.requeue_job Recovery.claim_failed_job
    Recovery.delete_terminal_job
recovery-Inv s h = (
  (λ now p. ground arith),
  (λ now id. ground arith),
  (λ now p grace. ground arith),
  (λ id a below. ground arith),
  (λ id a. ground arith),
  (λ id. ground arith),
)

pub workflow-Inv :
    (s : Store)
    → Inv s
    → ((state : LifecycleState) → Inv (Scheduling.mark_workflow state s))
      × Inv (Scheduling.mark_workflow_awaiting_approval s)
      × Inv (Scheduling.mark_workflow_awaiting_input s)
      × ((now : ℕ) → Inv (Lifecycle.mark_deletion_requested now s).0)
      × ((now : ℕ) → Inv (Lifecycle.finalize_deleted now s))
      × ((id : ℕ) → Inv (Lifecycle.resolve_interrupted_workflow id s).0)
      × ((id : ℕ) → Inv (Lifecycle.try_activate_workflow id s).0)
      × ((now p : ℕ) → Inv (Lifecycle.expire_cooldown now p s).0)
      × ((now id : ℕ) → Inv (Suspension.finalize_suspended now id s))
unfolding Scheduling.mark_workflow Scheduling.mark_workflow_awaiting_approval
    Scheduling.mark_workflow_awaiting_input Lifecycle.mark_deletion_requested
    Lifecycle.finalize_deleted Lifecycle.resolve_interrupted_workflow
    Lifecycle.try_activate_workflow Lifecycle.expire_cooldown Suspension.finalize_suspended
workflow-Inv s h = (
  (λ state. ground arith),
  ground arith,
  ground arith,
  (λ now. ground arith),
  (λ now. ground arith),
  (λ id. ground arith),
  (λ id. ground arith),
  (λ now p. ground arith),
  (λ now id. ground arith),
)

-- A request allocated under a target stays so under a higher one.
pub allocated-mono :
    (m n : ℕ) (held : Bool) (rs : List Request)
    → m ≤ n
    → All (IsAllocated m held) rs
    → All (IsAllocated n held) rs
allocated-mono m n held [] le all = tt
allocated-mono m n held (r ∷ rs) le all =
    ((omega arith, all.0.1), allocated-mono m n held rs le all.1)

-- The store after a request was added under the next version.
allocate-Inv :
    (s : Store) (r : Request)
    → r.version ≡ Requests.next_version s
    → is_paused r.status ≡ false
    → Inv s
    → Inv (record s {
      workflow = record (s.workflow) { target_version = Requests.next_version s };
      requests = s.requests ++ (r ∷ []);
    })
allocate-Inv s r e free h = record {
  resolved = h.resolved;
  emitted = h.emitted;
  current = omega (arith, h.current);
  held = h.held;
  requests =
      All-append _ s.requests (r ∷ [])
        (allocated-mono s.workflow.target_version _ _ s.requests (omega arith) h.requests)
        ((omega (arith, e), (λ p. ground arith)), tt);
  job = job_later s.job h.job;
}
  where
    job_later :
        (j : Option Job)
        → IsBounded s.workflow.target_version j
        → IsBounded (Requests.next_version s) j
    job_later none b = tt
    job_later (some j) b = omega arith

pub invoke-Inv :
    (s : Store)
    → Inv s
    → ((now : ℕ) (n : NewRequest) → Inv (Requests.create_invocation_request now n s).0)
      × ((now : ℕ) (n : NewRequest) (gap : ℕ)
          → Inv (Requests.create_due_periodic_request now n gap s).0)
unfolding Requests.create_invocation_request Requests.create_due_periodic_request
invoke-Inv s h = (
  (λ now n.
      ground
        (arith, allocate-Inv s (Requests.new_request now n (Requests.next_version s)) refl refl h)),
  (λ now n gap.
      ground
        (arith, allocate-Inv s (Requests.new_request now n (Requests.next_version s)) refl refl h)),
)
