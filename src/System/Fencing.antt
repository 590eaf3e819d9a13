-- ===== src/System/Fencing.antt =====
-- internal/storage/postgres/job.go and scheduler.go: the owner column as a fence between the
-- sessions that hold, held and will hold a job.
use boundflow.Base.{
  ℕ, ◌+◌, ◌≤◌, ◌<◌, ◌≡◌, ◌≢◌, ◌⊎◌, inl, inr, true, false, Option, none, some, arith, is, before,
  Option-cases, subst,
}
use boundflow.Domain.Status.{is_pending, is_queue}
use boundflow.Domain.Rows.{Job}
use boundflow.Store.{Store}
use boundflow.Store.Jobs
use boundflow.Store.Gates
use boundflow.Store.Recovery
use boundflow.Store.Requests
use boundflow.Store.Scheduling
use boundflow.Store.Scheduling.{Plan}
use boundflow.Store.Lifecycle
use boundflow.Store.Suspension
use boundflow.Store.Resolution
use boundflow.System.{Step, SessionWrite, session_write}

pub disowned_write :
    (s : Store) (j : Job) (owner : ℕ) (w : SessionWrite)
    → s.job ≡ some j
    → is j.owner owner ≡ false
    → session_write owner w s ≡ (s, false)
unfolding session_write Jobs.renew_job_lease Jobs.release_job Jobs.update_job_status
    Jobs.fail_job_with_metrics Jobs.update_job_status_with_metrics Jobs.update_job_metrics
    Jobs.dispatch_job Jobs.update_job_with_metrics Gates.park_for_approval Gates.park_for_input
disowned_write s j owner SessionWrite.release e free = ground arith
disowned_write s j owner w e free = ground arith

abbrev IsFree : Option Job → Type 0
IsFree none = ⊥
IsFree (some j) = j.owner ≡ none

upsert-IsFree :
    (s : Store) (now id : ℕ) (p : Plan)
    → (Scheduling.upsert_job_and_schedule now id p s).1 ≢ none
    → IsFree (Scheduling.upsert_job_and_schedule now id p s).0.job
unfolding Scheduling.upsert_job_and_schedule
upsert-IsFree s now id p written = ground arith

-- Where UpsertJobAndSchedule has written a request into the job's row, every statement of any
-- session on the store that it leaves, one that held the row before among them, matches no row
-- and changes nothing.
pub upsert_fences :
    (s : Store) (now id : ℕ) (p : Plan) (owner : ℕ) (w : SessionWrite)
    → (Scheduling.upsert_job_and_schedule now id p s).1 ≢ none
    → let t = (Scheduling.upsert_job_and_schedule now id p s).0 in
      session_write owner w t ≡ (t, false)
upsert_fences s now id p owner w written = elim (Option-cases t.job) [
  | inl e ↦ absurd (subst IsFree e free)
  | inr (j, e) ↦ disowned_write t j owner w e (ground (arith, subst IsFree e free))
]
  where
    t : Store
    t = (Scheduling.upsert_job_and_schedule now id p s).0

    free : IsFree t.job
    free = upsert-IsFree s now id p written

-- A job that has been attempted, that left the status pending, or whose workflow runs its requests as a queue keeps the row:
-- UpsertJobAndSchedule writes nothing and says so.
pub started_job_stays :
    (s : Store) (j : Job) (now id : ℕ) (p : Plan)
    → s.job ≡ some j
    → (is_pending j.status ≡ false) ⊎ (0 < j.attempts) ⊎ (is_queue p.invoke_mode ≡ true)
    → Scheduling.upsert_job_and_schedule now id p s ≡ (s, none)
unfolding Scheduling.upsert_job_and_schedule
started_job_stays s j now id p e (inl h) = ground arith
started_job_stays s j now id p e (inr h) = ground arith

-- After one session acquired the job, no session acquires it before the lease has run out.
pub lease_excludes :
    (s : Store) (now a lease tenant later b lease_b tenant_b : ℕ)
    → (Jobs.acquire_job now a lease tenant s).1 ≢ none
    → later ≤ now + lease
    → let t = (Jobs.acquire_job now a lease tenant s).0 in
      Jobs.acquire_job later b lease_b tenant_b t ≡ (t, none)
unfolding Jobs.acquire_job
lease_excludes s now a lease tenant later b lease_b tenant_b got early = ground arith

-- What is claimed of the statement that passes the job from one owner to another.
abbrev pub IsTakeover : {s t : Store} → Step s t → Job → Type 0
IsTakeover (Step.acquire now owner lease tenant) j = before j.lease_expires_at now ≡ true
IsTakeover _ j = ⊥

abbrev pub Passes : Store → Store → Job → ℕ → ℕ → Type 0
Passes s t j a b = (s.job ≡ some j) × (j.owner ≡ some a) × (owner_of t ≡ some b) × (a ≢ b)
  where
    owner_of : Store → Option ℕ
    owner_of t = elim t.job [ none ↦ none | some k ↦ k.owner ]

-- Whichever statement of any process takes a job that one session owns and leaves it to another, it is an
-- AcquireJob that runs after the lease of the first has run out.
pub handover :
    (s : Store) {t : Store} (step : Step s t) (j : Job) (a b : ℕ)
    → Passes s t j a b
    → IsTakeover step j
unfolding session_write Jobs.acquire_job Jobs.renew_job_lease Jobs.release_job
    Jobs.update_job_status Jobs.fail_job_with_metrics Jobs.update_job_status_with_metrics
    Jobs.update_job_metrics Jobs.dispatch_job Jobs.update_job_with_metrics Gates.park_for_approval
    Gates.park_for_input Gates.resolve_approval Gates.resolve_input Gates.sweep_expired_approvals
    Gates.sweep_expired_inputs Recovery.sweep_abandoned_jobs Recovery.mark_abandon_requested
    Recovery.mark_orphaned_jobs_failed Recovery.requeue_job Recovery.claim_failed_job
    Recovery.delete_terminal_job Requests.create_invocation_request
    Requests.create_due_periodic_request Requests.abandon_queued_requests
    Requests.complete_request_row Requests.fail_request_row Scheduling.upsert_job_and_schedule
    Scheduling.supercede_older_requests Scheduling.mark_workflow
    Scheduling.mark_workflow_awaiting_approval Scheduling.mark_workflow_awaiting_input
    Scheduling.reconcile_workflow_lifecycle Scheduling.mark_request_in_progress
    Scheduling.sweep_requests_in_progress Lifecycle.update_config Lifecycle.start_new_metrics_epoch
    Lifecycle.update_lifecycle_policy Lifecycle.mark_deletion_requested Lifecycle.finalize_deleted
    Lifecycle.apply_completed_job Lifecycle.apply_failed_job Lifecycle.unfreeze_paused_requests
    Lifecycle.resolve_interrupted_workflow Lifecycle.try_activate_workflow Lifecycle.expire_cooldown
    Suspension.mark_suspension_requested Suspension.freeze_unscheduled_requests
    Suspension.finalize_suspended Suspension.abort_suspension Suspension.restore_from_suspension
    Resolution.try_apply_version_resolution Resolution.try_apply_state_resolution
    Resolution.emit_metrics
handover s (Step.session owner SessionWrite.release usual) j x y h = ground arith
handover s (Step.session owner w usual) j x y h = ground arith
handover s (Step.acquire now owner lease tenant) j x y h = ground arith
handover s (Step.decide_approval id status reason fits) j x y h = ground arith
handover s (Step.answer id a) j x y h = ground arith
handover s (Step.expire_approval now p) j x y h = ground arith
handover s (Step.expire_input now p) j x y h = ground arith
handover s (Step.sweep_abandoned now p) j x y h = ground arith
handover s (Step.abandon now id) j x y h = ground arith
handover s (Step.orphan now p grace) j x y h = ground arith
handover s (Step.requeue id a below) j x y h = ground arith
handover s (Step.claim id a) j x y h = ground arith
handover s (Step.delete_job id) j x y h = ground arith
handover s (Step.invoke now n) j x y h = ground arith
handover s (Step.invoke_periodic now n gap) j x y h = ground arith
handover s (Step.drop_queued ids) j x y h = ground arith
handover s (Step.close_completed now id o reason result) j x y h = ground arith
handover s (Step.close_failed now id reason) j x y h = ground arith
handover s (Step.upsert now id p) j x y h = ground arith
handover s (Step.supercede version) j x y h = ground arith
handover s (Step.mark state) j x y h = ground arith
handover s Step.mark_awaiting_approval j x y h = ground arith
handover s Step.mark_awaiting_input j x y h = ground arith
handover s (Step.reconcile now p after) j x y h = ground arith
handover s (Step.mark_in_progress id) j x y h = ground arith
handover s (Step.sweep_in_progress p) j x y h = ground arith
handover s (Step.configure c version) j x y h = ground arith
handover s (Step.set_policy p) j x y h = ground arith
handover s (Step.request_deletion now) j x y h = ground arith
handover s (Step.finish_deletion now) j x y h = ground arith
handover s (Step.complete now state version le) j x y h = ground arith
handover s (Step.interrupt now id version le) j x y h = ground arith
handover s (Step.acknowledge id) j x y h = ground arith
handover s (Step.activate id) j x y h = ground arith
handover s (Step.warm_up now p) j x y h = ground arith
handover s (Step.suspend now id reason stop) j x y h = ground arith
handover s (Step.finalize now id) j x y h = ground arith
handover s (Step.abort id) j x y h = ground arith
handover s (Step.resume id t free) j x y h = ground arith
handover s (Step.resolve_version r e t id le) j x y h = ground arith
handover s (Step.resolve_state r st u id le free) j x y h = ground arith
handover s (Step.emit e le) j x y h = ground arith
handover s (Step.append_audit a) j x y h = ground arith
handover s (Step.set_agents a) j x y h = ground arith
