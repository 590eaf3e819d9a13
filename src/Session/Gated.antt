-- ===== src/Session/Gated.antt =====
-- internal/rpcworker/rpcworker.go: a job whose status says that a gate was opened or resolved
-- carries the branches of that gate, so no session follows a nil pointer to one.
use boundflow.Base.{
  ℕ, ◌≡◌, refl, Bool, true, false, Option, none, some, List, arith, is_some, inl, inr, Option-cases,
  [], ◌+◌,
}
use boundflow.Domain.Status.{JobStatus}
use boundflow.Domain.Rows.{Job, Branches, Branch}
use boundflow.Store.{Store}
use boundflow.Store.Jobs
use boundflow.Store.Gates
use boundflow.Store.Recovery
use boundflow.Store.Requests
use boundflow.Store.Scheduling
use boundflow.Store.Lifecycle
use boundflow.Store.Suspension
use boundflow.Store.Resolution
use boundflow.System.{SessionWrite, session_write, is_usual, Step, Reach}
use boundflow.Session.{Held, Env, Calls}
use boundflow.Session.Dispatch
use boundflow.Session.Dispatch.{Exit, Session, Move}

-- The status of a gate that was opened or resolved.
abbrev is_gated : JobStatus → Bool
is_gated JobStatus.awaiting_approval = true
is_gated JobStatus.approved = true
is_gated JobStatus.rejected = true
is_gated _ = false

abbrev is_asked : JobStatus → Bool
is_asked JobStatus.awaiting_input = true
is_asked JobStatus.answered = true
is_asked JobStatus.input_timed_out = true
is_asked _ = false

pub record HasGate (j : Job) : Type 0 where
  pub approval : is_gated j.status ≡ true → is_some j.job_metadata.approval_gate ≡ true
  pub input : is_asked j.status ≡ true → is_some j.job_metadata.input_gate ≡ true

abbrev pub HasGates : Option Job → Type 0
HasGates none = Unit {0}
HasGates (some j) = HasGate j

session-HasGates :
    (s : Store) (owner : ℕ) (w : SessionWrite)
    → is_usual w ≡ true
    → HasGates s.job
    → HasGates (session_write owner w s).0.job
unfolding session_write Jobs.renew_job_lease Jobs.release_job Jobs.update_job_status
    Jobs.fail_job_with_metrics Jobs.update_job_status_with_metrics Jobs.update_job_metrics
    Jobs.dispatch_job Jobs.update_job_with_metrics Gates.park_for_approval Gates.park_for_input
session-HasGates s owner SessionWrite.release usual h = ground arith
session-HasGates s owner w usual h = ground arith

step-HasGates : (s : Store) {t : Store} → HasGates s.job → Step s t → HasGates t.job
unfolding session_write Jobs.renew_job_lease Jobs.release_job Jobs.update_job_status
    Jobs.fail_job_with_metrics Jobs.update_job_status_with_metrics Jobs.update_job_metrics
    Jobs.dispatch_job Jobs.update_job_with_metrics Gates.park_for_approval Gates.park_for_input
    Jobs.acquire_job Gates.resolve_approval Gates.resolve_input Gates.sweep_expired_approvals
    Gates.sweep_expired_inputs Recovery.sweep_abandoned_jobs Recovery.mark_abandon_requested
    Recovery.mark_orphaned_jobs_failed Recovery.requeue_job Recovery.claim_failed_job
    Recovery.delete_terminal_job Requests.create_invocation_request
    Requests.create_due_periodic_request Requests.abandon_queued_requests
    Requests.complete_request_row Requests.fail_request_row Scheduling.upsert_job_and_schedule
    Scheduling.supercede_older_requests Scheduling.mark_workflow
    Scheduling.mark_workflow_awaiting_approval Scheduling.mark_workflow_awaiting_input
    Scheduling.reconcile_workflow_lifecycle Scheduling.mark_request_in_progress
    Scheduling.sweep_requests_in_progress Lifecycle.update_config Lifecycle.update_lifecycle_policy
    Lifecycle.mark_deletion_requested Lifecycle.finalize_deleted Lifecycle.apply_completed_job
    Lifecycle.apply_failed_job Lifecycle.resolve_interrupted_workflow
    Lifecycle.try_activate_workflow Lifecycle.expire_cooldown Suspension.mark_suspension_requested
    Suspension.finalize_suspended Suspension.abort_suspension Suspension.restore_from_suspension
    Resolution.try_apply_version_resolution Resolution.try_apply_state_resolution
    Resolution.emit_metrics
step-HasGates s h (Step.session owner w usual) = session-HasGates s owner w usual h
step-HasGates s h (Step.acquire now owner lease tenant) = ground arith
step-HasGates s h (Step.decide_approval id status reason fits) = ground arith
step-HasGates s h (Step.answer id a) = ground arith
step-HasGates s h (Step.expire_approval now p) = ground arith
step-HasGates s h (Step.expire_input now p) = ground arith
step-HasGates s h (Step.sweep_abandoned now p) = ground arith
step-HasGates s h (Step.abandon now id) = ground arith
step-HasGates s h (Step.orphan now p grace) = ground arith
step-HasGates s h (Step.requeue id a below) = ground arith
step-HasGates s h (Step.claim id a) = ground arith
step-HasGates s h (Step.delete_job id) = ground arith
step-HasGates s h (Step.invoke now n) = ground arith
step-HasGates s h (Step.invoke_periodic now n gap) = ground arith
step-HasGates s h (Step.drop_queued ids) = ground arith
step-HasGates s h (Step.close_completed now id o reason result) = ground arith
step-HasGates s h (Step.close_failed now id reason) = ground arith
step-HasGates s h (Step.upsert now id p) = ground arith
step-HasGates s h (Step.supercede version) = ground arith
step-HasGates s h (Step.mark state) = ground arith
step-HasGates s h Step.mark_awaiting_approval = ground arith
step-HasGates s h Step.mark_awaiting_input = ground arith
step-HasGates s h (Step.reconcile now p after) = ground arith
step-HasGates s h (Step.mark_in_progress id) = ground arith
step-HasGates s h (Step.sweep_in_progress p) = ground arith
step-HasGates s h (Step.configure c version) = ground arith
step-HasGates s h (Step.set_policy p) = ground arith
step-HasGates s h (Step.request_deletion now) = ground arith
step-HasGates s h (Step.finish_deletion now) = ground arith
step-HasGates s h (Step.complete now state version le) = ground arith
step-HasGates s h (Step.interrupt now id version le) = ground arith
step-HasGates s h (Step.acknowledge id) = ground arith
step-HasGates s h (Step.activate id) = ground arith
step-HasGates s h (Step.warm_up now p) = ground arith
step-HasGates s h (Step.suspend now id reason stop) = ground arith
step-HasGates s h (Step.finalize now id) = ground arith
step-HasGates s h (Step.abort id) = ground arith
step-HasGates s h (Step.resume id t free) = ground arith
step-HasGates s h (Step.resolve_version r e t id le) = ground arith
step-HasGates s h (Step.resolve_state r st u id le free) = ground arith
step-HasGates s h (Step.emit e le) = ground arith
step-HasGates s h (Step.append_audit a) = ground arith
step-HasGates s h (Step.set_agents a) = ground arith

history-HasGates : {s t : Store} → HasGates s.job → Reach s t → HasGates t.job
history-HasGates h Reach.here = h
history-HasGates h (Reach.next reach step) = step-HasGates _ (history-HasGates h reach) step

abbrev is_crash : Move → Bool
is_crash Move.crash = true
is_crash m = false

abbrev pub has_crashed : Session → Bool
has_crashed (Session.over Exit.crashed) = true
has_crashed session = false

branch-is_crash :
    (e : Env) (h : Held) (b : Branch) → is_crash (Dispatch.resolve_branch e h b) ≡ false
unfolding Dispatch.resolve_branch
branch-is_crash e h b = ground arith

input_branch-is_crash :
    (e : Env) (h : Held) (answer : Option ℕ) (b : Branch)
    → is_crash (Dispatch.resolve_input_branch e h answer b) ≡ false
unfolding Dispatch.resolve_input_branch
input_branch-is_crash e h answer b = ground arith

through-is_crash :
    (g : Option Branches) (f : Branches → Move)
    → is_some g ≡ true
    → ((b : Branches) → is_crash (f b) ≡ false)
    → is_crash (Dispatch.through_gate g f) ≡ false
unfolding Dispatch.through_gate
through-is_crash none f there h = ground arith
through-is_crash (some b) f there h = h b

move_in-is_crash :
    (status : JobStatus) (e : Env) (h : Held)
    → (is_gated status ≡ true → is_some h.job.job_metadata.approval_gate ≡ true)
    → (is_asked status ≡ true → is_some h.job.job_metadata.input_gate ≡ true)
    → is_crash (Dispatch.move_in status e h) ≡ false
unfolding Dispatch.move_in
move_in-is_crash JobStatus.approved e h gate asked =
    through-is_crash _ _ (gate refl)
      (λ g. branch-is_crash e (Dispatch.record_gate_outcome false h) g.accept)
move_in-is_crash JobStatus.rejected e h gate asked =
    through-is_crash _ _ (gate refl)
      (λ g. branch-is_crash e (Dispatch.record_gate_outcome true h) g.refuse)
move_in-is_crash JobStatus.answered e h gate asked =
    through-is_crash _ _ (asked refl) (λ g. input_branch-is_crash e h h.job.input_answer g.accept)
move_in-is_crash JobStatus.input_timed_out e h gate asked =
    through-is_crash _ _ (asked refl) (λ g. input_branch-is_crash e h none g.refuse)
move_in-is_crash JobStatus.awaiting_next e h gate asked = refl
move_in-is_crash JobStatus.pending e h gate asked = refl
move_in-is_crash _ e h gate asked = refl

follow-has_crashed :
    (e : Env) (x : Calls) (c : List (ℕ × ℕ)) (m : Move) (s : Store)
    → is_crash m ≡ false
    → has_crashed (Dispatch.follow e x c m s).1 ≡ false
unfolding Dispatch.follow Dispatch.launch_operation Dispatch.send_launch
follow-has_crashed e x c Move.crash s h = ground (arith, h)
follow-has_crashed e x c (Move.launch k) s h = ground arith
follow-has_crashed e x c (Move.finish k result) s h = refl
follow-has_crashed e x c Move.skip s h = refl

begin-has_crashed :
    (e : Env) (x : Calls) (c : List (ℕ × ℕ)) (h : Held) (s : Store)
    → HasGate h.job
    → has_crashed (Dispatch.begin_job e x c h s).1 ≡ false
unfolding Dispatch.begin_job
begin-has_crashed e x c h s gate = ground (
  arith,
  follow-has_crashed e x c (Dispatch.next_move e h) s
      (move_in-is_crash h.job.status e h gate.approval gate.input),
)

taken-HasGate :
    (e : Env) (j : Job)
    → HasGate j
    → HasGate (record j { owner = some e.session_id; lease_expires_at = some (e.now + e.lease) })
taken-HasGate e j h = record { approval = h.approval; input = h.input }

poll-has_crashed :
    (e : Env) (x : Calls) (c : List (ℕ × ℕ)) (s : Store)
    → HasGates s.job
    → has_crashed (Dispatch.poll e x c s).1 ≡ false
unfolding Dispatch.poll Jobs.acquire_job
poll-has_crashed e x c s h = elim (Option-cases s.job) [
  | inl p ↦ ground (arith, p)
  | inr (j, p) ↦
      let taken = record j {
        owner = some e.session_id;
        lease_expires_at = some (e.now + e.lease);
      } in
      ground (
        arith,
        p,
        begin-has_crashed e x c (record { job = taken; this_op = [] })
            (record s { job = some taken }) (taken-HasGate e j (ground (arith, p, h))),
      )
]

-- After any history of statements from a workflow whose job carries the branches of its gate, or has no
-- gate, a look for a job, whichever of its calls fail, does not crash on a gate that is not there: it
-- goes on looking, waits for the worker, or leaves with an error.
pub reached-has_crashed :
    {s t : Store} (e : Env) (x : Calls) (c : List (ℕ × ℕ))
    → HasGates s.job
    → Reach s t
    → has_crashed (Dispatch.poll e x c t).1 ≡ false
reached-has_crashed {t = t} e x c h reach = poll-has_crashed e x c t (history-HasGates h reach)
