-- ===== src/System.antt =====
-- The whole system over one workflow, as the statements that its processes run against the database
-- in any order: the server, several schedulers and several worker sessions. Every statement is
-- atomic. What a process read before its statement enters as an argument, with what still holds of it
-- when the statement runs: versions only grow, so a version read earlier is at most the present one.
pub mod Invariant
pub mod Progress
pub mod History
pub mod Fencing
pub mod Hold
pub mod Handlers
pub mod Completion
pub mod Runs
pub mod Reached
pub mod Monotone
pub mod Traces
pub mod Groups
use boundflow.Base.{ℕ, ◌≤◌, ◌<◌, ◌≡◌, Bool, true, false, Option, List, Map, is_some, ◌&&◌, ltb}
use boundflow.Domain.Status.{
  LifecycleState, WorkflowState, JobStatus, RunOutcome, is_suspended, is_resolvable,
}
use boundflow.Domain.Policy.{Policy}
use boundflow.Domain.Metrics.{AgentMetrics, AgentState}
use boundflow.Domain.Audit.{AuditEvent}
use boundflow.Domain.Rows.{Workflow, WorkflowConfig}
use boundflow.Store.{Store}
use boundflow.Store.Jobs
use boundflow.Store.Jobs.{Metrics, Operation}
use boundflow.Store.Gates
use boundflow.Store.Gates.{Opening}
use boundflow.Store.Recovery
use boundflow.Store.Requests
use boundflow.Store.Requests.{NewRequest}
use boundflow.Store.Scheduling
use boundflow.Store.Scheduling.{Plan}
use boundflow.Store.Lifecycle
use boundflow.Store.Suspension
use boundflow.Store.Suspension.{Target}
use boundflow.Store.Resolution
use boundflow.Store.Resolution.{Emission}
use boundflow.Scheduler.{max_job_attempts}

-- One statement of a worker session, the owner first.
pub data SessionWrite : Type 0 where
  renew : ℕ → ℕ → SessionWrite
  release : SessionWrite
  set_status : JobStatus → SessionWrite
  fail : ℕ → Metrics → SessionWrite
  finish : JobStatus → RunOutcome → ℕ → Option ℕ → Metrics → SessionWrite
  report : Map AgentMetrics → SessionWrite
  dispatch : Operation → Metrics → SessionWrite
  advance : ℕ → JobStatus → Operation → ℕ → Metrics → SessionWrite
  ask_approval : ℕ → Opening → Metrics → SessionWrite
  ask_input : ℕ → Opening → Metrics → SessionWrite

-- The store after the statement, and whether it reached the row.
unfoldable pub session_write : ℕ → SessionWrite → Store → Store × Bool
session_write owner (renew now lease) s =
    let r = Jobs.renew_job_lease now owner lease s in (r.0, r.1)
session_write owner release s = Jobs.release_job owner s
session_write owner (set_status status) s = Jobs.update_job_status owner status s
session_write owner (fail reason m) s = Jobs.fail_job_with_metrics owner reason m s
session_write owner (finish status outcome reason result m) s =
    Jobs.update_job_status_with_metrics owner status outcome reason result m s
session_write owner (report agents) s = Jobs.update_job_metrics owner agents s
session_write owner (dispatch op m) s = Jobs.dispatch_job owner op m s
session_write owner (advance now status op delay m) s =
    Jobs.update_job_with_metrics now owner status op delay m s
session_write owner (ask_approval now o m) s = Gates.park_for_approval now owner o m s
session_write owner (ask_input now o m) s = Gates.park_for_input now owner o m s

-- The statements that a session runs (internal/rpcworker): it sets a job running or back to pending,
-- completes it, advances it to its next operation, and parks it with the branches of its gate.
abbrev pub is_usual : SessionWrite → Bool
is_usual (set_status JobStatus.pending) = true
is_usual (set_status JobStatus.running) = true
is_usual (set_status _) = false
is_usual (finish JobStatus.completed outcome reason result m) = true
is_usual (finish _ outcome reason result m) = false
is_usual (advance now JobStatus.awaiting_next op delay m) = true
is_usual (advance now _ op delay m) = false
is_usual (ask_approval now o m) = is_some o.branches.approval_gate
is_usual (ask_input now o m) = is_some o.branches.input_gate
is_usual w = true

-- ApproveJob and RejectJob.
abbrev pub is_decision : JobStatus → Bool
is_decision JobStatus.approved = true
is_decision JobStatus.rejected = true
is_decision _ = false

-- The WHERE of TryApplyStateResolution.
abbrev pub may_resolve : ℕ → Workflow → Bool
may_resolve resolved w = ltb w.lifecycle_last_resolved resolved && is_resolvable w.workflow_state

-- One statement of any process. A resolution that would write the state suspended meets a row that
-- refuses it; Traces shows that every resolution of the code is such a one.
pub data Step (s : Store) : Store → Type 0 where
  session : (owner : ℕ) (w : SessionWrite) → is_usual w ≡ true → Step s (session_write owner w s).0
  acquire : (now owner lease tenant : ℕ) → Step s (Jobs.acquire_job now owner lease tenant s).0
  decide_approval :
      (id : ℕ) (status : JobStatus) (reason : ℕ)
      → is_decision status ≡ true
      → Step s (Gates.resolve_approval id status reason s).0
  answer : (id : ℕ) (a : Option ℕ) → Step s (Gates.resolve_input id a s).0
  expire_approval : (now p : ℕ) → Step s (Gates.sweep_expired_approvals now p s).0
  expire_input : (now p : ℕ) → Step s (Gates.sweep_expired_inputs now p s).0
  sweep_abandoned : (now p : ℕ) → Step s (Recovery.sweep_abandoned_jobs now p s).0
  abandon : (now id : ℕ) → Step s (Recovery.mark_abandon_requested now id s).0
  orphan : (now p grace : ℕ) → Step s (Recovery.mark_orphaned_jobs_failed now p grace s).0
  requeue :
      (id attempts : ℕ)
      → attempts < max_job_attempts
      → Step s (Recovery.requeue_job id attempts s).0
  claim : (id attempts : ℕ) → Step s (Recovery.claim_failed_job id attempts s).0
  delete_job : (id : ℕ) → Step s (Recovery.delete_terminal_job id s).0
  invoke : (now : ℕ) (n : NewRequest) → Step s (Requests.create_invocation_request now n s).0
  invoke_periodic :
      (now : ℕ) (n : NewRequest) (gap : ℕ)
      → Step s (Requests.create_due_periodic_request now n gap s).0
  drop_queued : (ids : Option (List ℕ)) → Step s (Requests.abandon_queued_requests ids s).0
  close_completed :
      (now id : ℕ) (o : RunOutcome) (reason : ℕ) (result : Option ℕ)
      → Step s (Requests.complete_request_row now id o reason result s)
  close_failed : (now id reason : ℕ) → Step s (Requests.fail_request_row now id reason s)
  upsert : (now id : ℕ) (p : Plan) → Step s (Scheduling.upsert_job_and_schedule now id p s).0
  supercede : (version : ℕ) → Step s (Scheduling.supercede_older_requests version s)
  mark : (state : LifecycleState) → Step s (Scheduling.mark_workflow state s)
  mark_awaiting_approval : Step s (Scheduling.mark_workflow_awaiting_approval s)
  mark_awaiting_input : Step s (Scheduling.mark_workflow_awaiting_input s)
  reconcile : (now p after : ℕ) → Step s (Scheduling.reconcile_workflow_lifecycle now p after s).0
  mark_in_progress : (id : ℕ) → Step s (Scheduling.mark_request_in_progress id s)
  sweep_in_progress : (p : ℕ) → Step s (Scheduling.sweep_requests_in_progress p s)
  configure : (c : WorkflowConfig) (version : ℕ) → Step s (Lifecycle.update_config c version s)
  set_policy : (p : Policy) → Step s (Lifecycle.update_lifecycle_policy p s)
  request_deletion : (now : ℕ) → Step s (Lifecycle.mark_deletion_requested now s).0
  finish_deletion : (now : ℕ) → Step s (Lifecycle.finalize_deleted now s)
  complete :
      (now : ℕ) (state : LifecycleState) (version : ℕ)
      → version ≤ s.workflow.target_version
      → Step s (Lifecycle.apply_completed_job now state version s).0
  interrupt :
      (now id version : ℕ)
      → version ≤ s.workflow.target_version
      → Step s
          (Lifecycle.apply_failed_job now id LifecycleState.interrupted WorkflowState.disabled
            version s).0
  acknowledge : (id : ℕ) → Step s (Lifecycle.resolve_interrupted_workflow id s).0
  activate : (id : ℕ) → Step s (Lifecycle.try_activate_workflow id s).0
  warm_up : (now p : ℕ) → Step s (Lifecycle.expire_cooldown now p s).0
  suspend :
      (now id reason : ℕ) (stop : Bool)
      → Step s (Suspension.mark_suspension_requested now id reason stop s).0
  finalize : (now id : ℕ) → Step s (Suspension.finalize_suspended now id s)
  abort : (id : ℕ) → Step s (Suspension.abort_suspension id s)
  resume :
      (id : ℕ) (t : Target)
      → is_suspended t.state ≡ false
      → Step s (Suspension.restore_from_suspension id t s).0
  resolve_version :
      (resolved expected target id : ℕ)
      → resolved ≤ s.workflow.current_version
      → Step s (Resolution.try_apply_version_resolution resolved expected target id s).0
  resolve_state :
      (resolved : ℕ) (state : WorkflowState) (until : Option ℕ) (id : ℕ)
      → resolved ≤ s.workflow.current_version
      → (is_suspended state ≡ true → may_resolve resolved s.workflow ≡ false)
      → Step s (Resolution.try_apply_state_resolution resolved state until id s).0
  emit :
      (e : Emission)
      → e.version ≤ s.workflow.current_version
      → Step s (Resolution.emit_metrics e s).0
  append_audit : (a : List AuditEvent) → Step s (record s { audit = a })
  set_agents : (a : Map AgentState) → Step s (record s { agents = a })

-- Any history of statements.
pub data Reach (s : Store) : Store → Type 0 where
  here : Reach s s
  next : {t u : Store} → Reach s t → Step t u → Reach s u
