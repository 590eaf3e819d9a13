-- ===== src/Session/Moves.antt =====
-- internal/rpcworker/rpcworker.go: every move of a session, and every run of one among the other
-- processes, is a history of statements.
use boundflow.Base.{
  ℕ, ◌≤◌, ◌≡◌, ◌==◌, refl, Bool, true, false, none, some, [], ◌∷◌, arith, Map, if◌then◌else◌,
}
use boundflow.Domain.Status.{JobStatus, RunOutcome}
use boundflow.Domain.Metrics.{AgentMetrics}
use boundflow.Store.{Store}
use boundflow.System.{SessionWrite, session_write, Reach}
use boundflow.System.Runs.{Reach-trans}
use boundflow.Session.{
  OperationStatus, CancelReason, OperationResult, Held, Env, Calls, job_totals, record_snapshot,
}
use boundflow.Session.Endings
use boundflow.Session.Dispatch.{Exit, Session}
use boundflow.Session.Machine
use boundflow.Session.Machine.{Event, WorkerMessage, move, fail_and_leave}
use boundflow.Session.Refines.{
  wrote, let_go-Reach, write-target, complete_operation-Reach, fail_operation-Reach,
  soft_fail-Reach, suspend_operation-Reach,
}

-- The version of the job that a session holds was allocated by its workflow.
unfoldable pub IsKnown : Session → Store → Type 0
IsKnown (Session.waiting h) s = h.job.version ≤ s.workflow.target_version
IsKnown (Session.busy h) s = h.job.version ≤ s.workflow.target_version
IsKnown (Session.cancelling h) s = h.job.version ≤ s.workflow.target_version
IsKnown (Session.unattended h) s = h.job.version ≤ s.workflow.target_version
IsKnown session s = Unit {0}

-- A move runs statements of the system only, and holds such a job after it.
pub record IsSound (s : Store) (r : Store × Session) : Type 0 where
  pub history : Reach s r.0
  pub known : IsKnown r.1 r.0

pub either-IsSound :
    {s : Store} {p q : Store × Session} (b : Bool)
    → IsSound s p
    → IsSound s q
    → IsSound s (if b then p else q)
either-IsSound true p q = p
either-IsSound false p q = q

pub snapshot-version : (r : OperationResult) (h : Held) → (record_snapshot r h).job ≡ h.job
unfolding record_snapshot
snapshot-version r h = ground arith

-- A session that still holds its job after one statement of its own.
pub after-write :
    (e : Env) (w : SessionWrite) (h : Held) (s : Store)
    → h.job.version ≤ s.workflow.target_version
    → h.job.version ≤ (session_write e.session_id w s).0.workflow.target_version
after-write e w h s le = ground (arith, le, write-target e.session_id w s)

module _ (e : Env) (x : Calls) (h : Held) (s : Store)
    (le : h.job.version ≤ s.workflow.target_version) where
  pub leave-IsSound : (reason : ℕ) (exit : Exit) → IsSound s (fail_and_leave e x h reason exit s)
  unfolding IsKnown
  leave-IsSound reason exit = record {
    history = fail_operation-Reach e x h reason s le;
    known = tt;
  }

  pub cancel-IsSound : IsSound s (Machine.cancel e x h s)
  unfolding IsKnown
  cancel-IsSound =
      either-IsSound x.send (leave-IsSound 0 Exit.broken)
        (record { history = Reach.here; known = le })

  start_job-IsSound : IsSound s (Machine.start_job e x h s)
  unfolding Machine.start_job IsKnown
  start_job-IsSound =
      let w = SessionWrite.set_status JobStatus.running in
      let r = session_write e.session_id w s in
      let k : Reach s r.0 = wrote e w s refl in
      either-IsSound x.report (leave-IsSound 0 Exit.broken) (
        either-IsSound r.1 (record { history = k; known = after-write e w h s le })
          (record { history = Reach-trans k (let_go-Reach e x r.0); known = tt }))

  pub take_ack-IsSound : (m : WorkerMessage) → IsSound s (Machine.take_ack e x h m s)
  unfolding Machine.take_ack IsKnown
  take_ack-IsSound (WorkerMessage.ready c) = leave-IsSound 0 Exit.broken
  take_ack-IsSound WorkerMessage.other = leave-IsSound 0 Exit.broken
  take_ack-IsSound (WorkerMessage.update id none) =
      either-IsSound (id == h.job.request_id) (record { history = Reach.here; known = tt })
        (leave-IsSound 0 Exit.broken)
  take_ack-IsSound (WorkerMessage.update id (some r)) =
      either-IsSound (id == h.job.request_id) (go r.status) (leave-IsSound 0 Exit.broken)
    where
      go :
          (status : OperationStatus)
          → IsSound s (elim status [
            | OperationStatus.in_progress ↦ Machine.start_job e x h s
            | _ ↦ fail_and_leave e x h 0 Exit.broken s
          ])
      go OperationStatus.in_progress = start_job-IsSound
      go OperationStatus.unspecified = leave-IsSound 0 Exit.broken
      go OperationStatus.completed = leave-IsSound 0 Exit.broken
      go OperationStatus.failed = leave-IsSound 0 Exit.broken
      go OperationStatus.cancelled = leave-IsSound 0 Exit.broken

  report_interim-IsSound : IsSound s (Machine.report_interim e x h s)
  unfolding Machine.report_interim IsKnown
  report_interim-IsSound =
      let w = SessionWrite.report (job_totals e.floats h).agents in
      let r = session_write e.session_id w s in
      let k : Reach s r.0 = wrote e w s refl in
      let known = after-write e w h s le in
      either-IsSound x.report (leave-IsSound Machine.interim_reason Exit.broken) (
        either-IsSound r.1 (record { history = k; known = known })
          (record {
            history = Reach-trans k (fail_operation-Reach e x h Machine.interim_reason r.0 known);
            known = tt;
          }))

  record_interim-IsSound : (r : OperationResult) → IsSound s (Machine.record_interim e x h r s)
  unfolding Machine.record_interim IsKnown
  record_interim-IsSound r = go r.agent_state_updates
    where
      go :
          (updates : Map AgentMetrics)
          → IsSound s (elim updates [
            | [] ↦ (s, Session.busy h)
            | m ∷ rest ↦ Machine.report_interim e x h s
          ])
      go [] = record { history = Reach.here; known = le }
      go (m ∷ rest) = report_interim-IsSound

  pub take_result-IsSound : (r : OperationResult) → IsSound s (Machine.take_result e x h r s)
  unfolding Machine.take_result IsKnown
  take_result-IsSound r = go r.status
    where
      go :
          (status : OperationStatus)
          → IsSound s (elim status [
            | OperationStatus.completed ↦ (Endings.complete_operation e x h r s, Session.idle)
            | OperationStatus.failed ↦ (Endings.fail_operation e x h r.message s, Session.idle)
            | OperationStatus.in_progress ↦ Machine.record_interim e x h r s
            | OperationStatus.cancelled ↦ (Endings.fail_operation e x h 0 s, Session.idle)
            | OperationStatus.unspecified ↦ (s, Session.unattended h)
          ])
      go OperationStatus.completed = record {
        history = complete_operation-Reach e x h r s le;
        known = tt;
      }
      go OperationStatus.failed = record {
        history = fail_operation-Reach e x h r.message s le;
        known = tt;
      }
      go OperationStatus.in_progress = record_interim-IsSound r
      go OperationStatus.cancelled = record {
        history = fail_operation-Reach e x h 0 s le;
        known = tt;
      }
      go OperationStatus.unspecified = record { history = Reach.here; known = le }

  take_stop-Reach : (r : OperationResult) → Reach s (Machine.take_stop e x h r s)
  unfolding Machine.take_stop
  take_stop-Reach r = go r.cancel_reason
    where
      go :
          (reason : CancelReason)
          → Reach s (elim reason [
            | CancelReason.suspension ↦ Endings.suspend_operation e x h s
            | CancelReason.timeout ↦
                Endings.soft_fail_operation e x h RunOutcome.operation_timeout
                  Endings.timed_out_reason s
            | CancelReason.unspecified ↦ Endings.fail_operation e x h r.message s
          ])
      go CancelReason.suspension = suspend_operation-Reach e x h s le
      go CancelReason.timeout =
          soft_fail-Reach e x h RunOutcome.operation_timeout Endings.timed_out_reason s le
      go CancelReason.unspecified = fail_operation-Reach e x h r.message s le

  pub take_cancelled-IsSound : (r : OperationResult) → IsSound s (Machine.take_cancelled e x h r s)
  unfolding Machine.take_cancelled IsKnown
  take_cancelled-IsSound r = go r.status
    where
      go :
          (status : OperationStatus)
          → IsSound s (elim status [
            | OperationStatus.completed ↦ (Endings.complete_operation e x h r s, Session.idle)
            | OperationStatus.failed ↦ (Machine.take_stop e x h r s, Session.idle)
            | OperationStatus.cancelled ↦ (Machine.take_stop e x h r s, Session.idle)
            | OperationStatus.in_progress ↦ (s, Session.cancelling h)
            | OperationStatus.unspecified ↦ (s, Session.unattended h)
          ])
      go OperationStatus.completed = record {
        history = complete_operation-Reach e x h r s le;
        known = tt;
      }
      go OperationStatus.failed = record { history = take_stop-Reach r; known = tt }
      go OperationStatus.cancelled = record { history = take_stop-Reach r; known = tt }
      go OperationStatus.in_progress = record { history = Reach.here; known = le }
      go OperationStatus.unspecified = record { history = Reach.here; known = le }
