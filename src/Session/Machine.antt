-- ===== src/Session/Machine.antt =====
-- internal/rpcworker/rpcworker.go: the loop of WorkerSession over its states. A message of the
-- worker, a timer, a signal or the end of the stream is an event, and a move handles one of them.
use boundflow.Base.{ℕ, true, ◌==◌, Option, none, some, List, [], ◌∷◌, if◌then◌else◌}
use boundflow.Domain.Status.{JobStatus, RunOutcome}
use boundflow.Store.{Store}
use boundflow.System.{SessionWrite, session_write}
use boundflow.Session.{
  OperationStatus, CancelReason, OperationResult, Held, Env, Calls, write, let_go, record_snapshot,
  job_totals,
}
use boundflow.Session.Endings.{
  complete_operation, fail_operation, soft_fail_operation, suspend_operation, timed_out_reason,
}
use boundflow.Session.Dispatch.{Exit, Session, poll}

-- An update may lack its result.
pub data WorkerMessage : Type 0 where
  ready : List (ℕ × ℕ) → WorkerMessage
  update : ℕ → Option OperationResult → WorkerMessage
  other : WorkerMessage

-- `elapsed` is the timer of the state: the interval between looks for a job, the wait for an answer
-- of the worker, or the timeout of the operation. `keep_lease` is the tick of the lease's goroutine.
-- Where a renewal fails or finds another owner (`lease_lost`) that goroutine ends, and with it the
-- session: the loop sees the end of its stream, and nobody is left to run ReleaseJob.
pub data Event : Type 0 where
  disconnect : Event
  elapsed : Event
  keep_lease lease_lost : Event
  abandon : ℕ → Event
  message : WorkerMessage → Event

-- The text "failed to record interim metrics".
abbrev pub interim_reason : ℕ
interim_reason = 4

-- failOperation, and the return of the loop.
abbrev pub fail_and_leave : Env → Calls → Held → ℕ → Exit → Store → Store × Session
fail_and_leave e x h reason exit s = (fail_operation e x h reason s, Session.over exit)

abbrev pub renewed : Env → Session → Store → Store × Session
renewed e session s = (write e (SessionWrite.renew e.now e.lease) s, session)

unfoldable pub start_job : Env → Calls → Held → Store → Store × Session
start_job e x h s =
    if x.report
    then fail_and_leave e x h 0 Exit.broken s
    else let (t, updated) =
        session_write e.session_id (SessionWrite.set_status JobStatus.running) s in
      if updated then (t, Session.busy h) else (let_go e x t, Session.over Exit.clean)

-- The first answer of the worker.
unfoldable pub take_ack : Env → Calls → Held → WorkerMessage → Store → Store × Session
take_ack e x h (WorkerMessage.update id answer) s =
    if id == h.job.request_id
    then (elim answer [
      | none ↦ (s, Session.over Exit.crashed)
      | some r ↦ elim r.status [
        | OperationStatus.in_progress ↦ start_job e x h s
        | _ ↦ fail_and_leave e x h 0 Exit.broken s
      ]
    ])
    else fail_and_leave e x h 0 Exit.broken s
take_ack e x h m s = fail_and_leave e x h 0 Exit.broken s

-- recordInterim, where the report names an agent.
unfoldable pub report_interim : Env → Calls → Held → Store → Store × Session
report_interim e x h s =
    let (t, owned) =
      session_write e.session_id (SessionWrite.report (job_totals e.floats h).agents) s in
    if x.report
    then fail_and_leave e x h interim_reason Exit.broken s
    else if owned
    then (t, Session.busy h)
    else fail_and_leave e x h interim_reason Exit.broken t

unfoldable pub record_interim : Env → Calls → Held → OperationResult → Store → Store × Session
record_interim e x h r s = elim r.agent_state_updates [
  | [] ↦ (s, Session.busy h)
  | m ∷ rest ↦ report_interim e x h s
]

-- The held job with the snapshot of an update, before the update is looked at further.
abbrev pub snapshot_of : Option OperationResult → Held → Held
snapshot_of none h = h
snapshot_of (some r) h = record_snapshot r h

-- `switch update.Update.Result.Status` of ConnectedBusy.
unfoldable pub take_result : Env → Calls → Held → OperationResult → Store → Store × Session
take_result e x h r s = elim r.status [
  | OperationStatus.completed ↦ (complete_operation e x h r s, Session.idle)
  | OperationStatus.failed ↦ (fail_operation e x h r.message s, Session.idle)
  | OperationStatus.in_progress ↦ record_interim e x h r s
  | OperationStatus.cancelled ↦ (fail_operation e x h 0 s, Session.idle)
  | OperationStatus.unspecified ↦ (s, Session.unattended h)
]

unfoldable pub take_update : Env → Calls → Held → WorkerMessage → Store → Store × Session
take_update e x h (WorkerMessage.update id answer) s =
    if id == h.job.request_id
    then (elim answer [
      | none ↦ (s, Session.over Exit.crashed)
      | some r ↦ take_result e x (record_snapshot r h) r s
    ])
    else fail_and_leave e x (snapshot_of answer h) 0 Exit.broken s
take_update e x h m s = fail_and_leave e x h 0 Exit.broken s

-- cancelOperation.
abbrev pub cancel : Env → Calls → Held → Store → Store × Session
cancel e x h s = if x.send then fail_and_leave e x h 0 Exit.broken s else (s, Session.cancelling h)

-- `switch ack.Update.Result.CancelReason`.
unfoldable pub take_stop : Env → Calls → Held → OperationResult → Store → Store
take_stop e x h r s = elim r.cancel_reason [
  | CancelReason.suspension ↦ suspend_operation e x h s
  | CancelReason.timeout ↦ soft_fail_operation e x h RunOutcome.operation_timeout timed_out_reason s
  | CancelReason.unspecified ↦ fail_operation e x h r.message s
]

-- `switch ack.Update.Result.Status` of CancelRequested.
unfoldable pub take_cancelled : Env → Calls → Held → OperationResult → Store → Store × Session
take_cancelled e x h r s = elim r.status [
  | OperationStatus.completed ↦ (complete_operation e x h r s, Session.idle)
  | OperationStatus.failed ↦ (take_stop e x h r s, Session.idle)
  | OperationStatus.cancelled ↦ (take_stop e x h r s, Session.idle)
  | OperationStatus.in_progress ↦ (s, Session.cancelling h)
  | OperationStatus.unspecified ↦ (s, Session.unattended h)
]

unfoldable pub take_cancel_ack : Env → Calls → Held → WorkerMessage → Store → Store × Session
take_cancel_ack e x h (WorkerMessage.update id answer) s =
    if id == h.job.request_id
    then (elim answer [
      | none ↦ (s, Session.over Exit.crashed)
      | some r ↦ take_cancelled e x (record_snapshot r h) r s
    ])
    else fail_and_leave e x h 0 Exit.broken s
take_cancel_ack e x h m s = fail_and_leave e x h 0 Exit.broken s

-- The calls of a session whose lease nobody keeps: ReleaseJob is not run.
abbrev pub unkept : Calls → Calls
unkept x = record x { release = true }

-- One event in each state; what the state does not wait for leaves it as it is.
unfoldable pub move : Env → Calls → Session → Event → Store → Store × Session
move e x Session.idle Event.disconnect s = (s, Session.over Exit.clean)
move e x Session.idle (Event.message (WorkerMessage.ready capabilities)) s =
    (s, Session.polling capabilities)
move e x Session.idle (Event.message m) s = (s, Session.over Exit.broken)
move e x (Session.polling capabilities) Event.disconnect s = (s, Session.over Exit.clean)
move e x (Session.polling capabilities) Event.elapsed s = poll e x capabilities s
move e x (Session.waiting h) Event.disconnect s = (let_go e x s, Session.over Exit.clean)
move e x (Session.waiting h) Event.elapsed s =
    if x.send then fail_and_leave e x h 0 Exit.broken s else (let_go e x s, Session.over Exit.clean)
move e x (Session.waiting h) Event.keep_lease s = renewed e (Session.waiting h) s
move e x (Session.waiting h) Event.lease_lost s = (s, Session.over Exit.clean)
move e x (Session.waiting h) (Event.message m) s = take_ack e x h m s
move e x (Session.busy h) Event.disconnect s = fail_and_leave e x h 0 Exit.clean s
move e x (Session.busy h) Event.elapsed s = cancel e x h s
move e x (Session.busy h) Event.keep_lease s = renewed e (Session.busy h) s
move e x (Session.busy h) Event.lease_lost s = fail_and_leave e (unkept x) h 0 Exit.clean s
move e x (Session.busy h) (Event.abandon id) s =
    if id == h.job.request_id then cancel e x h s else (s, Session.busy h)
move e x (Session.busy h) (Event.message m) s = take_update e x h m s
move e x (Session.cancelling h) Event.disconnect s = fail_and_leave e x h 0 Exit.clean s
move e x (Session.cancelling h) Event.elapsed s = fail_and_leave e x h 0 Exit.broken s
move e x (Session.cancelling h) Event.keep_lease s = renewed e (Session.cancelling h) s
move e x (Session.cancelling h) Event.lease_lost s = fail_and_leave e (unkept x) h 0 Exit.clean s
move e x (Session.cancelling h) (Event.message m) s = take_cancel_ack e x h m s
move e x session event s = (s, session)
