-- ===== src/Session/Leaving.antt =====
-- internal/rpcworker/rpcworker.go: a session that is done with an operation gives the job back.
use boundflow.Base.{ℕ, ◌≡◌, ◌≢◌, refl, Bool, true, false, none, some, arith, is}
use boundflow.Domain.Status.{JobStatus, RunOutcome}
use boundflow.Store.{Store}
use boundflow.Store.Jobs
use boundflow.System.{SessionWrite, session_write}
use boundflow.Session
use boundflow.Session.{OperationResult, CancelReason, Held, Env, Calls, let_go, record_snapshot}
use boundflow.Session.Endings
use boundflow.Session.Dispatch.{Exit, Session}
use boundflow.Session.Machine
use boundflow.Session.Machine.{Event, WorkerMessage, move}

-- The session owns the workflow's job.
abbrev pub owns : ℕ → Store → Bool
owns owner s = elim s.job [ none ↦ false | some j ↦ is j.owner owner ]

-- The session is done with its operation: it is idle again, or it ended without a panic.
unfoldable pub has_left : Session → Bool
has_left Session.idle = true
has_left (Session.polling c) = true
has_left (Session.over Exit.clean) = true
has_left (Session.over Exit.broken) = true
has_left q = false

unfoldable pub is_held : Session → Bool
is_held (Session.waiting h) = true
is_held (Session.busy h) = true
is_held (Session.cancelling h) = true
is_held q = false

let_go-owns :
    (e : Env) (x : Calls) (s : Store) → x.release ≡ false → owns e.session_id (let_go e x s) ≡ false
unfolding session_write Jobs.release_job
let_go-owns e x s r = ground (arith, r)

module _ (e : Env) (x : Calls) (kept : x.release ≡ false) where
  complete-owns :
      (h : Held) (r : OperationResult) (s : Store)
      → owns e.session_id (Endings.complete_operation e x h r s) ≡ false
  unfolding Endings.complete_operation
  complete-owns h r s = let_go-owns e x _ kept

  fail-owns :
      (h : Held) (reason : ℕ) (s : Store)
      → owns e.session_id (Endings.fail_operation e x h reason s) ≡ false
  unfolding Endings.fail_operation
  fail-owns h reason s = let_go-owns e x _ kept

  stop-owns :
      (h : Held) (r : OperationResult) (s : Store)
      → owns e.session_id (Machine.take_stop e x h r s) ≡ false
  unfolding Machine.take_stop Endings.soft_fail_operation Endings.suspend_operation
  stop-owns h r s = go r.cancel_reason
    where
      go :
          (reason : CancelReason)
          → owns e.session_id (elim reason [
            | CancelReason.suspension ↦ Endings.suspend_operation e x h s
            | CancelReason.timeout ↦
                Endings.soft_fail_operation e x h RunOutcome.operation_timeout
                  Endings.timed_out_reason s
            | CancelReason.unspecified ↦ Endings.fail_operation e x h r.message s
          ])
            ≡ false
      go CancelReason.suspension = let_go-owns e x _ kept
      go CancelReason.timeout = let_go-owns e x _ kept
      go CancelReason.unspecified = fail-owns h r.message s

  -- What a move leaves: a session that is done with its operation does not own the job.
  IsLeft : Store × Session → Type 0
  IsLeft r = has_left r.1 ≡ true → owns e.session_id r.0 ≡ false

  ack-IsLeft : (h : Held) (m : WorkerMessage) (s : Store) → IsLeft (Machine.take_ack e x h m s)
  unfolding Machine.take_ack Machine.start_job IsLeft has_left
  ack-IsLeft h m s = ground (
    arith,
    fail-owns h 0 s,
    let_go-owns e x (session_write e.session_id (SessionWrite.set_status JobStatus.running) s).0
        kept,
  )

  result-IsLeft :
      (h : Held) (r : OperationResult) (s : Store) → IsLeft (Machine.take_result e x h r s)
  unfolding Machine.take_result Machine.record_interim Machine.report_interim IsLeft has_left
  result-IsLeft h r s =
      let t =
        (session_write e.session_id (SessionWrite.report (Session.job_totals e.floats h).agents)
          s).0 in
      ground (
        arith,
        complete-owns h r s,
        fail-owns h r.message s,
        fail-owns h 0 s,
        fail-owns h Machine.interim_reason s,
        fail-owns h Machine.interim_reason t,
      )

  cancelled-IsLeft :
      (h : Held) (r : OperationResult) (s : Store) → IsLeft (Machine.take_cancelled e x h r s)
  unfolding Machine.take_cancelled IsLeft has_left
  cancelled-IsLeft h r s = ground (arith, complete-owns h r s, stop-owns h r s)

  update-IsLeft :
      (h : Held) (m : WorkerMessage) (s : Store)
      → IsLeft (Machine.take_update e x h m s) × IsLeft (Machine.take_cancel_ack e x h m s)
  unfolding Machine.take_update Machine.take_cancel_ack IsLeft has_left
  update-IsLeft h (WorkerMessage.update id none) s =
      (ground (arith, fail-owns h 0 s), ground (arith, fail-owns h 0 s))
  update-IsLeft h (WorkerMessage.update id (some r)) s =
      let k = record_snapshot r h in
      (
        ground (arith, fail-owns k 0 s, result-IsLeft k r s),
        ground (arith, fail-owns h 0 s, cancelled-IsLeft k r s),
      )
  update-IsLeft h m s = (ground (arith, fail-owns h 0 s), ground (arith, fail-owns h 0 s))

-- However an operation ends (completed, failed, stopped, timed out, answered wrongly or not at all, its
-- worker lost, a call failed) other than by a failed renewal of the lease, a session that held it and
-- is idle again or has ended without a panic does not own the job any more, if the release itself goes
-- through.
pub move-IsLeft :
    (e : Env) (x : Calls) (q : Session) (event : Event) (s : Store)
    → x.release ≡ false
    → event ≢ Event.lease_lost
    → is_held q ≡ true
    → has_left (move e x q event s).1 ≡ true
    → owns e.session_id (move e x q event s).0 ≡ false
unfolding move is_held IsLeft has_left
move-IsLeft e x (Session.waiting h) (Event.message m) s kept renewed held left =
    ack-IsLeft e x kept h m s left
move-IsLeft e x (Session.busy h) (Event.message m) s kept renewed held left =
    (update-IsLeft e x kept h m s).0 left
move-IsLeft e x (Session.cancelling h) (Event.message m) s kept renewed held left =
    (update-IsLeft e x kept h m s).1 left
move-IsLeft e x (Session.waiting h) Event.lease_lost s kept renewed held left =
    absurd (renewed refl)
move-IsLeft e x (Session.waiting h) event s kept renewed held left =
    ground (arith, left, fail-owns e x kept h 0 s, let_go-owns e x s kept)
move-IsLeft e x (Session.busy h) Event.lease_lost s kept renewed held left = absurd (renewed refl)
move-IsLeft e x (Session.busy h) event s kept renewed held left =
    ground (arith, left, fail-owns e x kept h 0 s)
move-IsLeft e x (Session.cancelling h) Event.lease_lost s kept renewed held left =
    absurd (renewed refl)
move-IsLeft e x (Session.cancelling h) event s kept renewed held left =
    ground (arith, left, fail-owns e x kept h 0 s)
move-IsLeft e x q event s kept renewed held left = ground (arith, held)
