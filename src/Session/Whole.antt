-- ===== src/Session/Whole.antt =====
-- internal/rpcworker/rpcworker.go: whole runs of a session among the other processes.
use boundflow.Base.{ℕ, ◌≤◌, ◌≡◌, ◌==◌, refl, not, ◌||◌, Option, none, some, List, [], arith}
use boundflow.Domain.Rows.{Job}
use boundflow.Store.{Store}
use boundflow.Store.Jobs
use boundflow.System.{SessionWrite, Step, Reach}
use boundflow.System.Runs.{Reach-trans, once}
use boundflow.System.Invariant.{Inv}
use boundflow.System.History.{history-Inv}
use boundflow.System.Monotone.{history-IsPast}
use boundflow.Session.{OperationResult, Held, Env, Calls, record_snapshot}
use boundflow.Session.Dispatch
use boundflow.Session.Dispatch.{Exit, Session}
use boundflow.Session.Machine
use boundflow.Session.Machine.{Event, WorkerMessage, move, fail_and_leave, unkept}
use boundflow.Session.Refines.{wrote, let_go-Reach}
use boundflow.Session.Moves.{
  IsKnown, IsSound, either-IsSound, after-write, snapshot-version, leave-IsSound, cancel-IsSound,
  take_ack-IsSound, take_result-IsSound, take_cancelled-IsSound,
}
use boundflow.Session.Runs.{begin-IsSound}

-- The row that AcquireJob takes has a version that its workflow allocated.
acquired-known :
    (now owner lease tenant : ℕ) (s : Store) (j : Job)
    → Inv s
    → let r = Jobs.acquire_job now owner lease tenant s in
      r.1 ≡ some j → j.version ≤ r.0.workflow.target_version
unfolding Jobs.acquire_job
acquired-known now owner lease tenant s j h e = ground (arith, h.job, e)

module _ (e : Env) (x : Calls) where
  poll-IsSound : (c : List (ℕ × ℕ)) (s : Store) → Inv s → IsSound s (Dispatch.poll e x c s)
  unfolding Dispatch.poll IsKnown
  poll-IsSound c s h =
      let r = Jobs.acquire_job e.now e.session_id e.lease e.tenant_group_id s in
      let k : Reach s r.0 = once (Step.acquire e.now e.session_id e.lease e.tenant_group_id) in
      either-IsSound
        (x.poll || x.acquire || not (Jobs.is_available_job e.now e.tenant_group_id c s))
        (record { history = Reach.here; known = tt })
        (go r.1 k (λ j p. acquired-known e.now e.session_id e.lease e.tenant_group_id s j h p))
    where
      go :
          (o : Option Job) {t : Store}
          → Reach s t
          → ((j : Job) → o ≡ some j → j.version ≤ t.workflow.target_version)
          → IsSound s (elim o [
            | none ↦ (t, Session.polling c)
            | some j ↦ Dispatch.begin_job e x c (record { job = j; this_op = [] }) t
          ])
      go none k known = record { history = k; known = tt }
      go (some j) {t} k known =
          let b = begin-IsSound e x c (record { job = j; this_op = [] }) t (known j refl) in
          record { history = Reach-trans k b.history; known = b.known }

  module _ (h : Held) (s : Store) (le : h.job.version ≤ s.workflow.target_version) where
    snapshot-le :
        (r : OperationResult) → (record_snapshot r h).job.version ≤ s.workflow.target_version
    snapshot-le r = ground (arith, le, snapshot-version r h)

    take_update-IsSound : (m : WorkerMessage) → IsSound s (Machine.take_update e x h m s)
    unfolding Machine.take_update IsKnown
    take_update-IsSound (WorkerMessage.ready c) = leave-IsSound e x h s le 0 Exit.broken
    take_update-IsSound WorkerMessage.other = leave-IsSound e x h s le 0 Exit.broken
    take_update-IsSound (WorkerMessage.update id none) =
        either-IsSound (id == h.job.request_id) (record { history = Reach.here; known = tt })
          (leave-IsSound e x h s le 0 Exit.broken)
    take_update-IsSound (WorkerMessage.update id (some r)) =
        let k = record_snapshot r h in
        either-IsSound (id == h.job.request_id) (take_result-IsSound e x k s (snapshot-le r) r)
          (leave-IsSound e x k s (snapshot-le r) 0 Exit.broken)

    take_cancel_ack-IsSound : (m : WorkerMessage) → IsSound s (Machine.take_cancel_ack e x h m s)
    unfolding Machine.take_cancel_ack IsKnown
    take_cancel_ack-IsSound (WorkerMessage.ready c) = leave-IsSound e x h s le 0 Exit.broken
    take_cancel_ack-IsSound WorkerMessage.other = leave-IsSound e x h s le 0 Exit.broken
    take_cancel_ack-IsSound (WorkerMessage.update id none) =
        either-IsSound (id == h.job.request_id) (record { history = Reach.here; known = tt })
          (leave-IsSound e x h s le 0 Exit.broken)
    take_cancel_ack-IsSound (WorkerMessage.update id (some r)) =
        let k = record_snapshot r h in
        either-IsSound (id == h.job.request_id) (take_cancelled-IsSound e x k s (snapshot-le r) r)
          (leave-IsSound e x h s le 0 Exit.broken)

  pub move-IsSound :
      (q : Session) (event : Event) (s : Store)
      → IsKnown q s
      → Inv s
      → IsSound s (move e x q event s)
  unfolding move IsKnown
  move-IsSound Session.idle Event.disconnect s k i = record { history = Reach.here; known = tt }
  move-IsSound Session.idle (Event.message (WorkerMessage.ready c)) s k i = record {
    history = Reach.here;
    known = tt;
  }
  move-IsSound Session.idle (Event.message m) s k i = record { history = Reach.here; known = tt }
  move-IsSound (Session.polling c) Event.disconnect s k i = record {
    history = Reach.here;
    known = tt;
  }
  move-IsSound (Session.polling c) Event.elapsed s k i = poll-IsSound c s i
  move-IsSound (Session.waiting h) Event.disconnect s k i = record {
    history = let_go-Reach e x s;
    known = tt;
  }
  move-IsSound (Session.waiting h) Event.elapsed s k i =
      either-IsSound x.send (leave-IsSound e x h s k 0 Exit.broken)
        (record { history = let_go-Reach e x s; known = tt })
  move-IsSound (Session.waiting h) Event.keep_lease s k i =
      let w = SessionWrite.renew e.now e.lease in
      record { history = wrote e w s refl; known = after-write e w h s k }
  move-IsSound (Session.waiting h) Event.lease_lost s k i = record {
    history = Reach.here;
    known = tt;
  }
  move-IsSound (Session.waiting h) (Event.message m) s k i = take_ack-IsSound e x h s k m
  move-IsSound (Session.busy h) Event.disconnect s k i = leave-IsSound e x h s k 0 Exit.clean
  move-IsSound (Session.busy h) Event.elapsed s k i = cancel-IsSound e x h s k
  move-IsSound (Session.busy h) Event.keep_lease s k i =
      let w = SessionWrite.renew e.now e.lease in
      record { history = wrote e w s refl; known = after-write e w h s k }
  move-IsSound (Session.busy h) (Event.abandon id) s k i =
      either-IsSound (id == h.job.request_id) (cancel-IsSound e x h s k)
        (record { history = Reach.here; known = k })
  move-IsSound (Session.busy h) Event.lease_lost s k i =
      leave-IsSound e (unkept x) h s k 0 Exit.clean
  move-IsSound (Session.busy h) (Event.message m) s k i = take_update-IsSound h s k m
  move-IsSound (Session.cancelling h) Event.disconnect s k i = leave-IsSound e x h s k 0 Exit.clean
  move-IsSound (Session.cancelling h) Event.elapsed s k i = leave-IsSound e x h s k 0 Exit.broken
  move-IsSound (Session.cancelling h) Event.keep_lease s k i =
      let w = SessionWrite.renew e.now e.lease in
      record { history = wrote e w s refl; known = after-write e w h s k }
  move-IsSound (Session.cancelling h) Event.lease_lost s k i =
      leave-IsSound e (unkept x) h s k 0 Exit.clean
  move-IsSound (Session.cancelling h) (Event.message m) s k i = take_cancel_ack-IsSound h s k m
  move-IsSound q event s k i = record { history = Reach.here; known = k }

-- A run of one session among all other processes: its own moves, each with the clock and the failures
-- of that moment, and between them any statements of the others.
pub data Run (s : Store) (q : Session) : Store → Session → Type 0 where
  started : Run s q s q
  others : {t u : Store} {r : Session} → Run s q t r → Reach t u → Run s q u r
  moved :
      {t : Store} {r : Session}
      → Run s q t r
      → (e : Env) (x : Calls) (event : Event)
      → Run s q (move e x r event t).0 (move e x r event t).1

IsKnown-later :
    (q : Session) (s t : Store)
    → s.workflow.target_version ≤ t.workflow.target_version
    → IsKnown q s
    → IsKnown q t
unfolding IsKnown
IsKnown-later (Session.waiting h) s t le k = omega (arith, le, k)
IsKnown-later (Session.busy h) s t le k = omega (arith, le, k)
IsKnown-later (Session.cancelling h) s t le k = omega (arith, le, k)
IsKnown-later (Session.unattended h) s t le k = omega (arith, le, k)
IsKnown-later q s t le k = tt

-- Whatever a worker sends or leaves out and whatever the timers, the signals and the failures of calls
-- do, a run of a session among the other processes is a history of the system's statements, if
-- the rows are consistent at first and the version of the job that the session holds at first, if
-- any, was allocated; the version of the job that it holds in the end was, too.
pub run-IsSound :
    {s : Store} {q : Session} {t : Store} {r : Session}
    → Inv s
    → IsKnown q s
    → Run s q t r
    → IsSound s (t, r)
run-IsSound i k Run.started = record { history = Reach.here; known = k }
run-IsSound i k (Run.others {t} {u} {r} run reach) =
    let b = run-IsSound i k run in
    let p = history-IsPast (history-Inv i b.history) reach in
    record { history = Reach-trans b.history reach; known = IsKnown-later r t u p.target b.known }
run-IsSound i k (Run.moved {t} {r} run e x event) =
    let b = run-IsSound i k run in
    let m = move-IsSound e x r event t b.known (history-Inv i b.history) in
    record { history = Reach-trans b.history m.history; known = m.known }
