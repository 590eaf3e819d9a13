-- ===== src/Session/Stages.antt =====
-- internal/rpcworker/rpcworker.go: the machine against the diagram in the comment of WorkerSession.
use boundflow.Base.{ℕ, ◌≡◌, ◌||◌, Bool, true, false, List, arith}
use boundflow.Store.{Store}
use boundflow.Store.Jobs
use boundflow.Session.{Env, Calls}
use boundflow.Session.Dispatch
use boundflow.Session.Dispatch.{Exit, Session, Move}
use boundflow.Session.Machine
use boundflow.Session.Machine.{Event, WorkerMessage, move}

-- The constants ConnectedIdle to CancelRequested, and Disconnected of the comment.
pub data State : Type 0 where
  connected_idle connected_waiting connected_busy cancel_requested disconnected : State

unfoldable pub state_of : Session → State
state_of Session.idle = State.connected_idle
state_of (Session.polling c) = State.connected_idle
state_of (Session.waiting h) = State.connected_waiting
state_of (Session.busy h) = State.connected_busy
state_of (Session.cancelling h) = State.cancel_requested
state_of (Session.unattended h) = State.connected_idle
state_of (Session.over exit) = State.disconnected

-- The arrows of the diagram in the comment of WorkerSession, as it draws them.
unfoldable pub is_arrow : State → State → Bool
is_arrow State.connected_idle State.connected_busy = true
is_arrow State.connected_waiting State.connected_busy = true
is_arrow State.connected_busy State.connected_idle = true
is_arrow State.connected_busy State.cancel_requested = true
is_arrow State.cancel_requested State.connected_idle = true
is_arrow q State.disconnected = true
is_arrow q r = false

-- The arrow that the diagram lacks, and the one of its arrows that it should replace.
abbrev pub is_launch : State → State → Bool
is_launch State.connected_idle State.connected_waiting = true
is_launch q r = false

abbrev pub skips_waiting : State → State → Bool
skips_waiting State.connected_idle State.connected_busy = true
skips_waiting q r = false

abbrev pub is_stay : State → State → Bool
is_stay State.connected_idle State.connected_idle = true
is_stay State.connected_waiting State.connected_waiting = true
is_stay State.connected_busy State.connected_busy = true
is_stay State.cancel_requested State.cancel_requested = true
is_stay q r = false

-- The session stays, goes along an arrow of the diagram other than that from ConnectedIdle to
-- ConnectedBusy, or launches.
abbrev pub IsDrawn : State → State → Type 0
IsDrawn q r = ((is_stay q r || is_arrow q r || is_launch q r) ≡ true) × (skips_waiting q r ≡ false)

poll-is_arrow :
    (e : Env) (x : Calls) (c : List (ℕ × ℕ)) (s : Store)
    → IsDrawn State.connected_idle (state_of (Dispatch.poll e x c s).1)
unfolding Dispatch.poll Dispatch.begin_job Dispatch.follow Dispatch.launch_operation
    Dispatch.send_launch Jobs.acquire_job state_of is_arrow
poll-is_arrow e x c s = ground arith

-- In every state and on every event, whatever fails, the session stays, goes along an arrow that the
-- comment of WorkerSession draws, or goes from ConnectedIdle to ConnectedWaiting, which the comment
-- does not draw; and it never takes the arrow that the comment draws from ConnectedIdle to
-- ConnectedBusy. So the comment is right but for the launch: an operation is launched only from
-- ConnectedIdle, worked on only after its first answer, and a cancel is asked for only of an
-- operation that is worked on.
pub move-is_arrow :
    (e : Env) (x : Calls) (q : Session) (event : Event) (s : Store)
    → IsDrawn (state_of q) (state_of (move e x q event s).1)
unfolding move state_of is_arrow Machine.take_ack Machine.start_job Machine.take_update
    Machine.take_result Machine.record_interim Machine.report_interim Machine.take_cancel_ack
    Machine.take_cancelled
move-is_arrow e x (Session.polling c) Event.elapsed s = poll-is_arrow e x c s
move-is_arrow e x q event s = ground arith
