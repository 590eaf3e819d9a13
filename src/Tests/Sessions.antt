-- ===== src/Tests/Sessions.antt =====
-- Tests of the worker sessions.
use boundflow.Base.{ℕ, ◌≡◌, refl, false, none, some, List, [], ◌∷◌, ◌+◌, arith}
use boundflow.Domain.Status.{JobStatus}
use boundflow.Domain.Rows.{Job}
use boundflow.Store.{Store}
use boundflow.System.{Reach}
use boundflow.Session.{
  OperationStatus, OperationFailureType, CancelReason, OperationResult, Held, Env, Calls,
}
use boundflow.Session.Dispatch
use boundflow.Session.Dispatch.{Exit, Session}
use boundflow.Session.Machine.{Event, move}
use boundflow.Session.Moves.{IsKnown, IsSound}
use boundflow.Session.Whole.{Run, run-IsSound}
use boundflow.Session.Gated.{has_crashed, reached-has_crashed}
use boundflow.Session.Stages.{State, state_of, IsDrawn, move-is_arrow}
use boundflow.Session.Leaving.{owns, has_left, is_held, move-IsLeft}
use boundflow.Session.Totals.{take_reports, take_reports-newest, with_report}
use boundflow.Samples.{floats, job_in, store_in, store_with, no_faults, agent_run}
use boundflow.Tests.Rows.{sample-Inv}

-- A second session, after the lease of the first ran out.
abbrev env : Env
env = record {
  floats = floats;
  now = 200;
  session_id = 22;
  lease = 5;
  tenant_group_id = 5;
  with_reason = λ context reason. context + reason;
  with_answer = λ context answer. context + answer;
}

abbrev calls : Calls
calls = record {
  poll = false;
  acquire = false;
  encode = false;
  dispatch = false;
  mark = false;
  progress = false;
  send = false;
  requeue = false;
  report = false;
  write = false;
  audit = λ agent. false;
  release = false;
  handler = no_faults;
}

abbrev capabilities : List (ℕ × ℕ)
capabilities = (7, 1) ∷ []

abbrev pending : Store
pending = store_in JobStatus.pending

-- The session takes the job and launches its operation.
run-IsSound_example :
    IsSound pending (move env calls (Session.polling capabilities) Event.elapsed pending)
unfolding IsKnown
run-IsSound_example =
    run-IsSound {s = pending} {q = Session.polling capabilities} (sample-Inv JobStatus.pending) tt
      (Run.moved Run.started env calls Event.elapsed)

reached-has_crashed_example : has_crashed (Dispatch.poll env calls capabilities pending).1 ≡ false
reached-has_crashed_example =
    reached-has_crashed {s = pending} env calls capabilities
      (record { approval = λ e. ground (arith, e); input = λ e. ground (arith, e) }) Reach.here

-- The job as the session holds it while its operation runs.
abbrev owned : Job
owned = record (job_in JobStatus.running) { owner = some 22 }

abbrev held : Held
held = record { job = owned; this_op = [] }

abbrev running : Store
running = store_with (some owned)

move-is_arrow_example :
    IsDrawn State.connected_busy
      (state_of (move env calls (Session.busy held) Event.disconnect running).1)
unfolding state_of
move-is_arrow_example = move-is_arrow env calls (Session.busy held) Event.disconnect running

move-IsLeft_example :
    owns 22 (move env calls (Session.busy held) Event.disconnect running).0 ≡ false
unfolding move has_left is_held
move-IsLeft_example =
    move-IsLeft env calls (Session.busy held) Event.disconnect running refl (λ e. cc) refl refl

-- A report on the running operation that spent on one agent.
abbrev report_of : ℕ → OperationResult
report_of agent = record {
  status = OperationStatus.in_progress;
  message = 0;
  next_operation = none;
  agent_state_updates = (agent, agent_run) ∷ [];
  approval_gate = none;
  input_gate = none;
  workflow_metrics = none;
  agent_policy_actions = [];
  failure_type = OperationFailureType.unspecified;
  failure_reason = 0;
  result = none;
  cancel_reason = CancelReason.unspecified;
}

take_reports-newest_example :
    take_reports env calls 12 (report_of 41 ∷ report_of 40 ∷ []) (running, Session.busy held) ≡ (
      with_report env held ((40, agent_run) ∷ []) owned running,
      Session.busy (record held { this_op = (40, agent_run) ∷ [] }),
    )
take_reports-newest_example =
    take_reports-newest env calls held (report_of 41) (report_of 40 ∷ []) owned running refl refl
      refl (refl, refl) ((refl, refl), tt)
