-- ===== src/Session/Runs.antt =====
-- internal/rpcworker/rpcworker.go: from the look for a job on, and over whole runs of a session
-- among the other processes.
use boundflow.Base.{
  ℕ, ◌≤◌, ◌≡◌, ◌==◌, refl, true, false, Option, none, some, List, arith, if◌then◌else◌, is_some,
}
use boundflow.Domain.Status.{LifecycleState, JobStatus}
use boundflow.Domain.Rows.{Branches, Branch, NextOperation}
use boundflow.Store.{Store}
use boundflow.Store.Scheduling
use boundflow.System.{SessionWrite, session_write, Step, Reach}
use boundflow.System.Runs.{Reach-trans, once}
use boundflow.Session.{Held, Env, Calls, attempt, write, job_totals}
use boundflow.Session.Dispatch
use boundflow.Session.Dispatch.{Exit, Session, Move}
use boundflow.Session.Refines.{
  tried, wrote, let_go-Reach, complete_operation-Reach, suspend_operation-Reach,
}
use boundflow.Session.Moves.{IsKnown, IsSound, either-IsSound, after-write}

-- What a job that is looked at holds.
MoveFits : Move → Store → Type 0
MoveFits (Move.launch h) s = h.job.version ≤ s.workflow.target_version
MoveFits (Move.finish h result) s = h.job.version ≤ s.workflow.target_version
MoveFits m s = Unit {0}

branch-MoveFits :
    (e : Env) (h : Held) (b : Branch) (s : Store)
    → h.job.version ≤ s.workflow.target_version
    → MoveFits (Dispatch.resolve_branch e h b) s
unfolding Dispatch.resolve_branch MoveFits
branch-MoveFits e h b s le = go b.next
  where
    go :
        (n : Option NextOperation)
        → MoveFits
            (elim n [
              | none ↦ Move.finish h b.result
              | some n ↦
                  let context =
                    if h.job.approval_reason == 0
                    then n.context
                    else e.with_reason n.context h.job.approval_reason in
                  Move.launch (Dispatch.with_next n context h)
            ])
            s
    go none = le
    go (some n) = le

input_branch-MoveFits :
    (e : Env) (h : Held) (answer : Option ℕ) (b : Branch) (s : Store)
    → h.job.version ≤ s.workflow.target_version
    → MoveFits (Dispatch.resolve_input_branch e h answer b) s
unfolding Dispatch.resolve_input_branch MoveFits
input_branch-MoveFits e h answer b s le = go b.next
  where
    go :
        (n : Option NextOperation)
        → MoveFits
            (elim n [
              | none ↦ Move.finish h b.result
              | some n ↦
                  Move.launch (Dispatch.with_next n (Dispatch.context_with e n.context answer) h)
            ])
            s
    go none = le
    go (some n) = le

through-MoveFits :
    (g : Option Branches) (f : Branches → Move) (s : Store)
    → ((b : Branches) → MoveFits (f b) s)
    → MoveFits (Dispatch.through_gate g f) s
unfolding Dispatch.through_gate MoveFits
through-MoveFits none f s h = tt
through-MoveFits (some b) f s h = h b

move_in-MoveFits :
    (status : JobStatus) (e : Env) (h : Held) (s : Store)
    → h.job.version ≤ s.workflow.target_version
    → MoveFits (Dispatch.move_in status e h) s
unfolding Dispatch.move_in Dispatch.record_gate_outcome MoveFits
move_in-MoveFits JobStatus.approved e h s le =
    through-MoveFits _ _ s
      (λ g. branch-MoveFits e (Dispatch.record_gate_outcome false h) g.accept s le)
move_in-MoveFits JobStatus.rejected e h s le =
    through-MoveFits _ _ s
      (λ g. branch-MoveFits e (Dispatch.record_gate_outcome true h) g.refuse s le)
move_in-MoveFits JobStatus.answered e h s le =
    through-MoveFits _ _ s (λ g. input_branch-MoveFits e h h.job.input_answer g.accept s le)
move_in-MoveFits JobStatus.input_timed_out e h s le =
    through-MoveFits _ _ s (λ g. input_branch-MoveFits e h none g.refuse s le)
move_in-MoveFits JobStatus.awaiting_next e h s le = le
move_in-MoveFits JobStatus.pending e h s le = le
move_in-MoveFits _ e h s le = tt

marks-target :
    (state : LifecycleState) (s : Store)
    → (Scheduling.mark_workflow state s).workflow.target_version ≡ s.workflow.target_version
unfolding Scheduling.mark_workflow
marks-target state s = ground arith

progress-target :
    (id : ℕ) (s : Store) → (Scheduling.mark_request_in_progress id s).workflow ≡ s.workflow
unfolding Scheduling.mark_request_in_progress
progress-target id s = refl

module _ (e : Env) (x : Calls) (c : List (ℕ × ℕ)) where
  send_launch-IsSound :
      (h : Held) (s : Store)
      → h.job.version ≤ s.workflow.target_version
      → IsSound s (Dispatch.send_launch e x h s)
  unfolding Dispatch.send_launch IsKnown
  send_launch-IsSound h s le =
      let t = attempt x.mark (Scheduling.mark_workflow LifecycleState.invoking) s in
      let u = attempt x.progress (Scheduling.mark_request_in_progress h.job.request_id) t in
      let k : Reach s u =
        Reach-trans (tried x.mark (once (Step.mark LifecycleState.invoking)))
          (tried x.progress (once (Step.mark_in_progress h.job.request_id))) in
      let w = SessionWrite.set_status JobStatus.pending in
      either-IsSound x.send
        (record {
          history = Reach-trans k (
              Reach-trans (tried x.requeue (wrote e w u refl))
                (let_go-Reach e x (attempt x.requeue (write e w) u)));
          known = tt;
        })
        (record {
          history = k;
          known = ground (
            arith,
            le,
            marks-target LifecycleState.invoking s,
            progress-target h.job.request_id t,
          );
        })

  launch-IsSound :
      (h : Held) (s : Store)
      → h.job.version ≤ s.workflow.target_version
      → IsSound s (Dispatch.launch_operation e x c h s)
  unfolding Dispatch.launch_operation IsKnown
  launch-IsSound h s le =
      let w = SessionWrite.dispatch (Dispatch.operation_of h.job) (job_totals e.floats h) in
      let r = session_write e.session_id w s in
      let k : Reach s r.0 = wrote e w s refl in
      let l = send_launch-IsSound h r.0 (after-write e w h s le) in
      either-IsSound x.dispatch (record { history = let_go-Reach e x s; known = tt })
        (either-IsSound r.1 (record { history = Reach-trans k l.history; known = l.known })
          (record { history = Reach-trans k (let_go-Reach e x r.0); known = tt }))

  follow-IsSound : (m : Move) (s : Store) → MoveFits m s → IsSound s (Dispatch.follow e x c m s)
  unfolding Dispatch.follow IsKnown MoveFits
  follow-IsSound (Move.launch h) s le =
      either-IsSound x.encode (record { history = let_go-Reach e x s; known = tt })
        (launch-IsSound h s le)
  follow-IsSound (Move.finish h result) s le = record {
    history =
        complete_operation-Reach e x h (Dispatch.branch_result (if x.encode then none else result))
          s le;
    known = tt;
  }
  follow-IsSound Move.skip s le = record { history = let_go-Reach e x s; known = tt }
  follow-IsSound Move.crash s le = record { history = Reach.here; known = tt }

  pub begin-IsSound :
      (h : Held) (s : Store)
      → h.job.version ≤ s.workflow.target_version
      → IsSound s (Dispatch.begin_job e x c h s)
  unfolding Dispatch.begin_job IsKnown
  begin-IsSound h s le =
      either-IsSound (is_some h.job.abandon_requested_at)
        (record { history = suspend_operation-Reach e x h s le; known = tt })
        (follow-IsSound (Dispatch.next_move e h) s (move_in-MoveFits h.job.status e h s le))
