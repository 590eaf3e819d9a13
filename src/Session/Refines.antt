-- ===== src/Session/Refines.antt =====
-- internal/rpcworker/rpcworker.go: the machine of a session against the statements of the system.
use boundflow.Base.{
  ℕ, ◌≤◌, ◌≡◌, refl, Bool, true, Option, none, some, [], ◌∷◌, arith, Map, if◌then◌else◌,
}
use boundflow.Domain.Status.{JobStatus, RunOutcome}
use boundflow.Store.{Store}
use boundflow.Store.Jobs
use boundflow.Store.Gates
use boundflow.Store.Recovery.{stopped_reason}
use boundflow.Store.Jobs.{acquire_job}
use boundflow.System.{SessionWrite, session_write, is_usual, Step, Reach}
use boundflow.System.Runs.{Reach-trans, once, either-Reach, fail_request-Reach}
use boundflow.System.Reached.{complete_request-Reach}
use boundflow.Session
use boundflow.Session.{
  OperationResult, Following, GateMessage, Held, Env, Calls, attempt, write, let_go, job_totals,
  counted,
}
use boundflow.Session.Endings

-- A call that may fail.
pub tried : {s t : Store} (fault : Bool) → Reach s t → Reach s (if fault then s else t)
tried fault r = either-Reach fault Reach.here r

-- A statement of the session.
pub wrote :
    (e : Env) (w : SessionWrite) (s : Store)
    → is_usual w ≡ true
    → Reach s (session_write e.session_id w s).0
wrote e w s usual = once (Step.session e.session_id w usual)

pub let_go-Reach : (e : Env) (x : Calls) (s : Store) → Reach s (let_go e x s)
let_go-Reach e x s = tried x.release (wrote e SessionWrite.release s refl)

-- The writes of a session leave the versions of the workflow alone.
pub write-target :
    (owner : ℕ) (w : SessionWrite) (s : Store) → (session_write owner w s).0.workflow ≡ s.workflow
unfolding session_write Jobs.renew_job_lease Jobs.release_job Jobs.update_job_status
    Jobs.fail_job_with_metrics Jobs.update_job_status_with_metrics Jobs.update_job_metrics
    Jobs.dispatch_job Jobs.update_job_with_metrics Gates.park_for_approval Gates.park_for_input
write-target owner SessionWrite.release s = ground arith
write-target owner w s = ground arith

finish_job-Reach :
    (e : Env) (x : Calls) (h : Held) (outcome : RunOutcome) (reason : ℕ) (result : Option ℕ)
    (s : Store)
    → h.job.version ≤ s.workflow.target_version
    → Reach s (Endings.finish_job e x h outcome reason result s)
unfolding Endings.finish_job
finish_job-Reach e x h outcome reason result s le =
    let w = SessionWrite.finish JobStatus.completed outcome reason result (job_totals e.floats h) in
    let t = (session_write e.session_id w s).0 in
    let c = Endings.completion_of h.job outcome reason result in
    let k = wrote e w s refl in
    ground (
      arith,
      k,
      Reach-trans k (
          complete_request-Reach x.handler e.floats e.now c t
            (ground (arith, le, write-target e.session_id w s))),
    )

fail_job-Reach :
    (e : Env) (x : Calls) (h : Held) (reason : ℕ) (s : Store)
    → h.job.version ≤ s.workflow.target_version
    → Reach s (Endings.fail_job e x h reason s)
unfolding Endings.fail_job
fail_job-Reach e x h reason s le =
    let w = SessionWrite.fail reason (job_totals e.floats h) in
    let t = (session_write e.session_id w s).0 in
    let k = wrote e w s refl in
    ground (
      arith,
      k,
      Reach-trans k (
          fail_request-Reach x.handler e.floats e.now (Endings.failure_of h.job reason) t
            (ground (arith, le, write-target e.session_id w s))),
    )

-- A write that may fail, and the lease given back.
ended-Reach :
    (e : Env) (x : Calls) {s t : Store}
    → Reach s t
    → Reach s (let_go e x (if x.write then s else t))
ended-Reach e x {s} {t} r =
    Reach-trans (tried x.write r) (let_go-Reach e x (if x.write then s else t))

append_actions-Reach :
    (e : Env) (x : Calls) (id : ℕ) (actions : Map ℕ) (s : Store)
    → Reach s (Endings.append_actions e x id actions s)
unfolding Endings.append_actions
append_actions-Reach e x id [] s = Reach.here
append_actions-Reach e x id ((agent, action) ∷ rest) s =
    Reach-trans (tried (x.audit agent) (once (Step.append_audit _))) (
      append_actions-Reach e x id rest
        (attempt (x.audit agent) (Endings.with_action e id action) s))

settle-Reach :
    (e : Env) (x : Calls) (h : Held) (r : OperationResult) (s : Store)
    → h.job.version ≤ s.workflow.target_version
    → Reach s (Endings.settle_result e x h r s)
unfolding Endings.settle_result Endings.settle_without_next Endings.advance_job
    Endings.park_approval Endings.park_input
settle-Reach e x h r s le = go r.next_operation r.approval_gate r.input_gate
  where
    go :
        (n : Option Following) (a i : Option GateMessage)
        → Reach s (elim n [
          | some n ↦ Endings.advance_job e h n s
          | none ↦ elim a [
            | some g ↦ Endings.park_approval e x h g s
            | none ↦ elim i [
              | some g ↦ Endings.park_input e x h g s
              | none ↦
                  Endings.finish_job e x h
                    (Session.outcome_of r).0
                    (Session.outcome_of r).1
                    r.result
                    s
            ]
          ]
        ])
    go (some n) a i = wrote e _ s refl
    go none (some g) i =
        Reach-trans (wrote e _ s refl) (tried x.mark (once Step.mark_awaiting_approval))
    go none none (some g) =
        Reach-trans (wrote e _ s refl) (tried x.mark (once Step.mark_awaiting_input))
    go none none none =
        finish_job-Reach e x h (Session.outcome_of r).0 (Session.outcome_of r).1 r.result s le

pub counted-version : (r : OperationResult) (h : Held) → (counted r h).job.version ≡ h.job.version
unfolding counted Session.record_snapshot
counted-version r h = ground arith

pub complete_operation-Reach :
    (e : Env) (x : Calls) (h : Held) (r : OperationResult) (s : Store)
    → h.job.version ≤ s.workflow.target_version
    → Reach s (Endings.complete_operation e x h r s)
unfolding Endings.complete_operation
complete_operation-Reach e x h r s le = ended-Reach e x (
    Reach-trans (settle-Reach e x (counted r h) r s (ground (arith, le, counted-version r h))) (
      append_actions-Reach e x h.job.request_id r.agent_policy_actions
        (Endings.settle_result e x (counted r h) r s)))

pub fail_operation-Reach :
    (e : Env) (x : Calls) (h : Held) (reason : ℕ) (s : Store)
    → h.job.version ≤ s.workflow.target_version
    → Reach s (Endings.fail_operation e x h reason s)
unfolding Endings.fail_operation
fail_operation-Reach e x h reason s le = ended-Reach e x (fail_job-Reach e x h reason s le)

pub soft_fail-Reach :
    (e : Env) (x : Calls) (h : Held) (outcome : RunOutcome) (reason : ℕ) (s : Store)
    → h.job.version ≤ s.workflow.target_version
    → Reach s (Endings.soft_fail_operation e x h outcome reason s)
unfolding Endings.soft_fail_operation
soft_fail-Reach e x h outcome reason s le =
    ended-Reach e x (finish_job-Reach e x (Endings.with_failure h) outcome reason none s le)

pub suspend_operation-Reach :
    (e : Env) (x : Calls) (h : Held) (s : Store)
    → h.job.version ≤ s.workflow.target_version
    → Reach s (Endings.suspend_operation e x h s)
unfolding Endings.suspend_operation
suspend_operation-Reach e x h s le =
    ended-Reach e x (finish_job-Reach e x h RunOutcome.suspended stopped_reason none s le)
