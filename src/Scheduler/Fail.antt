-- ===== src/Scheduler/Fail.antt =====
-- internal/scheduler/scheduler.go: what FailRequest leaves behind: a requeued job, an untouched one
-- or a run that is torn down, whichever of its calls fail.
use boundflow.Base.{
  ℕ, ◌+◌, ◌<◌, ◌≡◌, refl, inl, inr, Bool, true, false, none, some, List, [], ◌∷◌, All, arith,
  Bool-cases, ◌==◌, ◌&&◌, ◌||◌, ltb, if◌then◌else◌, map, ◌∙◌, is_none, Map, subst, sym,
}
use boundflow.Domain.Status.{
  JobStatus, RequestStatus, RunOutcome, LifecycleState, WorkflowState, is_paused,
}
use boundflow.Domain.Policy.{Floats}
use boundflow.Domain.Metrics.{AgentMetrics, RunMetrics}
use boundflow.Domain.Rows.{Workflow, Job, Request}
use boundflow.Store.{Store}
use boundflow.Store.Recovery.{requeue_job, claim_failed_job, delete_terminal_job}
use boundflow.Store.Requests.{find_request, fail_request_row}
use boundflow.Store.Lifecycle.{apply_failed_job, unfreeze_paused_requests, no_suspension}
use boundflow.Store.Resolution.{emit_metrics}
use boundflow.Metrics.{handle_agent_metrics, emission_of}
use boundflow.Scheduler.{
  Answer, done, failed, panicked, Faults, Failure, max_job_attempts, stated_reason,
  record_interrupted_metrics, get_workflow, job_metrics, delete_job, close_failed, tear_down,
  claim_and_tear_down, fail_request,
}

-- Where its first read and RequeueJob go through, a failure of a resumable workflow whose job is
-- still failed at the reported attempts, below the limit, gives the job back: it is pending and
-- free with one attempt more, nothing else changes and the request stays open.
pub requeued_run :
    (x : Faults) (f : Floats) (now : ℕ) (a : Failure) (s : Store) (j : Job)
    → x.get_workflow ≡ false
    → x.requeue ≡ false
    → s.workflow.config.resumable ≡ true
    → s.job ≡ some j
    → j.status ≡ JobStatus.failed
    → j.request_id ≡ a.request_id
    → j.attempts ≡ a.attempts
    → a.attempts < max_job_attempts
    → fail_request x f now a s ≡ (
      record s {
        job = some (record j {
          status = JobStatus.pending;
          owner = none;
          lease_expires_at = none;
          attempts = a.attempts + 1;
        });
      },
      done false,
    )
unfolding fail_request requeue_job
requeued_run x f now a s j h1 h2 h3 h4 h5 h6 h7 h8 = ground arith

-- A report of a failure that the job has left behind, because another request or another
-- attempt of the same request holds the row, changes nothing, whichever calls fail.
pub stale_failure :
    (x : Faults) (f : Floats) (now : ℕ) (a : Failure) (s : Store) (j : Job)
    → s.job ≡ some j
    → (j.request_id == a.request_id && j.attempts == a.attempts) ≡ false
    → fail_request x f now a s ≡ (s, done false)
unfolding fail_request requeue_job claim_and_tear_down claim_failed_job
stale_failure x f now a s j e stale = ground arith

-- What the steps of a tear-down leave alone after the transition of the workflow.
record Keeps (s t : Store) : Type 0 where
  requests : t.requests ≡ s.requests
  state : t.workflow.workflow_state ≡ s.workflow.workflow_state
  lifecycle : t.workflow.lifecycle_state ≡ s.workflow.lifecycle_state
  current : t.workflow.current_version ≡ s.workflow.current_version
  suspension : t.workflow.suspension ≡ s.workflow.suspension

handle-Keeps :
    (f : Floats) (now id : ℕ) (m : Map AgentMetrics) (run : RunMetrics) (w : Workflow) (s : Store)
    → Keeps s (handle_agent_metrics f now id m run w s).store
unfolding handle_agent_metrics emission_of emit_metrics
handle-Keeps f now id m run w s = ground arith

record_interrupted-Keeps :
    (x : Faults) (f : Floats) (now id : ℕ) (s : Store)
    → Keeps s (record_interrupted_metrics x f now id s)
unfolding record_interrupted_metrics
record_interrupted-Keeps x f now id s =
    ground
      (arith, handle-Keeps f now id (job_metrics id s).0 (job_metrics id s).1 (get_workflow s) s)

delete_job-Keeps : (fault : Bool) (id : ℕ) (s : Store) → Keeps s (delete_job fault id s)
unfolding delete_job delete_terminal_job
delete_job-Keeps fault id s = ground arith

abbrev IsFailedAs : Failure → Request → Type 0
IsFailedAs a r =
    r.id ≡ a.request_id
    → (r.status ≡ RequestStatus.failed)
      × (r.run_outcome ≡ some RunOutcome.interrupted)
      × (r.failure_reason ≡ stated_reason a.reason)

abbrev IsFree : Request → Type 0
IsFree r = is_paused r.status ≡ false

-- The workflow waits for an operator, the request is closed and no suspension is left.
pub record IsInterrupted (a : Failure) (s : Store) : Type 0 where
  pub closed : All (IsFailedAs a) s.requests
  pub free : All IsFree s.requests
  pub state : s.workflow.workflow_state ≡ WorkflowState.disabled
  pub lifecycle : s.workflow.lifecycle_state ≡ LifecycleState.interrupted
  pub current : s.workflow.current_version ≡ a.version
  pub suspension : s.workflow.suspension ≡ no_suspension

abbrev IsTorn : Failure → Store × Answer Bool → Type 0
IsTorn a (t, done true) = IsInterrupted a t
IsTorn a (t, _) = Unit {0}

abbrev failed_rows : ℕ → Failure → List Request → List Request
failed_rows now a = map (λ r.
    if r.id == a.request_id
    then record r {
      status = RequestStatus.failed;
      run_outcome = some RunOutcome.interrupted;
      failure_reason = stated_reason a.reason;
      completed_at = some now;
    }
    else r)

failed_rows-closed :
    (now : ℕ) (a : Failure) (rs : List Request) → All (IsFailedAs a) (failed_rows now a rs)
failed_rows-closed now a [] = tt
failed_rows-closed now a (r ∷ rs) = ((λ e. ground (arith, e)), failed_rows-closed now a rs)

failed_rows-IsFree :
    (now : ℕ) (a : Failure) (rs : List Request) → All IsFree rs → All IsFree (failed_rows now a rs)
failed_rows-IsFree now a [] all = tt
failed_rows-IsFree now a (r ∷ rs) all = (ground (arith, all.0), failed_rows-IsFree now a rs all.1)

thawed-IsFree : (s : Store) → All IsFree (unfreeze_paused_requests s).requests
unfolding unfreeze_paused_requests
thawed-IsFree s = go s.requests
  where
    go :
        (rs : List Request)
        → All IsFree (
            map
              (λ r.
                if is_paused r.status then record r { status = RequestStatus.unscheduled } else r)
              rs)
    go [] = tt
    go (r ∷ rs) = (ground arith, go rs)

-- The workflow's row after ApplyFailedJob went through.
record IsApplied (a : Failure) (s : Store) : Type 0 where
  free : All IsFree s.requests
  state : s.workflow.workflow_state ≡ WorkflowState.disabled
  lifecycle : s.workflow.lifecycle_state ≡ LifecycleState.interrupted
  current : s.workflow.current_version ≡ a.version
  suspension : s.workflow.suspension ≡ no_suspension

IsApplied-Keeps : (a : Failure) (s t : Store) → IsApplied a s → Keeps s t → IsApplied a t
IsApplied-Keeps a s t h k = record {
  free = subst (All IsFree) (sym k.requests) h.free;
  state = k.state ∙ h.state;
  lifecycle = k.lifecycle ∙ h.lifecycle;
  current = k.current ∙ h.current;
  suspension = k.suspension ∙ h.suspension;
}

close_failed-IsTorn :
    (x : Faults) (now : ℕ) (a : Failure) (s : Store)
    → IsApplied a s
    → IsTorn a (close_failed x now a true s)
unfolding close_failed fail_request_row
close_failed-IsTorn x now a s h =
    let t = delete_job x.delete a.request_id s in
    let k = IsApplied-Keeps a s t h (delete_job-Keeps x.delete a.request_id s) in
    (elim (Bool-cases (x.close_request || is_none (find_request a.request_id t.requests))) [
      | inl e ↦ rw e tt
      | inr e ↦ rw e (record {
        closed = failed_rows-closed now a t.requests;
        free = failed_rows-IsFree now a t.requests k.free;
        state = k.state;
        lifecycle = k.lifecycle;
        current = k.current;
        suspension = k.suspension;
      })
    ])

unfrozen-IsApplied :
    (a : Failure) (s : Store)
    → s.workflow.workflow_state ≡ WorkflowState.disabled
    → s.workflow.lifecycle_state ≡ LifecycleState.interrupted
    → s.workflow.current_version ≡ a.version
    → s.workflow.suspension ≡ no_suspension
    → IsApplied a (unfreeze_paused_requests s)
unfolding unfreeze_paused_requests
unfrozen-IsApplied a s h1 h2 h3 h4 = record {
  free = thawed-IsFree s;
  state = h1;
  lifecycle = h2;
  current = h3;
  suspension = h4;
}

apply-IsApplied :
    (now : ℕ) (a : Failure) (s : Store)
    → (apply_failed_job now a.request_id LifecycleState.interrupted WorkflowState.disabled a.version
        s).1
      ≡ true
    → IsApplied a
        (apply_failed_job now a.request_id LifecycleState.interrupted WorkflowState.disabled
          a.version s).0
unfolding apply_failed_job
apply-IsApplied now a s h = elim (Bool-cases (ltb s.workflow.current_version a.version)) [
  | inl e ↦ rw e (unfrozen-IsApplied a _ refl refl refl refl)
  | inr e ↦ absurd (cc (rw e at h))
]

unapplied-IsTorn :
    (x : Faults) (now : ℕ) (a : Failure) (s : Store) → IsTorn a (close_failed x now a false s)
unfolding close_failed
unapplied-IsTorn x now a s = ground arith

tear_down-IsTorn :
    (x : Faults) (f : Floats) (now : ℕ) (a : Failure) (s : Store) → IsTorn a (tear_down x f now a s)
unfolding tear_down record_interrupted_metrics close_failed
tear_down-IsTorn x f now a s = elim (Bool-cases x.apply) [
  | inl e ↦ rw e tt
  | inr e ↦
      let r =
        apply_failed_job now a.request_id LifecycleState.interrupted WorkflowState.disabled
          a.version s in
      (elim (Bool-cases (r.1)) [
        | inl p ↦
            rw (e, p)
              (close_failed-IsTorn x now a _ (
                IsApplied-Keeps a r.0 _ (apply-IsApplied now a s p)
                  (record_interrupted-Keeps x f now a.request_id r.0)))
        | inr p ↦ rw (e, p) (unapplied-IsTorn x now a r.0)
      ])
]

claim-IsTorn :
    (x : Faults) (f : Floats) (now : ℕ) (a : Failure) (s : Store)
    → IsTorn a (claim_and_tear_down x f now a s)
unfolding claim_and_tear_down
claim-IsTorn x f now a s =
    ground (arith, tear_down-IsTorn x f now a (claim_failed_job a.request_id a.attempts s).0)

fail_request-IsTorn :
    (x : Faults) (f : Floats) (now : ℕ) (a : Failure) (s : Store)
    → IsTorn a (fail_request x f now a s)
unfolding fail_request
fail_request-IsTorn x f now a s = ground (
  arith,
  claim-IsTorn x f now a s,
  claim-IsTorn x f now a (requeue_job a.request_id a.attempts s).0,
)

torn_result :
    (a : Failure) (r : Store × Answer Bool) → IsTorn a r → r.1 ≡ done true → IsInterrupted a r.0
torn_result a (t, done true) h e = h
torn_result a (t, done false) h e = cc
torn_result a (t, failed) h e = cc
torn_result a (t, panicked) h e = cc

-- FailRequest, whichever of its calls fail: where it answers that the run was torn down, the
-- request is closed as failed and interrupted with the stated reason, or with a fixed one
-- where none was stated, the workflow is disabled and interrupted at the version of the run, its
-- suspension is gone and no request is held back any more.
pub torn_down :
    (x : Faults) (f : Floats) (now : ℕ) (a : Failure) (s : Store)
    → (fail_request x f now a s).1 ≡ done true
    → IsInterrupted a (fail_request x f now a s).0
torn_down x f now a s h =
    torn_result a (fail_request x f now a s) (fail_request-IsTorn x f now a s) h
