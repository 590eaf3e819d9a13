-- ===== src/Scheduler/Order.antt =====
-- internal/scheduler/scheduler.go: the order in which CompleteRequest lets go of a run: first its
-- job, then its request.
use boundflow.Base.{
  ℕ, ◌≡◌, ◌≢◌, refl, true, false, Option, none, some, arith, Option-cases, inl, inr, Bool, ◌||◌,
  ◌∙◌, Map, subst, sym,
}
use boundflow.Domain.Status.{LifecycleState, is_terminal}
use boundflow.Domain.Policy.{Floats, VersionMetrics}
use boundflow.Domain.Metrics.{AgentMetrics, RunMetrics}
use boundflow.Domain.Rows.{Workflow, Job}
use boundflow.Domain.Audit.{PolicyAction}
use boundflow.Policy.{resolve_policy}
use boundflow.Store.{Store}
use boundflow.Store.Recovery.{delete_terminal_job}
use boundflow.Store.Lifecycle.{apply_completed_job, start_new_metrics_epoch}
use boundflow.Store.Resolution.{
  try_apply_version_resolution, try_apply_state_resolution, emit_metrics,
}
use boundflow.Metrics.{handle_agent_metrics, emission_of}
use boundflow.Resolver.{Decision, decide_goal, apply_decision, resolve_lifecycle_policy}
use boundflow.Scheduler.{
  Answer, done, failed, panicked, Faults, Completion, completed_state, close_completed,
  resolve_and_close, count_and_resolve, complete_request, get_workflow, job_metrics,
  record_policy_action, delete_job,
}
use boundflow.Scheduler.Complete.{Told, complete_request-Told}

apply_decision-job :
    (change : Bool) (d : Decision) (w : Workflow) (id : ℕ) (s : Store)
    → (apply_decision change d w id s).0.job ≡ s.job
unfolding apply_decision try_apply_version_resolution try_apply_state_resolution
    start_new_metrics_epoch
apply_decision-job change d w id s = ground arith

resolve-job :
    (f : Floats) (now : ℕ) (w : Workflow) (vm : VersionMetrics) (id : ℕ) (s : Store) {t : Store}
    {a : Option PolicyAction}
    → resolve_lifecycle_policy f now w vm id s ≡ some (t, a)
    → t.job ≡ s.job
unfolding resolve_lifecycle_policy
resolve-job f now w vm id s e =
    elim (Option-cases (resolve_policy f w.invocation_metrics w.lifecycle_policy vm)) [
      | inl p ↦ ground (arith, p, e)
      | inr (res, p) ↦ ground (
        arith,
        p,
        e,
        apply_decision-job res.goal.version_change (decide_goal now w res res.rule) w id s,
      )
    ]

audit-job :
    (fault : Bool) (now id : ℕ) (a : Option PolicyAction) (s : Store)
    → (record_policy_action fault now id a s).job ≡ s.job
unfolding record_policy_action
audit-job fault now id a s = ground arith

handle-job :
    (f : Floats) (now id : ℕ) (m : Map AgentMetrics) (run : RunMetrics) (w : Workflow) (s : Store)
    → (handle_agent_metrics f now id m run w s).store.job ≡ s.job
unfolding handle_agent_metrics emission_of emit_metrics
handle-job f now id m run w s = ground arith

-- The job is the one of the completion and can be deleted.
pub record IsEnded (c : Completion) (o : Option Job) : Type 0 where
  pub job : Job
  pub there : o ≡ some job
  pub same : job.request_id ≡ c.request_id
  pub over : is_terminal job.status ≡ true

-- The calls go through, the last one excepted.
pub record FailsLast (x : Faults) : Type 0 where
  pub apply : x.apply ≡ false
  pub read : (x.job_metrics || x.get_workflow || x.handle_metrics) ≡ false
  pub resolve : x.resolve ≡ false
  pub delete : x.delete ≡ false
  pub close : x.close_request ≡ true

delete-none :
    (fault : Bool) (c : Completion) (s : Store)
    → fault ≡ false
    → IsEnded c s.job
    → (delete_job fault c.request_id s).job ≡ none
unfolding delete_job delete_terminal_job
delete-none fault c s quiet h = ground (arith, h.there, h.same, h.over)

-- The engine panicked, or the last call failed on a store without the job.
abbrev IsGone : Store × Answer Bool → Type 0
IsGone (s, panicked) = Unit {0}
IsGone (s, failed) = s.job ≡ none
IsGone (s, done applied) = ⊥

close-IsGone :
    (fault : Bool) (now : ℕ) (c : Completion) (applied : Bool) (s : Store)
    → fault ≡ true
    → s.job ≡ none
    → IsGone (close_completed fault now c applied s)
unfolding close_completed
close-IsGone fault now c applied s h e = ground (arith, h, e)

resolve_and_close-IsGone :
    (x : Faults) (f : Floats) (now : ℕ) (c : Completion) (applied : Bool) (w : Workflow)
    (vm : VersionMetrics) (s : Store)
    → FailsLast x
    → IsEnded c s.job
    → IsGone (resolve_and_close x f now c applied w vm s)
unfolding resolve_and_close
resolve_and_close-IsGone x f now c applied w vm s q h =
    elim (Option-cases (resolve_lifecycle_policy f now w vm c.request_id s)) [
      | inl p ↦ ground (arith, p, q.resolve)
      | inr ((t, a), p) ↦
          let v = record_policy_action x.audit now c.request_id a t in
          let same =
            audit-job x.audit now c.request_id a t ∙ resolve-job f now w vm c.request_id s p in
          let u = delete_job x.delete c.request_id v in
          let free = delete-none x.delete c v q.delete (subst (IsEnded c) (sym same) h) in
          ground (arith, p, q.resolve, close-IsGone x.close_request now c applied u q.close free)
    ]

count_and_resolve-IsGone :
    (x : Faults) (f : Floats) (now : ℕ) (c : Completion) (applied : Bool) (s : Store)
    → FailsLast x
    → IsEnded c s.job
    → IsGone (count_and_resolve x f now c applied s)
unfolding count_and_resolve
count_and_resolve-IsGone x f now c applied s q h =
    let m = job_metrics c.request_id s in
    let k = handle_agent_metrics f now c.request_id m.0 m.1 (get_workflow s) s in
    let same = handle-job f now c.request_id m.0 m.1 (get_workflow s) s in
    ground (
      arith,
      q.read,
      resolve_and_close-IsGone x f now c applied k.workflow k.totals k.store q
          (subst (IsEnded c) (sym same) h),
    )

apply-IsGone :
    (x : Faults) (f : Floats) (now : ℕ) (c : Completion) (s : Store) (state : LifecycleState)
    → FailsLast x
    → IsEnded c s.job
    → let (t, applied) = apply_completed_job now state c.version s in
      IsGone (count_and_resolve x f now c applied t)
unfolding apply_completed_job
apply-IsGone x f now c s state q h =
    count_and_resolve-IsGone x f now c _ _ q (subst (IsEnded c) (ground arith) h)

gone_store :
    (r : Store × Answer Bool) → IsGone r → r.1 ≢ panicked → (r.1 ≡ failed) × (r.0.job ≡ none)
gone_store (s, panicked) h e = absurd (e refl)
gone_store (s, failed) h e = (refl, h)
gone_store (s, done b) h e = absurd h

whole-IsGone :
    (x : Faults) (f : Floats) (now : ℕ) (c : Completion) (s : Store) (state : LifecycleState)
    → FailsLast x
    → completed_state c.request_type ≡ some state
    → IsEnded c s.job
    → IsGone (complete_request x f now c s)
unfolding complete_request
whole-IsGone x f now c s state q e h =
    ground (arith, e, q.apply, apply-IsGone x f now c s state q h)

Told-requests :
    (c : Completion) (s : Store) (r : Store × Answer Bool)
    → Told c s r
    → r.1 ≡ failed
    → r.0.requests ≡ s.requests
Told-requests c s (t, done b) h e = cc
Told-requests c s (t, failed) h e = h
Told-requests c s (t, panicked) h e = h

-- Where closing the request is the one call of CompleteRequest that fails, on the ended job of the request and
-- with no panic, it answers an error and leaves a store in which the job is gone
-- while no request has changed.
pub request_outlives_job :
    (x : Faults) (f : Floats) (now : ℕ) (c : Completion) (s : Store) (state : LifecycleState)
    → FailsLast x
    → completed_state c.request_type ≡ some state
    → IsEnded c s.job
    → (complete_request x f now c s).1 ≢ panicked
    → let (t, answer) = complete_request x f now c s in
      (answer ≡ failed) × (t.job ≡ none) × (t.requests ≡ s.requests)
request_outlives_job x f now c s state q e h calm =
    let g = gone_store (complete_request x f now c s) (whole-IsGone x f now c s state q e h) calm in
    (
      g.0,
      g.1,
      Told-requests c s (complete_request x f now c s) (complete_request-Told x f now c s) g.0,
    )
