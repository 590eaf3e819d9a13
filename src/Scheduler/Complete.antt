-- ===== src/Scheduler/Complete.antt =====
-- internal/scheduler/scheduler.go: what CompleteRequest leaves behind, whichever of its calls fail.
use boundflow.Base.{
  ℕ, ◌≤◌, ◌≡◌, refl, inl, inr, Bool, true, false, Option, none, some, List, [], ◌∷◌, All, arith,
  Bool-cases, Option-cases, ◌==◌, if◌then◌else◌, map, ◌∙◌, ◌||◌, is_none, Map,
}
use boundflow.Domain.Status.{RequestStatus, LifecycleState}
use boundflow.Domain.Policy.{Floats, VersionMetrics}
use boundflow.Domain.Metrics.{AgentMetrics, RunMetrics}
use boundflow.Domain.Rows.{Workflow, Request}
use boundflow.Domain.Audit.{PolicyAction}
use boundflow.Policy.{resolve_policy}
use boundflow.Store.{Store}
use boundflow.Store.Recovery.{delete_terminal_job}
use boundflow.Store.Requests.{find_request, complete_request_row}
use boundflow.Store.Lifecycle.{apply_completed_job, start_new_metrics_epoch}
use boundflow.Store.Resolution.{
  try_apply_version_resolution, try_apply_state_resolution, emit_metrics,
}
use boundflow.Metrics.{handle_agent_metrics, emission_of}
use boundflow.Resolver.{Decision, decide_goal, apply_decision, resolve_lifecycle_policy}
use boundflow.Scheduler.{
  Answer, done, failed, panicked, Faults, Completion, completed_state, close_completed,
  resolve_and_close, count_and_resolve, complete_request, get_workflow, job_metrics,
  record_policy_action, delete_job,
}

-- What the steps before the last one leave: the requests and the applied version, and an emission of
-- the version they started from.
pub record Keeps (s t : Store) : Type 0 where
  pub requests : t.requests ≡ s.requests
  pub current : t.workflow.current_version ≡ s.workflow.current_version
  pub target : t.workflow.target_version ≡ s.workflow.target_version
  pub emitted : s.workflow.metrics_emitted_at ≤ t.workflow.metrics_emitted_at

Keeps-refl : (s : Store) → Keeps s s
Keeps-refl s = record { requests = refl; current = refl; target = refl; emitted = omega arith }

Keeps-trans : (s t u : Store) → Keeps s t → Keeps t u → Keeps s u
Keeps-trans s t u h k = record {
  requests = k.requests ∙ h.requests;
  current = k.current ∙ h.current;
  target = k.target ∙ h.target;
  emitted = omega (arith, h.emitted, k.emitted);
}

apply_decision-Keeps :
    (change : Bool) (d : Decision) (w : Workflow) (id : ℕ) (s : Store)
    → Keeps s (apply_decision change d w id s).0
unfolding apply_decision try_apply_version_resolution try_apply_state_resolution
    start_new_metrics_epoch
apply_decision-Keeps change d w id s = ground arith

resolve-Keeps :
    (f : Floats) (now : ℕ) (w : Workflow) (vm : VersionMetrics) (id : ℕ) (s : Store) {t : Store}
    {a : Option PolicyAction}
    → resolve_lifecycle_policy f now w vm id s ≡ some (t, a)
    → Keeps s t
unfolding resolve_lifecycle_policy
resolve-Keeps f now w vm id s e =
    elim (Option-cases (resolve_policy f w.invocation_metrics w.lifecycle_policy vm)) [
      | inl p ↦ ground (arith, p, e)
      | inr (res, p) ↦ ground (
        arith,
        p,
        e,
        apply_decision-Keeps res.goal.version_change (decide_goal now w res res.rule) w id s,
      )
    ]

delete_job-Keeps : (fault : Bool) (id : ℕ) (s : Store) → Keeps s (delete_job fault id s)
unfolding delete_job delete_terminal_job
delete_job-Keeps fault id s = ground arith

audit-Keeps :
    (fault : Bool) (now id : ℕ) (a : Option PolicyAction) (s : Store)
    → Keeps s (record_policy_action fault now id a s)
unfolding record_policy_action
audit-Keeps fault now id a s = ground arith

-- The request with the id of the completion is closed with what the run came to.
abbrev IsClosedAs : Completion → Request → Type 0
IsClosedAs c r =
    r.id ≡ c.request_id
    → (r.status ≡ RequestStatus.completed)
      × (r.run_outcome ≡ some c.outcome)
      × (r.failure_reason ≡ c.reason)
      × (r.result ≡ c.result)

-- What an answer of CompleteRequest tells about the rows, from the store it started from.
pub record IsFinished (c : Completion) (s t : Store) : Type 0 where
  pub closed : All (IsClosedAs c) t.requests
  pub applied : c.version ≤ t.workflow.current_version
  pub emitted : t.workflow.current_version ≤ t.workflow.metrics_emitted_at

abbrev pub Told : Completion → Store → Store × Answer Bool → Type 0
Told c s (t, done applied) = IsFinished c s t
Told c s (t, failed) = t.requests ≡ s.requests
Told c s (t, panicked) = t.requests ≡ s.requests

complete_rows-closed :
    (now : ℕ) (c : Completion) (rs : List Request)
    → All (IsClosedAs c) (
        map
          (λ r.
            if r.id == c.request_id
            then record r {
              status = RequestStatus.completed;
              run_outcome = some c.outcome;
              failure_reason = c.reason;
              result = c.result;
              completed_at = some now;
            }
            else r)
          rs)
complete_rows-closed now c [] = tt
complete_rows-closed now c (r ∷ rs) = ((λ e. ground (arith, e)), complete_rows-closed now c rs)

close-Told :
    (fault : Bool) (now : ℕ) (c : Completion) (applied : Bool) (s t : Store)
    → t.requests ≡ s.requests
    → c.version ≤ t.workflow.current_version
    → t.workflow.current_version ≤ t.workflow.metrics_emitted_at
    → Told c s (close_completed fault now c applied t)
unfolding close_completed complete_request_row
close-Told fault now c applied s t same up out =
    elim (Bool-cases (fault || is_none (find_request c.request_id t.requests))) [
      | inl e ↦ rw e same
      | inr e ↦
          rw e
            (record { closed = complete_rows-closed now c t.requests; applied = up; emitted = out })
    ]

resolve_and_close-Told :
    (x : Faults) (f : Floats) (now : ℕ) (c : Completion) (applied : Bool) (w : Workflow)
    (vm : VersionMetrics) (s t : Store)
    → t.requests ≡ s.requests
    → c.version ≤ t.workflow.current_version
    → t.workflow.current_version ≤ t.workflow.metrics_emitted_at
    → Told c s (resolve_and_close x f now c applied w vm t)
unfolding resolve_and_close
resolve_and_close-Told x f now c applied w vm s t same up out = elim (Bool-cases x.resolve) [
  | inl e ↦ rw e same
  | inr e ↦ elim (Option-cases (resolve_lifecycle_policy f now w vm c.request_id t)) [
    | inl p ↦ rw (e, p) same
    | inr ((u, a), p) ↦ rw (e, p) (last u a p)
  ]
]
  where
    last :
        (u : Store) (a : Option PolicyAction)
        → resolve_lifecycle_policy f now w vm c.request_id t ≡ some (u, a)
        → Told c s (
            close_completed x.close_request now c applied (
              delete_job x.delete c.request_id (record_policy_action x.audit now c.request_id a u)))
    last u a p =
        let v = record_policy_action x.audit now c.request_id a u in
        let k = Keeps-trans t u _ (resolve-Keeps f now w vm c.request_id t p) (
          Keeps-trans u v _ (audit-Keeps x.audit now c.request_id a u)
            (delete_job-Keeps x.delete c.request_id v)) in
        close-Told x.close_request now c applied s _ (k.requests ∙ same)
          (omega (arith, up, k.current)) (omega (arith, out, k.current, k.emitted))

handle-Keeps :
    (f : Floats) (now id : ℕ) (m : Map AgentMetrics) (run : RunMetrics) (w : Workflow) (s : Store)
    → let t = (handle_agent_metrics f now id m run w s).store in
      Keeps s t × (w.current_version ≤ t.workflow.metrics_emitted_at)
unfolding handle_agent_metrics emission_of emit_metrics
handle-Keeps f now id m run w s = ground arith

count_and_resolve-Told :
    (x : Faults) (f : Floats) (now : ℕ) (c : Completion) (applied : Bool) (s t : Store)
    → t.requests ≡ s.requests
    → c.version ≤ t.workflow.current_version
    → Told c s (count_and_resolve x f now c applied t)
unfolding count_and_resolve
count_and_resolve-Told x f now c applied s t same up =
    elim (Bool-cases (x.job_metrics || x.get_workflow || x.handle_metrics)) [
      | inl e ↦ rw e same
      | inr e ↦
          let m = job_metrics c.request_id t in
          let h = handle_agent_metrics f now c.request_id m.0 m.1 (get_workflow t) t in
          let k = handle-Keeps f now c.request_id m.0 m.1 (get_workflow t) t in
          rw e (
            resolve_and_close-Told x f now c applied h.workflow h.totals s h.store
              (k.0.requests ∙ same) (omega (arith, up, k.0.current))
              (omega (arith, k.0.current, k.1)))
    ]

applied_part-Told :
    (x : Faults) (f : Floats) (now : ℕ) (c : Completion) (s : Store) (state : LifecycleState)
    → let (t, applied) = apply_completed_job now state c.version s in
      Told c s (count_and_resolve x f now c applied t)
unfolding apply_completed_job
applied_part-Told x f now c s state =
    count_and_resolve-Told x f now c _ s _ (ground arith) (ground arith)

-- CompleteRequest, whichever of its calls fail and whatever state the rows are in: it answers with a result only
-- after the request was closed with the outcome, the reason and the result of the run, after a
-- version that is at least the run's was applied and after the metrics of that version
-- were emitted; where it answers an error or panics, no request has changed.
pub complete_request-Told :
    (x : Faults) (f : Floats) (now : ℕ) (c : Completion) (s : Store)
    → Told c s (complete_request x f now c s)
unfolding complete_request
complete_request-Told x f now c s = go (completed_state c.request_type) x.apply
  where
    go :
        (o : Option LifecycleState) (fault : Bool)
        → Told c s (elim o [
          | none ↦ (s, failed)
          | some state ↦
              if fault
              then (s, failed)
              else let (t, applied) = apply_completed_job now state c.version s in
                count_and_resolve x f now c applied t
        ])
    go none fault = refl
    go (some state) true = refl
    go (some state) false = applied_part-Told x f now c s state
