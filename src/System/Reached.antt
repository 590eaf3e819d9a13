-- ===== src/System/Reached.antt =====
-- internal/scheduler/scheduler.go and lifecycleresolver.go: CompleteRequest as a history of
-- statements.
use boundflow.Base.{
  ℕ, ◌≤◌, ◌≡◌, inl, inr, Bool, true, false, Option, some, arith, Option-cases, subst,
}
use boundflow.Domain.Status.{is_suspended, is_resolvable}
use boundflow.Domain.Policy.{Floats, VersionMetrics}
use boundflow.Domain.Audit.{PolicyAction}
use boundflow.Domain.Rows.{Workflow}
use boundflow.Policy.{resolve_policy}
use boundflow.Store.{Store}
use boundflow.Store.Lifecycle
use boundflow.Metrics.{handle_agent_metrics}
use boundflow.Resolver.{Decision, decide_goal, apply_decision, resolve_lifecycle_policy}
use boundflow.Scheduler.{
  Faults, Completion, completed_state, close_completed, resolve_and_close, count_and_resolve,
  complete_request, record_policy_action, delete_job, get_workflow, job_metrics,
}
use boundflow.System.{Step, Reach}
use boundflow.System.Runs.{Reach-trans, once, audit-Reach, delete_job-Reach, handle-Reach}
use boundflow.System.Completion.{IsCurrent, goal-IsOpen, decide-state, handled-IsCurrent}

apply_decision-Reach :
    (change : Bool) (d : Decision) (w : Workflow) (id : ℕ) (s : Store)
    → IsCurrent w s
    → (is_suspended d.state ≡ true → is_resolvable s.workflow.workflow_state ≡ false)
    → Reach s (apply_decision change d w id s).0
unfolding apply_decision
apply_decision-Reach true d w id s c free =
    once (Step.resolve_version w.current_version w.current_workflow_version d.version id c.version)
apply_decision-Reach false d w id s c free = once {s = s} (
    Step.resolve_state w.current_version d.state d.cooldown_until id c.version
      (λ e. ground (arith, free e)))

resolve-Reach :
    (f : Floats) (now : ℕ) (w : Workflow) (vm : VersionMetrics) (id : ℕ) (s : Store) {t : Store}
    {a : Option PolicyAction}
    → IsCurrent w s
    → resolve_lifecycle_policy f now w vm id s ≡ some (t, a)
    → Reach s t
unfolding resolve_lifecycle_policy
resolve-Reach f now w vm id s {t} c e =
    elim (Option-cases (resolve_policy f w.invocation_metrics w.lifecycle_policy vm)) [
      | inl p ↦ ground (arith, p, e)
      | inr (res, p) ↦
          let d = decide_goal now w res res.rule in
          subst (Reach s) (ground (arith, p, e)) (
            apply_decision-Reach res.goal.version_change d w id s c
              (λ q. ground (arith, decide-state now w res (goal-IsOpen f w vm res p) q, c.state)))
    ]

close_completed-Reach :
    (fault : Bool) (now : ℕ) (c : Completion) (applied : Bool) (s : Store)
    → Reach s (close_completed fault now c applied s).0
unfolding close_completed
close_completed-Reach fault now c applied s =
    let here : Reach s s = Reach.here in
    ground (
      arith,
      here,
      once {s = s} (Step.close_completed now c.request_id c.outcome c.reason c.result),
    )

resolve_and_close-Reach :
    (x : Faults) (f : Floats) (now : ℕ) (c : Completion) (applied : Bool) (w : Workflow)
    (vm : VersionMetrics) (s : Store)
    → IsCurrent w s
    → Reach s (resolve_and_close x f now c applied w vm s).0
unfolding resolve_and_close
resolve_and_close-Reach x f now c applied w vm s current =
    let here : Reach s s = Reach.here in
    elim (Option-cases (resolve_lifecycle_policy f now w vm c.request_id s)) [
      | inl p ↦ ground (arith, p, here)
      | inr ((t, a), p) ↦
          let u = record_policy_action x.audit now c.request_id a t in
          let v = delete_job x.delete c.request_id u in
          let k =
            Reach-trans (resolve-Reach f now w vm c.request_id s current p)
              (audit-Reach x.audit now c.request_id a t) in
          ground (
            arith,
            p,
            here,
            Reach-trans k (
                Reach-trans (delete_job-Reach x.delete c.request_id u)
                  (close_completed-Reach x.close_request now c applied v)),
          )
    ]

count_and_resolve-Reach :
    (x : Faults) (f : Floats) (now : ℕ) (c : Completion) (applied : Bool) (s : Store)
    → Reach s (count_and_resolve x f now c applied s).0
unfolding count_and_resolve
count_and_resolve-Reach x f now c applied s =
    let m = job_metrics c.request_id s in
    let k = handle_agent_metrics f now c.request_id m.0 m.1 (get_workflow s) s in
    let here : Reach s s = Reach.here in
    ground (
      arith,
      here,
      Reach-trans (handle-Reach f now c.request_id m.0 m.1 (get_workflow s) s (omega arith)) (
          resolve_and_close-Reach x f now c applied k.workflow k.totals k.store
            (handled-IsCurrent f now c.request_id m.0 m.1 s)),
    )

-- CompleteRequest runs only statements of the system, whichever of its calls fail and whatever the
-- policy decides.
pub complete_request-Reach :
    (x : Faults) (f : Floats) (now : ℕ) (c : Completion) (s : Store)
    → c.version ≤ s.workflow.target_version
    → Reach s (complete_request x f now c s).0
unfolding complete_request
complete_request-Reach x f now c s le =
    let here : Reach s s = Reach.here in
    elim (Option-cases (completed_state c.request_type)) [
      | inl e ↦ ground (arith, e, here)
      | inr (state, e) ↦
          let r = Lifecycle.apply_completed_job now state c.version s in
          ground (
            arith,
            e,
            here,
            Reach-trans (once (Step.complete now state c.version le))
                (count_and_resolve-Reach x f now c r.1 r.0),
          )
    ]
