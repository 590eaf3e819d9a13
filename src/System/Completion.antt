-- ===== src/System/Completion.antt =====
-- internal/scheduler/scheduler.go and lifecycleresolver.go: CompleteRequest, whichever of its calls
-- fail and whatever the policy decides, keeps the rows of a workflow consistent.
use boundflow.Base.{
  ℕ, ◌≤◌, ◌≡◌, refl, inl, inr, Bool, true, Option, some, arith, Option-cases, Map, subst,
}
use boundflow.Domain.Status.{is_suspended}
use boundflow.Domain.Policy.{Floats, VersionMetrics}
use boundflow.Domain.Audit.{PolicyAction}
use boundflow.Domain.Metrics.{AgentMetrics, RunMetrics}
use boundflow.Domain.Rows.{Workflow}
use boundflow.Policy.{Resolution, resolve_policy}
use boundflow.Policy.Goals.{IsOpen, evaluate_rule-IsOpen}
use boundflow.Policy.Winner.{resolve_policy_picks}
use boundflow.Store.{Store}
use boundflow.Store.Lifecycle
use boundflow.Store.Resolution
use boundflow.Metrics.{handle_agent_metrics, emission_of}
use boundflow.Resolver.{Decision, decide_goal, apply_decision, resolve_lifecycle_policy}
use boundflow.Scheduler.{
  Faults, Completion, completed_state, close_completed, resolve_and_close, count_and_resolve,
  complete_request, record_policy_action, delete_job, get_workflow, job_metrics,
}
use boundflow.System.Invariant.{Inv}
use boundflow.System.Progress.{queue-Inv, complete-Inv, resolution-Inv}
use boundflow.System.Handlers.{delete_job-Inv, handle-Inv}

pub goal-IsOpen :
    (f : Floats) (w : Workflow) (vm : VersionMetrics) (res : Resolution)
    → resolve_policy f w.invocation_metrics w.lifecycle_policy vm ≡ some res
    → IsOpen res.goal
goal-IsOpen f w vm res e =
    elim (resolve_policy_picks f w.invocation_metrics vm w.lifecycle_policy res e) [
      | inl (_, _, idle) ↦ rw idle refl
      | inr won ↦
          evaluate_rule-IsOpen f w.invocation_metrics vm won.winner res.goal res.value won.fires
    ]

pub decide-state :
    (now : ℕ) (w : Workflow) (res : Resolution)
    → IsOpen res.goal
    → is_suspended (decide_goal now w res res.rule).state ≡ true
    → is_suspended w.workflow_state ≡ true
unfolding decide_goal
decide-state now w res free e = ground (arith, free, e)

-- The workflow as it was read is of the same run and in the same state as the row.
pub record IsCurrent (w : Workflow) (s : Store) : Type 0 where
  pub version : w.current_version ≤ s.workflow.current_version
  pub state : w.workflow_state ≡ s.workflow.workflow_state

apply_decision-Inv :
    (change : Bool) (d : Decision) (w : Workflow) (id : ℕ) (s : Store)
    → IsCurrent w s
    → (is_suspended d.state ≡ true → is_suspended w.workflow_state ≡ true)
    → Inv s
    → Inv (apply_decision change d w id s).0
unfolding apply_decision
apply_decision-Inv change d w id s c free h = ground (
  arith,
  (resolution-Inv s h).0 w.current_version w.current_workflow_version d.version id c.version,
  (resolution-Inv s h).1 w.current_version d.state d.cooldown_until id c.version
      (λ e. ground (arith, free e, c.state)),
)

resolve-Inv :
    (f : Floats) (now : ℕ) (w : Workflow) (vm : VersionMetrics) (id : ℕ) (s : Store) {t : Store}
    {a : Option PolicyAction}
    → IsCurrent w s
    → Inv s
    → resolve_lifecycle_policy f now w vm id s ≡ some (t, a)
    → Inv t
unfolding resolve_lifecycle_policy
resolve-Inv f now w vm id s {t} c h e =
    elim (Option-cases (resolve_policy f w.invocation_metrics w.lifecycle_policy vm)) [
      | inl p ↦ ground (arith, p, e)
      | inr (res, p) ↦
          let d = decide_goal now w res res.rule in
          subst Inv (ground (arith, p, e)) (
            apply_decision-Inv res.goal.version_change d w id s c
              (decide-state now w res (goal-IsOpen f w vm res p)) h)
    ]

audit-Inv :
    (fault : Bool) (now id : ℕ) (a : Option PolicyAction) (s : Store)
    → Inv s
    → Inv (record_policy_action fault now id a s)
unfolding record_policy_action
audit-Inv fault now id a s h = ground (arith, h)

close_completed-Inv :
    (fault : Bool) (now : ℕ) (c : Completion) (applied : Bool) (s : Store)
    → Inv s
    → Inv (close_completed fault now c applied s).0
unfolding close_completed
close_completed-Inv fault now c applied s h =
    ground (arith, h, (queue-Inv s h).1 now c.request_id c.outcome c.reason c.result)

resolve_and_close-Inv :
    (x : Faults) (f : Floats) (now : ℕ) (c : Completion) (applied : Bool) (w : Workflow)
    (vm : VersionMetrics) (s : Store)
    → IsCurrent w s
    → Inv s
    → Inv (resolve_and_close x f now c applied w vm s).0
unfolding resolve_and_close
resolve_and_close-Inv x f now c applied w vm s current h =
    elim (Option-cases (resolve_lifecycle_policy f now w vm c.request_id s)) [
      | inl p ↦ ground (arith, p, h)
      | inr ((t, a), p) ↦
          let u = record_policy_action x.audit now c.request_id a t in
          let k =
            audit-Inv x.audit now c.request_id a t
              (resolve-Inv f now w vm c.request_id s current h p) in
          ground (
            arith,
            p,
            h,
            close_completed-Inv x.close_request now c applied (delete_job x.delete c.request_id u)
                (delete_job-Inv x.delete c.request_id u k),
          )
    ]

pub handled-IsCurrent :
    (f : Floats) (now id : ℕ) (m : Map AgentMetrics) (run : RunMetrics) (s : Store)
    → let h = handle_agent_metrics f now id m run (get_workflow s) s in IsCurrent h.workflow h.store
unfolding handle_agent_metrics emission_of Resolution.emit_metrics
handled-IsCurrent f now id m run s = ground arith

count_and_resolve-Inv :
    (x : Faults) (f : Floats) (now : ℕ) (c : Completion) (applied : Bool) (s : Store)
    → Inv s
    → Inv (count_and_resolve x f now c applied s).0
unfolding count_and_resolve
count_and_resolve-Inv x f now c applied s h =
    let m = job_metrics c.request_id s in
    let k = handle_agent_metrics f now c.request_id m.0 m.1 (get_workflow s) s in
    ground (
      arith,
      h,
      resolve_and_close-Inv x f now c applied k.workflow k.totals k.store
          (handled-IsCurrent f now c.request_id m.0 m.1 s)
          (handle-Inv f now c.request_id m.0 m.1 (get_workflow s) s (omega arith) h),
    )

-- CompleteRequest for a version that its workflow allocated keeps the rows consistent, whichever of
-- its calls fail and whatever the policy decides.
pub complete_request-Inv :
    (x : Faults) (f : Floats) (now : ℕ) (c : Completion) (s : Store)
    → c.version ≤ s.workflow.target_version
    → Inv s
    → Inv (complete_request x f now c s).0
unfolding complete_request
complete_request-Inv x f now c s le h = elim (Option-cases (completed_state c.request_type)) [
  | inl e ↦ ground (arith, e, h)
  | inr (state, e) ↦
      let r = Lifecycle.apply_completed_job now state c.version s in
      ground (
        arith,
        e,
        h,
        count_and_resolve-Inv x f now c r.1 r.0 (complete-Inv s now state c.version le h),
      )
]
