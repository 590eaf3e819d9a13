-- ===== src/Service/Resume.antt =====
-- internal/service/lifecycle.go: ResumeWorkflow and resolveResumeState, which asks the policy again
-- what the workflow is to be restored to.
use boundflow.Base.{
  ℕ, ◌+◌, ◌-◌, ◌≡◌, refl, inl, inr, Bool, false, Option, none, some, if◌then◌else◌, arith,
  Option-cases,
}
use boundflow.Domain.Status.{WorkflowState, is_suspended}
use boundflow.Domain.Policy.{Floats, Rule, VersionMetrics}
use boundflow.Domain.Rows.{Workflow}
use boundflow.Policy.{GoalState, resolve_policy}
use boundflow.Policy.Goals.{IsOpen}
use boundflow.Store.{Store}
use boundflow.Store.Lifecycle.{fresh_totals}
use boundflow.Store.Resolution.{current_version_metrics}
use boundflow.Store.Suspension.{Target, restore_from_suspension}
use boundflow.Service.{Reply, ok, refused, ServiceError}
use boundflow.System.Completion.{goal-IsOpen}

-- The results of resolveResumeState beside its error; the empty state is `none`.
pub record ResumeState : Type 0 where
  pub state : Option WorkflowState
  pub version : ℕ
  pub cooldown_until : Option ℕ

abbrev totals_of : Option VersionMetrics → VersionMetrics
totals_of none = fresh_totals 0 0
totals_of (some m) = m

-- `max(CooldownUntil - RequestedAt, 0)`, and 0 where either is missing.
abbrev remaining : Option ℕ → Option ℕ → ℕ
remaining none requested = 0
remaining (some until) none = 0
remaining (some until) (some requested) = until - requested

abbrev held_in : ℕ → Workflow → Option WorkflowState → ResumeState
held_in now w (some WorkflowState.cooldown) = record {
  state = some WorkflowState.cooldown;
  version = w.current_workflow_version;
  cooldown_until = some (now + remaining w.cooldown_until w.suspension.requested_at);
}
held_in now w state = record {
  state = state;
  version = w.current_workflow_version;
  cooldown_until = none;
}

abbrev opened_at : ℕ → ResumeState
opened_at version = record {
  state = some WorkflowState.active;
  version = version;
  cooldown_until = none;
}

abbrev goal_of : ℕ → Workflow → GoalState → ResumeState
goal_of now w g = if g.version_change then opened_at g.version else held_in now w g.state

abbrev after_rule : ℕ → Workflow → GoalState → Option Rule → ResumeState
after_rule now w g none = opened_at w.current_workflow_version
after_rule now w g (some r) = goal_of now w g

-- resolveResumeState; none is the panic of the engine.
unfoldable pub resolve_resume_state : Floats → ℕ → Workflow → Store → Option ResumeState
resolve_resume_state f now w s =
    let vm = totals_of (current_version_metrics w.current_workflow_version s.version_metrics) in
    (elim (resolve_policy f w.invocation_metrics w.lifecycle_policy vm) [
      | none ↦ none
      | some res ↦ some (after_rule now w res.goal res.rule)
    ])

abbrev pub target_of : Workflow → ResumeState → WorkflowState → Target
target_of w r state = record {
  state = state;
  expected_version = w.current_workflow_version;
  version = r.version;
  cooldown_until = r.cooldown_until;
}

-- RestoreFromSuspension with what was resolved; the column refuses the empty state.
unfoldable pub restore_to : Bool → ℕ → Workflow → ResumeState → Store → Store × Reply (Unit {0})
restore_to fault id w r s = elim r.state [
  | none ↦ (s, refused ServiceError.storage)
  | some state ↦
      let (t, restored) = restore_from_suspension id (target_of w r state) s in
      if fault
      then (s, refused ServiceError.storage)
      else if restored
      then (t, ok tt)
      else (t, refused ServiceError.invalid_lifecycle_state)
]

-- ResumeWorkflow, for the workflow `w` as it was read.
unfoldable pub resume_workflow :
    Bool → Bool → Floats → ℕ → ℕ → Workflow → Store → Store × Option (Reply (Unit {0}))
resume_workflow read write f now id w s =
    if read
    then (s, some (refused ServiceError.storage))
    else (elim (resolve_resume_state f now w s) [
      | none ↦ (s, none)
      | some r ↦ let (t, answer) = restore_to write id w r s in (t, some answer)
    ])

-- What is restored is not a suspension.
unfoldable pub IsResumed : ResumeState → Type 0
IsResumed r = (elim r.state [ none ↦ false | some st ↦ is_suspended st ]) ≡ false

after_rule-IsResumed :
    (now : ℕ) (w : Workflow) (g : GoalState) (r : Option Rule)
    → IsOpen g
    → IsResumed (after_rule now w g r)
unfolding IsResumed
after_rule-IsResumed now w g none free = refl
after_rule-IsResumed now w g (some r) free = ground (arith, free)

pub resolve-IsResumed :
    (f : Floats) (now : ℕ) (w : Workflow) (s : Store) (r : ResumeState)
    → resolve_resume_state f now w s ≡ some r
    → IsResumed r
unfolding resolve_resume_state IsResumed
resolve-IsResumed f now w s r e =
    let vm = totals_of (current_version_metrics w.current_workflow_version s.version_metrics) in
    elim (Option-cases (resolve_policy f w.invocation_metrics w.lifecycle_policy vm)) [
      | inl p ↦ ground (arith, p, e)
      | inr (res, p) ↦
          ground
            (arith, p, e, after_rule-IsResumed now w res.goal res.rule (goal-IsOpen f w vm res p))
    ]
