-- ===== src/Resolver.antt =====
-- internal/scheduler/lifecycleresolver.go: ResolveLifecyclePolicy evaluates the policy on the run
-- that just ended and applies the goal state, once for each run.
pub mod Once
use boundflow.Base.{
  ℕ, ◌+◌, ◌-◌, ◌^◌, Bool, true, false, not, ◌&&◌, Option, none, some, ◌==◌, ltb, if◌then◌else◌,
}
use mathlib.Core.Bool.{decide}
use boundflow.Domain.Status.{WorkflowState, WorkflowState-discrete, is_cooldown}
use boundflow.Domain.Policy.{Floats, Rule, VersionMetrics}
use boundflow.Domain.Audit.{PolicyAction}
use boundflow.Domain.Rows.{Workflow}
use boundflow.Policy.{GoalState, Resolution, resolve_policy}
use boundflow.Store.{Store}
use boundflow.Store.Resolution.{try_apply_version_resolution, try_apply_state_resolution}

-- `t.Add(time.Duration(seconds) * time.Second)` for an int of seconds; the past ends at 0.
unfoldable pub add_seconds : ℕ → ℕ → ℕ
add_seconds t seconds = if ltb seconds (2 ^ 63) then t + seconds else t - (2 ^ 64 - seconds)

-- The variables `version`, `state` and `cooldown` after `if firedRule != nil`.
pub record Decision : Type 0 where
  pub version : ℕ
  pub state : WorkflowState
  pub cooldown_until : Option ℕ

abbrev stay : Workflow → Decision
stay w = record {
  version = w.current_workflow_version;
  state = w.workflow_state;
  cooldown_until = w.cooldown_until;
}

-- A goal without a version change names a state: pause or cooldown.
abbrev held : ℕ → Workflow → GoalState → Option WorkflowState → Decision
held now w g none = stay w
held now w g (some state) = record (stay w) {
  state = state;
  cooldown_until =
      if is_cooldown state then some (add_seconds now g.cooldown) else w.cooldown_until;
}

abbrev moved : ℕ → Workflow → GoalState → Decision
moved now w g =
    if g.version_change then record (stay w) { version = g.version } else held now w g g.state

unfoldable pub decide_goal : ℕ → Workflow → Resolution → Option Rule → Decision
decide_goal now w res none = stay w
decide_goal now w res (some r) = moved now w res.goal

-- TryApplyVersionResolution where the goal changes the version, TryApplyStateResolution otherwise.
unfoldable pub apply_decision : Bool → Decision → Workflow → ℕ → Store → Store × Bool
apply_decision version_change d w request_id s =
    if version_change
    then try_apply_version_resolution w.current_version w.current_workflow_version d.version
        request_id s
    else try_apply_state_resolution w.current_version d.state d.cooldown_until request_id s

-- `version == prevVersion && state == prevState`.
abbrev is_unchanged : Workflow → Decision → Bool
is_unchanged w d =
    d.version == w.current_workflow_version
    && decide (WorkflowState-discrete d.state w.workflow_state)

-- The details for the audit: a rule fired, the write went through and something changed.
unfoldable pub audited : Bool → Option Rule → Resolution → Workflow → Decision → Option PolicyAction
audited applied none res w d = none
audited applied (some r) res w d =
    if applied && not (is_unchanged w d)
    then some (record {
      rule = r;
      trigger_value = res.value;
      previous_version = w.current_workflow_version;
      previous_state = w.workflow_state;
    })
    else none

-- ResolveLifecyclePolicy for the workflow `w` as the caller read it; none is the panic of the
-- engine.
unfoldable pub resolve_lifecycle_policy :
    Floats → ℕ → Workflow → VersionMetrics → ℕ → Store → Option (Store × Option PolicyAction)
resolve_lifecycle_policy f now w vm request_id s =
    elim (resolve_policy f w.invocation_metrics w.lifecycle_policy vm) [
      | none ↦ none
      | some res ↦
          let d = decide_goal now w res res.rule in
          let (t, applied) = apply_decision res.goal.version_change d w request_id s in
          some (t, audited applied res.rule res w d)
    ]
