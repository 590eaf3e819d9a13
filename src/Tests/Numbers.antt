-- ===== src/Tests/Numbers.antt =====
-- Tests of the policy engine, of the rules on the wire and of the sums over a run.
use boundflow.Base.{
  ◌+◌, ◌^◌, ◌%◌, ◌≡◌, refl, ◌⊎◌, Option, none, some, List, [], ◌∷◌, All, arith, add_64, Map,
}
use boundflow.Domain.Status.{JobStatus, WorkflowState}
use boundflow.Domain.Metrics.{AgentMetrics}
use boundflow.Domain.Rows.{Workflow}
use boundflow.Domain.Audit.{PolicyAction}
use boundflow.Store.{Store}
use boundflow.Policy
use boundflow.Policy.{Resolution, no_goal, resolve_policy, GoalState}
use boundflow.Policy.Winner.{IsIdle, Wins, resolve_policy_picks}
use boundflow.Policy.Safety.{resolve_policy-total}
use boundflow.Convert
use boundflow.Convert.{ProtoRule, policy_from_proto, policy_to_proto}
use boundflow.Convert.Rules.{policy_from-to}
use boundflow.Metrics.{count_at, run_totals, handle_agent_metrics, stored_totals}
use boundflow.Metrics.Merge.{sum_of, calls, rejections, failed_at, or_zero, run_totals_add}
use boundflow.Metrics.Emit.{emitted_once}
use boundflow.Samples.{
  floats, workflow, failed_run, pause_on_failures, totals, agent_run, run_metrics, store_in,
}

-- The resolution of the sample policy: two failures pause the workflow.
abbrev paused : Resolution
paused = record {
  goal = record no_goal { state = some WorkflowState.paused };
  rule = some pause_on_failures;
  value = 2;
  priority = some 2;
}

resolve_policy_picks_example :
    (All (IsIdle floats (failed_run ∷ []) totals) (pause_on_failures ∷ [])
      × (paused.rule ≡ none)
      × (paused.goal ≡ no_goal))
    ⊎ Wins floats (failed_run ∷ []) totals (pause_on_failures ∷ []) paused
unfolding resolve_policy Policy.resolve_rules Policy.settle Policy.evaluate_rule Policy.last_run
    Policy.metric_emitted Policy.window_total Policy.lookback Policy.sum_runs Policy.run_value
    Policy.action_priority
resolve_policy_picks_example =
    resolve_policy_picks floats (failed_run ∷ []) totals workflow.lifecycle_policy paused refl

abbrev sent : List ProtoRule
sent =
    record {
      metric = 1;
      threshold = 9;
      window = 3;
      tool_name = 0;
      action = some (record { type = 1; cooldown_seconds = 30; target_version = 4 });
    }
    ∷ []

resolve_policy-total_example :
    (res : Resolution) × (resolve_policy floats
        (failed_run ∷ [])
        (policy_from_proto (some sent))
        totals
      ≡ some res)
unfolding Convert.check_rules Convert.check_rule
resolve_policy-total_example =
    resolve_policy-total floats (failed_run ∷ []) totals sent
      ((omega arith, (omega arith, omega arith)), tt) refl

policy_from-to_example :
    policy_from_proto (some (policy_to_proto (policy_from_proto (some sent))))
    ≡ policy_from_proto (some sent)
unfolding Convert.check_rules Convert.check_rule
policy_from-to_example = policy_from-to sent ((omega arith, (omega arith, omega arith)), tt) refl

abbrev reported : Map AgentMetrics
reported = (40, agent_run) ∷ (41, agent_run) ∷ []

abbrev finished : Store
finished = store_in JobStatus.completed

-- The workflow as it is read after its second run was applied.
abbrev after_run : Workflow
after_run = record workflow { current_version = 2 }

run_totals_add_example :
    let v = stored_totals after_run finished in
    let u = (run_totals floats 90 12 reported run_metrics after_run finished).version in
    (u.run_count ≡ add_64 v.run_count 1)
    × (u.total_failures ≡ add_64 v.total_failures run_metrics.failures)
    × (u.total_llm_calls % 2 ^ 64 ≡ (v.total_llm_calls + sum_of calls reported) % 2 ^ 64)
    × (u.total_approval_rejections % 2 ^ 64
        ≡ (v.total_approval_rejections
            + sum_of rejections reported
            + or_zero run_metrics.approval_rejections)
          % 2 ^ 64)
    × (count_at 8 u.tool_failure_counts % 2 ^ 64
        ≡ (count_at 8 v.tool_failure_counts + sum_of (failed_at 8) reported) % 2 ^ 64)
run_totals_add_example = run_totals_add floats 90 12 8 reported run_metrics after_run finished

abbrev emitted : Store
emitted = (handle_agent_metrics floats 90 12 reported run_metrics after_run finished).store

emitted_once_example :
    (handle_agent_metrics floats 91 12 reported run_metrics after_run emitted).store ≡ emitted
emitted_once_example =
    emitted_once floats 90 12 reported run_metrics after_run finished 91 12 reported run_metrics
      after_run (omega arith)

-- The resolution that the sample policy brings about.
abbrev held : Store
held = record (record finished { workflow = after_run }) {
  workflow = record after_run {
    lifecycle_last_resolved = 2;
    workflow_state = WorkflowState.paused;
    last_policy_decision_request_id = 12;
  };
}

abbrev action : PolicyAction
action = record {
  rule = pause_on_failures;
  trigger_value = 2;
  previous_version = 1;
  previous_state = WorkflowState.active;
}

-- The same reading against a workflow that was suspended in the meantime.
abbrev frozen : Store
frozen = record finished {
  workflow = record after_run { workflow_state = WorkflowState.suspended };
}

abbrev no_action : Option PolicyAction
no_action = none
