-- ===== src/Store/Resolution.antt =====
-- internal/storage/postgres/lifecycle_resolver.go, metrics.go and version_metrics.go: the writes that
-- end a run, each of them gated so that a run is counted and resolved once.
use boundflow.Base.{
  ℕ, Bool, true, false, ◌&&◌, Option, none, some, List, [], ◌∷◌, Map, lookup, insert, ◌==◌, ltb,
  leb, if◌then◌else◌,
}
use boundflow.Domain.Status.{WorkflowState, is_resolvable}
use boundflow.Domain.Policy.{Snapshot, VersionMetrics}
use boundflow.Domain.Metrics.{AgentSnapshot, AgentState}
use boundflow.Domain.Rows.{Workflow}
use boundflow.Store.{Store, update_workflow}
use boundflow.Store.Lifecycle.{start_new_metrics_epoch, last_epoch}

-- TryApplyVersionResolution.
unfoldable pub try_apply_version_resolution : ℕ → ℕ → ℕ → ℕ → Store → Store × Bool
unfolding start_new_metrics_epoch
try_apply_version_resolution resolved expected target request_id s =
    if ltb s.workflow.lifecycle_last_resolved resolved
      && s.workflow.current_workflow_version == expected
      && is_resolvable s.workflow.workflow_state
    then (
      (let t = record s {
        workflow = record (s.workflow) {
          lifecycle_last_resolved = resolved;
          current_workflow_version = target;
          last_policy_decision_request_id = request_id;
        };
      } in
          if target == expected then t else start_new_metrics_epoch target t),
      true,
    )
    else (s, false)

-- TryApplyStateResolution.
unfoldable pub try_apply_state_resolution : ℕ → WorkflowState → Option ℕ → ℕ → Store → Store × Bool
try_apply_state_resolution resolved state cooldown_until request_id =
    update_workflow (λ w. ltb w.lifecycle_last_resolved resolved && is_resolvable w.workflow_state)
      (λ w. record w {
        lifecycle_last_resolved = resolved;
        workflow_state = state;
        cooldown_until = cooldown_until;
        last_policy_decision_request_id = request_id;
      })

-- `ON CONFLICT (workflow_id, version, epoch) DO UPDATE`: the totals are replaced.
unfoldable pub upsert_totals : VersionMetrics → List VersionMetrics → List VersionMetrics
upsert_totals m [] = m ∷ []
upsert_totals m (n ∷ ns) =
    if n.version == m.version && n.epoch == m.epoch then m ∷ ns else n ∷ upsert_totals m ns

-- GetCurrentVersionMetrics: the row of the version with the highest epoch.
unfoldable pub current_version_metrics : ℕ → List VersionMetrics → Option VersionMetrics
current_version_metrics version [] = none
current_version_metrics version (m ∷ ms) =
    let rest = current_version_metrics version ms in
    if m.version == version && leb (last_epoch version ms) m.epoch then some m else rest

-- `INSERT ... ON CONFLICT (workflow_id, agent_name) DO UPDATE SET invocation_metrics`.
abbrev pub with_history : ℕ → List AgentSnapshot → Option AgentState → AgentState
with_history agent history none = record {
  agent_name = agent;
  runtime_policy = 0;
  lifecycle_policy = 0;
  invocation_metrics = history;
}
with_history agent history (some a) = record a { invocation_metrics = history }

unfoldable pub upsert_histories : Map (List AgentSnapshot) → Map AgentState → Map AgentState
upsert_histories [] states = states
upsert_histories ((agent, history) ∷ rest) states =
    upsert_histories rest (insert agent (with_history agent history (lookup agent states)) states)

-- What HandleAgentMetrics hands to EmitMetrics.
pub record Emission : Type 0 where
  pub version : ℕ
  pub rolling : List Snapshot
  pub totals : VersionMetrics
  pub histories : Map (List AgentSnapshot)

abbrev gated : Emission → Workflow → Workflow
gated e w = record w { metrics_emitted_at = e.version; invocation_metrics = e.rolling }

-- EmitMetrics.
unfoldable pub emit_metrics : Emission → Store → Store × Bool
emit_metrics e s =
    if ltb s.workflow.metrics_emitted_at e.version
    then (
      record s {
        workflow = gated e s.workflow;
        version_metrics = upsert_totals e.totals s.version_metrics;
        agents = upsert_histories e.histories s.agents;
      },
      true,
    )
    else (s, false)
