-- ===== src/Metrics/Emit.antt =====
-- internal/metrics/metricshandler.go and internal/storage/postgres/metrics.go: how often a run is
-- counted, and how long the histories become.
use boundflow.Base.{
  ℕ, ◌-◌, ◌≤◌, ◌≡◌, refl, inl, inr, Option, none, some, List, [], ◌∷◌, ◌++◌, Map, lookup, insert,
  All, ◌==◌, arith, length, length-drop, ltb, Bool-cases, subst,
}
use mathlib.Core.Option.{some-injective}
use boundflow.Domain.Policy.{Floats, max_lifecycle_window}
use boundflow.Domain.Metrics.{AgentMetrics, AgentSnapshot, AgentState, RunMetrics}
use boundflow.Domain.Rows.{Workflow}
use boundflow.Store.{Store}
use boundflow.Store.Resolution.{emit_metrics, upsert_histories, with_history}
use boundflow.Metrics.{
  trim, fold_agent, fold_agents, fold_run, run_totals, Totals, emission_of, handle_agent_metrics,
  with_run, to_agent_snapshot, histories_of,
}

pub trim-bound {ℓ} : {A : Type ℓ} (xs : List A) → length (trim xs) ≤ max_lifecycle_window
unfolding trim
trim-bound xs = ground (arith, length-drop (length xs - max_lifecycle_window) xs)

-- After HandleAgentMetrics ran for a version, a call for the same or an earlier version leaves
-- every row alone, whatever metrics it brings and however old its copy of the workflow is.
pub emitted_once :
    (f : Floats) (now id : ℕ) (metrics : Map AgentMetrics) (run : RunMetrics) (w : Workflow)
    (s : Store) (later id_b : ℕ) (metrics_b : Map AgentMetrics) (run_b : RunMetrics) (v : Workflow)
    → v.current_version ≤ w.current_version
    → let t = (handle_agent_metrics f now id metrics run w s).store in
      (handle_agent_metrics f later id_b metrics_b run_b v t).store ≡ t
unfolding handle_agent_metrics emission_of emit_metrics
emitted_once f now id metrics run w s later id_b metrics_b run_b v le = ground arith

-- The histories are as long as a rule may look back, at most.
abbrev IsShort : ℕ × AgentState → Type 0
IsShort e = length (e.1.invocation_metrics) ≤ max_lifecycle_window

pub record HasWindows (s : Store) : Type 0 where
  pub runs : length s.workflow.invocation_metrics ≤ max_lifecycle_window
  pub agents : All IsShort s.agents

insert-All {ℓ κ} :
    {V : Type ℓ} (P : ℕ × V → Type κ) (k : ℕ) (v : V) (m : Map V)
    → P (k, v)
    → All P m
    → All P (insert k v m)
unfolding insert
insert-All P k v [] h all = (h, tt)
insert-All P k v ((j, w) ∷ m) h all = elim (Bool-cases (j == k)) [
  | inl e ↦ rw e (h, all.1)
  | inr e ↦ rw e (all.0, insert-All P k v m h all.1)
]

with_run-IsShort :
    (agent : ℕ) (x : AgentSnapshot) (o : Option AgentState) → IsShort (agent, with_run agent x o)
with_run-IsShort agent x none = omega arith
with_run-IsShort agent x (some a) = trim-bound (a.invocation_metrics ++ (x ∷ []))

fold_agents-IsShort :
    (f : Floats) (id : ℕ) (metrics : Map AgentMetrics) (t : Totals)
    → All IsShort t.agents
    → All IsShort (fold_agents f id metrics t).agents
unfolding fold_agents fold_agent
fold_agents-IsShort f id [] t all = all
fold_agents-IsShort f id ((agent, m) ∷ rest) t all =
    fold_agents-IsShort f id rest (fold_agent f id agent m t) (
      insert-All IsShort agent _ t.agents
        (with_run-IsShort agent (to_agent_snapshot m id) (lookup agent t.agents)) all)

lookup-All {ℓ κ} :
    {V : Type ℓ} (P : ℕ × V → Type κ) (k : ℕ) (m : Map V) {v : V}
    → All P m
    → lookup k m ≡ some v
    → (j : ℕ) × P (j, v)
unfolding lookup
lookup-All P k [] all e = cc
lookup-All P k ((j, w) ∷ m) {v} all e = elim (Bool-cases (j == k)) [
  | inl hit ↦ (j, subst (λ x. P (j, x)) (some-injective _ _ (rw hit at e)) all.0)
  | inr miss ↦ lookup-All P k m all.1 (rw miss at e)
]

abbrev IsShortHistory : ℕ × List AgentSnapshot → Type 0
IsShortHistory e = length e.1 ≤ max_lifecycle_window

histories_of-IsShort :
    (metrics : Map AgentMetrics) (states : Map AgentState)
    → All IsShort states
    → All IsShortHistory (histories_of metrics states)
histories_of-IsShort [] states all = tt
histories_of-IsShort ((agent, m) ∷ rest) states all =
    (first (lookup agent states) refl, histories_of-IsShort rest states all)
  where
    first :
        (o : Option AgentState)
        → lookup agent states ≡ o
        → IsShortHistory (agent, (elim o [ none ↦ [] | some a ↦ a.invocation_metrics ]))
    first none e = omega arith
    first (some a) e = (lookup-All IsShort agent states all e).1

upsert_histories-IsShort :
    (hs : Map (List AgentSnapshot)) (states : Map AgentState)
    → All IsShortHistory hs
    → All IsShort states
    → All IsShort (upsert_histories hs states)
unfolding upsert_histories
upsert_histories-IsShort [] states short all = all
upsert_histories-IsShort ((agent, h) ∷ rest) states short all =
    upsert_histories-IsShort rest (insert agent (with_history agent h (lookup agent states)) states)
      short.1 (insert-All IsShort agent _ states (kept (lookup agent states)) all)
  where
    kept : (o : Option AgentState) → IsShort (agent, with_history agent h o)
    kept none = short.0
    kept (some a) = short.0

-- HandleAgentMetrics keeps the rolling window of the workflow and the history of every agent within
-- the longest lookback of a rule, with the emission let through or not, and what its caller goes on
-- with has a window within it as well.
pub windows_stay :
    (f : Floats) (now id : ℕ) (metrics : Map AgentMetrics) (run : RunMetrics) (w : Workflow)
    (s : Store)
    → HasWindows s
    → let h = handle_agent_metrics f now id metrics run w s in
      HasWindows h.store × (length h.workflow.invocation_metrics ≤ max_lifecycle_window)
unfolding handle_agent_metrics emission_of emit_metrics run_totals fold_run
windows_stay f now id metrics run w s h = (
  (elim (Bool-cases (ltb s.workflow.metrics_emitted_at w.current_version)) [
    | inl e ↦ record {
      runs = rw e (trim-bound _);
      agents = rw e (
          upsert_histories-IsShort _ s.agents
            (histories_of-IsShort metrics _ (fold_agents-IsShort f id metrics _ h.agents))
            h.agents);
    }
    | inr e ↦ rw e h
  ]),
  trim-bound _,
)
