-- ===== src/Metrics/Merge.antt =====
-- internal/metrics/metricshandler.go: what the sums over maps come to, agent by agent and tool by
-- tool, in whatever order a map is ranged over.
use boundflow.Base.{
  ℕ, ◌+◌, ◌^◌, ◌%◌, ◌≡◌, refl, Option, none, some, [], ◌∷◌, Map, lookup, insert, lookup-insert,
  ◌==◌, if◌then◌else◌, arith, add_32, add_64, int_of_32,
}
use boundflow.Domain.Policy.{Floats, VersionMetrics}
use boundflow.Domain.Metrics.{AgentMetrics, RunMetrics}
use boundflow.Domain.Rows.{Workflow}
use boundflow.Store.{Store}
use boundflow.Metrics.{
  count_at, merge_counts, merge_agent_metrics, merged_with, count_failures, fold_agent, fold_agents,
  fold_run, run_totals, Totals, stored_totals, empty_run,
}

-- What a list of entries adds to a key in all.
pub tally : (ℕ → ℕ) → ℕ → Map ℕ → ℕ
tally f k [] = 0
tally f k ((j, n) ∷ rest) = (if j == k then f n else 0) + tally f k rest

count_at-insert :
    (k j n : ℕ) (m : Map ℕ) → count_at j (insert k n m) ≡ (if k == j then n else count_at j m)
count_at-insert k j n m = ground (arith, lookup-insert k j n m)

merge_counts-tally :
    (k : ℕ) (src dst : Map ℕ)
    → count_at k (merge_counts src dst) % 2 ^ 32 ≡ (count_at k dst + tally (λ n. n) k src) % 2 ^ 32
unfolding merge_counts tally
merge_counts-tally k [] dst = ground arith
merge_counts-tally k ((j, n) ∷ rest) dst = ground (
  arith,
  merge_counts-tally k rest (insert j (add_32 (count_at j dst) n) dst),
  count_at-insert j k (add_32 (count_at j dst) n) dst,
)

count_failures-tally :
    (k : ℕ) (src dst : Map ℕ)
    → count_at k (count_failures src dst) % 2 ^ 64
      ≡ (count_at k dst + tally int_of_32 k src) % 2 ^ 64
unfolding count_failures tally
count_failures-tally k [] dst = ground arith
count_failures-tally k ((j, n) ∷ rest) dst = ground (
  arith,
  count_failures-tally k rest (insert j (add_64 (count_at j dst) (int_of_32 n)) dst),
  count_at-insert j k (add_64 (count_at j dst) (int_of_32 n)) dst,
)

-- No key has two entries.
abbrev pub IsMap {ℓ} : {V : Type ℓ} → Map V → Type ℓ
IsMap [] = Unit {ℓ}
IsMap ((k, v) ∷ rest) = (lookup k rest ≡ none) × IsMap rest

-- What MergeAgentMetrics promises for one agent.
pub merged_entry : Floats → Option AgentMetrics → Option AgentMetrics → Option AgentMetrics
merged_entry f none job = job
merged_entry f (some op) job = some (merged_with f op job)

-- MergeAgentMetrics, for an operation's map with one entry for an agent and in whatever order it
-- is ranged over: an agent that the operation did not report keeps its entry, one that the job
-- did not know gets the operation's, and one that both know gets the field-by-field sum.
pub merge_agent_metrics-lookup :
    (f : Floats) (op job : Map AgentMetrics) (agent : ℕ)
    → IsMap op
    → lookup agent (merge_agent_metrics f op job)
      ≡ merged_entry f (lookup agent op) (lookup agent job)
unfolding merge_agent_metrics merged_entry lookup
merge_agent_metrics-lookup f [] job agent distinct = refl
merge_agent_metrics-lookup f ((k, m) ∷ rest) job agent distinct = ground (
  arith,
  merge_agent_metrics-lookup f rest next agent distinct.1,
  lookup-insert k agent (merged_with f m (lookup k job)) job,
  distinct.0,
)
  where
    next : Map AgentMetrics
    next = insert k (merged_with f m (lookup k job)) job

pub sum_of : (AgentMetrics → ℕ) → Map AgentMetrics → ℕ
sum_of field [] = 0
sum_of field ((agent, m) ∷ rest) = field m + sum_of field rest

abbrev pub calls : AgentMetrics → ℕ
calls m = elim m.llm_calls [ none ↦ 0 | some n ↦ int_of_32 n ]

abbrev pub rejections : AgentMetrics → ℕ
rejections m = elim m.approval_rejections [ none ↦ 0 | some n ↦ int_of_32 n ]

abbrev pub or_zero : Option ℕ → ℕ
or_zero o = elim o [ none ↦ 0 | some n ↦ n ]

abbrev pub failed_at : ℕ → AgentMetrics → ℕ
failed_at k m = tally int_of_32 k m.tool_failure_counts

-- The second totals are the first with the metrics of some agents, the counts as int holds them.
record Adds (k : ℕ) (metrics : Map AgentMetrics) (v u : VersionMetrics) : Type 0 where
  runs : u.run_count ≡ v.run_count
  failures : u.total_failures ≡ v.total_failures
  llm : u.total_llm_calls % 2 ^ 64 ≡ (v.total_llm_calls + sum_of calls metrics) % 2 ^ 64
  approvals :
      u.total_approval_rejections % 2 ^ 64
      ≡ (v.total_approval_rejections + sum_of rejections metrics) % 2 ^ 64
  tools :
      count_at k u.tool_failure_counts % 2 ^ 64
      ≡ (count_at k v.tool_failure_counts + sum_of (failed_at k) metrics) % 2 ^ 64

fold_agents-Adds :
    (f : Floats) (id k : ℕ) (metrics : Map AgentMetrics) (t : Totals)
    → Adds k metrics t.version (fold_agents f id metrics t).version
unfolding fold_agents sum_of fold_agent
fold_agents-Adds f id k [] t = record {
  runs = refl;
  failures = refl;
  llm = ground arith;
  approvals = ground arith;
  tools = ground arith;
}
fold_agents-Adds f id k ((agent, m) ∷ rest) t =
    let ih = fold_agents-Adds f id k rest (fold_agent f id agent m t) in
    record {
      runs = ih.runs;
      failures = ih.failures;
      llm = ground (arith, ih.llm);
      approvals = ground (arith, ih.approvals);
      tools = ground (
        arith,
        ih.tools,
        count_failures-tally k m.tool_failure_counts t.version.tool_failure_counts,
      );
    }

-- HandleAgentMetrics, whatever the order in which the agents of the run are ranged over: the totals of
-- the version count one run more, the failures of the run are added, and so are the model calls and the
-- rejections of all its agents and, tool by tool, the tool failures, each as an int holds it.
pub run_totals_add :
    (f : Floats) (now id k : ℕ) (metrics : Map AgentMetrics) (run : RunMetrics) (w : Workflow)
    (s : Store)
    → let v = stored_totals w s in
      let u = (run_totals f now id metrics run w s).version in
      (u.run_count ≡ add_64 v.run_count 1)
      × (u.total_failures ≡ add_64 v.total_failures run.failures)
      × (u.total_llm_calls % 2 ^ 64 ≡ (v.total_llm_calls + sum_of calls metrics) % 2 ^ 64)
      × (u.total_approval_rejections % 2 ^ 64
          ≡ (v.total_approval_rejections
              + sum_of rejections metrics
              + or_zero run.approval_rejections)
            % 2 ^ 64)
      × (count_at k u.tool_failure_counts % 2 ^ 64
          ≡ (count_at k v.tool_failure_counts + sum_of (failed_at k) metrics) % 2 ^ 64)
unfolding run_totals fold_run
run_totals_add f now id k metrics run w s =
    let v = stored_totals w s in
    let start : Totals = record {
      version = record v { run_count = add_64 v.run_count 1 };
      run = empty_run now id;
      agents = s.agents;
    } in
    let sums = fold_agents-Adds f id k metrics start in
    (sums.runs, ground (arith, sums.failures), sums.llm, ground (arith, sums.approvals), sums.tools)
