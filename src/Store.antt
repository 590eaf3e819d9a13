-- ===== src/Store.antt =====
-- The database as the statements of internal/storage/postgres see it, cut down to one workflow: its
-- row, its job (the primary key of jobs is the workflow), its requests, its version totals, its
-- agents, its audit rows and the count of its tenant. A statement that names a workflow acts on its
-- slice; a sweep over a partition does to each slice of the partition what is modelled here, and
-- leaves the slices of other partitions alone.
pub mod Jobs
pub mod Gates
pub mod Recovery
pub mod Requests
pub mod Scheduling
pub mod Lifecycle
pub mod Suspension
pub mod Resolution
pub mod Agents
pub mod Once
pub mod Selection
use boundflow.Base.{ℕ, Bool, true, false, Option, none, some, List, Map, map, if◌then◌else◌}
use boundflow.Domain.Policy.{VersionMetrics}
use boundflow.Domain.Metrics.{AgentState}
use boundflow.Domain.Rows.{Workflow, Job, Request}
use boundflow.Domain.Audit.{AuditEvent}

pub record Store : Type 0 where
  pub workflow : Workflow
  pub job : Option Job
  pub requests : List Request
  pub version_metrics : List VersionMetrics
  pub agents : Map AgentState
  pub audit : List AuditEvent
  pub tenant_workflow_count : ℕ

-- `UPDATE jobs SET change WHERE guard`, and whether a row matched.
abbrev pub update_job : (Job → Bool) → (Job → Job) → Store → Store × Bool
update_job guard change s = elim s.job [
  | none ↦ (s, false)
  | some j ↦ if guard j then (record s { job = some (change j) }, true) else (s, false)
]

-- `UPDATE workflows SET change WHERE guard`, and whether the row matched.
abbrev pub update_workflow : (Workflow → Bool) → (Workflow → Workflow) → Store → Store × Bool
update_workflow guard change s =
    if guard s.workflow then (record s { workflow = change s.workflow }, true) else (s, false)

-- `UPDATE customer_requests SET change WHERE guard`.
abbrev pub update_requests : (Request → Bool) → (Request → Request) → Store → Store
update_requests guard change s = record s {
  requests = map (λ r. if guard r then change r else r) s.requests;
}
