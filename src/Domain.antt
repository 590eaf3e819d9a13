-- ===== src/Domain.antt =====
-- internal/domain: the states, the policy types, the metrics and the rows that the parts share.
-- A file for each of domain/workflow.go with job.go and customer_request.go (Status, Rows),
-- workflow_policy.go (Policy), agent_state.go (Metrics), audit.go (Audit), agent_policy.go (Agents) and
-- policy.go with tenant.go (Tenants).
pub mod Status
pub mod Policy
pub mod Metrics
pub mod Rows
pub mod Audit
pub mod Agents
pub mod Tenants
