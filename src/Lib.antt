-- ===== src/Lib.antt =====
-- boundflow: the core that takes a workflow's invocations to runs and their ends, over PostgreSQL.
--
-- A request (customer_requests) waits in the queue of its workflow, the scheduler makes it the
-- workflow's one job (jobs), a worker session acquires the job under a lease and writes to it as its
-- owner, and the scheduler ends it: a completed run is counted, resolved against the lifecycle policy
-- and closed, a failed one is requeued or torn down. The server opens and closes suspensions,
-- decides gates and changes the policy meanwhile. All of them meet in the statements of the store, each
-- of which is atomic; their order is free.
--
-- Files and the code they model, from the repository's root:
--   Domain: internal/domain, the rows and enumerations (Status, Policy, Metrics, Rows, Audit, Agents, Tenants).
--   Store: internal/storage/postgres, one function for a statement. Jobs, Gates and Recovery are job.go,
--     Requests customer_request.go, Scheduling scheduler.go, Lifecycle and Suspension workflow.go,
--     Resolution lifecycle_resolver.go, metrics.go and version_metrics.go. A Store is the slice of the
--     tables that belongs to one workflow. Once and Selection hold the proofs on single statements.
--   Policy: internal/lifecyclepolicy/engine.go (ResolvePolicy, MetricEmitted); proofs in Winner, Goals,
--     Safety.
--   Convert: internal/convert/workflow.go (rules, invoke mode and, in Config, the configuration) and the
--     checks that internal/server/handlers/lifecycle.go makes in SetWorkflowLifecyclePolicy; proofs in
--     Rules. Agents is internal/convert/agent_policy.go; proofs in Audited. Messages are the messages of
--     workflows and runs in the same file, Shown what their gates promise, PolicySet and Tenants are
--     policy.go, tenant.go and tenant_group.go beside it.
--   Metrics: internal/metrics/metricshandler.go; proofs in Merge (sums) and Emit (counts and windows).
--   Resolver: internal/scheduler/lifecycleresolver.go (ResolveLifecyclePolicy); proofs in Once.
--   Scheduler: internal/scheduler/scheduler.go (ScheduleRequest, CompleteRequest, FailRequest); proofs
--     in Schedule, Complete, Fail and Order.
--   System: the statements as a step relation, and its histories; proofs in Invariant, Progress,
--     History, Monotone, Traces (resolutions by what they read earlier), Handlers, Completion, Fencing and Hold, and in Runs and Reached, where the
--     handlers of the scheduler are put together from statements.
--   Session: internal/rpcworker/rpcworker.go. Session and Endings are the closures of WorkerSession,
--     Dispatch its idle state, Machine the loop over the states; a message, a timer, a signal or the end
--     of the stream is an event. Proofs in Refines, Moves, Runs and Whole (against the statements of
--     System), Gated, Stages, Leaving and Totals.
--   Service: internal/service/lifecycle.go, with internal/scheduler/periodicworkflowhandler.go. Resume
--     is ResumeWorkflow, Decisions the approvals and inputs with approvaltimeoutresolver.go and
--     inputtimeoutresolver.go; proofs in Histories and Admission.
--   Api: internal/server/handlers/lifecycle.go over the workflows of all tenant groups. Control holds the
--     calls that drive a workflow, Agents those on agent policies (internal/storage/postgres/agent_state.go
--     is Store/Agents), Documents the check of their rules, Reads the reads, Calls the server as one
--     function. Proofs in Frame, Isolation, Blind and Codes.
--   Auth: internal/auth, internal/storage/postgres/api_key.go and the key that cmd/boundflow/main.go
--     provisions; proofs in Access.
--   Pricing: internal/pricing and internal/storage/postgres/model_pricing.go.
--   Registration: internal/server/handlers/registration.go, internal/service/registration.go and
--     CreateWorkflow; Tenants and Groups. Proofs in Groups and Tenants/Isolated.
--   Reconcilers: suspensionresolver.go, deletionreconciler.go and the tick of a partition in
--     scheduler.go, all of internal/scheduler; proofs in Ticks and Draining.
--   Tenancy: tenant.go and the creation, deletion and purge in workflow.go; proofs in Counted.
--   Partitions: scheduler_partition.go; proofs in Leases.
--   Base: shared lists, maps, machine words and tests. Samples and Tests: concrete rows and runs.
--
-- Identifiers, texts and JSON documents are opaque numbers, a time is a number of seconds. An int and
-- an int32 are bit patterns with their wrap-around; row versions and attempts are unbounded. A float64 is
-- a bit pattern whose operations are the parameter Floats, of which nothing is assumed. A Go map is an
-- association list, ranged over in its order. Every loop is structural, so there is no fuel. A call
-- of a repository in a handler may fail without effect: which calls fail is the argument Faults
-- (ScheduleFaults for ScheduleRequest).
-- A history's steps carry what the callers know of a version they read earlier, that it is at most
-- the present one. A resolution that writes suspended meets a row that refuses it: a Trace has only what
-- its process read, and it is shown that the row then refuses.
--
-- A session's statements go with those of others in any order; its own handlers, like those of the
-- service, run theirs one after another, and where the engine panics in CompleteRequest a session goes on
-- (the engine does not on a policy that the setter accepts). Seconds in messages are not negative. A
-- session that has gone back to idle without an ending is not followed further. A JSON document is not
-- opened: what a session sets in a context is two functions of its environment.
--
-- A handler of the API checks the owner and acts in different statements, so it takes the world as
-- each of them finds it. It answers rows, which Convert puts into messages. SHA-256, json.Marshal,
-- the tests on floats and the order of rows that the database gives are parameters.
--
-- Not modelled: transport, configuration, the metadata and the streams of gRPC; the reads of the audit
-- log; the columns of the policies of tenants; the purge of the rows that hang on a workflow; the seeding and the
-- choice of partitions; the schema but for its keys, generated code and the SDK. A sweep over a partition
-- is modelled on one workflow of it. Log calls are left out.
pub mod Base
pub mod Domain
pub mod Policy
pub mod Convert
pub mod Store
pub mod Metrics
pub mod Resolver
pub mod Scheduler
pub mod System
pub mod Session
pub mod Service
pub mod Api
pub mod Auth
pub mod Pricing
pub mod Registration
pub mod Reconcilers
pub mod Tenancy
pub mod Partitions
pub mod Samples
pub mod Tests
