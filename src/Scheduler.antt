-- ===== src/Scheduler.antt =====
-- internal/scheduler/scheduler.go: how a request becomes a job, and how the end of a job becomes the
-- end of its request. A call of a repository may fail without effect: which calls fail in a run of
-- a handler is an argument, and an early return leaves the store as the calls before it left it.
pub mod Complete
pub mod Fail
pub mod Schedule
pub mod Order
use boundflow.Base.{
  ℕ, ◌+◌, Bool, true, false, ◌&&◌, ◌||◌, Option, none, some, List, [], ◌∷◌, ◌++◌, Map, ◌==◌, leb,
  is_none, ltb, not, if◌then◌else◌,
}
use boundflow.Domain.Status.{
  LifecycleState, WorkflowState, InvokeMode, RequestType, RunOutcome, is_active, is_queue,
}
use boundflow.Domain.Policy.{Floats, Snapshot, VersionMetrics}
use boundflow.Domain.Metrics.{AgentMetrics, RunMetrics, no_metrics, is_zero}
use boundflow.Domain.Audit.{Details, PolicyAction}
use boundflow.Domain.Rows.{Workflow, Request}
use boundflow.Store.{Store}
use boundflow.Store.Recovery.{requeue_job, claim_failed_job, delete_terminal_job}
use boundflow.Store.Requests.{find_request, complete_request_row, fail_request_row}
use boundflow.Store.Scheduling.{
  Plan, upsert_job_and_schedule, supercede_older_requests, mark_workflow,
}
use boundflow.Store.Lifecycle.{apply_completed_job, apply_failed_job}
use boundflow.Metrics.{handle_agent_metrics}
use boundflow.Resolver.{resolve_lifecycle_policy}

-- What a handler answers: a result, an error, or no answer because it panicked.
pub data Answer {ℓ} (A : Type ℓ) : Type ℓ where
  done : A → Answer A
  failed : Answer A
  panicked : Answer A

-- maxJobAttempts.
abbrev pub max_job_attempts : ℕ
max_job_attempts = 20

-- The text of interruptedReason.
abbrev pub interrupted_reason : ℕ
interrupted_reason = 2

-- Which repository calls of a handler fail.
pub record Faults : Type 0 where
  pub get_workflow : Bool
  pub reread : Bool
  pub requeue : Bool
  pub claim : Bool
  pub apply : Bool
  pub job_metrics : Bool
  pub handle_metrics : Bool
  pub resolve : Bool
  pub audit : Bool
  pub delete : Bool
  pub close_request : Bool

abbrev is_empty : Map AgentMetrics → Bool
is_empty [] = true
is_empty (e ∷ m) = false

-- The insertion of a run before the runs that are later, for `sort.Slice` by RanAt in WorkflowRepo.Get.
abbrev insert_run : Snapshot → List Snapshot → List Snapshot
insert_run s [] = s ∷ []
insert_run s (t ∷ rest) =
    let tail = insert_run s rest in if leb s.ran_at t.ran_at then s ∷ t ∷ rest else t ∷ tail

unfoldable pub sort_runs : List Snapshot → List Snapshot
sort_runs [] = []
sort_runs (s ∷ rest) = insert_run s (sort_runs rest)

-- WorkflowRepo.Get.
abbrev pub get_workflow : Store → Workflow
get_workflow s = record (s.workflow) {
  invocation_metrics = sort_runs s.workflow.invocation_metrics;
}

-- GetJobMetrics (internal/storage/postgres/job.go): of the job that runs the request, if it is there.
unfoldable pub job_metrics : ℕ → Store → Map AgentMetrics × RunMetrics
job_metrics request_id s = elim s.job [
  | none ↦ ([], no_metrics)
  | some j ↦
      if j.request_id == request_id then (j.agent_metrics, j.workflow_metrics) else ([], no_metrics)
]

-- The actor "system".
abbrev pub system_actor : ℕ
system_actor = 0

-- recordPolicyAction: best effort.
unfoldable pub record_policy_action : Bool → ℕ → ℕ → Option PolicyAction → Store → Store
record_policy_action fault now request_id none s = s
record_policy_action fault now request_id (some a) s = if fault then s else record s {
  audit =
      record {
        request_id = request_id;
        actor = system_actor;
        occurred_at = now;
        details = Details.policy_action a;
      }
      ∷ s.audit;
}

-- DeleteTerminalJob, whose error is only logged.
unfoldable pub delete_job : Bool → ℕ → Store → Store
delete_job fault request_id s = if fault then s else (delete_terminal_job request_id s).0

-- What a completion brings: the arguments of CompleteRequest.
pub record Completion : Type 0 where
  pub request_id : ℕ
  pub version : ℕ
  pub request_type : RequestType
  pub outcome : RunOutcome
  pub reason : ℕ
  pub result : Option ℕ

-- `switch requestType`: a type with no case leaves the empty string, which the column refuses.
unfoldable pub completed_state : RequestType → Option LifecycleState
completed_state RequestType.create = some LifecycleState.active
completed_state RequestType.invoke = some LifecycleState.active
completed_state RequestType.healthcheck = none

-- The last step of CompleteRequest: the request is closed if it is there.
unfoldable pub close_completed : Bool → ℕ → Completion → Bool → Store → Store × Answer Bool
close_completed fault now c applied s =
    if fault || is_none (find_request c.request_id s.requests)
    then (s, failed)
    else (complete_request_row now c.request_id c.outcome c.reason c.result s, done applied)

-- CompleteRequest from the policy resolution on, with the totals that HandleAgentMetrics answered.
unfoldable pub resolve_and_close :
    Faults
    → Floats
    → ℕ
    → Completion
    → Bool
    → Workflow
    → VersionMetrics
    → Store
    → Store × Answer Bool
resolve_and_close x f now c applied w vm s =
    if x.resolve then (s, failed) else (elim (resolve_lifecycle_policy f now w vm c.request_id s) [
      | none ↦ (s, panicked)
      | some (t, action) ↦ close_completed x.close_request now c applied (
          delete_job x.delete c.request_id (record_policy_action x.audit now c.request_id action t))
    ])

-- CompleteRequest from the accumulated metrics on: the workflow is read after its transition.
unfoldable pub count_and_resolve :
    Faults → Floats → ℕ → Completion → Bool → Store → Store × Answer Bool
count_and_resolve x f now c applied s =
    if x.job_metrics || x.get_workflow || x.handle_metrics
    then (s, failed)
    else let w = get_workflow s in
      let m = job_metrics c.request_id s in
      let h = handle_agent_metrics f now c.request_id m.0 m.1 w s in
      resolve_and_close x f now c applied h.workflow h.totals h.store

-- CompleteRequest.
unfoldable pub complete_request : Faults → Floats → ℕ → Completion → Store → Store × Answer Bool
complete_request x f now c s = elim (completed_state c.request_type) [
  | none ↦ (s, failed)
  | some state ↦
      if x.apply
      then (s, failed)
      else let (t, applied) = apply_completed_job now state c.version s in
        count_and_resolve x f now c applied t
]

-- recordInterruptedMetrics: best effort, and nothing where the job reported nothing.
unfoldable pub record_interrupted_metrics : Faults → Floats → ℕ → ℕ → Store → Store
record_interrupted_metrics x f now request_id s =
    let m = job_metrics request_id s in
    if x.job_metrics || (is_empty m.0 && is_zero m.1) || x.reread || x.handle_metrics
    then s
    else (handle_agent_metrics f now request_id m.0 m.1 (get_workflow s) s).store

-- What a failure brings: the arguments of FailRequest; `attempts` is the token of the failure.
pub record Failure : Type 0 where
  pub request_id : ℕ
  pub version : ℕ
  pub reason : ℕ
  pub attempts : ℕ

abbrev pub stated_reason : ℕ → ℕ
stated_reason reason = if reason == 0 then interrupted_reason else reason

-- The end of FailRequest: the job goes, then the request is closed.
unfoldable pub close_failed : Faults → ℕ → Failure → Bool → Store → Store × Answer Bool
close_failed x now a applied s =
    let t = delete_job x.delete a.request_id s in
    if x.close_request || is_none (find_request a.request_id t.requests)
    then (t, failed)
    else (fail_request_row now a.request_id (stated_reason a.reason) t, done applied)

-- FailRequest after the claim.
unfoldable pub tear_down : Faults → Floats → ℕ → Failure → Store → Store × Answer Bool
tear_down x f now a s =
    if x.apply
    then (s, failed)
    else let (t, applied) =
        apply_failed_job now a.request_id LifecycleState.interrupted WorkflowState.disabled
          a.version s in
      close_failed x now a applied
        (if applied then record_interrupted_metrics x f now a.request_id t else t)

-- FailRequest from ClaimFailedJob on.
unfoldable pub claim_and_tear_down : Faults → Floats → ℕ → Failure → Store → Store × Answer Bool
claim_and_tear_down x f now a s =
    if x.claim
    then (s, done false)
    else let (t, owned) = claim_failed_job a.request_id a.attempts s in
      if owned then tear_down x f now a t else (t, done false)

-- FailRequest. A fault of the first Get, of RequeueJob or of ClaimFailedJob answers false with no error.
unfoldable pub fail_request : Faults → Floats → ℕ → Failure → Store → Store × Answer Bool
fail_request x f now a s =
    if x.get_workflow
    then (s, done false)
    else if s.workflow.config.resumable && ltb a.attempts max_job_attempts
    then (if x.requeue
        then (s, done false)
        else let (t, requeued) = requeue_job a.request_id a.attempts s in
          if requeued then (t, done false) else claim_and_tear_down x f now a t)
    else claim_and_tear_down x f now a s

-- validateWorkflowState.
unfoldable pub validate_workflow_state : Workflow → Bool
validate_workflow_state w =
    is_active w.workflow_state && w.lifecycle_last_resolved == w.current_version

-- `if invokeMode == "" { invokeMode = coalesce }`.
abbrev pub effective_mode : InvokeMode → InvokeMode
effective_mode InvokeMode.unset = InvokeMode.coalesce
effective_mode m = m

-- The job context and the entry operation of a request, and the timeout in its request info: what
-- ScheduleRequest assembles from documents that the model does not open.
pub record Assembly : Type 0 where
  pub context : ℕ
  pub operation : ℕ
  pub timeout_seconds : ℕ

abbrev pub plan_for : Workflow → Assembly → Plan
plan_for w a = record {
  context = a.context;
  operation = a.operation;
  timeout_seconds = a.timeout_seconds;
  workflow_version = w.current_workflow_version;
  expected_current_version = w.current_version;
  invoke_mode = effective_mode w.config.invoke_mode;
}

-- Which calls of ScheduleRequest fail. `no_timeout` is a document of the request without the number
-- operationTimeoutSeconds, on which the type assertion panics.
pub record ScheduleFaults : Type 0 where
  pub get_request : Bool
  pub get_workflow : Bool
  pub agents : Bool
  pub encode : Bool
  pub no_timeout : Bool
  pub upsert : Bool
  pub supercede : Bool
  pub mark : Bool

-- MarkWorkflowScheduled, whose error is only logged.
abbrev pub mark_scheduled : Bool → Store → Store × Answer (Unit {0})
mark_scheduled fault s = (if fault then s else mark_workflow LifecycleState.scheduled s, done tt)

-- The steps of ScheduleRequest after the upsert: what it wrote stays where SupercedeOlderRequests fails.
unfoldable pub after_scheduling :
    ScheduleFaults → InvokeMode → Option ℕ → Store → Store × Answer (Unit {0})
after_scheduling x mode none s = (s, done tt)
after_scheduling x mode (some version) s =
    if is_queue mode
    then mark_scheduled x.mark s
    else if x.supercede
    then (s, failed)
    else mark_scheduled x.mark (supercede_older_requests version s)

-- ScheduleRequest from UpsertJobAndSchedule on.
unfoldable pub upsert_and_follow : ScheduleFaults → ℕ → ℕ → Plan → Store → Store × Answer (Unit {0})
upsert_and_follow x now request_id p s =
    if x.upsert
    then (s, failed)
    else let (t, version) = upsert_job_and_schedule now request_id p s in
      after_scheduling x p.invoke_mode version t

-- ScheduleRequest against the workflow `w` as it was read: others may have written to the store
-- since. "workflow validation failed" is an error like the others.
unfoldable pub schedule_request :
    ScheduleFaults → ℕ → ℕ → Assembly → Workflow → Store → Store × Answer (Unit {0})
schedule_request x now request_id a w s =
    if x.get_request
      || is_none (find_request request_id s.requests)
      || x.get_workflow
      || not (validate_workflow_state w)
      || x.agents
      || x.encode
    then (s, failed)
    else if x.no_timeout
    then (s, panicked)
    else upsert_and_follow x now request_id (plan_for w a) s
