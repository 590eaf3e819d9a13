-- ===== src/Api/Reads.antt =====
-- internal/server/handlers/lifecycle.go: the calls that read workflows and runs.
use boundflow.Base.{
  ℕ, Bool, Option, none, some, List, [], ◌∷◌, Map, keep_values, ◌==◌, if◌then◌else◌,
}
use boundflow.Domain.Policy.{VersionMetrics}
use boundflow.Domain.Rows.{Workflow, Request}
use boundflow.Store.{Store}
use boundflow.Store.Lifecycle.{fresh_totals}
use boundflow.Store.Requests.{find_request}
use boundflow.Store.Resolution.{current_version_metrics}
use boundflow.Api.{
  World, Code, Field, Text, Status, Answer, Env, no_auth, no_workflow, internal_error,
  check_workflow_owner, invalid, on_workflow,
}

-- A call that reads the rows of one workflow.
abbrev read_workflow : Env → ℕ → ℕ → Answer → (Store → Answer) → World → World → World × Answer
read_workflow x caller id absent read =
    on_workflow x caller id none absent
      (λ s. (s, if x.statement then internal_error Text.failed else read s))

-- GetWorkflow.
unfoldable pub get_workflow : Env → ℕ → ℕ → World → World → World × Answer
get_workflow x caller id =
    read_workflow x caller id (Answer.refused no_workflow) (λ s. Answer.workflow s.workflow)

-- GetWorkflowLifecyclePolicy.
unfoldable pub get_lifecycle_policy : Env → ℕ → ℕ → World → World → World × Answer
get_lifecycle_policy x caller id =
    read_workflow x caller id (Answer.refused no_workflow)
      (λ s. Answer.policy s.workflow.lifecycle_policy)

abbrev totals_or_fresh : ℕ → Option VersionMetrics → VersionMetrics
totals_or_fresh version none = fresh_totals version 0
totals_or_fresh version (some m) = m

-- GetWorkflowMetrics: the totals of the current version, zero where none were emitted.
unfoldable pub get_workflow_metrics : Env → ℕ → ℕ → World → World → World × Answer
get_workflow_metrics x caller id = read_workflow x caller id (Answer.refused no_workflow) (λ s.
    let version = s.workflow.current_workflow_version in
    Answer.totals (totals_or_fresh version (current_version_metrics version s.version_metrics)))

-- ListWorkflowRuns: ListForWorkflow with its order left to the database.
unfoldable pub list_workflow_runs :
    Env → (List Request → List Request) → ℕ → ℕ → World → World → World × Answer
list_workflow_runs x newest_first caller id =
    read_workflow x caller id (Answer.runs []) (λ s. Answer.runs (newest_first s.requests))

abbrev is_of : ℕ → Store → Bool
is_of caller s = s.workflow.tenant_group_id == caller

abbrev pub views_of : Map Store → List (ℕ × Workflow)
views_of [] = []
views_of (entry ∷ rest) = (entry.0, entry.1.workflow) ∷ views_of rest

-- ListWorkflows: the rows of ListForTenantGroup with their order left to the database. The heavy
-- columns, which it leaves out, are not looked at.
unfoldable pub list_workflows :
    Env → (List (ℕ × Workflow) → List (ℕ × Workflow)) → ℕ → World → Answer
list_workflows x newest_first caller w =
    if caller == 0
    then Answer.refused no_auth
    else if x.statement
    then internal_error Text.failed
    else Answer.workflows (newest_first (views_of (keep_values (is_of caller) w.workflows)))

-- A found request with the id of its workflow, or what was found in the other workflows.
abbrev found_in : ℕ → Option Request → Option (ℕ × Request) → Option (ℕ × Request)
found_in id none others = others
found_in id (some r) others = some (id, r)

-- CustomerRequestRepo.Get, over the requests of all workflows.
unfoldable pub find_run : ℕ → Map Store → Option (ℕ × Request)
find_run request [] = none
find_run request (entry ∷ rest) =
    let others = find_run request rest in
    found_in (entry.0) (find_request request (entry.1.requests)) others

abbrev pub no_request : Status
no_request = record { code = Code.not_found; text = Text.request_not_found }

abbrev show_if : Option Status → ℕ → Request → Answer
show_if none id r = Answer.request id r
show_if (some status) id r = Answer.refused status

-- GetRequestInfo: it reads the request before it checks the owner of its workflow.
unfoldable pub get_request_info : Env → ℕ → ℕ → World → World → Answer
get_request_info x caller request seen w =
    if request == 0
    then Answer.refused (invalid (Text.required Field.request_id))
    else if x.statement
    then internal_error Text.failed
    else (elim (find_run request seen.workflows) [
      | none ↦ Answer.refused no_request
      | some (id, r) ↦ show_if (check_workflow_owner x.owner caller id w) id r
    ])
