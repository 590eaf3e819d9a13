-- ===== src/Api/Calls.antt =====
-- internal/server/handlers/lifecycle.go: the calls of the service as one type, and the server as a
-- function from calls to changes of the world and answers. Creation of a workflow is in Registration.
use boundflow.Base.{ℕ, Bool, Option, List}
use boundflow.Domain.Rows.{Workflow, Request}
use boundflow.Convert.{ProtoRule}
use boundflow.Convert.Config.{WireConfig}
use boundflow.Service.{Invocation}
use boundflow.Api.{World, Answer, Env}
use boundflow.Api.Control
use boundflow.Api.Documents.{Fields}
use boundflow.Api.Agents
use boundflow.Api.Agents.{Marshal}
use boundflow.Api.Reads

-- A request with what the server draws for it: the id of a run, that of a suspension.
pub data Call : Type 0 where
  invoke : ℕ → Invocation → Call
  set_config : ℕ → Option WireConfig → Call
  delete : ℕ → Call
  suspend : ℕ → ℕ → ℕ → ℕ → Bool → Call
  abandon_queued : ℕ → Bool → List ℕ → Call
  resume : ℕ → ℕ → Call
  set_lifecycle_policy : ℕ → Option (List ProtoRule) → Call
  activate resolve_interrupted : ℕ → ℕ → Call
  approve reject : ℕ → ℕ → ℕ → ℕ → Call
  submit_input : ℕ → ℕ → Option ℕ → ℕ → Call
  set_agent_runtime_policy set_agent_lifecycle_policy : ℕ → ℕ → Option Fields → Call
  delete_agent : ℕ → ℕ → Call
  list_agents : ℕ → Call
  get_agent_runtime_policy get_agent_lifecycle_policy : ℕ → ℕ → Call
  get_workflow get_lifecycle_policy get_metrics list_runs : ℕ → Call
  list_workflows : Call
  get_request_info : ℕ → Call

-- What the calls take of other code: json.Marshal, and the orders that the database gives to rows.
pub record Library : Type 0 where
  pub marshal : Marshal
  pub order_runs : List Request → List Request
  pub order_workflows : List (ℕ × Workflow) → List (ℕ × Workflow)

-- The handler of each call, for a caller of a tenant group.
unfoldable pub serve : Library → Env → ℕ → Call → World → World → World × Answer
serve l x caller (invoke id i) = Control.invoke_workflow x caller id i
serve l x caller (set_config id c) = Control.set_workflow_config x caller id c
serve l x caller (delete id) = Control.delete_workflow x caller id
serve l x caller (suspend id supplied fresh reason stop) =
    Control.suspend_workflow x caller id supplied fresh reason stop
serve l x caller (abandon_queued id whole ids) = Control.abandon_queued x caller id whole ids
serve l x caller (resume id suspension) = Control.resume_workflow x caller id suspension
serve l x caller (set_lifecycle_policy id rules) = Control.set_lifecycle_policy x caller id rules
serve l x caller (activate id request) = Control.activate_workflow x caller id request
serve l x caller (resolve_interrupted id request) = Control.resolve_interrupted x caller id request
serve l x caller (approve id approval actor reason) =
    Control.approve_workflow x caller id approval actor reason
serve l x caller (reject id approval actor reason) =
    Control.reject_workflow x caller id approval actor reason
serve l x caller (submit_input id input answer actor) =
    Control.submit_input x caller id input answer actor
serve l x caller (set_agent_runtime_policy id agent policy) =
    Agents.set_agent_runtime_policy x l.marshal caller id agent policy
serve l x caller (set_agent_lifecycle_policy id agent policy) =
    Agents.set_agent_lifecycle_policy x l.marshal caller id agent policy
serve l x caller (delete_agent id agent) = Agents.remove_agent x caller id agent
serve l x caller (list_agents id) = Agents.list_agents x caller id
serve l x caller (get_agent_runtime_policy id agent) =
    Agents.get_agent_runtime_policy x caller id agent
serve l x caller (get_agent_lifecycle_policy id agent) =
    Agents.get_agent_lifecycle_policy x caller id agent
serve l x caller (get_workflow id) = Reads.get_workflow x caller id
serve l x caller (get_lifecycle_policy id) = Reads.get_lifecycle_policy x caller id
serve l x caller (get_metrics id) = Reads.get_workflow_metrics x caller id
serve l x caller (list_runs id) = Reads.list_workflow_runs x l.order_runs caller id
serve l x caller list_workflows = λ seen w. (w, Reads.list_workflows x l.order_workflows caller w)
serve l x caller (get_request_info request) =
    λ seen w. (w, Reads.get_request_info x caller request seen w)
