-- ===== src/Api/Agents.antt =====
-- internal/server/handlers/lifecycle.go: the policies of a workflow's agents, which the server keeps
-- as documents.
use boundflow.Base.{ℕ, Bool, Option, none, some, List, [], ◌∷◌, Map, lookup, ltb, if◌then◌else◌}
use boundflow.Domain.Metrics.{AgentState}
use boundflow.Store.{Store}
use boundflow.Store.Agents.{upsert_runtime_policy, upsert_lifecycle_policy, delete_agent}
use boundflow.Api.{
  World, Field, Text, Status, Answer, Env, AgentRuleError, invalid, internal_error, require,
  on_workflow,
}
use boundflow.Api.Documents.{Fields, no_fields, validate_agent_lifecycle_rules}

-- json.Marshal of what AsMap made; none where it fails, as on a number that is not finite.
abbrev pub Marshal : Type 0
Marshal = Fields → Option ℕ

abbrev map_of : Option Fields → Fields
map_of none = no_fields
map_of (some fields) = fields

-- One statement of the repository, on a document that may not be marshalled.
abbrev pub save_document : Bool → Option ℕ → (ℕ → Store → Store) → Store → Store × Answer
save_document fault none change s = (s, internal_error Text.failed)
save_document fault (some policy) change s =
    if fault then (s, internal_error Text.failed) else (change policy s, Answer.done)

-- SetAgentRuntimePolicy.
unfoldable pub set_agent_runtime_policy :
    Env → Marshal → ℕ → ℕ → ℕ → Option Fields → World → World → World × Answer
set_agent_runtime_policy x marshal caller id agent policy =
    on_workflow x caller id (require Field.agent_name agent) (internal_error Text.failed)
      (save_document x.statement (marshal (map_of policy)) (upsert_runtime_policy agent))

abbrev pub agent_rule_error : Option AgentRuleError → Option Status
agent_rule_error none = none
agent_rule_error (some e) = some (invalid (Text.agent_rule e))

abbrev pub save_if_valid : Option Status → Store → Store × Answer → Store × Answer
save_if_valid none s saved = saved
save_if_valid (some status) s saved = (s, Answer.refused status)

-- The check of ValidateAgentLifecycleRules comes after that of the owner.
unfoldable pub save_lifecycle : Env → Marshal → ℕ → Fields → Store → Store × Answer
save_lifecycle x marshal agent policy s =
    save_if_valid (agent_rule_error (validate_agent_lifecycle_rules x.floats x.greater policy)) s
      (save_document x.statement (marshal policy) (upsert_lifecycle_policy agent) s)

-- SetAgentLifecyclePolicy; a document that is refused is refused of a workflow that is gone, too, but
-- there an accepted one fails.
unfoldable pub set_agent_lifecycle_policy :
    Env → Marshal → ℕ → ℕ → ℕ → Option Fields → World → World → World × Answer
set_agent_lifecycle_policy x marshal caller id agent policy =
    on_workflow x caller id (require Field.agent_name agent)
      (elim (agent_rule_error (validate_agent_lifecycle_rules x.floats x.greater (map_of policy))) [
        | some status ↦ Answer.refused status
        | none ↦ internal_error Text.failed
      ])
      (save_lifecycle x marshal agent (map_of policy))

-- DeleteAgent, which is done also where there is no such agent.
unfoldable pub remove_agent : Env → ℕ → ℕ → ℕ → World → World → World × Answer
remove_agent x caller id agent =
    on_workflow x caller id (require Field.agent_name agent) Answer.done (λ s.
      if x.statement then (s, internal_error Text.failed) else (delete_agent agent s, Answer.done))

-- `sort.Slice` by name, of names that are distinct.
unfoldable pub insert_by_name : AgentState → List AgentState → List AgentState
insert_by_name a [] = a ∷ []
insert_by_name a (b ∷ rest) =
    let behind = insert_by_name a rest in
    if ltb b.agent_name a.agent_name then b ∷ behind else a ∷ b ∷ rest

unfoldable pub sort_by_name : Map AgentState → List AgentState
sort_by_name [] = []
sort_by_name (entry ∷ rest) = insert_by_name (entry.1) (sort_by_name rest)

-- ListAgents. A stored document always fits into a message.
unfoldable pub list_agents : Env → ℕ → ℕ → World → World → World × Answer
list_agents x caller id = on_workflow x caller id none (Answer.agents []) (λ s.
    (s, if x.statement then internal_error Text.failed else Answer.agents (sort_by_name s.agents)))

-- `states[agentName]`: no document where there is no agent.
abbrev document_of : (AgentState → ℕ) → Option AgentState → Option ℕ
document_of f none = none
document_of f (some a) = some (f a)

abbrev read_document : Bool → ℕ → (AgentState → ℕ) → Store → Store × Answer
read_document fault agent f s = (
  s,
  if fault
      then internal_error Text.failed
      else Answer.document (document_of f (lookup agent s.agents)),
)

-- GetAgentRuntimePolicy and GetAgentLifecyclePolicy.
unfoldable pub get_agent_runtime_policy : Env → ℕ → ℕ → ℕ → World → World → World × Answer
get_agent_runtime_policy x caller id agent =
    on_workflow x caller id (require Field.agent_name agent) (Answer.document none)
      (read_document x.statement agent (λ a. a.runtime_policy))

unfoldable pub get_agent_lifecycle_policy : Env → ℕ → ℕ → ℕ → World → World → World × Answer
get_agent_lifecycle_policy x caller id agent =
    on_workflow x caller id (require Field.agent_name agent) (Answer.document none)
      (read_document x.statement agent (λ a. a.lifecycle_policy))
