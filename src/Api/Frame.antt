-- ===== src/Api/Frame.antt =====
-- internal/server/handlers/lifecycle.go: every handler reads, or checks the owner of one workflow and
-- then runs statements on its rows, which keep its group and the consistency of the rows.
use boundflow.Base.{if◌then◌else◌, ℕ, ◌≡◌, refl, Bool, true, false, Option, none, some, List, arith}
use boundflow.Domain.Rows.{Workflow}
use boundflow.Convert.{policy_from_proto}
use boundflow.Store.{Store}
use boundflow.Store.Agents as AgentStore
use boundflow.Service.Histories.{Called, called-Reach}
use boundflow.System.{Reach, Step}
use boundflow.System.Groups.{history-group}
use boundflow.System.Invariant.{Inv}
use boundflow.System.History.{history-Inv}
use boundflow.System.Runs.{once}
use boundflow.Api
use boundflow.Api.{World, Status, Answer, Env}
use boundflow.Api.Control
use boundflow.Api.Documents
use boundflow.Api.Agents
use boundflow.Api.Agents.{Marshal}
use boundflow.Api.Reads
use boundflow.Api.Calls.{Call, Library, serve}

-- What the statements of a handler leave of the rows.
pub record IsKept (s t : Store) : Type 0 where
  pub group : t.workflow.tenant_group_id ≡ s.workflow.tenant_group_id
  pub inv : Inv s → Inv t

-- The call that looks for a row among all workflows.
abbrev pub looks_up : Call → Bool
looks_up (Call.get_request_info request) = true
looks_up c = false

-- A handler of a call, and whether it looks for a row among all workflows.
pub data IsHandler (x : Env) (caller : ℕ) : Bool → (World → World → World × Answer) → Type 0 where
  on :
      (id : ℕ) (checks : Option Status) (absent : Answer) (act : Store → Store × Answer)
      → ((s : Store) → IsKept s (act s).0)
      → IsHandler x caller false (Api.on_workflow x caller id checks absent act)
  listing :
      (order : List (ℕ × Workflow) → List (ℕ × Workflow))
      → IsHandler x caller false (λ seen w. (w, Reads.list_workflows x order caller w))
  looking_up :
      (request : ℕ)
      → IsHandler x caller true (λ seen w. (w, Reads.get_request_info x caller request seen w))

reached : {s t : Store} → Reach s t → IsKept s t
reached r = record { group = history-group r; inv = λ h. history-Inv h r }

called : {s t : Store} → Called s t → IsKept s t
called c = reached (called-Reach c)

same : (s : Store) → IsKept s s
same s = record { group = refl; inv = λ h. h }

either : (b : Bool) {s t u : Store} → IsKept s t → IsKept s u → IsKept s (if b then t else u)
either true p q = p
either false p q = q

save-IsKept :
    (fault : Bool) (policy : Option ℕ) (change : ℕ → Store → Store) (s : Store)
    → ((n : ℕ) → IsKept s (change n s))
    → IsKept s (Agents.save_document fault policy change s).0
save-IsKept fault none change s kept = same s
save-IsKept true (some n) change s kept = same s
save-IsKept false (some n) change s kept = kept n

runtime-IsKept : (agent n : ℕ) (s : Store) → IsKept s (AgentStore.upsert_runtime_policy agent n s)
unfolding AgentStore.upsert_runtime_policy
runtime-IsKept agent n s = record { group = refl; inv = λ h. ground arith }

lifecycle-IsKept :
    (agent n : ℕ) (s : Store) → IsKept s (AgentStore.upsert_lifecycle_policy agent n s)
unfolding AgentStore.upsert_lifecycle_policy
lifecycle-IsKept agent n s = record { group = refl; inv = λ h. ground arith }

delete-IsKept : (agent : ℕ) (s : Store) → IsKept s (AgentStore.delete_agent agent s)
unfolding AgentStore.delete_agent
delete-IsKept agent s = record { group = refl; inv = λ h. ground arith }

valid-IsKept :
    (refusal : Option Status) (s : Store) (saved : Store × Answer)
    → IsKept s saved.0
    → IsKept s (Agents.save_if_valid refusal s saved).0
valid-IsKept none s saved kept = kept
valid-IsKept (some status) s saved kept = same s

rule-IsKept :
    (x : Env) (marshal : Marshal) (agent : ℕ) (policy : Documents.Fields) (s : Store)
    → IsKept s (Agents.save_lifecycle x marshal agent policy s).0
unfolding Agents.save_lifecycle
rule-IsKept x marshal agent policy s =
    valid-IsKept
      (Agents.agent_rule_error (Documents.validate_agent_lifecycle_rules x.floats x.greater policy))
      s _
      (save-IsKept x.statement (marshal policy) (AgentStore.upsert_lifecycle_policy agent) s
        (λ n. lifecycle-IsKept agent n s))

-- Every call is such a handler.
pub serve-IsHandler :
    (l : Library) (x : Env) (caller : ℕ) (c : Call)
    → IsHandler x caller (looks_up c) (serve l x caller c)
unfolding serve Control.invoke_workflow Control.set_workflow_config Control.delete_workflow
    Control.suspend_workflow Control.abandon_queued Control.resume_workflow
    Control.set_lifecycle_policy Control.activate_workflow Control.resolve_interrupted
    Control.approve_workflow Control.reject_workflow Control.submit_input
    Agents.set_agent_runtime_policy Agents.set_agent_lifecycle_policy Agents.remove_agent
    Agents.list_agents Agents.get_agent_runtime_policy Agents.get_agent_lifecycle_policy
    Reads.get_workflow Reads.get_lifecycle_policy Reads.get_workflow_metrics
    Reads.list_workflow_runs
serve-IsHandler l x caller (Call.invoke id i) =
    IsHandler.on id _ _ _ (λ s. called (Called.invoked x.invoke x.now i s.workflow))
serve-IsHandler l x caller (Call.set_config id c) =
    IsHandler.on id _ _ _ (λ s. called (Called.configured x.statement x.min_repeat _ _))
serve-IsHandler l x caller (Call.delete id) =
    IsHandler.on id _ _ _ (λ s. called (Called.deleted x.hold x.now))
serve-IsHandler l x caller (Call.suspend id supplied fresh reason stop) =
    IsHandler.on id _ _ _ (λ s. called (Called.suspended x.hold x.now _ reason stop))
serve-IsHandler l x caller (Call.abandon_queued id whole ids) =
    IsHandler.on id _ _ _ (λ s.
      ground (arith, same s, reached (once {s = s} (Step.drop_queued (Control.named_ids ids)))))
serve-IsHandler l x caller (Call.resume id suspension) =
    IsHandler.on id _ _ _
      (λ s. called (Called.resumed x.statement x.hold.mark x.floats x.now suspension s.workflow))
serve-IsHandler l x caller (Call.set_lifecycle_policy id rules) = IsHandler.on id _ _ _ (λ s.
    ground (arith, same s, reached (once {s = s} (Step.set_policy (policy_from_proto rules)))))
serve-IsHandler l x caller (Call.activate id request) =
    IsHandler.on id _ _ _ (λ s. called (Called.activated x.statement request))
serve-IsHandler l x caller (Call.resolve_interrupted id request) =
    IsHandler.on id _ _ _ (λ s. called (Called.acknowledged x.statement request))
serve-IsHandler l x caller (Call.approve id approval actor reason) =
    IsHandler.on id _ _ _ (λ s. called (Called.approved x.decision x.now approval actor reason))
serve-IsHandler l x caller (Call.reject id approval actor reason) =
    IsHandler.on id _ _ _ (λ s. called (Called.rejected x.decision x.now approval actor reason))
serve-IsHandler l x caller (Call.submit_input id input answer actor) =
    IsHandler.on id _ _ _ (λ s. called (Called.answered x.decision x.now input actor answer))
serve-IsHandler l x caller (Call.set_agent_runtime_policy id agent policy) =
    IsHandler.on id _ _ _ (λ s. save-IsKept x.statement _ _ s (λ n. runtime-IsKept agent n s))
serve-IsHandler l x caller (Call.set_agent_lifecycle_policy id agent policy) =
    IsHandler.on id _ _ _ (λ s. rule-IsKept x l.marshal agent _ s)
serve-IsHandler l x caller (Call.delete_agent id agent) =
    IsHandler.on id _ _ _ (λ s. ground (arith, same s, delete-IsKept agent s))
serve-IsHandler l x caller (Call.list_agents id) = IsHandler.on id _ _ _ same
serve-IsHandler l x caller (Call.get_agent_runtime_policy id agent) = IsHandler.on id _ _ _ same
serve-IsHandler l x caller (Call.get_agent_lifecycle_policy id agent) = IsHandler.on id _ _ _ same
serve-IsHandler l x caller (Call.get_workflow id) = IsHandler.on id _ _ _ same
serve-IsHandler l x caller (Call.get_lifecycle_policy id) = IsHandler.on id _ _ _ same
serve-IsHandler l x caller (Call.get_metrics id) = IsHandler.on id _ _ _ same
serve-IsHandler l x caller (Call.list_runs id) = IsHandler.on id _ _ _ same
serve-IsHandler l x caller Call.list_workflows = IsHandler.listing l.order_workflows
serve-IsHandler l x caller (Call.get_request_info request) = IsHandler.looking_up request
