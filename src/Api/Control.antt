-- ===== src/Api/Control.antt =====
-- internal/server/handlers/lifecycle.go: the handlers that take a workflow through its runs, and the
-- status that each makes of the service's errors.
use boundflow.Base.{ℕ, Bool, true, false, Option, none, some, List, [], ◌∷◌, ◌==◌, if◌then◌else◌}
use boundflow.Convert.{ProtoRule, RuleError, check_rules, policy_from_proto}
use boundflow.Convert.Config.{WireConfig, workflow_config_from_proto, version_of}
use boundflow.Store.{Store}
use boundflow.Store.Lifecycle.{update_lifecycle_policy}
use boundflow.Store.Requests.{abandon_queued_requests}
use boundflow.Service
use boundflow.Service.{Reply, ok, refused, ServiceError, Invocation}
use boundflow.Service.Resume
use boundflow.Service.Decisions
use boundflow.Api.{
  World, Code, Field, Text, Status, Answer, Env, invalid, no_workflow, internal_error, precondition,
  require, on_workflow,
}

-- The error of a statement, and the errors that a handler has no status of its own for.
abbrev other_error : ServiceError → Answer
other_error e = internal_error (Text.service e)

-- The status codes of InvokeWorkflow.
unfoldable pub invoke_answer : Reply ℕ → Answer
invoke_answer (ok id) = Answer.run id
invoke_answer (refused ServiceError.invalid_lifecycle_state) =
    precondition (Text.service ServiceError.invalid_lifecycle_state)
invoke_answer (refused ServiceError.invalid_workflow_state) =
    precondition (Text.service ServiceError.invalid_workflow_state)
invoke_answer (refused ServiceError.queue_full) =
    Answer.refused
      (record { code = Code.resource_exhausted; text = Text.service ServiceError.queue_full })
invoke_answer (refused e) = other_error e

-- InvokeWorkflow.
unfoldable pub invoke_workflow : Env → ℕ → ℕ → Invocation → World → World → World × Answer
invoke_workflow x caller id i = on_workflow x caller id none (Answer.refused no_workflow) (λ s.
    let (t, r) = Service.invoke_workflow x.invoke x.now i s.workflow s in (t, invoke_answer r))

-- The status codes of SetWorkflowConfig; after the change it reads the workflow again, and where that
-- fails the answer is an error although the change was made.
unfoldable pub config_answer : Bool → Store → Reply (Unit {0}) → Answer
config_answer reread t (ok unit) =
    if reread then internal_error Text.failed else Answer.workflow t.workflow
config_answer reread t (refused ServiceError.invalid_repeat_interval) =
    Answer.refused (invalid (Text.service ServiceError.invalid_repeat_interval))
config_answer reread t (refused e) = other_error e

-- SetWorkflowConfig.
unfoldable pub set_workflow_config :
    Env → ℕ → ℕ → Option WireConfig → World → World → World × Answer
set_workflow_config x caller id config =
    on_workflow x caller id none (internal_error Text.failed) (λ s.
      let (t, r) =
        Service.set_workflow_config x.statement x.min_repeat (workflow_config_from_proto config)
          (version_of config) s in
      (t, config_answer x.reread t r))

-- The status codes of DeleteWorkflow and of SuspendWorkflow: the request was made before.
unfoldable pub hold_answer : Answer → Reply (Unit {0}) → Answer
hold_answer answer (ok unit) = answer
hold_answer answer (refused ServiceError.already_requested) =
    precondition (Text.service ServiceError.already_requested)
hold_answer answer (refused e) = other_error e

-- DeleteWorkflow.
unfoldable pub delete_workflow : Env → ℕ → ℕ → World → World → World × Answer
delete_workflow x caller id =
    on_workflow x caller id none (Answer.refused no_workflow)
      (λ s. let (t, r) = Service.delete_workflow x.hold x.now s in (t, hold_answer Answer.done r))

-- The id that the caller supplies, or else a new one.
abbrev pub suspension_id_of : ℕ → ℕ → ℕ
suspension_id_of supplied fresh = if supplied == 0 then fresh else supplied

-- SuspendWorkflow.
unfoldable pub suspend_workflow : Env → ℕ → ℕ → ℕ → ℕ → ℕ → Bool → World → World → World × Answer
suspend_workflow x caller id supplied fresh reason stop =
    let suspension = suspension_id_of supplied fresh in
    on_workflow x caller id none (precondition (Text.service ServiceError.already_requested)) (λ s.
      let (t, r) = Service.suspend_workflow x.hold x.now suspension reason stop s in
      (t, hold_answer (Answer.suspension suspension) r))

-- `req.All == (len(req.RequestIds) > 0)`.
abbrev pub one_of : Bool → List ℕ → Option Status
one_of true [] = none
one_of true (id ∷ ids) = some (invalid (Text.required Field.request_ids_or_all))
one_of false [] = some (invalid (Text.required Field.request_ids_or_all))
one_of false (id ∷ ids) = none

-- An empty list of ids arrives as nil, which drops the whole queue.
abbrev pub named_ids : List ℕ → Option (List ℕ)
named_ids [] = none
named_ids (id ∷ ids) = some (id ∷ ids)

-- AbandonQueuedRequests.
unfoldable pub abandon_queued : Env → ℕ → ℕ → Bool → List ℕ → World → World → World × Answer
abandon_queued x caller id whole ids =
    on_workflow x caller id (one_of whole ids) (Answer.abandoned []) (λ s.
      if x.statement
      then (s, internal_error Text.failed)
      else let (t, dropped) = abandon_queued_requests (named_ids ids) s in
        (t, Answer.abandoned dropped))

-- The status codes of ResumeWorkflow; the policy engine may panic, which no interceptor catches.
unfoldable pub resume_answer : Option (Reply (Unit {0})) → Answer
resume_answer none = Answer.panicked
resume_answer (some (ok unit)) = Answer.done
resume_answer (some (refused ServiceError.invalid_lifecycle_state)) =
    precondition Text.not_resumable
resume_answer (some (refused e)) = other_error e

-- ResumeWorkflow; its reads fail with `statement`, its write with the mark of `hold`.
unfoldable pub resume_workflow : Env → ℕ → ℕ → ℕ → World → World → World × Answer
resume_workflow x caller id suspension =
    on_workflow x caller id (require Field.suspension_id suspension) (Answer.refused no_workflow)
      (λ s.
        let (t, r) =
          Resume.resume_workflow x.statement x.hold.mark x.floats x.now suspension s.workflow s in
        (t, resume_answer r))

abbrev first_error : Option RuleError → Option Status
first_error none = none
first_error (some e) = some (invalid (Text.rule e))

abbrev rules_of : Option (List ProtoRule) → List ProtoRule
rules_of none = []
rules_of (some rules) = rules

-- SetWorkflowLifecyclePolicy: the rules are checked before the owner is.
unfoldable pub set_lifecycle_policy :
    Env → ℕ → ℕ → Option (List ProtoRule) → World → World → World × Answer
set_lifecycle_policy x caller id rules =
    on_workflow x caller id (first_error (check_rules (rules_of rules))) Answer.done (λ s.
      if x.statement
      then (s, internal_error Text.failed)
      else (update_lifecycle_policy (policy_from_proto rules) s, Answer.done))

-- ActivateWorkflow, ResolveInterruptedWorkflow, ApproveWorkflow, RejectWorkflow and SubmitInput have
-- one error each that is a failed precondition.
unfoldable pub guarded_answer : Reply (Unit {0}) → Answer
guarded_answer (ok unit) = Answer.done
guarded_answer (refused ServiceError.activate_mismatch) =
    precondition (Text.service ServiceError.activate_mismatch)
guarded_answer (refused ServiceError.not_interrupted) =
    precondition (Text.service ServiceError.not_interrupted)
guarded_answer (refused ServiceError.invalid_workflow_state) =
    precondition (Text.service ServiceError.invalid_workflow_state)
guarded_answer (refused e) = other_error e

abbrev refusal : ServiceError → Answer
refusal e = precondition (Text.service e)

-- ActivateWorkflow; the request id may be empty.
unfoldable pub activate_workflow : Env → ℕ → ℕ → ℕ → World → World → World × Answer
activate_workflow x caller id request =
    on_workflow x caller id none (refusal ServiceError.activate_mismatch)
      (λ s. let (t, r) = Service.activate_workflow x.statement request s in (t, guarded_answer r))

-- ResolveInterruptedWorkflow.
unfoldable pub resolve_interrupted : Env → ℕ → ℕ → ℕ → World → World → World × Answer
resolve_interrupted x caller id request =
    on_workflow x caller id (require Field.request_id request)
      (refusal ServiceError.not_interrupted)
      (λ s. let (t, r) = Service.resolve_interrupted x.statement request s in (t, guarded_answer r))

-- ApproveWorkflow and RejectWorkflow.
unfoldable pub approve_workflow : Env → ℕ → ℕ → ℕ → ℕ → ℕ → World → World → World × Answer
approve_workflow x caller id approval actor reason =
    on_workflow x caller id (require Field.approval_id approval)
      (refusal ServiceError.invalid_workflow_state)
      (λ s.
        let (t, r) = Decisions.approve_workflow x.decision x.now approval actor reason s in
        (t, guarded_answer r))

unfoldable pub reject_workflow : Env → ℕ → ℕ → ℕ → ℕ → ℕ → World → World → World × Answer
reject_workflow x caller id approval actor reason =
    on_workflow x caller id (require Field.approval_id approval)
      (refusal ServiceError.invalid_workflow_state)
      (λ s.
        let (t, r) = Decisions.reject_workflow x.decision x.now approval actor reason s in
        (t, guarded_answer r))

-- SubmitInput.
unfoldable pub submit_input : Env → ℕ → ℕ → ℕ → Option ℕ → ℕ → World → World → World × Answer
submit_input x caller id input answer actor =
    on_workflow x caller id (require Field.input_id input)
      (refusal ServiceError.invalid_workflow_state)
      (λ s.
        let (t, r) = Decisions.submit_input x.decision x.now input actor answer s in
        (t, guarded_answer r))
