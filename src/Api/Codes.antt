-- ===== src/Api/Codes.antt =====
-- internal/server/handlers/lifecycle.go: the status of an InvokeWorkflow without a timeout, which is not
-- the one that its branches mean to give.
use boundflow.Base.{ℕ, ◌≡◌, refl, Bool, true, false, none, some, arith, lookup, insert}
use boundflow.Domain.Status.{is_active}
use boundflow.Domain.Rows.{Workflow}
use boundflow.Store.{Store}
use boundflow.Service
use boundflow.Service.{Reply, ok, refused, ServiceError, Invocation}
use boundflow.Api
use boundflow.Api.{World, Status, Answer, Env, Text, Code, no_workflow, internal_error}
use boundflow.Api.Control

-- The errors of ResolveRuntimeParams are none of those that have a status of their own.
params-code :
    (timeout : ℕ) (w : Workflow) (user : Bool) (e : ServiceError)
    → Service.resolve_runtime_params timeout w user ≡ refused e
    → Control.invoke_answer (refused e) ≡ internal_error (Text.service e)
unfolding Service.resolve_runtime_params Control.invoke_answer
params-code timeout w user e refusal = ground arith

refused-run :
    (x : Env) (i : Invocation) (s : Store) (e : ServiceError)
    → is_active s.workflow.workflow_state ≡ true
    → x.invoke.reads ≡ false
    → Service.refuses s.workflow s ≡ false
    → Service.resolve_runtime_params i.timeout_seconds s.workflow true ≡ refused e
    → Service.invoke_workflow x.invoke x.now i s.workflow s ≡ (s, refused e)
unfolding Service.invoke_workflow Service.create_if_valid
refused-run x i s e active reads room refusal = rw active (rw reads (rw room (rw refusal refl)))

-- An invocation of an active workflow with room in its queue that is not triggerable, that has no
-- version or for which no timeout is set anywhere changes nothing of the workflow's rows and is
-- answered as an internal error, not as an invalid argument or a failed precondition.
pub invalid_run_is_internal :
    (x : Env) (caller id : ℕ) (i : Invocation) (seen w : World) (s : Store) (e : ServiceError)
    → Api.all_checks x caller id none seen ≡ none
    → lookup id w.workflows ≡ some s
    → is_active s.workflow.workflow_state ≡ true
    → x.invoke.reads ≡ false
    → Service.refuses s.workflow s ≡ false
    → Service.resolve_runtime_params i.timeout_seconds s.workflow true ≡ refused e
    → Control.invoke_workflow x caller id i seen w
      ≡ (record w { workflows = insert id s w.workflows }, internal_error (Text.service e))
unfolding Control.invoke_workflow Api.on_workflow
invalid_run_is_internal x caller id i seen w s e passed found active reads room refusal =
    rw passed (
      rw found (
        rw (refused-run x i s e active reads room refusal)
          (rw (params-code i.timeout_seconds s.workflow true e refusal) refl)))
