-- ===== src/Api.antt =====
-- internal/server/handlers/lifecycle.go: the calls of the API on the workflows of all tenant groups.
-- Here are the rows and the answers, the check of the owner and the frame that the handlers share.
-- A handler checks the owner in one statement and acts in later ones, so it takes the world twice:
-- `seen` as the check read it, and the world that it acts on.
pub mod Control
pub mod Documents
pub mod Agents
pub mod Reads
pub mod Calls
pub mod Frame
pub mod Isolation
pub mod Blind
pub mod Codes
use boundflow.Base.{
  ℕ, Bool, true, false, Option, none, some, List, Map, lookup, insert, ◌==◌, if◌then◌else◌,
}
use boundflow.Domain.Policy.{Floats, Float64, Policy, VersionMetrics}
use boundflow.Domain.Metrics.{AgentState}
use boundflow.Domain.Rows.{Workflow, Request}
use boundflow.Convert.{RuleError}
use boundflow.Store.{Store}
use boundflow.Service.{ServiceError, InvokeFaults, HoldFaults}
use boundflow.Service.Decisions.{DecisionFaults}

-- The workflows by their ids, each with the rows that hang on it.
pub record World : Type 0 where
  pub workflows : Map Store

-- The status codes of gRPC that the handlers answer.
pub data Code : Type 0 where
  unauthenticated invalid_argument not_found failed_precondition resource_exhausted : Code
  already_exists internal : Code

pub data Field : Type 0 where
  workflow_id agent_name suspension_id approval_id input_id request_id request_ids_or_all : Field
  row_id tenant_name tenant_message tenant_id workflow_type pricing_message model_id : Field

-- Why a rule of an agent's lifecycle policy was refused.
pub data AgentRuleError : Type 0 where
  rules_not_array rule_not_object window_required window_not_number : AgentRuleError
  window_not_positive window_too_large : AgentRuleError

-- The text of a status; the number of a rule in it is left out. `failed` is any wrapped error.
pub data Text : Type 0 where
  missing_auth missing_metadata missing_header invalid_key : Text
  workflow_not_found request_not_found not_resumable failed : Text
  tenant_not_found tenant_exists tenant_deleted tenant_has_workflows workflow_exists : Text
  tenant_group_not_found negative_rates : Text
  required : Field → Text
  rule : RuleError → Text
  agent_rule : AgentRuleError → Text
  service : ServiceError → Text

pub record Status : Type 0 where
  pub code : Code
  pub text : Text

-- The answers of the calls, before their rows are put into messages. A missing document is none.
pub data Answer : Type 0 where
  done panicked : Answer
  run suspension : ℕ → Answer
  abandoned : List ℕ → Answer
  workflow : Workflow → Answer
  workflows : List (ℕ × Workflow) → Answer
  policy : Policy → Answer
  agents : List AgentState → Answer
  document : Option ℕ → Answer
  runs : List Request → Answer
  request : ℕ → Request → Answer
  totals : VersionMetrics → Answer
  refused : Status → Answer

-- What a call takes beside its request: the clock, the floats with the test `a > b`, the
-- least interval of repetition, and which of its statements fail. `owner` is the
-- check of the owner, `statement` the one statement of most calls.
pub record Env : Type 0 where
  pub now : ℕ
  pub floats : Floats
  pub greater : Float64 → Float64 → Bool
  pub min_repeat : ℕ
  pub owner : Bool
  pub statement : Bool
  pub reread : Bool
  pub invoke : InvokeFaults
  pub hold : HoldFaults
  pub decision : DecisionFaults

abbrev pub invalid : Text → Status
invalid t = record { code = Code.invalid_argument; text = t }

abbrev pub no_auth : Status
no_auth = record { code = Code.unauthenticated; text = Text.missing_auth }

abbrev pub no_workflow : Status
no_workflow = record { code = Code.not_found; text = Text.workflow_not_found }

abbrev pub internal_error : Text → Answer
internal_error t = Answer.refused (record { code = Code.internal; text = t })

abbrev pub precondition : Text → Answer
precondition t = Answer.refused (record { code = Code.failed_precondition; text = t })

-- checkWorkflowOwner after TenantGroupIDForWorkflow.
abbrev pub check_group : ℕ → Option Store → Option Status
check_group caller none = some no_workflow
check_group caller (some s) =
    if s.workflow.tenant_group_id == caller then none else some no_workflow

-- checkWorkflowOwner: none where the caller may go on. The caller is the tenant group of the context,
-- the empty text where there is none.
unfoldable pub check_workflow_owner : Bool → ℕ → ℕ → World → Option Status
check_workflow_owner fault caller id seen =
    if caller == 0
    then some no_auth
    else if fault
    then some (record { code = Code.internal; text = Text.failed })
    else check_group caller (lookup id seen.workflows)

-- What the statements of a handler do to the rows of its workflow; `absent` is the answer where there
-- are none any more.
abbrev pub act_on : ℕ → Answer → (Store → Store × Answer) → World → Option Store → World × Answer
act_on id absent act w none = (w, absent)
act_on id absent act w (some s) =
    let (t, answer) = act s in (record w { workflows = insert id t w.workflows }, answer)

-- A refusal, or the statements.
abbrev pub proceed : ℕ → Answer → (Store → Store × Answer) → World → Option Status → World × Answer
proceed id absent act w (some status) = (w, Answer.refused status)
proceed id absent act w none = act_on id absent act w (lookup id w.workflows)

-- The first of two refusals.
abbrev pub first : Option Status → Option Status → Option Status
first none later = later
first (some early) later = some early

-- `if x == "" { return InvalidArgument }`.
abbrev pub require : Field → ℕ → Option Status
require f x = if x == 0 then some (invalid (Text.required f)) else none

-- What a handler checks: the id, then what it checks of its own, then the owner.
abbrev pub all_checks : Env → ℕ → ℕ → Option Status → World → Option Status
all_checks x caller id checks seen =
    first (require Field.workflow_id id)
      (first checks (check_workflow_owner x.owner caller id seen))

-- A handler on a workflow.
unfoldable pub on_workflow :
    Env → ℕ → ℕ → Option Status → Answer → (Store → Store × Answer) → World → World → World × Answer
on_workflow x caller id checks absent act seen w =
    proceed id absent act w (all_checks x caller id checks seen)
