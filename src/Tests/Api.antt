-- ===== src/Tests/Api.antt =====
-- Tests of the API on two workflows, of the groups 5 and 6.
use boundflow.Base.{
  ℕ, ◌≡◌, ◌↔◌, refl, Bool, true, false, none, some, [], ◌∷◌, lookup, insert, arith, leb, not,
}
use boundflow.Domain.Status.{JobStatus}
use boundflow.Store.{Store}
use boundflow.Service
use boundflow.Service.{ServiceError, Invocation}
use boundflow.Api
use boundflow.Api.{World, Status, Answer, Env, Text, no_workflow, internal_error}
use boundflow.Api.Control
use boundflow.Api.Documents
use boundflow.Api.Documents.{
  Json, Items, Fields, IsLifecycle, validate_agent_lifecycle_rules, validate_accepts,
}
use boundflow.Api.Calls.{Call, Library, serve}
use boundflow.Api.Isolation.{RowKept, Traffic, Traffic-RowKept}
use boundflow.Api.Blind.{Agree, visible, serve_blind}
use boundflow.Api.Codes.{invalid_run_is_internal}
use boundflow.Samples.{floats, no_schedule_faults, store_in, workflow, config, assembly}

-- The workflow of group 6 has no runs.
abbrev other : Store
other = record (store_in JobStatus.running) {
  workflow = record workflow { tenant_group_id = 6 };
  requests = [];
}

abbrev pub two : World
two = record { workflows = (1, store_in JobStatus.awaiting_approval) ∷ (2, other) ∷ [] }

abbrev greater : ℕ → ℕ → Bool
greater a b = not (leb a b)

abbrev pub env : Env
env = record {
  now = 90;
  floats = floats;
  greater = greater;
  min_repeat = 5;
  owner = false;
  statement = false;
  reread = false;
  invoke = record { reads = false; create = false; schedule = no_schedule_faults };
  hold = record { mark = false; abandon = false; running = false; finalize = false };
  decision = record { resolve = false; audit = false };
}

abbrev pub library : Library
library = record { marshal = λ fields. some 1; order_runs = λ l. l; order_workflows = λ l. l }

abbrev suspension : Call
suspension = Call.suspend 1 0 60 4 true

-- Its owner suspends the first workflow; group 6 then tries to delete it.
abbrev held : World
held = (serve library env 5 suspension two two).0

abbrev after_both : World
after_both = (serve library env 6 (Call.delete 1) two held).0

Traffic-RowKept_example : RowKept (lookup 1 two.workflows) (lookup 1 after_both.workflows)
Traffic-RowKept_example =
    Traffic-RowKept
      (Traffic.next (Traffic.next Traffic.quiet library env 5 suspension two) library env 6
        (Call.delete 1) two)
      1

serve_blind_example :
    Agree 5
      (serve library env 5 suspension two two)
      (serve library env 5 suspension (visible 5 two) (visible 5 two))
unfolding lookup
serve_blind_example =
    serve_blind library env 5 suspension two two refl (refl, (refl, tt)) (refl, (refl, tt))
      (λ k s t e f. ground (arith, e, f))

-- A workflow with no timeout of its own, invoked with none.
abbrev untimed : Store
untimed = record (store_in JobStatus.running) {
  workflow = record workflow { config = record config { invoke_timeout_seconds = 0 } };
}

abbrev one : World
one = record { workflows = (1, untimed) ∷ [] }

abbrev untimed_run : Invocation
untimed_run = record {
  id = 14;
  timeout_seconds = 0;
  info = λ timeout. timeout;
  assembly = λ timeout. assembly;
}

invalid_run_is_internal_example : Control.invoke_workflow env 5 1 untimed_run one one ≡ (
  record one { workflows = insert 1 untimed one.workflows },
  internal_error (Text.service ServiceError.no_timeout),
)
unfolding lookup Api.check_workflow_owner Service.resolve_runtime_params
invalid_run_is_internal_example =
    invalid_run_is_internal env 5 1 untimed_run one one untimed ServiceError.no_timeout refl refl
      refl refl refl refl

-- One rule with a window of 6, and one whose window is too long.
abbrev ruled : ℕ → Fields
ruled window =
    Fields.field 1
      (Json.array (
        Items.item (Json.object (Fields.field 2 (Json.number window) Fields.no_fields))
          Items.no_items))
      Fields.no_fields

validate_accepts_example :
    (validate_agent_lifecycle_rules floats greater (ruled 6) ≡ none)
    ↔ IsLifecycle floats greater (ruled 6)
validate_accepts_example = validate_accepts floats greater (ruled 6)

long_window :
    validate_agent_lifecycle_rules floats greater (ruled 101)
    ≡ some Api.AgentRuleError.window_too_large
unfolding Documents.validate_agent_lifecycle_rules Documents.get Documents.check_rules_value
    Documents.check_items Documents.check_agent_rule Documents.check_window Documents.check_number
long_window = refl
