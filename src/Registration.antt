-- ===== src/Registration.antt =====
-- internal/server/handlers/registration.go with internal/service/registration.go, and CreateWorkflow of
-- internal/server/handlers/lifecycle.go: the calls on tenant groups, tenants, rates and new workflows.
pub mod Groups
pub mod Tenants
use boundflow.Base.{
  ℕ, Bool, true, false, ◌&&◌, ◌||◌, not, Option, none, some, List, [], ◌∷◌, Map, lookup, insert,
  keep, any, ◌==◌, ltb, if◌then◌else◌,
}
use boundflow.Domain.Policy.{Float64, Floats}
use boundflow.Domain.Rows.{WorkflowConfig}
use boundflow.Convert.Config.{WireConfig, workflow_config_from_proto}
use boundflow.Service.{ServiceError, is_repeat_too_short}
use boundflow.Pricing.{ModelPricing, Override, upsert_pricing, effective_pricing}
use boundflow.Tenancy
use boundflow.Tenancy.{Tenancy, TenancyError}
use boundflow.Auth.{ApiKey}
use boundflow.Api.{Code, Field, Text, Status, no_auth, invalid, require, first}

-- A tenant's row, if it is not purged, with the workflows that hang on it; the group stays with it.
pub record TenantSlice : Type 0 where
  pub tenant_group_id : ℕ
  pub rows : Tenancy

pub record Tables : Type 0 where
  pub groups : List ℕ
  pub keys : List ApiKey
  pub tenants : Map TenantSlice
  pub defaults : List ModelPricing
  pub overrides : List Override

pub data Answer : Type 0 where
  done : Answer
  rates : Map ModelPricing → Answer
  created tenant_group tenant : ℕ → Answer
  tenants : List ℕ → Answer
  refused : Status → Answer

-- What a call takes beside its request: the floats with the test `a > b`, the least interval of
-- repetition, and whether its first read and its other statements fail.
pub record Env : Type 0 where
  pub floats : Floats
  pub greater : Float64 → Float64 → Bool
  pub min_repeat : ℕ
  pub read : Bool
  pub write : Bool

abbrev pub answered : Code → Text → Answer
answered c t = Answer.refused (record { code = c; text = t })

abbrev pub failed : Answer
failed = answered Code.internal Text.failed

-- A refusal, or what a handler goes on with.
abbrev pub unless_refused {ℓ} : {A : Type ℓ} → (Status → A) → Option Status → A → A
unless_refused refuse none go = go
unless_refused refuse (some status) go = refuse status

-- callerTenantGroup.
abbrev pub check_caller : ℕ → Option Status
check_caller caller = if caller == 0 then some no_auth else none

-- ModelPricingFromProto.
unfoldable pub check_pricing : Env → Option ModelPricing → Option Status
check_pricing x none = some (invalid (Text.required Field.pricing_message))
check_pricing x (some p) =
    if p.model_id == 0
    then some (invalid (Text.required Field.model_id))
    else if x.greater x.floats.zero_float p.input_per_1m
        || x.greater x.floats.zero_float p.output_per_1m
    then some (invalid Text.negative_rates)
    else none

abbrev store_pricing : Bool → ℕ → Option ModelPricing → Tables → Tables × Answer
store_pricing fault caller none t = (t, Answer.done)
store_pricing fault caller (some p) t =
    if fault
    then (t, failed)
    else (record t { overrides = upsert_pricing caller p t.overrides }, Answer.done)

-- SetModelPricing.
unfoldable pub set_model_pricing : Env → ℕ → Option ModelPricing → Tables → Tables × Answer
set_model_pricing x caller p t =
    unless_refused (λ status. (t, Answer.refused status))
      (first (check_pricing x p) (check_caller caller)) (store_pricing x.write caller p t)

-- ListModelPricing; the order of the rates is that of a Go map.
unfoldable pub list_model_pricing : Env → ℕ → Tables → Answer
list_model_pricing x caller t =
    unless_refused Answer.refused (check_caller caller)
      (if x.read then failed else Answer.rates (effective_pricing caller t.defaults t.overrides))

abbrev group_not_found : Status
group_not_found = record { code = Code.not_found; text = Text.tenant_group_not_found }

-- The checks of the two calls on a tenant group: a caller has none but its own.
unfoldable pub check_own_group : ℕ → ℕ → Option Status
check_own_group caller id =
    first (require Field.row_id id)
      (first (check_caller caller) (if id == caller then none else some group_not_found))

-- GetTenantGroup.
unfoldable pub get_tenant_group : Env → ℕ → ℕ → Tables → Answer
get_tenant_group x caller id t = unless_refused Answer.refused (check_own_group caller id) (
    if x.read
    then failed
    else if any (λ g. g == id) t.groups
    then Answer.tenant_group id
    else Answer.refused group_not_found)

abbrev pub has_tenant : TenantSlice → Bool
has_tenant r = elim r.rows.tenant [ none ↦ false | some t ↦ true ]

abbrev pub any_tenant_of : ℕ → Map TenantSlice → Bool
any_tenant_of id [] = false
any_tenant_of id (entry ∷ rest) =
    let others = any_tenant_of id rest in
    (entry.1.tenant_group_id == id && has_tenant (entry.1)) || others

-- The foreign keys of migrations/001 and 008: a group to which a key or a tenant refers stays.
abbrev pub is_referenced : ℕ → Tables → Bool
is_referenced id t = any (λ k. k.tenant_group_id == id) t.keys || any_tenant_of id t.tenants

-- TenantGroupRepo.Delete; false is the error of the database.
unfoldable pub delete_group_row : ℕ → Tables → Tables × Bool
delete_group_row id t =
    if any (λ g. g == id) t.groups && is_referenced id t
    then (t, false)
    else (record t { groups = keep (λ g. not (g == id)) t.groups }, true)

-- DeleteTenantGroup.
unfoldable pub delete_tenant_group : Env → ℕ → ℕ → Tables → Tables × Answer
delete_tenant_group x caller id t =
    unless_refused (λ status. (t, Answer.refused status)) (check_own_group caller id)
      (if x.write
        then (t, failed)
        else let (u, deleted) = delete_group_row id t in
          (u, if deleted then Answer.done else failed))
