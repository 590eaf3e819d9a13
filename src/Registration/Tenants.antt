-- ===== src/Registration/Tenants.antt =====
-- internal/server/handlers/registration.go: the calls on tenants, and CreateWorkflow of
-- internal/server/handlers/lifecycle.go.
pub mod Isolated
use boundflow.Base.{
  ℕ, Bool, true, false, Option, none, some, List, [], ◌∷◌, Map, lookup, insert, ◌==◌, if◌then◌else◌,
}
use boundflow.Domain.Rows.{WorkflowConfig}
use boundflow.Convert.Config.{WireConfig, workflow_config_from_proto}
use boundflow.Service.{ServiceError, is_repeat_too_short}
use boundflow.Tenancy
use boundflow.Tenancy.{Tenancy, TenancyError}
use boundflow.Api.{Code, Field, Text, Status, no_auth, invalid, require, first}
use boundflow.Registration.{
  TenantSlice, Tables, Answer, Env, answered, failed, unless_refused, check_caller, has_tenant,
}

abbrev pub tenant_not_found : Status
tenant_not_found = record { code = Code.not_found; text = Text.tenant_not_found }

-- TenantRepo.Get: the slice of a tenant whose row is there.
abbrev pub if_there : Option TenantSlice → Option TenantSlice
if_there none = none
if_there (some r) = if has_tenant r then some r else none

-- `tenant.TenantGroupID != callerGroup`, of a tenant that was read.
abbrev pub check_tenant_group : ℕ → Option TenantSlice → Option Status
check_tenant_group caller none = some tenant_not_found
check_tenant_group caller (some r) =
    if r.tenant_group_id == caller then none else some tenant_not_found

-- TenantFromProto: the name of the message and the group that it names.
abbrev pub check_message : Option (ℕ × ℕ) → Option Status
check_message none = some (invalid (Text.required Field.tenant_message))
check_message (some (name, named)) = require Field.tenant_name name

-- `if tenant.TenantGroupID == ""`; the group "default".
abbrev pub default_group : ℕ
default_group = 1

abbrev pub group_or_default : ℕ → ℕ
group_or_default g = if g == 0 then default_group else g

-- The group of a new tenant: the caller's where there is one, before what the message names.
abbrev pub group_for : ℕ → Option (ℕ × ℕ) → ℕ
group_for caller none = group_or_default caller
group_for caller (some (name, named)) = group_or_default (if caller == 0 then named else caller)

abbrev pub no_rows : Tenancy
no_rows = record { tenant = none; workflows = [] }

abbrev pub new_slice : ℕ → TenantSlice
new_slice g = record { tenant_group_id = g; rows = (Tenancy.create_tenant no_rows).0 }

abbrev pub store_tenant : ℕ → ℕ → Tables → Option TenantSlice → Tables × Answer
store_tenant id g t (some r) = (t, answered Code.already_exists Text.tenant_exists)
store_tenant id g t none =
    (record t { tenants = insert id (new_slice g) t.tenants }, Answer.created id)

-- CreateTenant, with the id that the service draws.
unfoldable pub create_tenant : Env → ℕ → ℕ → Option (ℕ × ℕ) → Tables → Tables × Answer
create_tenant x caller id message t =
    unless_refused (λ status. (t, Answer.refused status)) (check_message message)
      (if x.write
        then (t, failed)
        else store_tenant id (group_for caller message) t (lookup id t.tenants))

-- GetTenant and DeleteTenant read the tenant before they look at the caller.
abbrev pub check_found : ℕ → Option TenantSlice → Option Status
check_found caller none = some tenant_not_found
check_found caller (some r) = first (check_caller caller) (check_tenant_group caller (some r))

abbrev pub internal_status : Status
internal_status = record { code = Code.internal; text = Text.failed }

unfoldable pub check_own_tenant : Bool → ℕ → ℕ → Tables → Option Status
check_own_tenant fault caller id t =
    first (require Field.row_id id)
      (if fault then some internal_status else check_found caller (if_there (lookup id t.tenants)))

-- GetTenant.
unfoldable pub get_tenant : Env → ℕ → ℕ → Tables → Answer
get_tenant x caller id t =
    unless_refused Answer.refused (check_own_tenant x.read caller id t) (Answer.tenant id)

-- ListTenants, with its order left to the database.
unfoldable pub tenants_of : ℕ → Map TenantSlice → List ℕ
tenants_of caller [] = []
tenants_of caller (entry ∷ rest) =
    let others = tenants_of caller rest in
    if entry.1.tenant_group_id == caller
    then (if has_tenant (entry.1) then entry.0 ∷ others else others)
    else others

unfoldable pub list_tenants : Env → (List ℕ → List ℕ) → ℕ → Tables → Answer
list_tenants x newest_first caller t =
    unless_refused Answer.refused (check_caller caller)
      (if x.read then failed else Answer.tenants (newest_first (tenants_of caller t.tenants)))

abbrev pub put_rows : ℕ → TenantSlice → Tables → Tenancy → Tables
put_rows id r t rows = record t { tenants = insert id (record r { rows = rows }) t.tenants }

-- The service's DeleteTenant after MarkDeleted, whose purge is tried once; `purge` is its failure.
abbrev pub purge_if_marked :
    Bool → ℕ → TenantSlice → Tables → Tenancy × Tenancy.Result → Tables × Answer
purge_if_marked purge id r t (rows, Tenancy.Result.ok) =
    (put_rows id r t (if purge then rows else (Tenancy.purge_tenant rows).0), Answer.done)
purge_if_marked purge id r t (rows, Tenancy.Result.error e) =
    (t, answered Code.failed_precondition Text.tenant_has_workflows)

abbrev pub mark_and_purge : Bool → Bool → ℕ → ℕ → Tables → Option TenantSlice → Tables × Answer
mark_and_purge fault purge now id t none =
    (t, answered Code.failed_precondition Text.tenant_has_workflows)
mark_and_purge fault purge now id t (some r) =
    if fault
    then (t, failed)
    else purge_if_marked purge id r t (Tenancy.mark_tenant_deleted now r.rows)

-- DeleteTenant.
unfoldable pub delete_tenant : Env → Bool → ℕ → ℕ → ℕ → Tables → Tables × Answer
delete_tenant x purge now caller id t =
    unless_refused (λ status. (t, Answer.refused status)) (check_own_tenant x.read caller id t)
      (mark_and_purge x.write purge now id t (lookup id t.tenants))

-- checkTenantOwner: the caller first, then the tenant.
unfoldable pub check_tenant_owner : Bool → ℕ → ℕ → Tables → Option Status
check_tenant_owner fault caller id t = first (check_caller caller) (
    if fault
    then some internal_status
    else check_tenant_group caller (if_there (lookup id t.tenants)))

-- The status codes of CreateWorkflow.
abbrev pub created_if_stored :
    ℕ → ℕ → TenantSlice → Tables → Tenancy × Tenancy.Result → Tables × Answer
created_if_stored tenant id r t (rows, Tenancy.Result.ok) =
    (put_rows tenant r t rows, Answer.created id)
created_if_stored tenant id r t (rows, Tenancy.Result.error TenancyError.already_exists) =
    (t, answered Code.already_exists Text.workflow_exists)
created_if_stored tenant id r t (rows, Tenancy.Result.error TenancyError.tenant_deleted) =
    (t, answered Code.failed_precondition Text.tenant_deleted)
created_if_stored tenant id r t (rows, Tenancy.Result.error e) =
    (t, Answer.refused tenant_not_found)

abbrev pub create_in : Bool → ℕ → ℕ → Tables → Option TenantSlice → Tables × Answer
create_in fault tenant id t none = (t, Answer.refused tenant_not_found)
create_in fault tenant id t (some r) =
    if fault
    then (t, failed)
    else created_if_stored tenant id r t (Tenancy.create_workflow id r.rows)

-- CreateWorkflow, the handler and the service, with the id that the service draws.
unfoldable pub create_workflow : Env → ℕ → ℕ → ℕ → ℕ → Option WireConfig → Tables → Tables × Answer
create_workflow x caller workflow_type tenant id config t =
    unless_refused (λ status. (t, Answer.refused status))
      (first (require Field.workflow_type workflow_type)
        (first (require Field.tenant_id tenant) (check_tenant_owner x.read caller tenant t)))
      (if is_repeat_too_short x.min_repeat (workflow_config_from_proto config)
        then (t, Answer.refused (invalid (Text.service ServiceError.invalid_repeat_interval)))
        else create_in x.write tenant id t (lookup tenant t.tenants))
