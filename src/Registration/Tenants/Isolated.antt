-- ===== src/Registration/Tenants/Isolated.antt =====
-- internal/server/handlers: what the calls on tenants do to the tenants of other groups.
use boundflow.Base.{
  ℕ, ◌≡◌, refl, sym, ◌∙◌, subst, inl, inr, Bool, true, false, Option, none, some, lookup,
  lookup-insert, ◌==◌, ==_iff, arith, Bool-cases, if◌then◌else◌,
}
use boundflow.Convert.Config.{WireConfig, workflow_config_from_proto}
use boundflow.Service.{is_repeat_too_short}
use boundflow.Tenancy
use boundflow.Tenancy.{Tenancy, TenancyError}
use boundflow.Api.{Status, first, require, Field}
use boundflow.Registration.{
  Tables, TenantSlice, Env, Answer, check_caller, unless_refused, has_tenant,
}
use boundflow.Registration.Tenants

-- The calls that change tenants; a call of CreateTenant or CreateWorkflow has the id that is drawn for it.
pub data TenantCall : Type 0 where
  create : ℕ → Option (ℕ × ℕ) → TenantCall
  delete : Bool → ℕ → ℕ → TenantCall
  create_workflow : ℕ → ℕ → ℕ → Option WireConfig → TenantCall

abbrev pub serve_tenants : Env → ℕ → TenantCall → Tables → Tables × Answer
serve_tenants x caller (create id message) = Tenants.create_tenant x caller id message
serve_tenants x caller (delete purge now id) = Tenants.delete_tenant x purge now caller id
serve_tenants x caller (create_workflow workflow_type tenant id config) =
    Tenants.create_workflow x caller workflow_type tenant id config

first-none : (a b : Option Status) → first a b ≡ none → (a ≡ none) × (b ≡ none)
first-none none b e = (refl, e)
first-none (some s) b e = cc

-- A tenant that was found to be the caller's is in the caller's group.
found-own :
    (caller : ℕ) (found : Option TenantSlice) (r : TenantSlice)
    → Tenants.check_tenant_group caller (Tenants.if_there found) ≡ none
    → found ≡ some r
    → (r.tenant_group_id == caller) ≡ true
found-own caller none r passed e = cc
found-own caller (some q) r passed e = elim (Bool-cases (has_tenant q)) [
  | inl there ↦ ground (arith, there, passed, e)
  | inr gone ↦ ground (arith, gone, passed)
]

check_found-group :
    (caller : ℕ) (found : Option TenantSlice)
    → Tenants.check_found caller found ≡ none
    → Tenants.check_tenant_group caller found ≡ none
check_found-group caller none e = cc
check_found-group caller (some r) e = ground arith

-- The tables differ at one tenant at most.
abbrev pub Only : ℕ → Tables → Tables → Type 0
Only id t u = (k : ℕ) → (id == k) ≡ false → lookup k u.tenants ≡ lookup k t.tenants

put-Only :
    (id : ℕ) (r : TenantSlice) (t : Tables) (rows : Tenancy)
    → Only id t (Tenants.put_rows id r t rows)
put-Only id r t rows k other =
    rw (lookup-insert id k (record r { rows = rows }) t.tenants) (rw other refl)

purge-Only :
    (purge : Bool) (id : ℕ) (r : TenantSlice) (t : Tables) (m : Tenancy × Tenancy.Result)
    → Only id t (Tenants.purge_if_marked purge id r t m).0
purge-Only purge id r t (rows, Tenancy.Result.ok) = put-Only id r t _
purge-Only purge id r t (rows, Tenancy.Result.error e) = λ k other. refl

stored-Only :
    (tenant id : ℕ) (r : TenantSlice) (t : Tables) (m : Tenancy × Tenancy.Result)
    → Only tenant t (Tenants.created_if_stored tenant id r t m).0
stored-Only tenant id r t (rows, Tenancy.Result.ok) = put-Only tenant r t rows
stored-Only tenant id r t (rows, Tenancy.Result.error TenancyError.already_exists) = λ k other. refl
stored-Only tenant id r t (rows, Tenancy.Result.error TenancyError.tenant_deleted) = λ k other. refl
stored-Only tenant id r t (rows, Tenancy.Result.error TenancyError.not_found) = λ k other. refl
stored-Only tenant id r t (rows, Tenancy.Result.error TenancyError.tenant_has_workflows) =
    λ k other. refl

delete-Only :
    (fault purge : Bool) (now id : ℕ) (t : Tables) (found : Option TenantSlice)
    → Only id t (Tenants.mark_and_purge fault purge now id t found).0
delete-Only fault purge now id t none = λ k other. refl
delete-Only true purge now id t (some r) = λ k other. refl
delete-Only false purge now id t (some r) = purge-Only purge id r t _

create-Only :
    (fault : Bool) (tenant id : ℕ) (t : Tables) (found : Option TenantSlice)
    → Only tenant t (Tenants.create_in fault tenant id t found).0
create-Only fault tenant id t none = λ k other. refl
create-Only true tenant id t (some r) = λ k other. refl
create-Only false tenant id t (some r) = stored-Only tenant id r t _

refused-Only :
    (test : Bool) (id : ℕ) (t : Tables) (status : Status) (u : Tables × Answer)
    → Only id t (u.0)
    → Only id t (if test then (t, Answer.refused status) else u).0
refused-Only true id t status u only = λ k other. refl
refused-Only false id t status u only = only

-- A call that checked the owner of `id` leaves a tenant of another group as it was.
module _ (caller id k : ℕ) (t : Tables) (r : TenantSlice) (there : lookup k t.tenants ≡ some r)
    (foreign : (r.tenant_group_id == caller) ≡ false) where
  other-key :
      Tenants.check_tenant_group caller (Tenants.if_there (lookup id t.tenants)) ≡ none
      → (id == k) ≡ false
  other-key passed = elim (Bool-cases (id == k)) [
    | inr other ↦ other
    | inl same ↦
        let own =
          found-own caller (lookup id t.tenants) r passed
            (subst (λ n. lookup n t.tenants ≡ some r) (sym ((==_iff id k).0 same)) there) in
        absurd (ground (arith, own, foreign))
  ]

  checked-other :
      (refusal : Option Status) (u : Tables × Answer)
      → Only id t u.0
      → (refusal ≡ none
          → Tenants.check_tenant_group caller (Tenants.if_there (lookup id t.tenants)) ≡ none)
      → lookup k (unless_refused (λ status. (t, Answer.refused status)) refusal u).0.tenants
        ≡ some r
  checked-other none u only passes = only k (other-key (passes refl)) ∙ there
  checked-other (some status) u only passes = there

own-passes :
    (fault : Bool) (caller id : ℕ) (t : Tables)
    → Tenants.check_own_tenant fault caller id t ≡ none
    → Tenants.check_tenant_group caller (Tenants.if_there (lookup id t.tenants)) ≡ none
unfolding Tenants.check_own_tenant
own-passes true caller id t e = ground arith
own-passes false caller id t e =
    let found = Tenants.if_there (lookup id t.tenants) in
    check_found-group caller found
      (first-none (require Field.row_id id) (Tenants.check_found caller found) e).1

checked-group :
    (fault : Bool) (caller : ℕ) (found : Option TenantSlice)
    → first
        (check_caller caller)
        (if fault then some Tenants.internal_status else Tenants.check_tenant_group caller found)
      ≡ none
    → Tenants.check_tenant_group caller found ≡ none
checked-group true caller found e = ground arith
checked-group false caller found e =
    (first-none (check_caller caller) (Tenants.check_tenant_group caller found) e).1

owner-passes :
    (fault : Bool) (caller id : ℕ) (t : Tables) (a b : Option Status)
    → first a (first b (Tenants.check_tenant_owner fault caller id t)) ≡ none
    → Tenants.check_tenant_group caller (Tenants.if_there (lookup id t.tenants)) ≡ none
unfolding Tenants.check_tenant_owner
owner-passes fault caller id t a b e =
    let c = Tenants.check_tenant_owner fault caller id t in
    checked-group fault caller (Tenants.if_there (lookup id t.tenants))
      (first-none b c (first-none a (first b c) e).1).1

none-some : {r : TenantSlice} → ◌≡◌ {A = Option TenantSlice} none (some r) → ⊥
none-some e = cc

stored-other :
    (id g k : ℕ) (t : Tables) (r : TenantSlice) (found : Option TenantSlice)
    → lookup id t.tenants ≡ found
    → lookup k t.tenants ≡ some r
    → lookup k (Tenants.store_tenant id g t found).0.tenants ≡ some r
stored-other id g k t r (some q) e there = there
stored-other id g k t r none e there = elim (Bool-cases (id == k)) [
  | inr other ↦ rw (lookup-insert id k (Tenants.new_slice g) t.tenants) (rw other there)
  | inl same ↦ absurd (
      none-some
        (sym e ∙ subst (λ n. lookup n t.tenants ≡ some r) (sym ((==_iff id k).0 same)) there))
]

not-refused :
    (refusal : Option Status) (fault : Bool) (k : ℕ) (t : Tables) (r : TenantSlice) (a : Answer)
    (u : Tables × Answer)
    → lookup k t.tenants ≡ some r
    → lookup k (u.0).tenants ≡ some r
    → lookup k
        (unless_refused
          (λ status. (t, Answer.refused status))
          refusal
          (if fault then (t, a) else u)).0.tenants
      ≡ some r
not-refused (some status) fault k t r a u there stays = there
not-refused none true k t r a u there stays = there
not-refused none false k t r a u there stays = stays

create-other :
    (x : Env) (caller id k : ℕ) (message : Option (ℕ × ℕ)) (t : Tables) (r : TenantSlice)
    → lookup k t.tenants ≡ some r
    → lookup k (Tenants.create_tenant x caller id message t).0.tenants ≡ some r
unfolding Tenants.create_tenant
create-other x caller id k message t r there =
    let u = Tenants.store_tenant id (Tenants.group_for caller message) t (lookup id t.tenants) in
    let stays =
      stored-other id (Tenants.group_for caller message) k t r (lookup id t.tenants) refl there in
    not-refused (Tenants.check_message message) x.write k t r _ u there stays

-- A call that makes or deletes a tenant, or makes a workflow in one, leaves every tenant of another
-- group as it was, its count and its workflows included; whichever of its statements fail.
pub tenants_isolated :
    (x : Env) (caller k : ℕ) (c : TenantCall) (t : Tables) (r : TenantSlice)
    → lookup k t.tenants ≡ some r
    → (r.tenant_group_id == caller) ≡ false
    → lookup k (serve_tenants x caller c t).0.tenants ≡ some r
unfolding Tenants.delete_tenant Tenants.create_workflow
tenants_isolated x caller k (TenantCall.create id message) t r there foreign =
    create-other x caller id k message t r there
tenants_isolated x caller k (TenantCall.delete purge now id) t r there foreign =
    checked-other caller id k t r there foreign (Tenants.check_own_tenant x.read caller id t) _
      (delete-Only x.write purge now id t (lookup id t.tenants)) (own-passes x.read caller id t)
tenants_isolated x caller k (TenantCall.create_workflow type tenant id config) t r there foreign =
    checked-other caller tenant k t r there foreign _ _
      (refused-Only (is_repeat_too_short x.min_repeat (workflow_config_from_proto config)) tenant t
        _ _ (create-Only x.write tenant id t (lookup tenant t.tenants)))
      (owner-passes x.read caller tenant t (require Field.workflow_type type)
        (require Field.tenant_id tenant))
