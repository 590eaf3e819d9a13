-- ===== src/Convert/Tenants.antt =====
-- internal/convert/tenant.go and tenant_group.go: a tenant and a tenant group between the wire and the
-- domain. Duration and Timestamp with New and AsDuration are those of the packages durationpb and
-- timestamppb.
use boundflow.Base.{
  ℕ, ◌≡◌, ◌⊎◌, inl, inr, refl, false, Option, none, some, ◌==◌, if◌then◌else◌, arith,
}
use boundflow.Domain.Tenants.{PolicySet, TenantRow, TenantGroupRow}
use boundflow.Convert.PolicySet.{
  WirePolicySet, policy_set_from_proto, policy_set_to_proto, policy_set_from-to,
}

pub record WireTenant (Duration Timestamp : Type 0) : Type 0 where
  pub id : ℕ
  pub name : ℕ
  pub tenant_group_id : Option ℕ
  pub policy_overrides : Option (WirePolicySet Duration)
  pub created_at : Option Timestamp
  pub deleted_at : Option Timestamp

pub record WireTenantGroup (Duration Timestamp : Type 0) : Type 0 where
  pub id : ℕ
  pub name : ℕ
  pub policies : Option (WirePolicySet Duration)
  pub created_at : Option Timestamp

pub data ConvertError : Type 0 where
  tenant_is_required tenant_group_is_required name_is_required : ConvertError

-- `if pb.TenantGroupId != nil`.
abbrev group_from : Option ℕ → ℕ
group_from none = 0
group_from (some g) = g

-- `if t.TenantGroupID != ""`.
abbrev group_to : ℕ → Option ℕ
group_to g = if g == 0 then none else some g

-- `if pb.PolicyOverrides != nil`.
abbrev overrides_from :
    {Duration : Type 0} → (Duration → ℕ) → Option (WirePolicySet Duration) → Option PolicySet
overrides_from as_duration none = none
overrides_from as_duration (some p) = some (policy_set_from_proto as_duration (some p))

-- `if t.PolicyOverrides != nil`.
abbrev overrides_to :
    {Duration : Type 0} → (ℕ → Duration) → Option PolicySet → Option (WirePolicySet Duration)
overrides_to new none = none
overrides_to new (some p) = some (policy_set_to_proto new p)

-- `if t.DeletedAt != nil`.
abbrev stamp_of : {Timestamp : Type 0} → (ℕ → Timestamp) → Option ℕ → Option Timestamp
stamp_of stamp none = none
stamp_of stamp (some t) = some (stamp t)

module _ {Duration Timestamp : Type 0} (as_duration : Duration → ℕ) where
  -- TenantFromProto.
  unfoldable pub tenant_from_proto :
      Option (WireTenant Duration Timestamp) → ConvertError ⊎ TenantRow
  tenant_from_proto none = inl ConvertError.tenant_is_required
  tenant_from_proto (some m) =
      if m.name == 0
      then inl ConvertError.name_is_required
      else inr (record {
        id = 0;
        name = m.name;
        tenant_group_id = group_from m.tenant_group_id;
        policy_overrides = overrides_from as_duration m.policy_overrides;
        created_at = 0;
        deleted_at = none;
        scheduler_partition_id = 0;
      })

  -- TenantGroupFromProto.
  unfoldable pub tenant_group_from_proto :
      Option (WireTenantGroup Duration Timestamp) → ConvertError ⊎ TenantGroupRow
  tenant_group_from_proto none = inl ConvertError.tenant_group_is_required
  tenant_group_from_proto (some m) =
      if m.name == 0
      then inl ConvertError.name_is_required
      else inr (record {
        id = 0;
        name = m.name;
        policies = policy_set_from_proto as_duration m.policies;
        created_at = 0;
      })

module _ {Duration Timestamp : Type 0} (new : ℕ → Duration) (stamp : ℕ → Timestamp) where
  -- TenantToProto.
  unfoldable pub tenant_to_proto : TenantRow → WireTenant Duration Timestamp
  tenant_to_proto t = record {
    id = t.id;
    name = t.name;
    tenant_group_id = group_to t.tenant_group_id;
    policy_overrides = overrides_to new t.policy_overrides;
    created_at = some (stamp t.created_at);
    deleted_at = stamp_of stamp t.deleted_at;
  }

  -- TenantGroupToProto.
  unfoldable pub tenant_group_to_proto : TenantGroupRow → WireTenantGroup Duration Timestamp
  tenant_group_to_proto g = record {
    id = g.id;
    name = g.name;
    policies = some (policy_set_to_proto new g.policies);
    created_at = some (stamp g.created_at);
  }

abbrev pub without_timeout : PolicySet → PolicySet
without_timeout p = record p { operation_timeout_seconds = 0 }

abbrev pub each_without_timeout : Option PolicySet → Option PolicySet
each_without_timeout none = none
each_without_timeout (some p) = some (without_timeout p)

-- What a registration takes from a tenant: the name, the group and the policies without timeout.
abbrev pub registered : TenantRow → TenantRow
registered t = record {
  id = 0;
  name = t.name;
  tenant_group_id = t.tenant_group_id;
  policy_overrides = each_without_timeout t.policy_overrides;
  created_at = 0;
  deleted_at = none;
  scheduler_partition_id = 0;
}

abbrev pub registered_group : TenantGroupRow → TenantGroupRow
registered_group g = record {
  id = 0;
  name = g.name;
  policies = without_timeout g.policies;
  created_at = 0;
}

group_from-to : (g : ℕ) → group_from (group_to g) ≡ g
group_from-to g = ground arith

module _ {Duration : Type 0} (new : ℕ → Duration) (as_duration : Duration → ℕ)
    (duration-new : (n : ℕ) → as_duration (new n) ≡ n) where
  overrides_from-to :
      (o : Option PolicySet)
      → overrides_from as_duration (overrides_to new o) ≡ each_without_timeout o
  overrides_from-to none = refl
  overrides_from-to (some p) = λ i. some (policy_set_from-to new as_duration duration-new p i)

module _ {Duration Timestamp : Type 0} (new : ℕ → Duration) (as_duration : Duration → ℕ)
    (stamp : ℕ → Timestamp) (duration-new : (n : ℕ) → as_duration (new n) ≡ n) where
  -- Where AsDuration takes back New, the message of a tenant with a name is accepted for a
  -- registration, and so is that of a group with a name: name, group and every policy come through,
  -- but the timeout of an operation, which is lost in both.
  pub registration_from-to :
      (t : TenantRow) (g : TenantGroupRow)
      → (t.name == 0) ≡ false
      → (g.name == 0) ≡ false
      → (tenant_from_proto as_duration (some (tenant_to_proto new stamp t)) ≡ inr (registered t))
        × (tenant_group_from_proto as_duration (some (tenant_group_to_proto new stamp g))
            ≡ inr (registered_group g))
  unfolding tenant_from_proto tenant_to_proto tenant_group_from_proto tenant_group_to_proto
  registration_from-to t g named group_named = rw named (
      rw group_named (
        λ i. inr (record (registered t) {
          tenant_group_id = group_from-to t.tenant_group_id i;
          policy_overrides = overrides_from-to new as_duration duration-new t.policy_overrides i;
        }),
        λ i. inr (record (registered_group g) {
          policies = policy_set_from-to new as_duration duration-new g.policies i;
        }),
      ))
