-- ===== src/Tests/Entry.antt =====
-- Tests of the keys, of the rates and of the registration of tenants.
use boundflow.Base.{
  ℕ, ◌≡◌, ◌≢◌, ◌+◌, refl, false, ◌&&◌, none, some, List, [], ◌∷◌, lookup, arith, leb, not, ◌==◌,
  if◌then◌else◌,
}
use boundflow.Pricing.{ModelPricing, effective_pricing, upsert_pricing, set_pricing-effective}
use boundflow.Auth
use boundflow.Auth.{ApiKey, Identity, group, unknown}
use boundflow.Auth.Access.{Opens, Presents, request_isolated, key_lifetime}
use boundflow.Api.{World, Answer, Text}
use boundflow.Api.Calls.{Call}
use boundflow.Api.Isolation.{owner_of}
use boundflow.Registration
use boundflow.Registration.{Tables, TenantSlice}
use boundflow.Registration.Groups.{own_group-stays}
use boundflow.Registration.Tenants.Isolated.{TenantCall, serve_tenants, tenants_isolated}
use boundflow.Samples.{floats}
use boundflow.Tests.Api.{two, env, library}

abbrev hash : ℕ → ℕ
hash n = n + 100

-- The key 9 of group 6.
abbrev key_of_6 : ApiKey
key_of_6 = record {
  id = 3;
  key_hash = 109;
  tenant_group_id = 6;
  created_at = 10;
  revoked_at = none;
}

shut :
    (v caller : ℕ)
    → Presents (some (9 ∷ [])) v
    → owner_of 1 two ≡ some caller
    → Opens (hash v) caller (key_of_6 ∷ [])
    → ⊥
unfolding lookup
shut v caller first own (Opens.here same grouped live) = ground (arith, own, grouped)
shut v caller first own (Opens.there rest) = elim rest [ ]

abbrev deletion : World × Answer
deletion =
    Auth.intercept hash false (some (9 ∷ [])) (key_of_6 ∷ []) library env (Call.delete 1) two two

request_isolated_example : lookup 1 deletion.0.workflows ≡ lookup 1 two.workflows
request_isolated_example =
    request_isolated hash false (some (9 ∷ [])) (key_of_6 ∷ []) library env (Call.delete 1) two two
      1 shut

abbrev made : List ApiKey
made = (Auth.provision_key hash 20 4 5 8 (key_of_6 ∷ [])).0

abbrev ended : List ApiKey
ended = (Auth.revoke_key false 30 4 made).0

key_lifetime_example :
    (Auth.resolve hash false (some (8 ∷ [])) made ≡ group 5)
    × (Auth.resolve hash false (some (8 ∷ [])) ended
        ≡ unknown (Auth.unauthenticated Text.invalid_key))
    × ((o : ℕ)
        → (hash o == hash 8) ≡ false
        → Auth.resolve hash false (some (o ∷ [])) ended
          ≡ Auth.resolve hash false (some (o ∷ [])) (key_of_6 ∷ []))
unfolding Auth.provision_key Auth.create_key
key_lifetime_example = key_lifetime hash 20 30 4 5 8 (key_of_6 ∷ []) [] refl refl

abbrev rate : ℕ → ModelPricing
rate n = record { model_id = 2; input_per_1m = n; output_per_1m = n }

-- Group 5 sets the rate of a model that group 6 overrides, too.
set_pricing-effective_example :
    lookup 2 (effective_pricing 6 (rate 1 ∷ []) (upsert_pricing 5 (rate 3) ((6, rate 4) ∷ []))) ≡ (
      if 6 == 5 && 2 == 2
      then some (rate 3)
      else lookup 2 (effective_pricing 6 (rate 1 ∷ []) ((6, rate 4) ∷ [])))
set_pricing-effective_example =
    set_pricing-effective 5 (rate 3) 6 2 (rate 1 ∷ []) ((6, rate 4) ∷ [])

abbrev tenant_of : ℕ → TenantSlice
tenant_of g = record {
  tenant_group_id = g;
  rows = record {
    tenant = some (record { deleted_at = none; workflow_count = 0 });
    workflows = [];
  };
}

abbrev tables : Tables
tables = record {
  groups = 5 ∷ 6 ∷ [];
  keys = key_of_6 ∷ [];
  tenants = (1, tenant_of 5) ∷ (2, tenant_of 6) ∷ [];
  defaults = [];
  overrides = [];
}

abbrev registration : Registration.Env
registration = record {
  floats = floats;
  greater = λ a b. not (leb a b);
  min_repeat = 5;
  read = false;
  write = false;
}

own_group-stays_example :
    ((Registration.delete_tenant_group registration 6 6 tables).0 ≡ tables)
    × ((Registration.delete_tenant_group registration 6 6 tables).1 ≢ Registration.Answer.done)
own_group-stays_example =
    own_group-stays registration 109 6 6 tables (Opens.here refl refl refl) refl

-- Group 6 deletes the tenant of group 5.
tenants_isolated_example :
    lookup 1 (serve_tenants registration 6 (TenantCall.delete false 90 1) tables).0.tenants
    ≡ some (tenant_of 5)
unfolding lookup
tenants_isolated_example =
    tenants_isolated registration 6 1 (TenantCall.delete false 90 1) tables (tenant_of 5) refl refl
