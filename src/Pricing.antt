-- ===== src/Pricing.antt =====
-- internal/pricing/defaults.go and internal/storage/postgres/model_pricing.go: the rates of models, the
-- overrides of tenant groups over the defaults.
use boundflow.Base.{
  ℕ, ◌≡◌, refl, sym, subst, ==_iff, inl, inr, Bool, true, false, ◌&&◌, Option, none, some, List, [],
  ◌∷◌, ◌++◌, map, Map, lookup, insert, lookup-insert, any, ◌==◌, arith, Bool-cases, if◌then◌else◌,
}
use boundflow.Domain.Policy.{Float64}

pub record ModelPricing : Type 0 where
  pub model_id : ℕ
  pub input_per_1m : Float64
  pub output_per_1m : Float64

-- A loop `for _, p := range rates { out[p.ModelID] = p }`.
unfoldable pub put_all : List ModelPricing → Map ModelPricing → Map ModelPricing
put_all [] out = out
put_all (p ∷ rest) out = put_all rest (insert p.model_id p out)

-- Effective.
unfoldable pub effective : List ModelPricing → List ModelPricing → Map ModelPricing
effective defaults overrides = put_all overrides (put_all defaults [])

-- The last rate of a model in a list, or the one given.
abbrev pub last_of : ℕ → Option ModelPricing → List ModelPricing → Option ModelPricing
last_of model given [] = given
last_of model given (p ∷ rest) = last_of model (if p.model_id == model then some p else given) rest

put_all-lookup :
    (model : ℕ) (rates : List ModelPricing) (out : Map ModelPricing)
    → lookup model (put_all rates out) ≡ last_of model (lookup model out) rates
unfolding put_all
put_all-lookup model [] out = refl
put_all-lookup model (p ∷ rest) out =
    rw (put_all-lookup model rest (insert p.model_id p out))
      (rw (lookup-insert p.model_id model p out) refl)

-- The rate of a model is the last of the overrides, where there is one, and else the last default.
pub effective-lookup :
    (model : ℕ) (defaults overrides : List ModelPricing)
    → lookup model (effective defaults overrides)
      ≡ last_of model (last_of model none defaults) overrides
unfolding effective lookup
effective-lookup model defaults overrides =
    rw (put_all-lookup model overrides (put_all defaults []))
      (rw (put_all-lookup model defaults []) refl)

-- A row of model_pricing: a tenant group and its rate.
abbrev pub Override : Type 0
Override = ℕ × ModelPricing

abbrev pub is_for : ℕ → ℕ → Override → Bool
is_for tenant_group model row = row.0 == tenant_group && row.1.model_id == model

-- Upsert.
unfoldable pub upsert_pricing : ℕ → ModelPricing → List Override → List Override
upsert_pricing tenant_group p rows =
    if any (is_for tenant_group p.model_id) rows
    then map (λ r. if is_for tenant_group p.model_id r then (tenant_group, p) else r) rows
    else rows ++ ((tenant_group, p) ∷ [])

-- ListForTenantGroup; its order does not matter to what is made of it.
unfoldable pub list_for_tenant_group : ℕ → List Override → List ModelPricing
list_for_tenant_group tenant_group [] = []
list_for_tenant_group tenant_group (row ∷ rest) =
    let others = list_for_tenant_group tenant_group rest in
    if row.0 == tenant_group then row.1 ∷ others else others

-- ListEffectivePricing and ResolveModelPricing, as a map.
unfoldable pub effective_pricing : ℕ → List ModelPricing → List Override → Map ModelPricing
effective_pricing tenant_group defaults rows =
    effective defaults (list_for_tenant_group tenant_group rows)

replace : ℕ → ModelPricing → Override → Override
replace g p r = if is_for g p.model_id r then (g, p) else r

module _ (g : ℕ) (p : ModelPricing) where
  kept-same :
      (rows : List Override)
      → last_of p.model_id (some p) (list_for_tenant_group g (map (replace g p) rows)) ≡ some p
  unfolding list_for_tenant_group replace
  kept-same [] = refl
  kept-same (row ∷ rest) = ground (arith, kept-same rest)

  replaced-same :
      (given : Option ModelPricing) (rows : List Override)
      → any (is_for g p.model_id) rows ≡ true
      → last_of p.model_id given (list_for_tenant_group g (map (replace g p) rows)) ≡ some p
  unfolding list_for_tenant_group replace
  replaced-same given [] found = cc
  replaced-same given (row ∷ rest) found =
      ground (arith, kept-same rest, replaced-same given rest, replaced-same (some (row.1)) rest)

  replaced-other :
      (asker model : ℕ) (given : Option ModelPricing) (rows : List Override)
      → (asker == g && model == p.model_id) ≡ false
      → last_of model given (list_for_tenant_group asker (map (replace g p) rows))
        ≡ last_of model given (list_for_tenant_group asker rows)
  unfolding list_for_tenant_group replace
  replaced-other asker model given [] other = refl
  replaced-other asker model given (row ∷ rest) other = ground (
    arith,
    replaced-other asker model given rest other,
    replaced-other asker model (some (row.1)) rest other,
  )

  appended :
      (asker model : ℕ) (given : Option ModelPricing) (rows : List Override)
      → last_of model given (list_for_tenant_group asker (rows ++ ((g, p) ∷ []))) ≡ (
          if asker == g && model == p.model_id
          then some p
          else last_of model given (list_for_tenant_group asker rows))
  unfolding list_for_tenant_group
  appended asker model given [] = ground arith
  appended asker model given (row ∷ rest) =
      ground (arith, appended asker model given rest, appended asker model (some (row.1)) rest)

  upserted :
      (asker model : ℕ) (given : Option ModelPricing) (rows : List Override)
      → last_of model given (list_for_tenant_group asker (upsert_pricing g p rows)) ≡ (
          if asker == g && model == p.model_id
          then some p
          else last_of model given (list_for_tenant_group asker rows))
  unfolding upsert_pricing replace
  upserted asker model given rows = elim (Bool-cases (any (is_for g p.model_id) rows)) [
    | inr absent ↦ rw absent (appended asker model given rows)
    | inl found ↦ rw found (elim (Bool-cases (asker == g && model == p.model_id)) [
      | inr other ↦ rw other (replaced-other asker model given rows other)
      | inl same ↦ rw same (
          subst
            (λ a. last_of model given (list_for_tenant_group a (map (replace g p) rows)) ≡ some p)
            (sym ((==_iff asker g).0 (ground (arith, same))))
            (subst
              (λ m. last_of m given (list_for_tenant_group g (map (replace g p) rows)) ≡ some p)
              (sym ((==_iff model p.model_id).0 (ground (arith, same))))
              (replaced-same given rows found)))
    ])
  ]

-- A rate that a tenant group sets is the rate of that model for that group from then on; the rates of
-- its other models and of all other groups, merged from the defaults and their overrides, stay.
pub set_pricing-effective :
    (g : ℕ) (p : ModelPricing) (asker model : ℕ) (defaults : List ModelPricing)
    (rows : List Override)
    → lookup model (effective_pricing asker defaults (upsert_pricing g p rows)) ≡ (
        if asker == g && model == p.model_id
        then some p
        else lookup model (effective_pricing asker defaults rows))
unfolding effective_pricing
set_pricing-effective g p asker model defaults rows =
    rw (effective-lookup model defaults (list_for_tenant_group asker (upsert_pricing g p rows))) (
      rw (effective-lookup model defaults (list_for_tenant_group asker rows))
        (upserted g p asker model (last_of model none defaults) rows))
