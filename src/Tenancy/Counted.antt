-- ===== src/Tenancy/Counted.antt =====
-- internal/storage/postgres/tenant.go and workflow.go: the count of a tenant beside its workflows,
-- through any interleaving of creations, deletions, purges and the writes of runs.
use boundflow.Base.{
  ℕ, ◌+◌, ◌≤◌, ◌≡◌, refl, inl, inr, Bool, true, false, not, ◌&&◌, none, some, List, [], ◌∷◌, ◌==◌,
  count, keep, map, any, arith, is_some, Option-cases, if◌then◌else◌,
}
use boundflow.Domain.Status.{LifecycleState, is_deleted}
use boundflow.Tenancy.{
  Tenancy, Tenant, Entry, create_tenant, create_workflow, finalize_entry, finalize_workflow,
  write_lifecycle, purge_workflow, mark_tenant_deleted, purge_tenant,
}

abbrev pub live : List Entry → ℕ
live rows = count (λ w. not (is_deleted w.lifecycle_state)) rows

abbrev pub has_deleted : ℕ → List Entry → Bool
has_deleted id rows = any (λ w. w.id == id && is_deleted w.lifecycle_state) rows

-- One statement on the tenant or one of its workflows. A run writes any state but deleted; where the
-- history is `orderly`, it does not write a workflow that is deleted.
pub data TenantStep (orderly : Bool) (s : Tenancy) : Tenancy → Type 0 where
  tenant_created : TenantStep orderly s (create_tenant s).0
  created : (id : ℕ) → TenantStep orderly s (create_workflow id s).0
  ran :
      (id : ℕ) (state : LifecycleState)
      → is_deleted state ≡ false
      → (orderly ≡ true → has_deleted id s.workflows ≡ false)
      → TenantStep orderly s (write_lifecycle id state s)
  finalized : (now id : ℕ) → TenantStep orderly s (finalize_workflow now id s)
  purged : (id : ℕ) → TenantStep orderly s (purge_workflow id s)
  tenant_deleted : (now : ℕ) → TenantStep orderly s (mark_tenant_deleted now s).0
  tenant_purged : TenantStep orderly s (purge_tenant s).0

pub data TenantReach (orderly : Bool) (s : Tenancy) : Tenancy → Type 0 where
  here : TenantReach orderly s s
  next :
      {t u : Tenancy} → TenantReach orderly s t → TenantStep orderly t u → TenantReach orderly s u

-- The count is at most the number of workflows not deleted. In an orderly history it is that number,
-- and a deleted tenant, or none, has no such workflow.
pub record IsCounted (orderly : Bool) (s : Tenancy) : Type 0 where
  pub covers : (t : Tenant) → s.tenant ≡ some t → t.workflow_count ≤ live s.workflows
  pub counts :
      (t : Tenant) → s.tenant ≡ some t → orderly ≡ true → t.workflow_count ≡ live s.workflows
  pub deleted :
      (t : Tenant)
      → s.tenant ≡ some t
      → orderly ≡ true
      → is_some t.deleted_at ≡ true
      → live s.workflows ≡ 0
  pub gone : s.tenant ≡ none → orderly ≡ true → live s.workflows ≡ 0

finalize-live :
    (now id : ℕ) (rows : List Entry)
    → let r = finalize_entry now id rows in
      (r.1 ≡ true → live rows ≡ live r.0 + 1) × (r.1 ≡ false → live rows ≡ live r.0)
unfolding finalize_entry
finalize-live now id [] = ((λ e. ground (arith, e)), (λ e. refl))
finalize-live now id (w ∷ rest) =
    let k = finalize-live now id rest in ((λ e. ground (arith, e, k)), (λ e. ground (arith, e, k)))

purge-live :
    (id : ℕ) (rows : List Entry)
    → live (keep (λ w. not (w.id == id && is_deleted w.lifecycle_state)) rows) ≡ live rows
purge-live id [] = refl
purge-live id (w ∷ rest) = ground (arith, purge-live id rest)

run-live :
    (id : ℕ) (state : LifecycleState) (rows : List Entry)
    → is_deleted state ≡ false
    → let after = map (λ w. if w.id == id then record w { lifecycle_state = state } else w) rows in
      (live rows ≤ live after) × (has_deleted id rows ≡ false → live after ≡ live rows)
run-live id state [] alive = (omega arith, λ e. refl)
run-live id state (w ∷ rest) alive =
    let k = run-live id state rest alive in (ground (arith, k), (λ e. ground (arith, e, k)))

module _ (o : Bool) where
  step-IsCounted : (s : Tenancy) {t : Tenancy} → IsCounted o s → TenantStep o s t → IsCounted o t
  unfolding create_tenant create_workflow finalize_workflow write_lifecycle purge_workflow
      mark_tenant_deleted purge_tenant
  step-IsCounted s h TenantStep.tenant_created = elim (Option-cases s.tenant) [
    | inl e ↦ ground (arith, e, h.gone e)
    | inr (r, e) ↦ ground (arith, e, h, h.covers r e)
  ]
  step-IsCounted s h (TenantStep.created id) = elim (Option-cases s.tenant) [
    | inl e ↦ ground (arith, e, h)
    | inr (r, e) ↦ ground (arith, e, h, h.covers r e, h.counts r e)
  ]
  step-IsCounted s h (TenantStep.ran id state alive kept) =
      let k = run-live id state s.workflows alive in
      record {
        covers = λ r e. omega (arith, h.covers r e, k.0);
        counts = λ r e q. omega (arith, h.counts r e q, k.1 (kept q));
        deleted = λ r e q d. omega (arith, h.deleted r e q d, k.1 (kept q));
        gone = λ e q. omega (arith, h.gone e q, k.1 (kept q));
      }
  step-IsCounted s h (TenantStep.finalized now id) =
      let k = finalize-live now id s.workflows in
      elim (Option-cases s.tenant) [
        | inl e ↦ ground (arith, e, h, h.gone e, k)
        | inr (r, e) ↦ ground (arith, e, h, h.covers r e, h.counts r e, h.deleted r e, k)
      ]
  step-IsCounted s h (TenantStep.purged id) =
      let k = purge-live id s.workflows in
      record {
        covers = λ r e. omega (arith, h.covers r e, k);
        counts = λ r e q. omega (arith, h.counts r e q, k);
        deleted = λ r e q d. omega (arith, h.deleted r e q d, k);
        gone = λ e q. omega (arith, h.gone e q, k);
      }
  step-IsCounted s h (TenantStep.tenant_deleted now) = elim (Option-cases s.tenant) [
    | inl e ↦ ground (arith, e, h)
    | inr (r, e) ↦ ground (arith, e, h, h.covers r e, h.counts r e)
  ]
  step-IsCounted s h TenantStep.tenant_purged = elim (Option-cases s.tenant) [
    | inl e ↦ ground (arith, e, h)
    | inr (r, e) ↦ ground (arith, e, h, h.deleted r e)
  ]

  -- Whatever creations, deletions and purges of a tenant and its workflows and whatever writes of runs
  -- follow one another, the count of a tenant is at most that of its workflows not deleted. Where no
  -- run writes a workflow that is deleted already, which its statement does not see to, the count
  -- stays that of the workflows not deleted, a tenant that is deleted or gone has none of them, and so
  -- a workflow is never created for a deleted tenant and no tenant is deleted under one.
  pub history-IsCounted : {s t : Tenancy} → IsCounted o s → TenantReach o s t → IsCounted o t
  history-IsCounted h TenantReach.here = h
  history-IsCounted h (TenantReach.next reach step) =
      step-IsCounted _ (history-IsCounted h reach) step
