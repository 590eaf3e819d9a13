-- ===== src/Tenancy.antt =====
-- internal/storage/postgres/tenant.go and workflow.go: a tenant with its count of workflows, and the
-- rows of those workflows. Of a workflow only the lifecycle and the deletion are looked at; the
-- statements that take it through its runs are those of the store.
pub mod Counted
use boundflow.Domain.Status.{LifecycleState, is_deleted}
use boundflow.Base.{
  ℕ, ◌+◌, ◌-◌, Bool, true, false, ◌&&◌, not, Option, none, some, List, [], ◌∷◌, ◌==◌, any, keep,
  map, is_none, is_some, ltb, suc, if◌then◌else◌,
}

pub record Tenant : Type 0 where
  pub deleted_at : Option ℕ
  pub workflow_count : ℕ

-- A row of workflows: its lifecycle, and when it was last finalized as deleted.
pub record Entry : Type 0 where
  pub id : ℕ
  pub lifecycle_state : LifecycleState
  pub deletion_finalized_at : Option ℕ

pub record Tenancy : Type 0 where
  pub tenant : Option Tenant
  pub workflows : List Entry

pub data TenancyError : Type 0 where
  not_found tenant_deleted already_exists tenant_has_workflows : TenancyError

pub data Result : Type 0 where
  ok : Result
  error : TenancyError → Result

-- TenantRepo.Create.
unfoldable pub create_tenant : Tenancy → Tenancy × Result
create_tenant s = elim s.tenant [
  | some t ↦ (s, error TenancyError.already_exists)
  | none ↦ (record s { tenant = some (record { deleted_at = none; workflow_count = 0 }) }, ok)
]

abbrev pub with_workflow : ℕ → Tenant → Tenancy → Tenancy
with_workflow id t s = record {
  tenant = some (record t { workflow_count = t.workflow_count + 1 });
  workflows =
      record { id = id; lifecycle_state = LifecycleState.active; deletion_finalized_at = none }
      ∷ s.workflows;
}

-- WorkflowRepo.Create: the reservation and the row in one statement, which a second row of the id
-- makes fail as a whole.
unfoldable pub create_workflow : ℕ → Tenancy → Tenancy × Result
create_workflow id s = elim s.tenant [
  | none ↦ (s, error TenancyError.not_found)
  | some t ↦
      if is_some t.deleted_at
      then (s, error TenancyError.tenant_deleted)
      else if any (λ w. w.id == id) s.workflows
      then (s, error TenancyError.already_exists)
      else (with_workflow id t s, ok)
]

-- The row that FinalizeDeleted updates, and whether it did; an id is the key of its row.
unfoldable pub finalize_entry : ℕ → ℕ → List Entry → List Entry × Bool
finalize_entry now id [] = ([], false)
finalize_entry now id (w ∷ rest) =
    let (tail, done) = finalize_entry now id rest in
    if w.id == id && not (is_deleted w.lifecycle_state)
    then (
      record w { lifecycle_state = LifecycleState.deleted; deletion_finalized_at = some now }
          ∷ rest,
      true,
    )
    else (w ∷ tail, done)

abbrev pub with_one_less : Option Tenant → Option Tenant
with_one_less none = none
with_one_less (some t) =
    some (if ltb 0 t.workflow_count then record t { workflow_count = t.workflow_count - 1 } else t)

-- What the statements of a run make of a row: `UPDATE workflows SET lifecycle_state = $2 WHERE id = $1`
-- and no more of the workflow's columns that are looked at here. ApplyCompletedJob, ApplyFailedJob and
-- the resolutions of the gates do not exclude a workflow that is deleted.
unfoldable pub write_lifecycle : ℕ → LifecycleState → Tenancy → Tenancy
write_lifecycle id state s = record s {
  workflows = map (λ w. if w.id == id then record w { lifecycle_state = state } else w) s.workflows;
}

-- FinalizeDeleted.
unfoldable pub finalize_workflow : ℕ → ℕ → Tenancy → Tenancy
finalize_workflow now id s =
    let (rows, done) = finalize_entry now id s.workflows in
    if done then record { tenant = with_one_less s.tenant; workflows = rows } else s

-- PurgeDeleted.
unfoldable pub purge_workflow : ℕ → Tenancy → Tenancy
purge_workflow id s = record s {
  workflows = keep (λ w. not (w.id == id && is_deleted w.lifecycle_state)) s.workflows;
}

-- MarkDeleted.
unfoldable pub mark_tenant_deleted : ℕ → Tenancy → Tenancy × Result
mark_tenant_deleted now s = elim s.tenant [
  | none ↦ (s, error TenancyError.tenant_has_workflows)
  | some t ↦
      if is_none t.deleted_at && t.workflow_count == 0
      then (record s { tenant = some (record t { deleted_at = some now }) }, ok)
      else (s, error TenancyError.tenant_has_workflows)
]

abbrev is_empty : List Entry → Bool
is_empty [] = true
is_empty (w ∷ rest) = false

-- PurgeIfEmpty.
unfoldable pub purge_tenant : Tenancy → Tenancy × Bool
purge_tenant s = elim s.tenant [
  | none ↦ (s, false)
  | some t ↦
      if is_some t.deleted_at && is_empty s.workflows
      then (record s { tenant = none }, true)
      else (s, false)
]
