-- ===== src/Api/Isolation.antt =====
-- internal/server/handlers/lifecycle.go: which workflows a call can change, and how.
use boundflow.Base.{
  ℕ, ◌≡◌, refl, sym, ◌∙◌, ap, subst, Bool-cases, ==_iff, inl, inr, Bool, false, Option, none, some,
  ◌==◌, arith, lookup, lookup-insert, Option-cases,
}
use boundflow.Store.{Store}
use boundflow.Api
use boundflow.Api.{World, Status, Answer, Env, first, require, Field}
use boundflow.Api.Frame.{IsKept, IsHandler, serve-IsHandler}
use boundflow.Api.Calls.{Call, Library, serve}

-- The tenant group of a workflow, if there is the workflow.
abbrev pub group_of : Option Store → Option ℕ
group_of none = none
group_of (some s) = some (s.workflow.tenant_group_id)

abbrev pub owner_of : ℕ → World → Option ℕ
owner_of id w = group_of (lookup id w.workflows)

-- The check lets through the owner alone.
check-owner :
    (fault : Bool) (caller id : ℕ) (seen : World)
    → Api.check_workflow_owner fault caller id seen ≡ none
    → owner_of id seen ≡ some caller
unfolding Api.check_workflow_owner
check-owner fault caller id seen passed = elim (Option-cases (lookup id seen.workflows)) [
  | inl e ↦ ground (arith, e, passed)
  | inr (s, e) ↦ ground (arith, e, passed)
]

act_on-other :
    (id : ℕ) (absent : Answer) (act : Store → Store × Answer) (w : World) (found : Option Store)
    (k : ℕ)
    → (id == k) ≡ false
    → lookup k (Api.act_on id absent act w found).0.workflows ≡ lookup k w.workflows
act_on-other id absent act w none k other = refl
act_on-other id absent act w (some s) k other =
    ground (arith, lookup-insert id k (act s).0 w.workflows, other)

first-none : (a b : Option Status) → first a b ≡ none → (a ≡ none) × (b ≡ none)
first-none none b e = (refl, e)
first-none (some s) b e = cc

pub passed-owner :
    (x : Env) (caller id : ℕ) (checks : Option Status) (seen : World)
    → Api.all_checks x caller id checks seen ≡ none
    → owner_of id seen ≡ some caller
passed-owner x caller id checks seen passed =
    let c = Api.check_workflow_owner x.owner caller id seen in
    let d = first-none (require Field.workflow_id id) (first checks c) passed in
    check-owner x.owner caller id seen (first-none checks c (d.1)).1

proceed-other :
    (id : ℕ) (absent : Answer) (act : Store → Store × Answer) (w : World) (checks : Option Status)
    (k : ℕ)
    → (checks ≡ none → (id == k) ≡ false)
    → lookup k (Api.proceed id absent act w checks).0.workflows ≡ lookup k w.workflows
proceed-other id absent act w (some status) k other = refl
proceed-other id absent act w none k other =
    act_on-other id absent act w (lookup id w.workflows) k (other refl)

-- A key that is not the caller's is not the one that a check lets through.
not-own :
    (caller id k : ℕ) (seen : World)
    → owner_of id seen ≡ some caller
    → (owner_of k seen ≡ some caller → ⊥)
    → (id == k) ≡ false
not-own caller id k seen own foreign = elim (Bool-cases (id == k)) [
  | inr e ↦ e
  | inl e ↦ absurd (foreign (subst (λ n. owner_of n seen ≡ some caller) ((==_iff id k).0 e) own))
]

on_workflow-other :
    (x : Env) (caller id : ℕ) (checks : Option Status) (absent : Answer)
    (act : Store → Store × Answer) (seen w : World) (k : ℕ)
    → (owner_of k seen ≡ some caller → ⊥)
    → lookup k (Api.on_workflow x caller id checks absent act seen w).0.workflows
      ≡ lookup k w.workflows
unfolding Api.on_workflow
on_workflow-other x caller id checks absent act seen w k foreign =
    proceed-other id absent act w (Api.all_checks x caller id checks seen) k
      (λ passed. not-own caller id k seen (passed-owner x caller id checks seen passed) foreign)

handler-other :
    {x : Env} {caller : ℕ} {b : Bool} {h : World → World → World × Answer}
    → IsHandler x caller b h
    → (seen w : World) (k : ℕ) → (owner_of k seen ≡ some caller → ⊥)
    → lookup k (h seen w).0.workflows ≡ lookup k w.workflows
handler-other {x} {caller} (IsHandler.on id checks absent act kept) seen w k foreign =
    on_workflow-other x caller id checks absent act seen w k foreign
handler-other (IsHandler.listing order) seen w k foreign = refl
handler-other (IsHandler.looking_up request) seen w k foreign = refl

-- A call leaves alone every workflow that did not belong to the caller's tenant group when its owner
-- was checked, whatever became of the world since: so an unauthenticated caller changes nothing, and
-- no caller changes a workflow of another group or one that was not there.
pub serve_isolated :
    (l : Library) (x : Env) (caller : ℕ) (c : Call) (seen w : World) (k : ℕ)
    → (owner_of k seen ≡ some caller → ⊥)
    → lookup k (serve l x caller c seen w).0.workflows ≡ lookup k w.workflows
serve_isolated l x caller c = handler-other (serve-IsHandler l x caller c)

-- What became of one row: it is there as before, with its group and its consistency.
abbrev pub RowKept : Option Store → Option Store → Type 0
RowKept none none = Unit {0}
RowKept (some s) (some t) = IsKept s t
RowKept none (some t) = ⊥
RowKept (some s) none = ⊥

pub RowKept-refl : (r : Option Store) → RowKept r r
RowKept-refl none = tt
RowKept-refl (some s) = record { group = refl; inv = λ h. h }

RowKept-trans : (a b c : Option Store) → RowKept a b → RowKept b c → RowKept a c
RowKept-trans none none none p q = tt
RowKept-trans none none (some t) p q = q
RowKept-trans none (some s) c p q = absurd p
RowKept-trans (some r) none c p q = absurd p
RowKept-trans (some r) (some s) none p q = q
RowKept-trans (some r) (some s) (some t) p q = record {
  group = q.group ∙ p.group;
  inv = λ h. q.inv (p.inv h);
}

act_on-kept :
    (id : ℕ) (absent : Answer) (act : Store → Store × Answer) (w : World) (k : ℕ)
    → ((s : Store) → IsKept s (act s).0)
    → (found : Option Store) → lookup id w.workflows ≡ found
    → RowKept (lookup k w.workflows) (lookup k (Api.act_on id absent act w found).0.workflows)
act_on-kept id absent act w k kept none e = RowKept-refl (lookup k w.workflows)
act_on-kept id absent act w k kept (some s) e = elim (Bool-cases (id == k)) [
  | inr other ↦
      rw (act_on-other id absent act w (some s) k other) (RowKept-refl (lookup k w.workflows))
  | inl own ↦
      rw (lookup-insert id k (act s).0 w.workflows)
        (rw own (rw (sym (ap (λ n. lookup n w.workflows) ((==_iff id k).0 own)) ∙ e) (kept s)))
]

proceed-kept :
    (id : ℕ) (absent : Answer) (act : Store → Store × Answer) (w : World) (checks : Option Status)
    (k : ℕ)
    → ((s : Store) → IsKept s (act s).0)
    → RowKept (lookup k w.workflows) (lookup k (Api.proceed id absent act w checks).0.workflows)
proceed-kept id absent act w (some status) k kept = RowKept-refl (lookup k w.workflows)
proceed-kept id absent act w none k kept =
    act_on-kept id absent act w k kept (lookup id w.workflows) refl

handler-kept :
    {x : Env} {caller : ℕ} {b : Bool} {h : World → World → World × Answer}
    → IsHandler x caller b h
    → (seen w : World) (k : ℕ) → RowKept (lookup k w.workflows) (lookup k (h seen w).0.workflows)
unfolding Api.on_workflow
handler-kept {x} {caller} (IsHandler.on id checks absent act kept) seen w k =
    proceed-kept id absent act w (Api.all_checks x caller id checks seen) k kept
handler-kept (IsHandler.listing order) seen w k = RowKept-refl (lookup k w.workflows)
handler-kept (IsHandler.looking_up request) seen w k = RowKept-refl (lookup k w.workflows)

-- Calls of any callers other than CreateWorkflow, one after another; each checked its owner against any world before.
pub data Traffic (start : World) : World → Type 0 where
  quiet : Traffic start start
  next :
      {w : World}
      → Traffic start w
      → (l : Library) (x : Env) (caller : ℕ) (c : Call) (seen : World)
      → Traffic start (serve l x caller c seen w).0

-- Whatever calls on workflows, runs and agents come from whatever callers, all but CreateWorkflow and
-- the reads of the audit log, and whichever of their statements fail: no workflow appears or goes by
-- them, each stays with its tenant group, and the rows of each stay consistent.
pub Traffic-RowKept :
    {start w : World}
    → Traffic start w
    → (k : ℕ) → RowKept (lookup k start.workflows) (lookup k w.workflows)
Traffic-RowKept {start} Traffic.quiet k = RowKept-refl (lookup k start.workflows)
Traffic-RowKept {start} (Traffic.next {w} t l x caller c seen) k =
    RowKept-trans (lookup k start.workflows) (lookup k w.workflows) _ (Traffic-RowKept t k)
      (handler-kept (serve-IsHandler l x caller c) seen w k)
