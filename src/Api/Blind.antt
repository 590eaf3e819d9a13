-- ===== src/Api/Blind.antt =====
-- internal/server/handlers/lifecycle.go: what a caller can learn of other tenant groups. The comment on
-- checkWorkflowOwner says that a workflow of another group is answered as one that is not there.
use boundflow.Base.{
  ℕ, ◌≡◌, refl, ap, inl, inr, Bool, true, false, Option, none, some, [], ◌∷◌, Map, ◌==◌, arith,
  lookup, keep_values, if_passes, IsKeyed, lookup-keep_values, keep_values-insert, Option-cases,
  Bool-cases,
}
use boundflow.Store.{Store}
use boundflow.Api
use boundflow.Api.{World, Status, Answer, Env, Field, first, require}
use boundflow.Api.Reads
use boundflow.Api.Calls.{Call, Library, serve}
use boundflow.Api.Isolation.{passed-owner}
use boundflow.Api.Frame.{IsKept, IsHandler, looks_up, serve-IsHandler}

abbrev pub belongs : ℕ → Store → Bool
belongs caller s = s.workflow.tenant_group_id == caller

-- The world as it were if there were no workflows but those of the caller's group.
abbrev pub visible : ℕ → World → World
visible caller w = record { workflows = keep_values (belongs caller) w.workflows }

-- A workflow that is in both worlds is in the same group in both.
abbrev pub HaveSameOwners : World → World → Type 0
HaveSameOwners seen w =
    (k : ℕ) (s t : Store)
    → lookup k seen.workflows ≡ some s
    → lookup k w.workflows ≡ some t
    → s.workflow.tenant_group_id ≡ t.workflow.tenant_group_id

check_group-blind :
    (caller : ℕ) (found : Option Store)
    → Api.check_group caller (if_passes (belongs caller) found) ≡ Api.check_group caller found
check_group-blind caller none = refl
check_group-blind caller (some s) = ground arith

checks-blind :
    (x : Env) (caller id : ℕ) (checks : Option Status) (seen : World)
    → IsKeyed seen.workflows
    → Api.all_checks x caller id checks (visible caller seen)
      ≡ Api.all_checks x caller id checks seen
unfolding Api.check_workflow_owner
checks-blind x caller id checks seen keyed =
    rw (lookup-keep_values (belongs caller) id seen.workflows keyed)
      (rw (check_group-blind caller (lookup id seen.workflows)) refl)

-- The two runs agree: on the answer, and on the world that the caller sees.
abbrev pub Agree : ℕ → World × Answer → World × Answer → Type 0
Agree caller r q = (visible caller (r.0) ≡ q.0) × (r.1 ≡ q.1)

world_of : Map Store → World
world_of m = record { workflows = m }

act_on-blind :
    (caller id : ℕ) (absent : Answer) (act : Store → Store × Answer) (w : World)
    (found : Option Store)
    → ((s : Store) → IsKept s (act s).0)
    → lookup id w.workflows ≡ found
    → ((s : Store) → found ≡ some s → belongs caller s ≡ true)
    → Agree caller
        (Api.act_on id absent act w found)
        (Api.act_on id absent act (visible caller w) (if_passes (belongs caller) found))
unfolding world_of
act_on-blind caller id absent act w none kept e own = (refl, refl)
act_on-blind caller id absent act w (some s) kept e own =
    let mine = own s refl in
    let still : belongs caller ((act s).0) ≡ true = ground (arith, (kept s).group, mine) in
    rw mine (
      ap world_of (keep_values-insert (belongs caller) id s ((act s).0) w.workflows e mine still),
      refl,
    )

proceed-blind :
    (caller id : ℕ) (absent : Answer) (act : Store → Store × Answer) (w : World)
    (checks : Option Status)
    → ((s : Store) → IsKept s (act s).0)
    → IsKeyed w.workflows
    → (checks ≡ none → (s : Store) → lookup id w.workflows ≡ some s → belongs caller s ≡ true)
    → Agree caller
        (Api.proceed id absent act w checks)
        (Api.proceed id absent act (visible caller w) checks)
proceed-blind caller id absent act w (some status) kept keyed own = (refl, refl)
proceed-blind caller id absent act w none kept keyed own =
    rw (lookup-keep_values (belongs caller) id w.workflows keyed)
      (act_on-blind caller id absent act w (lookup id w.workflows) kept refl (own refl))

-- A workflow that passed the check belongs to the caller also when the statements run.
passed-belongs :
    (x : Env) (caller id : ℕ) (checks : Option Status) (seen w : World)
    → HaveSameOwners seen w
    → Api.all_checks x caller id checks seen ≡ none
    → (s : Store) → lookup id w.workflows ≡ some s
    → belongs caller s ≡ true
passed-belongs x caller id checks seen w same passed s e =
    let own = passed-owner x caller id checks seen passed in
    elim (Option-cases (lookup id seen.workflows)) [
      | inl lost ↦ absurd (ground (arith, lost, own))
      | inr (r, found) ↦ ground (arith, found, own, same id r s found e)
    ]

keep-keep : (p : Store → Bool) (m : Map Store) → keep_values p (keep_values p m) ≡ keep_values p m
unfolding keep_values
keep-keep p [] = refl
keep-keep p (entry ∷ rest) = elim (Bool-cases (p (entry.1))) [
  | inl e ↦ rw e (rw e (ap (λ (m : Map Store). entry ∷ m) (keep-keep p rest)))
  | inr e ↦ rw e (keep-keep p rest)
]

handler-blind :
    {x : Env} {caller : ℕ} {b : Bool} {h : World → World → World × Answer}
    → IsHandler x caller b h
    → b ≡ false
    → (seen w : World) → IsKeyed seen.workflows
    → IsKeyed w.workflows
    → HaveSameOwners seen w
    → Agree caller (h seen w) (h (visible caller seen) (visible caller w))
unfolding Api.on_workflow Reads.list_workflows
handler-blind {x} {caller} (IsHandler.on id checks absent act kept) quiet seen w ks kw same =
    rw (checks-blind x caller id checks seen ks) (
      proceed-blind caller id absent act w (Api.all_checks x caller id checks seen) kept kw
        (passed-belongs x caller id checks seen w same))
handler-blind {x} {caller} (IsHandler.listing order) quiet seen w ks kw same =
    (refl, rw (keep-keep (belongs caller) w.workflows) refl)
handler-blind (IsHandler.looking_up request) quiet seen w ks kw same = cc

-- A caller learns nothing of other tenant groups, GetRequestInfo aside: on worlds whose ids are keys
-- and whose workflows change no group between the check and the statements, a call gives the answer
-- that it would give if there were no workflows but those of the caller's group, and what the caller
-- sees of the world after it is the same.
pub serve_blind :
    (l : Library) (x : Env) (caller : ℕ) (c : Call) (seen w : World)
    → looks_up c ≡ false
    → IsKeyed seen.workflows
    → IsKeyed w.workflows
    → HaveSameOwners seen w
    → Agree caller
        (serve l x caller c seen w)
        (serve l x caller c (visible caller seen) (visible caller w))
serve_blind l x caller c seen w own = handler-blind (serve-IsHandler l x caller c) own seen w
