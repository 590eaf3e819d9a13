-- ===== src/Policy/Safety.antt =====
-- That ResolvePolicy does not panic on a policy that the setter accepted.
use boundflow.Base.{
  ℕ, zero, suc, ◌-◌, ◌^◌, ◌<◌, ◌≡◌, ◌≢◌, refl, inl, inr, Bool, true, false, none, some, List, [],
  ◌∷◌, All, keep, drop, length, map, ltb, leb, Bool-cases, Option-cases, arith,
}
use boundflow.Domain.Policy.{Float64, Floats, Metric, ActionType, Rule, Snapshot, VersionMetrics}
use boundflow.Policy.{
  Resolution, Verdict, panicked, skipped, fired, metric_emitted, run_value, sum_runs, lookback,
  window_total, judge, evaluate_rule, action_priority, outranks, settle, resolve_rules,
  resolve_policy,
}
use boundflow.Convert.{ProtoRule, rule_from_proto, policy_from_proto, check_rule, check_rules}
use boundflow.Convert.Rules.{IsWire, accepted_head}

abbrev Emits : Rule → Snapshot → Type 0
Emits r s = metric_emitted s r.metric r.tool_name ≡ true

run_value-emitted :
    (f : Floats) (s : Snapshot) (m : Metric) (tool : ℕ)
    → metric_emitted s m tool ≡ true
    → run_value f s m tool ≢ none
unfolding metric_emitted run_value
run_value-emitted f s m tool h = ground arith

sum_runs-total :
    (f : Floats) (r : Rule) (total : Float64) (xs : List Snapshot)
    → All (Emits r) xs
    → sum_runs f r.metric r.tool_name total xs ≢ none
unfolding sum_runs
sum_runs-total f r total [] all = λ e. cc
sum_runs-total f r total (s ∷ xs) all = elim (Option-cases (run_value f s r.metric r.tool_name)) [
  | inl e ↦ absurd (run_value-emitted f s r.metric r.tool_name all.0 e)
  | inr (v, e) ↦ rw e (sum_runs-total f r (f.add total v) xs all.1)
]

keep-All {ℓ} : {A : Type ℓ} (p : A → Bool) (xs : List A) → All (λ s. p s ≡ true) (keep p xs)
keep-All p [] = tt
keep-All p (s ∷ xs) = elim (Bool-cases (p s)) [
  | inl kept ↦ rw kept (kept, keep-All p xs)
  | inr lost ↦ rw lost (keep-All p xs)
]

drop-All {ℓ κ} : {A : Type ℓ} (P : A → Type κ) (n : ℕ) (xs : List A) → All P xs → All P (drop n xs)
drop-All P zero xs all = all
drop-All P (suc n) [] all = tt
drop-All P (suc n) (x ∷ xs) all = drop-All P n xs all.1

-- The sum over a lookback has a value where the window is no negative int.
window_total-total :
    (f : Floats) (r : Rule) (runs : List Snapshot)
    → r.window < 2 ^ 63
    → window_total f r runs ≢ none
unfolding window_total lookback
window_total-total f r runs h = elim (Bool-cases (ltb r.window (length seen))) [
  | inl long ↦
      rw (small, long)
        (sum_runs-total f r f.zero_float _ (drop-All (Emits r) (length seen - r.window) seen all))
  | inr short ↦ rw (small, short) (sum_runs-total f r f.zero_float seen all)
]
  where
    small : leb (2 ^ 63) r.window ≡ false
    small = ground arith

    seen : List Snapshot
    seen = keep (λ s. metric_emitted s r.metric r.tool_name) runs

    all : All (Emits r) seen
    all = keep-All _ runs

abbrev HasWindow : ActionType → ℕ → Type 0
HasWindow ActionType.cooldown w = w < 2 ^ 63
HasWindow ActionType.pause w = w < 2 ^ 63
HasWindow _ w = Unit {0}

judge-total :
    (f : Floats) (runs : List Snapshot) (vm : VersionMetrics) (t : ActionType) (r : Rule)
    → HasWindow t r.window
    → judge f runs vm t r ≢ panicked
unfolding judge
judge-total f runs vm ActionType.set_version r h = ground arith
judge-total f runs vm ActionType.cooldown r h = ground (arith, window_total-total f r runs h)
judge-total f runs vm ActionType.pause r h = ground (arith, window_total-total f r runs h)
judge-total f runs vm (ActionType.other s) r h = ground arith

evaluate_rule-total :
    (f : Floats) (runs : List Snapshot) (vm : VersionMetrics) (r : Rule)
    → HasWindow r.action.type r.window
    → evaluate_rule f runs vm r ≢ panicked
unfolding evaluate_rule
evaluate_rule-total f runs vm r h = ground (arith, judge-total f runs vm r.action.type r h)

settle-total :
    (v : Verdict) (r : Rule) (lead : Resolution)
    → v ≢ panicked
    → (next : Resolution) × (settle v r lead ≡ some next)
unfolding settle
settle-total skipped r lead h = (lead, refl)
settle-total panicked r lead h = absurd (h refl)
settle-total (fired g v) r lead h =
    elim (Bool-cases (outranks (action_priority r.action.type) lead.priority)) [
      | inl top ↦ rw top (_, refl)
      | inr low ↦ rw low (lead, refl)
    ]

resolve_rules-total :
    (f : Floats) (runs : List Snapshot) (vm : VersionMetrics) (rs : List Rule) (lead : Resolution)
    → All (λ r. HasWindow r.action.type r.window) rs
    → (res : Resolution) × (resolve_rules f runs vm rs lead ≡ some res)
unfolding resolve_rules
resolve_rules-total f runs vm [] lead all = (lead, refl)
resolve_rules-total f runs vm (r ∷ rs) lead all =
    let (next, e) =
      settle-total (evaluate_rule f runs vm r) r lead (evaluate_rule-total f runs vm r all.0) in
    rw e (resolve_rules-total f runs vm rs next all.1)

rule-HasWindow :
    (r : ProtoRule)
    → IsWire r
    → check_rule r ≡ none
    → let s = rule_from_proto r in HasWindow s.action.type s.window
unfolding rule_from_proto check_rule
rule-HasWindow r wire h = ground arith

accepted-HasWindow :
    (rs : List ProtoRule)
    → All IsWire rs
    → check_rules rs ≡ none
    → All (λ r. HasWindow r.action.type r.window) (map rule_from_proto rs)
accepted-HasWindow [] wire h = tt
accepted-HasWindow (r ∷ rs) wire h =
    let (first, rest) = accepted_head r rs h in
    (rule-HasWindow r wire.0 first, accepted-HasWindow rs wire.1 rest)

-- ResolvePolicy returns on every history of runs and all version totals, for each policy of int32
-- numbers that the setter's checks accept: no nil pointer is dereferenced and no slice is cut out
-- of range.
pub resolve_policy-total :
    (f : Floats) (runs : List Snapshot) (vm : VersionMetrics) (rules : List ProtoRule)
    → All IsWire rules
    → check_rules rules ≡ none
    → (res : Resolution) × (resolve_policy f runs (policy_from_proto (some rules)) vm ≡ some res)
unfolding resolve_policy policy_from_proto
resolve_policy-total f runs vm rules wire h =
    resolve_rules-total f runs vm _ _ (accepted-HasWindow rules wire h)
