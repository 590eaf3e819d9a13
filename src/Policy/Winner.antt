-- ===== src/Policy/Winner.antt =====
-- Which rule ResolvePolicy lets win: the first of the most severe ones among those that fire.
use boundflow.Base.{
  ℕ, ◌≤◌, ◌<◌, ◌≡◌, refl, ◌⊎◌, inl, inr, true, false, Option, none, some, List, [], ◌∷◌, ◌++◌, ap,
  All, Bool-cases, arith,
}
use boundflow.Domain.Policy.{Float64, Floats, Rule, Policy, Snapshot, VersionMetrics}
use boundflow.Policy.{
  GoalState, Resolution, Verdict, skipped, fired, panicked, no_goal, action_priority, outranks,
  evaluate_rule, settle, resolve_rules, resolve_policy, ◌>>=◌,
}

abbrev pub priority_of : Rule → ℕ
priority_of r = action_priority r.action.type

module _ (f : Floats) (runs : List Snapshot) (vm : VersionMetrics) where
  -- If the rule fires, its action ranks below `p`, or at most at `p`.
  abbrev pub Below : ℕ → Rule → Type 0
  Below p r =
      (g : GoalState) (v : Float64) → evaluate_rule f runs vm r ≡ fired g v → priority_of r < p

  abbrev pub AtMost : ℕ → Rule → Type 0
  AtMost p r =
      (g : GoalState) (v : Float64) → evaluate_rule f runs vm r ≡ fired g v → priority_of r ≤ p

  -- The rule does not fire.
  abbrev pub IsIdle : Rule → Type 0
  IsIdle r = (g : GoalState) (v : Float64) → ¬ (evaluate_rule f runs vm r ≡ fired g v)

  -- The result reports the rule at one place of the list with what it fired with: no rule before
  -- it that fires is as severe, and none after it is more severe.
  pub record Wins (rules : List Rule) (res : Resolution) : Type 0 where
    pub before : List Rule
    pub winner : Rule
    pub after : List Rule
    pub place : rules ≡ before ++ (winner ∷ after)
    pub fires : evaluate_rule f runs vm winner ≡ fired res.goal res.value
    pub reported : res.rule ≡ some winner
    pub ranked : res.priority ≡ some (priority_of winner)
    pub above_earlier : All (Below (priority_of winner)) before
    pub above_later : All (AtMost (priority_of winner)) after

  -- If the rule fires, it does not take the lead from a leader of priority `q`.
  abbrev Yields : Option ℕ → Rule → Type 0
  Yields q r =
      (g : GoalState) (v : Float64)
      → evaluate_rule f runs vm r ≡ fired g v
      → outranks (priority_of r) q ≡ false

  -- The loop from any leader: the leader stays, or a later rule that outranks it wins.
  abbrev Outcome : List Rule → Resolution → Resolution → Type 0
  Outcome rs lead res =
      (All (Yields lead.priority) rs × (res ≡ lead))
      ⊎ ((w : Wins rs res) × (outranks (priority_of w.winner) lead.priority ≡ true))

  Yields-AtMost : (p : ℕ) (rs : List Rule) → All (Yields (some p)) rs → All (AtMost p) rs
  Yields-AtMost p [] all = tt
  Yields-AtMost p (r ∷ rs) all = ((λ g v e. ground (arith, all.0 g v e)), Yields-AtMost p rs all.1)

  -- A rule in front that does not take the lead changes neither case.
  pass_over :
      (r : Rule) (rs : List Rule) (lead res : Resolution)
      → Yields lead.priority r
      → Outcome rs lead res
      → Outcome (r ∷ rs) lead res
  pass_over r rs lead res yields (inl (all, e)) = inl ((yields, all), e)
  pass_over r rs lead res yields (inr (w, top)) = inr (
    record {
      before = r ∷ w.before;
      winner = w.winner;
      after = w.after;
      place = ground (arith, w.place);
      fires = w.fires;
      reported = w.reported;
      ranked = w.ranked;
      above_earlier = (λ g v e. ground (arith, yields g v e, top), w.above_earlier);
      above_later = w.above_later;
    },
    top,
  )

  -- A rule that takes the lead wins, or loses it to a more severe one behind it.
  take_lead :
      (r : Rule) (rs : List Rule) (lead next res : Resolution)
      → evaluate_rule f runs vm r ≡ fired next.goal next.value
      → next.rule ≡ some r
      → next.priority ≡ some (priority_of r)
      → outranks (priority_of r) lead.priority ≡ true
      → Outcome rs next res
      → Outcome (r ∷ rs) lead res
  take_lead r rs lead next res fires rep rank top (inl (all, e)) = inr (
    record {
      before = [];
      winner = r;
      after = rs;
      place = refl;
      fires = rw e fires;
      reported = rw e rep;
      ranked = rw e rank;
      above_earlier = tt;
      above_later = Yields-AtMost (priority_of r) rs (rw rank at all);
    },
    top,
  )
  take_lead r rs lead next res fires rep rank top (inr (w, over)) = inr (
    record {
      before = r ∷ w.before;
      winner = w.winner;
      after = w.after;
      place = ground (arith, w.place);
      fires = w.fires;
      reported = w.reported;
      ranked = w.ranked;
      above_earlier = (λ g v e. ground (arith, over, rank), w.above_earlier);
      above_later = w.above_later;
    },
    ground (arith, over, rank, top),
  )

  -- One round, given what the rest of the loop does from the leader that it leaves.
  round-Outcome :
      (r : Rule) (rs : List Rule) (lead res : Resolution) (v : Verdict)
      → ((next : Resolution) → resolve_rules f runs vm rs next ≡ some res → Outcome rs next res)
      → evaluate_rule f runs vm r ≡ v
      → (settle v r lead >>= resolve_rules f runs vm rs) ≡ some res
      → Outcome (r ∷ rs) lead res
  unfolding settle
  round-Outcome r rs lead res skipped rest e h =
      pass_over r rs lead res (λ g v e'. cc) (rest lead h)
  round-Outcome r rs lead res panicked rest e h = cc
  round-Outcome r rs lead res (fired g v) rest e h =
      elim (Bool-cases (outranks (priority_of r) lead.priority)) [
        | inl top ↦
            let next : Resolution = record {
              goal = g;
              rule = some r;
              value = v;
              priority = some (priority_of r);
            } in
            take_lead r rs lead next res e refl refl top (rest next (rw top at h))
        | inr low ↦ pass_over r rs lead res (λ g v e'. low) (rest lead (rw low at h))
      ]

  rules-Outcome :
      (rs : List Rule) (lead res : Resolution)
      → resolve_rules f runs vm rs lead ≡ some res
      → Outcome rs lead res
  unfolding resolve_rules
  rules-Outcome [] lead res h = inl (tt, ground arith)
  rules-Outcome (r ∷ rs) lead res h =
      round-Outcome r rs lead res (evaluate_rule f runs vm r) (λ next. rules-Outcome rs next res)
        refl h

  Yields-IsIdle : (rs : List Rule) → All (Yields none) rs → All IsIdle rs
  Yields-IsIdle [] all = tt
  Yields-IsIdle (r ∷ rs) all = ((λ g v e. cc (all.0 g v e)), Yields-IsIdle rs all.1)

  -- Whenever ResolvePolicy returns: either no rule of the policy fires, and the result names no
  -- rule and the zero goal; or the result reports the goal and the value that one rule of the
  -- policy fired with, where every rule before it that fires has a strictly less severe action and
  -- every rule after it that fires has none more severe.
  pub resolve_policy_picks :
      (policy : Policy) (res : Resolution)
      → resolve_policy f runs policy vm ≡ some res
      → (All IsIdle policy.rules × (res.rule ≡ none) × (res.goal ≡ no_goal)) ⊎ Wins policy.rules res
  unfolding resolve_policy
  resolve_policy_picks policy res h = elim (rules-Outcome policy.rules _ res h) [
    | inl (all, e) ↦ inl (Yields-IsIdle policy.rules all, ap (λ x. x.rule) e, ap (λ x. x.goal) e)
    | inr (w, _) ↦ inr w
  ]
