-- ===== src/Policy/Goals.antt =====
-- Which states a goal of ResolvePolicy can name.
use boundflow.Base.{◌≡◌, false, none, some, List, arith}
use boundflow.Domain.Status.{is_suspended}
use boundflow.Domain.Policy.{Float64, Floats, ActionType, Rule, Snapshot, VersionMetrics}
use boundflow.Policy.{GoalState, fired, judge, evaluate_rule}

-- The goal names no suspension.
abbrev pub IsOpen : GoalState → Type 0
IsOpen g = (elim g.state [ none ↦ false | some st ↦ is_suspended st ]) ≡ false

judge-IsOpen :
    (f : Floats) (runs : List Snapshot) (vm : VersionMetrics) (t : ActionType) (r : Rule)
    (g : GoalState) (v : Float64)
    → judge f runs vm t r ≡ fired g v
    → IsOpen g
unfolding judge
judge-IsOpen f runs vm ActionType.set_version r g v e = ground (arith, e)
judge-IsOpen f runs vm ActionType.cooldown r g v e = ground (arith, e)
judge-IsOpen f runs vm ActionType.pause r g v e = ground (arith, e)
judge-IsOpen f runs vm (ActionType.other s) r g v e = ground (arith, e)

pub evaluate_rule-IsOpen :
    (f : Floats) (runs : List Snapshot) (vm : VersionMetrics) (r : Rule) (g : GoalState)
    (v : Float64)
    → evaluate_rule f runs vm r ≡ fired g v
    → IsOpen g
unfolding evaluate_rule
evaluate_rule-IsOpen f runs vm r g v e =
    ground (arith, e, judge-IsOpen f runs vm r.action.type r g v)
