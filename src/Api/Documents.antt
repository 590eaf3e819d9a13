-- ===== src/Api/Documents.antt =====
-- internal/server/handlers/lifecycle.go: ValidateAgentLifecycleRules, which walks a JSON document that
-- a caller sends as a Struct and that the server otherwise leaves alone.
use boundflow.Base.{
  ℕ, ◌≡◌, refl, Bool, false, Option, none, some, ◌==◌, ◌↔◌, ◌⊎◌, if◌then◌else◌, arith, inl, inr,
}
use boundflow.Domain.Policy.{Float64, Floats, max_lifecycle_window}
use boundflow.Api.{AgentRuleError}

-- What Struct.AsMap makes; a text and a name are opaque.
mutual
  pub data Json : Type 0 where
    null : Json
    bool : Bool → Json
    number : Float64 → Json
    text : ℕ → Json
    array : Items → Json
    object : Fields → Json

  pub data Items : Type 0 where
    no_items : Items
    item : Json → Items → Items

  pub data Fields : Type 0 where
    no_fields : Fields
    field : ℕ → Json → Fields → Fields

-- `v, ok := m[name]`.
unfoldable pub get : ℕ → Fields → Option Json
get name no_fields = none
get name (field n v rest) = if n == name then some v else get name rest

-- The names "rules" and "window".
abbrev pub rules_name : ℕ
rules_name = 1

abbrev pub window_name : ℕ
window_name = 2

-- A test on floats beside those of Floats: `a > b`.
abbrev pub Greater : Type 0
Greater = Float64 → Float64 → Bool

-- The tests on the window of a rule.
unfoldable pub check_number : Floats → Greater → Float64 → Option AgentRuleError
check_number f greater w =
    if f.ge f.zero_float w
    then some AgentRuleError.window_not_positive
    else if greater w (f.of_int max_lifecycle_window)
    then some AgentRuleError.window_too_large
    else none

unfoldable pub check_window : Floats → Greater → Option Json → Option AgentRuleError
check_window f greater none = some AgentRuleError.window_required
check_window f greater (some (number w)) = check_number f greater w
check_window f greater (some v) = some AgentRuleError.window_not_number

unfoldable pub check_agent_rule : Floats → Greater → Json → Option AgentRuleError
check_agent_rule f greater (object rule) = check_window f greater (get window_name rule)
check_agent_rule f greater v = some AgentRuleError.rule_not_object

abbrev or_later : Option AgentRuleError → Option AgentRuleError → Option AgentRuleError
or_later none later = later
or_later (some e) later = some e

-- The loop over the rules: the first fault is the answer.
unfoldable pub check_items : Floats → Greater → Items → Option AgentRuleError
check_items f greater no_items = none
check_items f greater (item v rest) =
    let later = check_items f greater rest in or_later (check_agent_rule f greater v) later

unfoldable pub check_rules_value : Floats → Greater → Option Json → Option AgentRuleError
check_rules_value f greater none = none
check_rules_value f greater (some (array rules)) = check_items f greater rules
check_rules_value f greater (some v) = some AgentRuleError.rules_not_array

-- ValidateAgentLifecycleRules: none accepts the document.
unfoldable pub validate_agent_lifecycle_rules : Floats → Greater → Fields → Option AgentRuleError
validate_agent_lifecycle_rules f greater policy =
    check_rules_value f greater (get rules_name policy)

-- A window that is neither at most 0 nor above the longest lookback.
abbrev pub IsWindow : Floats → Greater → Float64 → Type 0
IsWindow f greater w =
    (f.ge f.zero_float w ≡ false) × (greater w (f.of_int max_lifecycle_window) ≡ false)

-- A rule is an object whose window is a number in that range.
abbrev pub IsRule : Floats → Greater → Json → Type 0
IsRule f greater v =
    (rule : Fields) × (w : Float64) × (v ≡ object rule)
    × (get window_name rule ≡ some (number w))
    × IsWindow f greater w

abbrev pub AllRules : Floats → Greater → Items → Type 0
AllRules f greater no_items = Unit {0}
AllRules f greater (item v rest) = IsRule f greater v × AllRules f greater rest

-- The document has no rules, or an array of nothing but rules.
abbrev pub IsLifecycle : Floats → Greater → Fields → Type 0
IsLifecycle f greater policy =
    (get rules_name policy ≡ none)
    ⊎ ((rules : Items) × (get rules_name policy ≡ some (array rules)) × AllRules f greater rules)

check_window-IsWindow :
    (f : Floats) (greater : Greater) (v : Option Json)
    → check_window f greater v ≡ none
    → (w : Float64) × (v ≡ some (number w)) × IsWindow f greater w
unfolding check_window check_number
check_window-IsWindow f greater none h = cc
check_window-IsWindow f greater (some Json.null) h = cc
check_window-IsWindow f greater (some (Json.bool b)) h = cc
check_window-IsWindow f greater (some (number w)) h = (w, refl, ground arith)
check_window-IsWindow f greater (some (Json.text t)) h = cc
check_window-IsWindow f greater (some (array l)) h = cc
check_window-IsWindow f greater (some (object o)) h = cc

number_complete :
    (f : Floats) (greater : Greater) (w : Float64)
    → IsWindow f greater w
    → check_number f greater w ≡ none
unfolding check_number
number_complete f greater w fits = ground arith

check_agent_rule-IsRule :
    (f : Floats) (greater : Greater) (v : Json)
    → check_agent_rule f greater v ≡ none
    → IsRule f greater v
unfolding check_agent_rule
check_agent_rule-IsRule f greater Json.null h = cc
check_agent_rule-IsRule f greater (Json.bool b) h = cc
check_agent_rule-IsRule f greater (number w) h = cc
check_agent_rule-IsRule f greater (Json.text t) h = cc
check_agent_rule-IsRule f greater (array l) h = cc
check_agent_rule-IsRule f greater (object o) h =
    let r = check_window-IsWindow f greater (get window_name o) h in (o, r.0, refl, r.1, r.2)

rule_complete :
    (f : Floats) (greater : Greater) (v : Json)
    → IsRule f greater v
    → check_agent_rule f greater v ≡ none
unfolding check_agent_rule check_window
rule_complete f greater v (o, w, is, has, fits) = rw is (rw has (number_complete f greater w fits))

items_sound :
    (f : Floats) (greater : Greater) (l : Items)
    → check_items f greater l ≡ none
    → AllRules f greater l
unfolding check_items
items_sound f greater no_items h = tt
items_sound f greater (item v rest) h =
    (check_agent_rule-IsRule f greater v (ground arith), items_sound f greater rest (ground arith))

items_complete :
    (f : Floats) (greater : Greater) (l : Items)
    → AllRules f greater l
    → check_items f greater l ≡ none
unfolding check_items
items_complete f greater no_items all = refl
items_complete f greater (item v rest) all =
    rw (rule_complete f greater v all.0) (items_complete f greater rest all.1)

value_sound :
    (f : Floats) (greater : Greater) (v : Option Json)
    → check_rules_value f greater v ≡ none
    → (v ≡ none) ⊎ ((rules : Items) × (v ≡ some (array rules)) × AllRules f greater rules)
unfolding check_rules_value
value_sound f greater none h = inl refl
value_sound f greater (some Json.null) h = cc
value_sound f greater (some (Json.bool b)) h = cc
value_sound f greater (some (number w)) h = cc
value_sound f greater (some (Json.text t)) h = cc
value_sound f greater (some (array l)) h = inr (l, refl, items_sound f greater l h)
value_sound f greater (some (object o)) h = cc

complete :
    (f : Floats) (greater : Greater) (policy : Fields)
    → IsLifecycle f greater policy
    → validate_agent_lifecycle_rules f greater policy ≡ none
unfolding validate_agent_lifecycle_rules check_rules_value
complete f greater policy (inl e) = rw e refl
complete f greater policy (inr (rules, e, all)) = rw e (items_complete f greater rules all)

-- A document is accepted exactly when it has no rules, or when its rules are an array of objects each
-- of whose windows is a number, is not at most 0 and is not above the longest lookback; this for any
-- operations on floats.
pub validate_accepts :
    (f : Floats) (greater : Greater) (policy : Fields)
    → (validate_agent_lifecycle_rules f greater policy ≡ none) ↔ IsLifecycle f greater policy
unfolding validate_agent_lifecycle_rules
validate_accepts f greater policy =
    (value_sound f greater (get rules_name policy), complete f greater policy)
