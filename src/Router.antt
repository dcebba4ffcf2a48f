-- ===== src/Router.antt =====
-- Routing of external events (internal/server/eventrouter/rule.go, eventrouter.go, with the rules of
-- internal/model/routing_rule.go): which rule of which organisation an event fires. `Meta`, which
-- only callbacks read, is left out. The rules come from the store (`ListRoutingRulesForEvent`) and
-- are an argument here.
pub mod Matching
pub mod Planning
pub mod Writing
pub mod Applying
pub mod Attaching
pub mod Creating
pub mod Accepting
pub mod Outcomes
pub mod Steps
pub mod Subscriptions
pub mod Reach
pub mod Redelivery
pub mod Routes
use gritz.Prelude.{
  ℕ, suc, Bool, true, false, not, ◌&&◌, ◌||◌, Option, none, some, List, [], ◌∷◌, ◌++◌, Bytes, codes,
  bytes_eq, length, ◌==◌, if◌then◌else◌,
}

pub record Condition : Type 0 where
  pub attr : Bytes
  pub op : Bytes
  pub value : Bytes

pub record CreateTaskAction : Type 0 where
  pub workspace : Bytes
  pub runner : Bytes
  pub prompt : Bytes
  pub auto_archive : ℕ

pub record RoutingRule : Type 0 where
  pub source : Bytes
  pub type : Bytes
  pub conditions : List Condition
  pub create : Option CreateTaskAction
  pub wakeup : Bool
  pub public : Bool
  pub namespace : Bytes

pub record InputEvent : Type 0 where
  pub source : Bytes
  pub type : Bytes
  pub description : Bytes
  pub data_text : Bytes
  pub url : Bytes
  pub user_id : Bytes
  pub orgs : List ℕ
  pub attrs : List (Bytes × List Bytes)
  pub details : List (Bytes × Bytes)

-- `e.Attrs[key]`
unfoldable pub lookup_attr : List (Bytes × List Bytes) → Bytes → List Bytes
lookup_attr [] key = []
lookup_attr ((k, values) ∷ rest) key = if bytes_eq k key then values else lookup_attr rest key

unfoldable pub attr_values : InputEvent → Bytes → List Bytes
unfolding lookup_attr
attr_values e key =
    if bytes_eq key (codes "body")
    then e.data_text ∷ []
    else if bytes_eq key (codes "url")
    then e.url ∷ []
    else lookup_attr e.attrs key

-- `strings.HasPrefix` and `strings.Contains`
unfoldable pub has_prefix : Bytes → Bytes → Bool
has_prefix v [] = true
has_prefix [] (c ∷ p) = false
has_prefix (d ∷ v) (c ∷ p) = (d == c) && has_prefix v p

unfoldable pub has_part : Bytes → Bytes → Bool
has_part [] p = has_prefix [] p
has_part (d ∷ v) p = has_prefix (d ∷ v) p || has_part v p

-- The `switch` of the loop, on one value.
unfoldable pub value_match : Condition → Bytes → Bool
value_match c v =
    if bytes_eq c.op (codes "equals")
    then bytes_eq v c.value
    else if bytes_eq c.op (codes "prefix")
    then has_prefix v c.value
    else if bytes_eq c.op (codes "contains")
    then has_part v c.value
    else false

unfoldable pub condition_match : Condition → List Bytes → Bool
condition_match c [] = false
condition_match c (v ∷ values) = if value_match c v then true else condition_match c values

unfoldable pub conditions_match : List Condition → InputEvent → Bool
conditions_match [] event = true
conditions_match (c ∷ conditions) event =
    if not (condition_match c (attr_values event c.attr))
    then false
    else conditions_match conditions event

abbrev pub is_empty : Bytes → Bool
is_empty b = length b == 0

-- `Match` of the source.
unfoldable pub rule_match : RoutingRule → InputEvent → Bool
rule_match rule event =
    if not (is_empty rule.source) && not (bytes_eq rule.source event.source)
    then false
    else if not (is_empty rule.type) && not (bytes_eq rule.type event.type)
    then false
    else conditions_match rule.conditions event

pub record OrgRules : Type 0 where
  pub org_id : ℕ
  pub is_member : Bool
  pub rules : List RoutingRule

pub record RouteMatch : Type 0 where
  pub org_id : ℕ
  pub rule : RoutingRule
  pub rule_index : ℕ

abbrev pub is_eligible : OrgRules → RoutingRule → Bool
is_eligible org rule = org.is_member || rule.public

-- The loop over an organisation's rules from index i on.
unfoldable pub first_match : OrgRules → InputEvent → ℕ → List RoutingRule → List RouteMatch
first_match org input i [] = []
first_match org input i (rule ∷ rules) =
    let rest = first_match org input (suc i) rules in
    if not org.is_member && not rule.public
    then rest
    else if rule_match rule input
    then record { org_id = org.org_id; rule = rule; rule_index = i } ∷ []
    else rest

unfoldable pub plan : List OrgRules → InputEvent → List RouteMatch
plan [] input = []
plan (org ∷ orgs) input = first_match org input 0 org.rules ++ plan orgs input
