-- ===== src/Router/Matching.antt =====
-- When a rule matches an event.
use gritz.Prelude.{
  ◌≡◌, refl, ap, ◌∙◌, ◌↔◌, ◌⊎◌, inl, inr, true, List, [], ◌∷◌, ◌++◌, Bytes, codes, bytes_eq_iff,
  Bool-cases, arith, All,
}
use gritz.Router.{
  Condition, RoutingRule, InputEvent, attr_values, has_prefix, has_part, value_match,
  condition_match, conditions_match, is_empty, rule_match,
}

-- v starts with p; v has p as a part.
abbrev pub StartsWith : Bytes → Bytes → Type 0
StartsWith v p = (rest : Bytes) × (v ≡ p ++ rest)

abbrev pub HasPart : Bytes → Bytes → Type 0
HasPart v p = (before : Bytes) × (rest : Bytes) × (v ≡ before ++ (p ++ rest))

has_prefix_nil : (v : Bytes) → has_prefix v [] ≡ true
unfolding has_prefix
has_prefix_nil [] = refl
has_prefix_nil (d ∷ v) = refl

part_first : (v p : Bytes) → has_prefix v p ≡ true → has_part v p ≡ true
unfolding has_part
part_first [] p h = h
part_first (d ∷ v) p h = ground arith

has_prefix_sound : (v p : Bytes) → has_prefix v p ≡ true → StartsWith v p
unfolding has_prefix
has_prefix_sound [] [] h = ([], refl)
has_prefix_sound (d ∷ v) [] h = (d ∷ v, refl)
has_prefix_sound [] (c ∷ p) h = cc
has_prefix_sound (d ∷ v) (c ∷ p) h =
    let both : (d ≡ c) × (has_prefix v p ≡ true) = ground arith in
    let (rest, e) = has_prefix_sound v p both.1 in (rest, cc)

has_prefix_complete : (p rest : Bytes) → has_prefix (p ++ rest) p ≡ true
unfolding has_prefix
has_prefix_complete [] rest = has_prefix_nil rest
has_prefix_complete (c ∷ p) rest = ground (arith, has_prefix_complete p rest)

has_part_sound : (v p : Bytes) → has_part v p ≡ true → HasPart v p
unfolding has_part
has_part_sound [] p h = let (rest, e) = has_prefix_sound [] p h in ([], rest, e)
has_part_sound (d ∷ v) p h = elim (Bool-cases (has_prefix (d ∷ v) p)) [
  | inl first ↦ let (rest, e) = has_prefix_sound (d ∷ v) p first in ([], rest, e)
  | inr later ↦
      let (before, rest, e) = has_part_sound v p (ground arith) in
      (d ∷ before, rest, ap (λ x. d ∷ x) e)
]

has_part_complete : (before p rest : Bytes) → has_part (before ++ (p ++ rest)) p ≡ true
unfolding has_part
has_part_complete [] p rest = part_first (p ++ rest) p (has_prefix_complete p rest)
has_part_complete (d ∷ before) p rest = ground (arith, has_part_complete before p rest)

has_prefix_iff : (v p : Bytes) → (has_prefix v p ≡ true) ↔ StartsWith v p
has_prefix_iff v p =
    (has_prefix_sound v p, λ (rest, e). ap (λ x. has_prefix x p) e ∙ has_prefix_complete p rest)

has_part_iff : (v p : Bytes) → (has_part v p ≡ true) ↔ HasPart v p
has_part_iff v p = (
  has_part_sound v p,
  λ (before, rest, e). ap (λ x. has_part x p) e ∙ has_part_complete before p rest,
)

-- What the operations of a condition mean; any other operation never holds.
abbrev pub Holds : Condition → Bytes → Type 0
Holds c v =
    ((c.op ≡ codes "equals") × (v ≡ c.value))
    ⊎ ((c.op ≡ codes "prefix") × StartsWith v c.value)
    ⊎ ((c.op ≡ codes "contains") × HasPart v c.value)

abbrev pub AnyHolds : Condition → List Bytes → Type 0
AnyHolds c [] = ⊥
AnyHolds c (v ∷ values) = Holds c v ⊎ AnyHolds c values

-- An empty selector is a wildcard.
abbrev pub Selects : Bytes → Bytes → Type 0
Selects want got = (want ≡ []) ⊎ (want ≡ got)

abbrev pub Matches : RoutingRule → InputEvent → Type 0
Matches rule event =
    Selects rule.source event.source
    × Selects rule.type event.type
    × All (λ c. AnyHolds c (attr_values event c.attr)) rule.conditions

value_match_sound : (c : Condition) (v : Bytes) → value_match c v ≡ true → Holds c v
unfolding value_match
value_match_sound c v h = ground (
  arith,
  bytes_eq_iff c.op (codes "equals"),
  bytes_eq_iff c.op (codes "prefix"),
  bytes_eq_iff c.op (codes "contains"),
  bytes_eq_iff v c.value,
  has_prefix_iff v c.value,
  has_part_iff v c.value,
)

value_match_complete : (c : Condition) (v : Bytes) → Holds c v → value_match c v ≡ true
unfolding value_match
value_match_complete c v h = ground (
  arith,
  bytes_eq_iff c.op (codes "equals"),
  bytes_eq_iff c.op (codes "prefix"),
  bytes_eq_iff c.op (codes "contains"),
  bytes_eq_iff v c.value,
  has_prefix_iff v c.value,
  has_part_iff v c.value,
)

condition_match_iff :
    (c : Condition) (values : List Bytes) → (condition_match c values ≡ true) ↔ AnyHolds c values
unfolding condition_match
condition_match_iff c [] = (λ h. cc, λ h. absurd h)
condition_match_iff c (v ∷ values) =
    ground (arith, value_match_sound c v, value_match_complete c v, condition_match_iff c values)

conditions_match_iff :
    (conditions : List Condition) (event : InputEvent)
    → (conditions_match conditions event ≡ true)
      ↔ All (λ c. AnyHolds c (attr_values event c.attr)) conditions
unfolding conditions_match
conditions_match_iff [] event = (λ h. tt, λ h. refl)
conditions_match_iff (c ∷ conditions) event =
    ground (
      arith,
      condition_match_iff c (attr_values event c.attr),
      conditions_match_iff conditions event,
    )

is_empty_iff : (b : Bytes) → (is_empty b ≡ true) ↔ (b ≡ [])
is_empty_iff [] = (λ h. refl, λ h. refl)
is_empty_iff (c ∷ b) = ground arith

-- A rule matches an event exactly when its source and its type are empty or the event's, and each
-- of its conditions holds of some value that the event carries for the condition's attribute, where
-- equals, prefix and contains mean what they say and no other operation holds of anything.
pub rule_match_iff :
    (rule : RoutingRule) (event : InputEvent) → (rule_match rule event ≡ true) ↔ Matches rule event
unfolding rule_match
rule_match_iff rule event = ground (
  arith,
  is_empty_iff rule.source,
  is_empty_iff rule.type,
  bytes_eq_iff rule.source event.source,
  bytes_eq_iff rule.type event.type,
  conditions_match_iff rule.conditions event,
)
