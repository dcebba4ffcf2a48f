-- ===== src/Router/Planning.antt =====
-- Which matches a plan holds.
use gritz.Prelude.{
  ℕ, suc, ◌≡◌, ◌⊎◌, inl, inr, refl, sym, subst, ◌∙◌, true, List, [], ◌∷◌, ◌++◌, arith,
}
use gritz.Router.{
  RoutingRule, InputEvent, OrgRules, RouteMatch, is_eligible, rule_match, first_match, plan,
}

-- The rule at an index fires, and none before it does.
abbrev pub Fires : OrgRules → InputEvent → RoutingRule → Type 0
Fires org input rule = (is_eligible org rule ≡ true) × (rule_match rule input ≡ true)

pub data First (org : OrgRules) (input : InputEvent)
    : ℕ → List RoutingRule → RouteMatch → Type 0 where
  here :
      (i : ℕ) (rule : RoutingRule) (rules : List RoutingRule)
      → Fires org input rule
      → First org input i
          (rule ∷ rules)
          (record { org_id = org.org_id; rule = rule; rule_index = i })
  later :
      (i : ℕ) (rule : RoutingRule) (rules : List RoutingRule) (m : RouteMatch)
      → (Fires org input rule → ⊥)
      → First org input (suc i) rules m
      → First org input i (rule ∷ rules) m

-- No rule of the list fires.
abbrev pub Silent : OrgRules → InputEvent → List RoutingRule → Type 0
Silent org input [] = Unit {0}
Silent org input (rule ∷ rules) = (Fires org input rule → ⊥) × Silent org input rules

-- The plan, organisation by organisation.
pub data Plans (input : InputEvent) : List OrgRules → List RouteMatch → Type 0 where
  done : Plans input [] []
  matched :
      (org : OrgRules) (orgs : List OrgRules) (m : RouteMatch) (ms : List RouteMatch)
      → First org input 0 org.rules m
      → Plans input orgs ms
      → Plans input (org ∷ orgs) (m ∷ ms)
  unmatched :
      (org : OrgRules) (orgs : List OrgRules) (ms : List RouteMatch)
      → Silent org input org.rules
      → Plans input orgs ms
      → Plans input (org ∷ orgs) ms

abbrev match_at : OrgRules → ℕ → RoutingRule → RouteMatch
match_at org i rule = record { org_id = org.org_id; rule = rule; rule_index = i }

first_match-cons :
    (org : OrgRules) (input : InputEvent) (i : ℕ) (rule : RoutingRule) (rules : List RoutingRule)
    → (Fires org input rule × (first_match org input i (rule ∷ rules) ≡ match_at org i rule ∷ []))
      ⊎ ((Fires org input rule → ⊥)
          × (first_match org input i (rule ∷ rules) ≡ first_match org input (suc i) rules))
unfolding first_match
first_match-cons org input i rule rules = ground arith

first_match-First :
    (org : OrgRules) (input : InputEvent) (i : ℕ) (rules : List RoutingRule)
    → ((m : RouteMatch) × (first_match org input i rules ≡ m ∷ []) × First org input i rules m)
      ⊎ ((first_match org input i rules ≡ []) × Silent org input rules)
first_match-First org input i [] = inr (unfold first_match in refl, tt)
first_match-First org input i (rule ∷ rules) = elim (first_match-cons org input i rule rules) [
  | inl (fires, e) ↦ inl (match_at org i rule, e, here i rule rules fires)
  | inr (quiet, e) ↦ elim (first_match-First org input (suc i) rules) [
    | inl (m, found, first) ↦ inl (m, e ∙ found, later i rule rules m quiet first)
    | inr (empty, silent) ↦ inr (e ∙ empty, (quiet, silent))
  ]
]

-- A plan holds, in the order of the organisations, one match for each that has a rule that fires:
-- the first such rule, with its index. A rule fires if it matches the event and the actor is a
-- member of the organisation or the rule is public.
pub plan-Plans : (orgs : List OrgRules) (input : InputEvent) → Plans input orgs (plan orgs input)
unfolding plan
plan-Plans [] input = done
plan-Plans (org ∷ orgs) input = elim (first_match-First org input 0 org.rules) [
  | inl (m, e, first) ↦
      subst (λ ms. Plans input (org ∷ orgs) (ms ++ plan orgs input)) (sym e)
        (matched org orgs m (plan orgs input) first (plan-Plans orgs input))
  | inr (e, silent) ↦
      subst (λ ms. Plans input (org ∷ orgs) (ms ++ plan orgs input)) (sym e)
        (unmatched org orgs (plan orgs input) silent (plan-Plans orgs input))
]
