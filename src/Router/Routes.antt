-- ===== src/Router/Routes.antt =====
-- `Route`, from the event to what is stored and told.
use gritz.Prelude.{
  ℕ, ◌≡◌, ◌≢◌, ◌∙◌, sym, ◌⊎◌, inl, inr, refl, Bool, true, false, List, [], ◌∷◌, if◌then◌else◌,
}
use gritz.Store.{Result, ok, err, World, read_only, call}
use gritz.Router.{InputEvent, OrgRules, is_empty, plan}
use gritz.Router.Writing.{Serials, RouteOutcome}
use gritz.Router.Applying.{affected, routed, planned, route}
use gritz.Router.Steps.{Steps, rows_for, not_nil, Applies, apply-Applies}

module _ (env : Serials) (input : InputEvent) (orgs : List OrgRules) where
  -- What the answer of a routing tells of the world it leaves.
  abbrev pub Routed : World → Result (ℕ × List RouteOutcome) × World → Type 0
  Routed w (err e, w') = (w.answers ≢ []) × (w'.tables ≡ w.tables) × (w'.published ≡ w.published)
  Routed w (ok (n, outcomes), w') =
      (n ≡ affected outcomes)
      × (((is_empty input.url ≡ true) × (outcomes ≡ []) × (w' ≡ w))
          ⊎ ((a : List Bool) × Steps env input (rows_for env input (plan orgs input) w)
                (plan orgs input) (record w { answers = a }) outcomes w'))

  routed-Routed :
      (w : World) (a : List Bool) (r : Result (List RouteOutcome) × World)
      → (a ≢ [] → w.answers ≢ [])
      → Applies env input (plan orgs input) (record w { answers = a }) r
      → Routed w (routed env r)
  routed-Routed w a (err e, w') refused k = (refused k.0, k.1, k.2)
  routed-Routed w a (ok outcomes, w') refused (b, k) = (refl, inr (b, k))

  planned-Routed :
      (w : World) (answers : List Bool)
      → w.answers ≡ answers
      → Routed w (planned env input orgs (read_only call (record w { answers = answers })))
  unfolding read_only call
  planned-Routed w [] is =
      routed-Routed w [] _ (λ n e. n refl)
        (apply-Applies env input (plan orgs input) (record w { answers = [] }))
  planned-Routed w (true ∷ a) is =
      routed-Routed w a _ (λ n e. not_nil (sym is ∙ e))
        (apply-Applies env input (plan orgs input) (record w { answers = a }))
  planned-Routed w (false ∷ a) is = (λ e. not_nil (sym is ∙ e), refl, refl)

  by_url :
      (w : World) (b : Bool)
      → is_empty input.url ≡ b
      → Routed w (if b then (ok (0, []), w) else planned env input orgs (read_only call w))
  by_url w true e = (refl, inl (e, refl, refl))
  by_url w false e = planned-Routed w w.answers refl

  -- Routing an event without a url does nothing. Otherwise it has one of its two reads refused before
  -- any write and changes nothing, or does one step for each match of the plan, in order. If links in
  -- the rule's namespace were subscribed to the event's key at the start, each of their tasks gets one
  -- attach: its event and, for a rule with wakeup, its start are stored and told, or nothing is, which
  -- takes a refused call or a task to be started that is not there. Otherwise the rule's task is
  -- created with all its rows, or the create failed at a refused call without a trace, or the rule has
  -- no action and nothing is done. The number answered counts the tasks of the outcomes, of which
  -- there is one for each match.
  pub route-Routed : (w : World) → Routed w (route env input orgs w)
  unfolding route
  route-Routed w = by_url w (is_empty input.url) refl
