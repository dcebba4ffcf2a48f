-- ===== src/Router/Outcomes.antt =====
-- What `Apply` does for each match, and what it answers.
use gritz.Prelude.{
  by_test, ℕ, ◌≡◌, ◌∙◌, ◌⊎◌, refl, ap, sym, arith, Bool, true, false, none, List, [], ◌∷◌, ◌++◌,
  map, inl, inr, length, length-append, ◌+◌, All,
}
use mathlib.Core.List.{append_assoc, append-nil}
use gritz.Event.{Event}
use gritz.Store.{find_row, Failure, Tables, Result, ok, err, World, Notification}
use gritz.Router.{InputEvent, RouteMatch}
use gritz.Router.Writing.{Serials, LinkRow, has_id, external_event}
use gritz.Router.Applying.{if_attached, attach, wake_each}
use gritz.Router.Accepting.{attach-failed}
use gritz.Router.Attaching.{Told, Attached, attach-Told}

-- No id is one of those seen or one before it.
abbrev pub Distinct : List ℕ → List ℕ → Type 0
Distinct seen [] = Unit {0}
Distinct seen (x ∷ xs) = (has_id seen x ≡ false) × Distinct (x ∷ seen) xs

-- The id is the task of one of the links.
abbrev pub IsLinked : List LinkRow → ℕ → Type 0
IsLinked [] x = ⊥
IsLinked (r ∷ rows) x = (r.link.task_id ≡ x) ⊎ IsLinked rows x

abbrev pub ids_of : List (ℕ × ℕ) → List ℕ
ids_of = map (λ p. p.0)

Distinct-less :
    (seen more xs : List ℕ)
    → ((x : ℕ) → has_id more x ≡ false → has_id seen x ≡ false)
    → Distinct more xs
    → Distinct seen xs
unfolding has_id
Distinct-less seen more [] h d = tt
Distinct-less seen more (x ∷ xs) h (fresh, d) =
    (h x fresh, Distinct-less (x ∷ seen) (x ∷ more) xs (λ y e. ground (arith, h y)) d)

Distinct-seen : (seen xs : List ℕ) (x : ℕ) → Distinct (x ∷ seen) xs → Distinct seen xs
unfolding has_id
Distinct-seen seen xs x d = Distinct-less seen (x ∷ seen) xs (λ y e. ground arith) d

IsLinked-more :
    (r : LinkRow) (rows : List LinkRow) (xs : List ℕ)
    → All (IsLinked rows) xs
    → All (IsLinked (r ∷ rows)) xs
IsLinked-more r rows [] h = tt
IsLinked-more r rows (x ∷ xs) (h, hs) = (inr h, IsLinked-more r rows xs hs)

module _ (env : Serials) (input : InputEvent) (m : RouteMatch) where
  -- The event of a task that was woken.
  abbrev pub woken_event : ℕ × ℕ → Event
  woken_event p = external_event input m.org_id p.0 m.rule.wakeup

  -- The links one by one: a task that was met before is passed over; another gets one attach, whose
  -- transaction leaves the event and, for a rule that wakes, the task started, or fails and leaves
  -- nothing: then a call was refused, or the task to be started is not there.
  pub data Wakes : List ℕ → List LinkRow → World → List (ℕ × ℕ) → World → Type 0 where
    no_link : (seen : List ℕ) (w : World) → Wakes seen [] w [] w
    met :
        (seen : List ℕ) (r : LinkRow) (rows : List LinkRow) (w w' : World) (woken : List (ℕ × ℕ))
        → has_id seen r.link.task_id ≡ true
        → Wakes seen rows w woken w'
        → Wakes seen (r ∷ rows) w woken w'
    attached :
        (seen : List ℕ) (r : LinkRow) (rows : List LinkRow) (w w1 w' : World) (event : ℕ)
        (woken : List (ℕ × ℕ))
        → has_id seen r.link.task_id ≡ false
        → Told (Attached env input m.org_id r.link.task_id m.rule.wakeup w.tables) w (ok event, w1)
        → Wakes (r.link.task_id ∷ seen) rows w1 woken w'
        → Wakes seen (r ∷ rows) w ((r.link.task_id, event) ∷ woken) w'
    not_attached :
        (seen : List ℕ) (r : LinkRow) (rows : List LinkRow) (w w1 w' : World) (e : Failure)
        (woken : List (ℕ × ℕ))
        → has_id seen r.link.task_id ≡ false
        → attach env input m.org_id r.link.task_id m.rule.wakeup w ≡ (err e, w1)
        → (w.answers ≡ []
            → (m.rule.wakeup ≡ true) × (find_row r.link.task_id m.org_id w.tables.tasks ≡ none))
        → (w1.tables ≡ w.tables) × (w1.published ≡ w.published)
        → Wakes (r.link.task_id ∷ seen) rows w1 woken w'
        → Wakes seen (r ∷ rows) w woken w'

  one-Wakes :
      (seen : List ℕ) (r : LinkRow) (rows : List LinkRow) (w : World) (a : Result ℕ × World)
      (rest : List (ℕ × ℕ) × World)
      → attach env input m.org_id r.link.task_id m.rule.wakeup w ≡ a
      → has_id seen r.link.task_id ≡ false
      → Told (Attached env input m.org_id r.link.task_id m.rule.wakeup w.tables) w a
      → Wakes (r.link.task_id ∷ seen) rows a.1 rest.0 rest.1
      → Wakes seen (r ∷ rows) w (if_attached r.link.task_id a.0 rest.0) rest.1
  one-Wakes seen r rows w (ok event, w1) (rest, w2) is fresh t k =
      attached seen r rows w w1 w2 event rest fresh t k
  one-Wakes seen r rows w (err e, w1) (rest, w2) is fresh t k =
      not_attached seen r rows w w1 w2 e rest fresh is
        (attach-failed env input m.org_id r.link.task_id m.rule.wakeup w w1 e is) t k

  pub wake_each-Wakes :
      (seen : List ℕ) (rows : List LinkRow) (w : World)
      → Wakes seen rows w
          (wake_each env input m seen rows w).0
          (wake_each env input m seen rows w).1
  unfolding wake_each
  wake_each-Wakes seen [] w = no_link seen w
  wake_each-Wakes seen (r ∷ rows) w =
      let task = r.link.task_id in
      let a = attach env input m.org_id task m.rule.wakeup w in
      by_test (λ (x : List (ℕ × ℕ) × World). Wakes seen (r ∷ rows) w x.0 x.1) (has_id seen task) _ _
        (λ e. met seen r rows w _ _ e (wake_each-Wakes seen rows w))
        (λ e.
          one-Wakes seen r rows w a _ refl e (attach-Told env input m.org_id task m.rule.wakeup w)
            (wake_each-Wakes (task ∷ seen) rows a.1))

  -- Each of the tasks woken is linked, occurs once and got one event; without the wakeup of the rule
  -- no task is touched.
  pub record Woken (seen : List ℕ) (rows : List LinkRow) (w : World) (woken : List (ℕ × ℕ))
      (w' : World) : Type 0 where
    pub distinct : Distinct seen (ids_of woken)
    pub linked : All (IsLinked rows) (ids_of woken)
    pub events : w'.tables.events ≡ w.tables.events ++ map woken_event woken
    pub links : w'.tables.links ≡ w.tables.links
    pub schedules : w'.tables.schedules ≡ w.tables.schedules
    pub idle : m.rule.wakeup ≡ false → w'.tables.tasks ≡ w.tables.tasks
    pub told : length w'.published ≡ length w.published + length woken

  -- The same of one attach.
  Added : ℕ → World → Result ℕ × World → Type 0
  Added task w (err e, w') = (w'.tables ≡ w.tables) × (w'.published ≡ w.published)
  Added task w (ok event, w') =
      (w'.tables.events ≡ w.tables.events ++ woken_event (task, event) ∷ [])
      × (w'.tables.links ≡ w.tables.links)
      × (w'.tables.schedules ≡ w.tables.schedules)
      × (m.rule.wakeup ≡ false → w'.tables.tasks ≡ w.tables.tasks)
      × (length w'.published ≡ length w.published + 1)

  Attached-Added :
      (task : ℕ) (wake : Bool) (w : World) (r : Result ℕ × World)
      → wake ≡ m.rule.wakeup
      → Told (Attached env input m.org_id task wake w.tables) w r
      → Added task w r
  unfolding Added
  Attached-Added task wake w (err e, w') same t = t
  Attached-Added task false w (ok event, w') same (n, (id, v, note), p) = (
    ap (λ (x : Tables). x.events) v
        ∙ ap (λ b. w.tables.events ++ external_event input m.org_id task b ∷ []) same,
    ap (λ (x : Tables). x.links) v,
    ap (λ (x : Tables). x.schedules) v,
    λ e. ap (λ (x : Tables). x.tasks) v,
    ap length p ∙ length-append w.published (n ∷ []),
  )
  Attached-Added task true w (ok event, w') same (n, (id, (t, found, v, note)), p) = (
    ap (λ (x : Tables). x.events) v
        ∙ ap (λ b. w.tables.events ++ external_event input m.org_id task b ∷ []) same,
    ap (λ (x : Tables). x.links) v,
    ap (λ (x : Tables). x.schedules) v,
    λ e. cc,
    ap length p ∙ length-append w.published (n ∷ []),
  )

  one_more :
      (seen : List ℕ) (r : LinkRow) (rows : List LinkRow) (w : World) (a : Result ℕ × World)
      (rest : List (ℕ × ℕ) × World)
      → has_id seen r.link.task_id ≡ false
      → Added r.link.task_id w a
      → Woken (r.link.task_id ∷ seen) rows a.1 rest.0 rest.1
      → Woken seen (r ∷ rows) w (if_attached r.link.task_id a.0 rest.0) rest.1
  unfolding Added
  one_more seen r rows w (err e, w') (rest, w2) fresh (v, p) k = record {
    distinct = Distinct-seen seen (ids_of rest) r.link.task_id k.distinct;
    linked = IsLinked-more r rows (ids_of rest) k.linked;
    events = k.events ∙ ap (λ (x : Tables). x.events ++ map woken_event rest) v;
    links = k.links ∙ ap (λ (x : Tables). x.links) v;
    schedules = k.schedules ∙ ap (λ (x : Tables). x.schedules) v;
    idle = λ e. k.idle e ∙ ap (λ (x : Tables). x.tasks) v;
    told = k.told ∙ ap (λ (l : List Notification). length l + length rest) p;
  }
  one_more seen r rows w (ok event, w') (rest, w2) fresh (e, l, s, i, p) k = record {
    distinct = (fresh, k.distinct);
    linked = (inl refl, IsLinked-more r rows (ids_of rest) k.linked);
    events =
        k.events
        ∙ ap (λ x. x ++ map woken_event rest) e
        ∙ append_assoc w.tables.events (woken_event (r.link.task_id, event) ∷ [])
            (map woken_event rest);
    links = k.links ∙ l;
    schedules = k.schedules ∙ s;
    idle = λ e. k.idle e ∙ i e;
    told = omega (arith, k.told);
  }

  skipped_one :
      (seen : List ℕ) (r : LinkRow) (rows : List LinkRow) (w : World) (x : List (ℕ × ℕ) × World)
      → Woken seen rows w x.0 x.1
      → Woken seen (r ∷ rows) w x.0 x.1
  skipped_one seen r rows w x k = record {
    distinct = k.distinct;
    linked = IsLinked-more r rows (ids_of x.0) k.linked;
    events = k.events;
    links = k.links;
    schedules = k.schedules;
    idle = k.idle;
    told = k.told;
  }

  -- The tasks woken are linked ones, each once however many links it has and whichever attach fails;
  -- each has got exactly one event, in the order of the links, and one notification.
  pub wake_each-Woken :
      (seen : List ℕ) (rows : List LinkRow) (w : World)
      → Woken seen rows w
          (wake_each env input m seen rows w).0
          (wake_each env input m seen rows w).1
  unfolding wake_each
  wake_each-Woken seen [] w = record {
    distinct = tt;
    linked = tt;
    events = sym (append-nil w.tables.events);
    links = refl;
    schedules = refl;
    idle = λ e. refl;
    told = omega arith;
  }
  wake_each-Woken seen (r ∷ rows) w =
      let task = r.link.task_id in
      let a = attach env input m.org_id task m.rule.wakeup w in
      by_test (λ (x : List (ℕ × ℕ) × World). Woken seen (r ∷ rows) w x.0 x.1) (has_id seen task) _ _
        (λ e. skipped_one seen r rows w _ (wake_each-Woken seen rows w))
        (λ e.
          one_more seen r rows w a _ e
            (Attached-Added task m.rule.wakeup w a refl
              (attach-Told env input m.org_id task m.rule.wakeup w))
            (wake_each-Woken (task ∷ seen) rows a.1))
