-- ===== src/Store/Triples.antt =====
-- What a transaction's body leads to, call by call: each rule reduces a sequence that begins with a
-- call to what follows it, and a sequence that stops early has stored nothing.
use gritz.Prelude.{
  ℕ, ◌≡◌, refl, sym, ap, subst, Option, none, some, List, [], ◌∷◌, ◌++◌, Bool, true, false,
}
use mathlib.Core.List.{append-nil, append_assoc}
use gritz.Task.{Task}
use gritz.Event.{Event}
use gritz.Link.{Link}
use gritz.Store.{
  Conn, Tables, Tx, Result, ok, err, Failure, World, next, one, pure, call, check, find_row,
  update_rows, get_task_for_update, update_task, create_event, create_events, create_link, commit,
  with_tx, or_old, rolled_back, begun,
}

-- A transaction that has stored nothing yet.
abbrev pub open_at : Tables → List Bool → Conn
open_at v a = record { view = v; stored = none; answers = a }

-- An end with a result satisfies the predicate, and an end with an error has stored nothing.
abbrev pub Ends {ℓ} : {A : Type ℓ} → (A → Conn → Type 0) → Result A × Conn → Type 0
Ends Q (ok a, c) = Q a c
Ends Q (err e, c) = c.stored ≡ none

module _ {ℓ κ} {A : Type ℓ} {B : Type κ} (Q : B → Conn → Type 0) where
  pub bind-Ends :
      (f : A → Tx B) (p : Result A × Conn) → Ends (λ a c. Ends Q (f a c)) p → Ends Q (next p f)
  bind-Ends f (ok a, c) h = h
  bind-Ends f (err e, c) h = h

module _ {ℓ} {B : Type ℓ} (Q : B → Conn → Type 0) where
  pub call-Ends :
      (f : Unit {0} → Tx B) (v : Tables) (a : List Bool)
      → ((b : List Bool) → Ends Q (f _ (open_at v b)))
      → Ends Q (next (call (open_at v a)) f)
  unfolding call
  call-Ends f v [] k = k []
  call-Ends f v (true ∷ a) k = k a
  call-Ends f v (false ∷ a) k = refl

  pub check-Ends :
      (test : Bool) (e : Failure) (f : Unit {0} → Tx B) (v : Tables) (a : List Bool)
      → (test ≡ true → Ends Q (f _ (open_at v a)))
      → Ends Q (next (check test e (open_at v a)) f)
  check-Ends true e f v a k = k refl
  check-Ends false e f v a k = refl

  one-Ends :
      (found : Option Task) (f : Task → Tx B) (v : Tables) (a : List Bool)
      → ((t : Task) (b : List Bool) → found ≡ some t → Ends Q (f t (open_at v b)))
      → Ends Q (next (one found (open_at v a)) f)
  one-Ends none f v a k = refl
  one-Ends (some t) f v a k = k t a refl

  pub get-Ends :
      (id org : ℕ) (f : Task → Tx B) (v : Tables) (a : List Bool)
      → ((t : Task) (b : List Bool) → find_row id org v.tasks ≡ some t → Ends Q (f t (open_at v b)))
      → Ends Q (next (get_task_for_update id org (open_at v a)) f)
  unfolding get_task_for_update call
  get-Ends id org f v [] k = one-Ends (find_row id org v.tasks) f v [] k
  get-Ends id org f v (true ∷ a) k = one-Ends (find_row id org v.tasks) f v a k
  get-Ends id org f v (false ∷ a) k = refl

  pub update-Ends :
      (t : Task) (f : Unit {0} → Tx B) (v : Tables) (a : List Bool)
      → ((b : List Bool) → Ends Q (f _ (open_at (record v { tasks = update_rows t v.tasks }) b)))
      → Ends Q (next (update_task t (open_at v a)) f)
  unfolding update_task call
  update-Ends t f v [] k = k []
  update-Ends t f v (true ∷ a) k = k a
  update-Ends t f v (false ∷ a) k = refl

  pub event-Ends :
      (e : Event) (f : Unit {0} → Tx B) (v : Tables) (a : List Bool)
      → ((b : List Bool) → Ends Q (f _ (open_at (record v { events = v.events ++ e ∷ [] }) b)))
      → Ends Q (next (create_event e (open_at v a)) f)
  unfolding create_event call
  event-Ends e f v [] k = k []
  event-Ends e f v (true ∷ a) k = k a
  event-Ends e f v (false ∷ a) k = refl

  pub link-Ends :
      (new_id : List Link → ℕ) (l : Link) (f : Link → Tx B) (v : Tables) (a : List Bool)
      → ((b : List Bool)
          → Ends Q (
              f
                (record l { id = new_id v.links })
                (open_at
                  (record v { links = v.links ++ record l { id = new_id v.links } ∷ [] })
                  b)))
      → Ends Q (next (create_link new_id l (open_at v a)) f)
  unfolding create_link call
  link-Ends new_id l f v [] k = k []
  link-Ends new_id l f v (true ∷ a) k = k a
  link-Ends new_id l f v (false ∷ a) k = refl

  pub commit-Ends :
      (x : B) (v : Tables) (a : List Bool)
      → ((b : List Bool) → Q x (record { view = v; stored = some v; answers = b }))
      → Ends Q (next (commit (open_at v a)) (λ _. pure x))
  unfolding commit call
  commit-Ends x v [] k = k []
  commit-Ends x v (true ∷ a) k = k a
  commit-Ends x v (false ∷ a) k = refl

  stored_events :
      (f : Unit {0} → Tx B) (v : Tables) (b : List Bool) {l l' : List Event}
      → l ≡ l'
      → Ends Q (f _ (open_at (record v { events = l }) b))
      → Ends Q (f _ (open_at (record v { events = l' }) b))
  stored_events f v b p = subst (λ l. Ends Q (f _ (open_at (record v { events = l }) b))) p

  pub events-Ends :
      (es : List Event) (f : Unit {0} → Tx B) (v : Tables) (a : List Bool)
      → ((b : List Bool) → Ends Q (f _ (open_at (record v { events = v.events ++ es }) b)))
      → Ends Q (next (create_events es (open_at v a)) f)
  unfolding create_events create_event call
  events-Ends [] f v a k = stored_events f v a (append-nil v.events) (k a)
  events-Ends (e ∷ es) f v [] k =
      events-Ends es f (record v { events = v.events ++ e ∷ [] }) []
        (λ b. stored_events f v b (sym (append_assoc v.events (e ∷ []) es)) (k b))
  events-Ends (e ∷ es) f v (true ∷ a) k =
      events-Ends es f (record v { events = v.events ++ e ∷ [] }) a
        (λ b. stored_events f v b (sym (append_assoc v.events (e ∷ []) es)) (k b))
  events-Ends (e ∷ es) f v (false ∷ a) k = refl

-- How a transaction leaves the world: an error leaves the tables and the publications as they were.
abbrev pub Settled {ℓ} : {A : Type ℓ} → (A → World → Type 0) → World → Result A × World → Type 0
Settled P w (ok x, w') = P x w'
Settled P w (err e, w') = (w'.tables ≡ w.tables) × (w'.published ≡ w.published)

module _ {ℓ} {A : Type ℓ} (P : A → World → Type 0) (w : World) where
  abbrev pub Saves : A → Conn → Type 0
  Saves x c = P x (record w { tables = or_old c.stored w.tables; answers = c.answers })

  rolled_back-Settled : (r : Result A × Conn) → Ends Saves r → Settled P w (rolled_back w r)
  rolled_back-Settled (ok x, c) h = h
  rolled_back-Settled (err e, c) h = (ap (λ s. or_old s w.tables) h, refl)

  begun-Settled :
      (body : Tx A) (a : List Bool)
      → ((b : List Bool) → Ends Saves (body (open_at w.tables b)))
      → Settled P w (begun body w (call (open_at w.tables a)))
  unfolding call
  begun-Settled body [] h = rolled_back-Settled (body (open_at w.tables [])) (h [])
  begun-Settled body (true ∷ a) h = rolled_back-Settled (body (open_at w.tables a)) (h a)
  begun-Settled body (false ∷ a) h = (refl, refl)

  pub with_tx-Settled :
      (body : Tx A)
      → ((a : List Bool) → Ends Saves (body (open_at w.tables a)))
      → Settled P w (with_tx body w)
  unfolding with_tx
  with_tx-Settled body h = begun-Settled body w.answers h
