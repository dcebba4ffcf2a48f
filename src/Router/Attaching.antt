-- ===== src/Router/Attaching.antt =====
-- What `attach` does, without transactions.
use gritz.Prelude.{
  ℕ, ◌≡◌, refl, ap, sym, subst, arith, Bool, true, false, some, List, [], ◌∷◌, ◌++◌,
}
use gritz.Task.{Task, start_task}
use gritz.Event.{Event}
use gritz.Store.{
  Conn, Tx, next, Tables, Result, ok, err, World, Notification, find_row, update_rows, publish,
  with_tx,
}
use gritz.Store.Triples.{
  open_at, Ends, bind-Ends, Settled, Saves, with_tx-Settled, get-Ends, update-Ends, event-Ends,
  commit-Ends,
}
use gritz.Router.{InputEvent}
use gritz.Router.Writing.{Serials, external_event, attached_note, woken_note}
use gritz.Router.Applying.{announced, attach_tx, attach, insert_event}

publish-heard :
    (n : Notification) (w : World)
    → n.ignore ≡ false
    → publish n w ≡ record w { published = w.published ++ n ∷ [] }
unfolding publish
publish-heard n w heard = ground arith

-- How a transaction and the announcement after it leave the world: a result is announced by one
-- notification, and an error leaves the tables and the publications as they were.
abbrev pub Told {ℓ} :
    {A : Type ℓ} → (A → Notification → Tables → Type 0) → World → Result A × World → Type 0
Told P w (ok x, w') = (n : Notification) × P x n w'.tables × (w'.published ≡ w.published ++ n ∷ [])
Told P w (err e, w') = (w'.tables ≡ w.tables) × (w'.published ≡ w.published)

module _ {ℓ} {A : Type ℓ} (P : A → Notification → Tables → Type 0) (w : World) where
  abbrev pub Untold : A × Notification → World → Type 0
  Untold (x, n) w' = P x n w'.tables × (n.ignore ≡ false) × (w'.published ≡ w.published)

  pub announced-Told :
      (r : Result (A × Notification) × World) → Settled Untold w r → Told P w (announced r)
  announced-Told (err e, w') s = s
  announced-Told (ok (x, n), w') (p, heard, quiet) =
      subst
        (λ (u : World). (m : Notification) × P x m u.tables × (u.published ≡ w.published ++ m ∷ []))
        (sym (publish-heard n w' heard)) (n, p, ap (λ l. l ++ n ∷ []) quiet)

module _ {ℓ} {B : Type ℓ} (Q : B → Conn → Type 0) (env : Serials) where
  pub insert_event-Ends :
      (e : Event) (f : ℕ → Tx B) (v : Tables) (a : List Bool)
      → ((b : List Bool)
          → Ends Q
              (f (env.event_id v.events) (open_at (record v { events = v.events ++ e ∷ [] }) b)))
      → Ends Q (next (insert_event env e (open_at v a)) f)
  insert_event-Ends e f v a k =
      bind-Ends Q f (insert_event env e (open_at v a))
        (event-Ends (λ x c. Ends Q (f x c)) e _ v a k)

module _ (env : Serials) (input : InputEvent) (org task : ℕ) where
  -- The tables after the event is stored, and after the task is started.
  abbrev pub with_event : Bool → Tables → Tables
  with_event wake v = record v { events = v.events ++ external_event input org task wake ∷ [] }

  abbrev pub Attached : Bool → Tables → ℕ → Notification → Tables → Type 0
  Attached false v event n v' =
      (event ≡ env.event_id v.events)
      × (v' ≡ with_event false v)
      × (n ≡ attached_note input org task event)
  Attached true v event n v' =
      (event ≡ env.event_id v.events)
      × ((t : Task) × (find_row task org v.tasks ≡ some t)
          × (v' ≡ record (with_event true v) { tasks = update_rows (start_task t).0 v.tasks })
          × (n ≡ woken_note input org t event))

  attach_tx-Settled :
      (wake : Bool) (w : World)
      → Settled
          (Untold (Attached wake w.tables) w)
          w
          (with_tx (attach_tx env input org task wake) w)
  unfolding attach_tx
  attach_tx-Settled false w =
      let P = Untold (Attached false w.tables) w in
      let Q = Saves P w in
      let event = env.event_id w.tables.events in
      with_tx-Settled P w (attach_tx env input org task false) λ a.
        insert_event-Ends Q env (external_event input org task false) _ w.tables a λ b.
          commit-Ends Q (event, attached_note input org task event) _ b
            λ c. ((refl, refl, refl), refl, refl)
  attach_tx-Settled true w =
      let P = Untold (Attached true w.tables) w in
      let Q = Saves P w in
      let event = env.event_id w.tables.events in
      with_tx-Settled P w (attach_tx env input org task true) λ a.
        insert_event-Ends Q env (external_event input org task true) _ w.tables a λ b.
          get-Ends Q task org _ _ b λ t c found. update-Ends Q (start_task t).0 _ _ c λ d.
            commit-Ends Q (event, woken_note input org t event) _ d
              λ e. ((refl, (t, found, refl, refl)), refl, refl)

  -- The event of an attach is stored with nothing else if the rule does not wake, and else together
  -- with the start of the task, which then has to be there; one notification names both. An attach
  -- that fails, at whatever call, leaves the tables and the publications as they were.
  pub attach-Told :
      (wake : Bool) (w : World) → Told (Attached wake w.tables) w (attach env input org task wake w)
  unfolding attach
  attach-Told wake w =
      announced-Told (Attached wake w.tables) w (with_tx (attach_tx env input org task wake) w)
        (attach_tx-Settled wake w)
