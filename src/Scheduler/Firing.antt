-- ===== src/Scheduler/Firing.antt =====
-- What a tick stores, and that no occurrence fires twice.
use gritz.Prelude.{
  ℕ, ◌≡◌, refl, ap, ◌∙◌, Bool, true, false, Option, none, some, List, [], ◌∷◌, ◌++◌, take, ◌⊎◌, inl,
  inr,
}
use gritz.Task.{Task}
use gritz.Schedule.{Schedule, schedule_task, schedule_events}
use gritz.Store.{
  Failure, Result, Tx, Conn, World, Tables, Notification, ok, err, call, next, pure, with_tx,
}
use gritz.Store.Triples.{
  open_at, bind-Ends, Ends, Settled, Saves, with_tx-Settled, events-Ends, commit-Ends,
}
use gritz.Server.Creation.{inserted}
use gritz.Server.Births.{insert-Ends}
use gritz.Scheduler.{
  due_rows, claim_due_schedules, set_schedule, set_advance, change_schedules, store_schedules,
  fire_notification, disabled, moved_on, fire_as, fire, fire_each, tick_tx, published_all, tick,
}

module _ {ℓ} {B : Type ℓ} (Q : B → Conn → Type 0) where
  pub store-Ends :
      (id org : ℕ) (g : Schedule → Schedule) (f : Unit {0} → Tx B) (v : Tables) (a : List Bool)
      → ((b : List Bool)
          → Ends Q
              (f _ (open_at (record v { schedules = change_schedules id org g v.schedules }) b)))
      → Ends Q (next (store_schedules id org g (open_at v a)) f)
  unfolding store_schedules call
  store-Ends id org g f v [] k = k []
  store-Ends id org g f v (true ∷ a) k = k a
  store-Ends id org g f v (false ∷ a) k = refl

  claim-Ends :
      (now : ℕ) (locked : Schedule → Bool) (limit : ℕ) (f : List Schedule → Tx B) (v : Tables)
      (a : List Bool)
      → ((b : List Bool) → Ends Q (f (take limit (due_rows now locked v.schedules)) (open_at v b)))
      → Ends Q (next (claim_due_schedules now locked limit (open_at v a)) f)
  unfolding claim_due_schedules call
  claim-Ends now locked limit f v [] k = k []
  claim-Ends now locked limit f v (true ∷ a) k = k a
  claim-Ends now locked limit f v (false ∷ a) k = refl

-- The rows after a schedule was fired.
abbrev pub advanced : Schedule → ℕ → ℕ → Option ℕ → List Schedule → List Schedule
advanced s now task none rows =
    change_schedules s.id s.org_id (set_schedule (disabled s now task)) rows
advanced s now task (some next) rows =
    change_schedules s.id s.org_id (set_advance next now task) rows

module _ (clock : Schedule → ℕ) (next_run : Schedule → ℕ → Option ℕ) (new_id : List Task → ℕ) where
  -- The task of an occurrence, and the tables after it.
  abbrev pub task_of : Schedule → Tables → Task
  task_of s v = record (schedule_task s) { id = new_id v.tasks }

  abbrev pub fired : Schedule → Tables → Tables
  fired s v = record v {
    tasks = v.tasks ++ inserted (new_id v.tasks) (schedule_task s) ∷ [];
    events = v.events ++ schedule_events s (task_of s v);
    schedules = advanced s (clock s) (new_id v.tasks) (next_run s (clock s)) v.schedules;
  }

  abbrev pub fired_all : List Schedule → Tables → Tables
  fired_all [] v = v
  fired_all (s ∷ due) v = fired_all due (fired s v)

  abbrev pub notes_of : List Schedule → Tables → List Notification
  notes_of [] v = []
  notes_of (s ∷ due) v = fire_notification (task_of s v) ∷ notes_of due (fired s v)

  module _ {ℓ} {B : Type ℓ} (Q : B → Conn → Type 0) where
    moved-Ends :
        (s : Schedule) (now task : ℕ) (o : Option ℕ) (f : Unit {0} → Tx B) (v : Tables)
        (a : List Bool)
        → ((b : List Bool)
            → Ends Q (f _ (open_at (record v { schedules = advanced s now task o v.schedules }) b)))
        → Ends Q (next (moved_on s now task o (open_at v a)) f)
    moved-Ends s now task none f v a k =
        store-Ends Q s.id s.org_id (set_schedule (disabled s now task)) f v a k
    moved-Ends s now task (some n) f v a k =
        store-Ends Q s.id s.org_id (set_advance n now task) f v a k

  module _ {ℓ} {B : Type ℓ} (Q : B → Conn → Type 0) where
    fire-Ends :
        (s : Schedule) (f : Notification → Tx B) (v : Tables) (a : List Bool)
        → ((b : List Bool) → Ends Q (f (fire_notification (task_of s v)) (open_at (fired s v) b)))
        → Ends Q (next (fire clock next_run new_id s (open_at v a)) f)
    unfolding fire
    fire-Ends s f v a k =
        let R : Notification → Conn → Type 0 = λ n c. Ends Q (f n c) in
        bind-Ends Q f (fire clock next_run new_id s (open_at v a)) (
          insert-Ends R (new_id v.tasks) (schedule_task s) (fire_as clock next_run new_id s) v a
            λ b.
              events-Ends R (schedule_events s (task_of s v)) _ _ b
                λ b'. moved-Ends R s (clock s) (new_id v.tasks) (next_run s (clock s)) _ _ b' k)

  each-Ends :
      (R : List Notification → Conn → Type 0) (due : List Schedule) (v : Tables) (a : List Bool)
      → ((b : List Bool) → R (notes_of due v) (open_at (fired_all due v) b))
      → Ends R (fire_each clock next_run new_id due (open_at v a))
  unfolding fire_each
  each-Ends R [] v a k = k a
  each-Ends R (s ∷ due) v a k =
      let n = fire_notification (task_of s v) in
      fire-Ends R s (λ n c. next (fire_each clock next_run new_id due c) (λ rest. pure (n ∷ rest)))
        v a
        λ b.
          bind-Ends R (λ rest. pure (n ∷ rest))
            (fire_each clock next_run new_id due (open_at (fired s v) b))
            (each-Ends (λ rest c. R (n ∷ rest) c) due (fired s v) b k)

  -- What a tick that ends well has stored.
  Stored : List Schedule → World → List Notification → World → Type 0
  Stored due w notes w' =
      (w'.tables ≡ fired_all due w.tables)
      × (notes ≡ notes_of due w.tables)
      × (w'.published ≡ w.published)

  abbrev pub claimed : ℕ → (Schedule → Bool) → ℕ → World → List Schedule
  claimed now locked limit w = take limit (due_rows now locked w.tables.schedules)

  tick_tx-Settled :
      (now : ℕ) (locked : Schedule → Bool) (limit : ℕ) (w : World)
      → Settled
          (Stored (claimed now locked limit w) w)
          w
          (with_tx (tick_tx clock next_run new_id now locked limit) w)
  unfolding tick_tx Stored
  tick_tx-Settled now locked limit w =
      let due = claimed now locked limit w in
      let P = Stored due w in
      let Q = Saves P w in
      with_tx-Settled P w (tick_tx clock next_run new_id now locked limit) λ a.
        claim-Ends Q now locked limit _ w.tables a λ b.
          bind-Ends Q _ (fire_each clock next_run new_id due (open_at w.tables b)) (
            each-Ends _ due w.tables b λ b'.
              commit-Ends Q (notes_of due w.tables) (fired_all due w.tables) b'
                λ c. (refl, refl, refl))

  abbrev pub Ticked : List Schedule → World → (Failure ⊎ Unit {0}) × World → Type 0
  Ticked due w (inr _, w') =
      (w'.tables ≡ fired_all due w.tables) × (w'.published ≡ w.published ++ notes_of due w.tables)
  Ticked due w (inl e, w') = (w'.tables ≡ w.tables) × (w'.published ≡ w.published)

  published-Ticked :
      (due : List Schedule) (w : World) (r : Result (List Notification) × World)
      → Settled (Stored due w) w r
      → Ticked due w (published_all clock next_run new_id r)
  unfolding Stored
  published-Ticked due w (ok notes, w') (t, n, p) =
      (t, ap (λ l. l ++ notes) p ∙ ap (λ l. w.published ++ l) n)
  published-Ticked due w (err e, w') s = s

  -- A tick either fires all the schedules it has claimed, each once and in the order of the claim,
  -- or, whatever call the database refuses, leaves the tables and the publications as they were. A
  -- fire stores the task of the template under the next id with its events, and moves the schedule
  -- to the next occurrence that the cron library answers or, where it refuses, disables it; the notifications are published after the commit.
  pub tick-Ticked :
      (now : ℕ) (locked : Schedule → Bool) (limit : ℕ) (w : World)
      → Ticked (claimed now locked limit w) w (tick clock next_run new_id now locked limit w)
  unfolding tick
  tick-Ticked now locked limit w =
      published-Ticked (claimed now locked limit w) w
        (with_tx (tick_tx clock next_run new_id now locked limit) w)
        (tick_tx-Settled now locked limit w)
