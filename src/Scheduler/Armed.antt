-- ===== src/Scheduler/Armed.antt =====
-- What the handlers of schedules keep: a schedule is enabled exactly when it has a next run.
use gritz.Prelude.{
  ℕ, ◌≡◌, ◌∙◌, refl, sym, subst, Bool, true, false, Option, none, some, List, [], ◌∷◌, ◌++◌, arith,
  All, by_test,
}
use gritz.Schedule.{Schedule}
use gritz.Store.{
  Result, Tx, World, Conn, Tables, Notification, ok, err, next, call, with_tx, publish, coded,
  invalid_argument,
}
use gritz.Store.Triples.{open_at, Ends, Settled, Saves, with_tx-Settled, check-Ends, commit-Ends}
use gritz.Server.{UserInfo}
use gritz.Scheduler.{has_schedule_key, set_schedule, change_schedules}
use gritz.Scheduler.Firing.{store-Ends}
use gritz.Scheduler.Handlers.{
  find_schedule, one_schedule, get_schedule, delete_rows, announce, ScheduleRequest,
  edited_schedule, aligned_at, aligned, update_tx, toggled, enable_tx,
}

abbrev pub has_next : Option ℕ → Bool
has_next none = false
has_next (some n) = true

abbrev pub IsArmed : Schedule → Type 0
IsArmed s = s.enabled ≡ has_next s.next_run_at

abbrev pub AllArmed : Tables → Type 0
AllArmed v = All IsArmed v.schedules

find_schedule-IsArmed :
    (id org : ℕ) (rows : List Schedule) (s : Schedule)
    → find_schedule id org rows ≡ some s
    → All IsArmed rows
    → IsArmed s
unfolding find_schedule
find_schedule-IsArmed id org [] s e h = cc
find_schedule-IsArmed id org (r ∷ rows) s e h = ground (arith, find_schedule-IsArmed id org rows s)

change_schedules-AllArmed :
    (id org : ℕ) (s : Schedule) (rows : List Schedule)
    → IsArmed s
    → All IsArmed rows
    → All IsArmed (change_schedules id org (set_schedule s) rows)
unfolding change_schedules
change_schedules-AllArmed id org s [] a h = tt
change_schedules-AllArmed id org s (r ∷ rows) a (h, hs) = (
  by_test IsArmed (has_schedule_key id org r) _ _ (λ e. a) (λ e. h),
  change_schedules-AllArmed id org s rows a hs,
)

pub delete_rows-AllArmed :
    (id org : ℕ) (rows : List Schedule) → All IsArmed rows → All IsArmed (delete_rows id org rows)
unfolding delete_rows
delete_rows-AllArmed id org [] h = tt
delete_rows-AllArmed id org (r ∷ rows) (h, hs) =
    by_test (All IsArmed) (has_schedule_key id org r) _ _ (λ e. delete_rows-AllArmed id org rows hs)
      (λ e. (h, delete_rows-AllArmed id org rows hs))

pub append-AllArmed :
    (rows : List Schedule) (s : Schedule)
    → All IsArmed rows
    → IsArmed s
    → All IsArmed (rows ++ s ∷ [])
append-AllArmed [] s h a = (a, tt)
append-AllArmed (r ∷ rows) s (h, hs) a = (h, append-AllArmed rows s hs a)

module _ {ℓ} {B : Type ℓ} (Q : B → Conn → Type 0) where
  one_schedule-Ends :
      (found : Option Schedule) (f : Schedule → Tx B) (v : Tables) (a : List Bool)
      → ((s : Schedule) (b : List Bool) → found ≡ some s → Ends Q (f s (open_at v b)))
      → Ends Q (next (one_schedule found (open_at v a)) f)
  one_schedule-Ends none f v a k = refl
  one_schedule-Ends (some s) f v a k = k s a refl

  pub schedule-Ends :
      (id org : ℕ) (f : Schedule → Tx B) (v : Tables) (a : List Bool)
      → ((s : Schedule) (b : List Bool)
          → find_schedule id org v.schedules ≡ some s
          → Ends Q (f s (open_at v b)))
      → Ends Q (next (get_schedule id org (open_at v a)) f)
  unfolding get_schedule call
  schedule-Ends id org f v [] k = one_schedule-Ends (find_schedule id org v.schedules) f v [] k
  schedule-Ends id org f v (true ∷ a) k =
      one_schedule-Ends (find_schedule id org v.schedules) f v a k
  schedule-Ends id org f v (false ∷ a) k = refl

  module _ (is_valid : Schedule → Bool) (next_run : Schedule → ℕ → Option ℕ) (now : ℕ) where
    aligned_at-Ends :
        (s : Schedule) (o : Option ℕ) (f : Schedule → Tx B) (v : Tables) (a : List Bool)
        → ((n : ℕ) → Ends Q (f (record s { next_run_at = some n }) (open_at v a)))
        → Ends Q (next (aligned_at is_valid next_run now s o (open_at v a)) f)
    aligned_at-Ends s none f v a k = refl
    aligned_at-Ends s (some n) f v a k = k n

    aligned-Ends :
        (b : Bool) (s : Schedule) (f : Schedule → Tx B) (v : Tables) (a : List Bool)
        → s.enabled ≡ b
        → (b ≡ false → s.next_run_at ≡ none)
        → ((s' : Schedule) → IsArmed s' → Ends Q (f s' (open_at v a)))
        → Ends Q (next (aligned is_valid next_run now b s (open_at v a)) f)
    aligned-Ends true s f v a e h k =
        aligned_at-Ends s (next_run s now) f v a (λ n. k (record s { next_run_at = some n }) e)
    aligned-Ends false s f v a e h k = k s (rw (h refl) e)

-- The schedules of a world stay armed, whatever is answered.
abbrev pub StaysArmed {ℓ} : {A : Type ℓ} → World → A × World → Type 0
StaysArmed w r = AllArmed w.tables → AllArmed r.1.tables

publish-tables : (n : Notification) (w : World) → (publish n w).tables ≡ w.tables
unfolding publish
publish-tables n w = ground arith

module _ {ℓ} {A : Type ℓ} (w : World) where
  pub announce-StaysArmed :
      (note : A → Notification) (r : Result A × World)
      → StaysArmed w r
      → StaysArmed w (announce note r)
  announce-StaysArmed note (ok a, w') h k = subst AllArmed (sym (publish-tables (note a) w')) (h k)
  announce-StaysArmed note (err e, w') h k = h k

  pub Settled-StaysArmed :
      (armed : AllArmed w.tables) (r : Result A × World)
      → Settled (λ x w'. AllArmed w'.tables) w r
      → AllArmed r.1.tables
  Settled-StaysArmed armed (ok a, w') s = s
  Settled-StaysArmed armed (err e, w') s = subst AllArmed (sym s.0) armed

module _ (is_valid : Schedule → Bool) (next_run : Schedule → ℕ → Option ℕ) (now : ℕ)
    (caller : UserInfo) where
  -- An update leaves a disabled schedule as it is, without a next run.
  still_disabled :
      (req : ScheduleRequest) (s : Schedule)
      → IsArmed s
      → s.enabled ≡ false
      → (edited_schedule req s).next_run_at ≡ none
  still_disabled req s a e = no_next s.next_run_at (sym a ∙ e)
    where
      no_next : (o : Option ℕ) → has_next o ≡ false → o ≡ none
      no_next none h = refl
      no_next (some n) h = cc

  pub update_tx-StaysArmed :
      (req : ScheduleRequest) (w : World)
      → StaysArmed w (with_tx (update_tx is_valid next_run now caller req) w)
  unfolding update_tx
  update_tx-StaysArmed req w armed =
      let P : Schedule → World → Type 0 = λ x w'. AllArmed w'.tables in
      let Q = Saves P w in
      Settled-StaysArmed w armed _ (
        with_tx-Settled P w (update_tx is_valid next_run now caller req) λ a.
          schedule-Ends Q req.id caller.org_id _ w.tables a λ s b found.
            check-Ends Q (is_valid (edited_schedule req s)) (coded invalid_argument) _ w.tables b
              λ valid.
                aligned-Ends Q is_valid next_run now s.enabled (edited_schedule req s) _ w.tables b
                  refl
                  (still_disabled req s
                    (find_schedule-IsArmed req.id caller.org_id w.tables.schedules s found armed))
                  λ s' a'. store-Ends Q s'.id s'.org_id (set_schedule s') _ w.tables b λ c.
                    commit-Ends Q s' _ c
                      λ d. change_schedules-AllArmed s'.id s'.org_id s' w.tables.schedules a' armed)

  pub enable_tx-StaysArmed :
      (id : ℕ) (enabled : Bool) (w : World)
      → StaysArmed w (with_tx (enable_tx is_valid next_run now caller id enabled) w)
  unfolding enable_tx
  enable_tx-StaysArmed id enabled w armed =
      let P : Schedule → World → Type 0 = λ x w'. AllArmed w'.tables in
      let Q = Saves P w in
      Settled-StaysArmed w armed _ (
        with_tx-Settled P w (enable_tx is_valid next_run now caller id enabled) λ a.
          schedule-Ends Q id caller.org_id _ w.tables a λ s b found.
            aligned-Ends Q is_valid next_run now enabled (toggled is_valid next_run now enabled s) _
              w.tables b (toggled_enabled enabled s) (toggled_disabled enabled s)
              λ s' a'. store-Ends Q s'.id s'.org_id (set_schedule s') _ w.tables b λ c.
                commit-Ends Q s' _ c
                  λ d. change_schedules-AllArmed s'.id s'.org_id s' w.tables.schedules a' armed)
    where
      toggled_enabled : (b : Bool) (s : Schedule) → (toggled is_valid next_run now b s).enabled ≡ b
      toggled_enabled true s = refl
      toggled_enabled false s = refl

      toggled_disabled :
          (b : Bool) (s : Schedule)
          → b ≡ false
          → (toggled is_valid next_run now b s).next_run_at ≡ none
      toggled_disabled true s e = cc
      toggled_disabled false s e = refl
