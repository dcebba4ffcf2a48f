-- ===== src/Scheduler/Kept.antt =====
-- Each handler of schedules keeps them armed.
use gritz.Prelude.{
  codes, ℕ, ◌≡◌, refl, sym, subst, Bool, true, false, not, Option, none, some, List, [], ◌∷◌, ◌⊎◌,
  by_test,
}
use gritz.Schedule.{Schedule}
use gritz.Store.{
  check, Code, Result, World, Conn, Tables, ok, err, next, call, read_only, coded, invalid_argument,
}
use gritz.Store.Triples.{open_at}
use gritz.Scope.{allow, op_task_create, op_task_write}
use gritz.Server.{UserInfo}
use gritz.Server.Creation.{Workspace, has_workspace}
use gritz.Scheduler.Handlers.{
  schedule_note, delete_schedule, insert_schedule, kept, execute, ScheduleRequest, new_schedule,
  aligned_at, aligned, if_workspace, on_target, update_schedule_by, set_schedule_enabled,
  create_valid, create_schedule_by, delete_schedule_by, target_attrs,
}
use gritz.Scheduler.Armed.{
  IsArmed, AllArmed, StaysArmed, announce-StaysArmed, update_tx-StaysArmed, enable_tx-StaysArmed,
  append-AllArmed, delete_rows-AllArmed,
}

-- A statement that succeeds leaves the schedules armed.
abbrev Views {ℓ} : {A : Type ℓ} → Result A × Conn → Type 0
Views (ok a, c) = AllArmed c.view
Views (err e, c) = Unit {0}

kept-StaysArmed {ℓ} :
    {A : Type ℓ} (w : World) (r : Result A × Conn)
    → (AllArmed w.tables → Views r)
    → StaysArmed w (kept w r)
kept-StaysArmed w (ok a, c) h k = h k
kept-StaysArmed w (err e, c) h k = k

insert_schedule-Views :
    (new_id : List Schedule → ℕ) (s : Schedule) (v : Tables) (a : List Bool)
    → IsArmed s
    → AllArmed v
    → Views (insert_schedule new_id s (open_at v a))
unfolding insert_schedule call
insert_schedule-Views new_id s v [] arm h = append-AllArmed v.schedules _ h arm
insert_schedule-Views new_id s v (true ∷ a) arm h = append-AllArmed v.schedules _ h arm
insert_schedule-Views new_id s v (false ∷ a) arm h = tt

delete_schedule-Views :
    (id org : ℕ) (v : Tables) (a : List Bool)
    → AllArmed v
    → Views (delete_schedule id org (open_at v a))
unfolding delete_schedule call
delete_schedule-Views id org v [] h = delete_rows-AllArmed id org v.schedules h
delete_schedule-Views id org v (true ∷ a) h = delete_rows-AllArmed id org v.schedules h
delete_schedule-Views id org v (false ∷ a) h = tt

module _ (is_valid : Schedule → Bool) (next_run : Schedule → ℕ → Option ℕ) (now : ℕ)
    (caller : UserInfo) where
  at-Views :
      (new_id : List Schedule → ℕ) (s : Schedule) (o : Option ℕ) (v : Tables) (a : List Bool)
      → s.enabled ≡ true
      → AllArmed v
      → Views (next (aligned_at is_valid next_run now s o (open_at v a)) (insert_schedule new_id))
  at-Views new_id s none v a e h = tt
  at-Views new_id s (some n) v a e h =
      insert_schedule-Views new_id (record s { next_run_at = some n }) v a e h

  aligned-Views :
      (new_id : List Schedule → ℕ) (b : Bool) (s : Schedule) (v : Tables) (a : List Bool)
      → s.enabled ≡ b
      → s.next_run_at ≡ none
      → AllArmed v
      → Views (next (aligned is_valid next_run now b s (open_at v a)) (insert_schedule new_id))
  aligned-Views new_id true s v a e n h = at-Views new_id s (next_run s now) v a e h
  aligned-Views new_id false s v a e n h = insert_schedule-Views new_id s v a (rw n e) h

  create_valid-Views :
      (new_id : List Schedule → ℕ) (req : ScheduleRequest) (b : Bool) (v : Tables) (a : List Bool)
      → AllArmed v
      → Views (
          next (check b (coded invalid_argument) (open_at v a)) (λ _ c.
            next
              (aligned is_valid next_run now req.enabled (new_schedule caller req) c)
              (insert_schedule new_id)))
  create_valid-Views new_id req true v a h =
      aligned-Views new_id req.enabled (new_schedule caller req) v a refl refl h
  create_valid-Views new_id req false v a h = tt

  if_workspace-StaysArmed :
      (found : Bool) (w : World) (r : Result (Unit {0}) × World)
      (k : World → (Code ⊎ Schedule) × World)
      → r.1.tables ≡ w.tables
      → ((w' : World) → StaysArmed w' (k w'))
      → StaysArmed w (if_workspace is_valid next_run now found r k)
  if_workspace-StaysArmed found w (err e, w') k same h armed = subst AllArmed (sym same) armed
  if_workspace-StaysArmed true w (ok _, w') k same h armed = h w' (subst AllArmed (sym same) armed)
  if_workspace-StaysArmed false w (ok _, w') k same h armed = subst AllArmed (sym same) armed

  read-tables : (w : World) → (read_only call w).1.tables ≡ w.tables
  unfolding read_only
  read-tables w = refl

  on_target-StaysArmed :
      (workspaces : List Workspace) (req : ScheduleRequest) (k : World → (Code ⊎ Schedule) × World)
      (w : World)
      → ((w' : World) → StaysArmed w' (k w'))
      → StaysArmed w (on_target is_valid next_run now caller workspaces req k w)
  on_target-StaysArmed workspaces req k w h =
      by_test (StaysArmed w)
        (not (allow caller.scopes op_task_create (target_attrs req.workspace req.runner))) _ _
        (λ e armed. armed)
        (λ e.
          if_workspace-StaysArmed (has_workspace workspaces req.runner req.workspace caller.org_id)
            w (read_only call w) k (read-tables w) h)

  module _ (workspaces : List Workspace) where
    pub update_schedule_by-StaysArmed :
        (req : ScheduleRequest) (w : World)
        → StaysArmed w (update_schedule_by is_valid next_run now caller workspaces req w)
    unfolding update_schedule_by
    update_schedule_by-StaysArmed req w =
        on_target-StaysArmed workspaces req _ w λ w'.
          announce-StaysArmed w' _ _ (update_tx-StaysArmed is_valid next_run now caller req w')

    pub create_schedule_by-StaysArmed :
        (new_id : List Schedule → ℕ) (req : ScheduleRequest) (w : World)
        → StaysArmed w (create_schedule_by is_valid next_run now new_id caller workspaces req w)
    unfolding create_schedule_by execute
    create_schedule_by-StaysArmed new_id req w = on_target-StaysArmed workspaces req _ w λ w'.
        let body =
          create_valid is_valid next_run now new_id caller req (open_at w'.tables w'.answers) in
        announce-StaysArmed w' (λ (s : Schedule). schedule_note caller (codes "created") s.id)
          (kept w' body)
          (kept-StaysArmed w' body (
            create_valid-Views new_id req (is_valid (new_schedule caller req)) w'.tables
              w'.answers))

  pub set_schedule_enabled-StaysArmed :
      (id : ℕ) (enabled : Bool) (w : World)
      → StaysArmed w (set_schedule_enabled is_valid next_run now caller id enabled w)
  unfolding set_schedule_enabled
  set_schedule_enabled-StaysArmed id enabled w =
      by_test (StaysArmed w) (not (allow caller.scopes op_task_write [])) _ _ (λ e armed. armed)
        (λ e.
          announce-StaysArmed w _ _
            (enable_tx-StaysArmed is_valid next_run now caller id enabled w))

pub delete_schedule_by-StaysArmed :
    (caller : UserInfo) (id : ℕ) (w : World) → StaysArmed w (delete_schedule_by caller id w)
unfolding delete_schedule_by execute
delete_schedule_by-StaysArmed caller id w =
    by_test (StaysArmed w) (not (allow caller.scopes op_task_write [])) _ _ (λ e armed. armed)
      (λ e.
        announce-StaysArmed w (λ (u : Unit {0}). schedule_note caller (codes "deleted") id)
          (kept w (delete_schedule id caller.org_id (open_at w.tables w.answers)))
          (kept-StaysArmed w (delete_schedule id caller.org_id (open_at w.tables w.answers))
            (delete_schedule-Views id caller.org_id w.tables w.answers)))
