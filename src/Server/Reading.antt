-- ===== src/Server/Reading.antt =====
-- What GetTask shows.
use gritz.Prelude.{
  ℕ, ◌≡◌, refl, Bool, true, false, not, Option, none, some, List, [], ◌∷◌, ◌⊎◌, inl, inr,
  if◌then◌else◌,
}
use gritz.Task.{Task}
use gritz.Store.{
  Code, World, Result, Conn, call, one, find_row, get_task, get_task_for_update, permission_denied,
}
use gritz.Store.Triples.{open_at}
use gritz.Scope.{allow, allow_op, op_task_read, scope_attr}
use gritz.Server.{UserInfo}
use gritz.Server.Effects.{either}
use gritz.Server.Requests.{shown, get_task_by_id}

-- What an answer of GetTask tells.
abbrev pub Visible : UserInfo → ℕ → World → (Code ⊎ Task) × World → Type 0
Visible caller id w (inl c, w') = (w'.tables ≡ w.tables) × (w'.published ≡ w.published)
Visible caller id w (inr t, w') =
    (find_row id caller.org_id w.tables.tasks ≡ some t)
    × (allow caller.scopes op_task_read (scope_attr t) ≡ true)
    × (w'.tables ≡ w.tables)
    × (w'.published ≡ w.published)

module _ (caller : UserInfo) (id : ℕ) (w : World) where
  abbrev reading : Result Task × Conn → Result Task × World
  reading (r, c) = (r, record w { answers = c.answers })

  checked-Visible :
      (t : Task) (a : List Bool) (permitted : Bool)
      → allow caller.scopes op_task_read (scope_attr t) ≡ permitted
      → find_row id caller.org_id w.tables.tasks ≡ some t
      → Visible caller id w (
          if not permitted
          then (inl permission_denied, record w { answers = a })
          else (inr t, record w { answers = a }))
  checked-Visible t a true e found = (found, e, refl, refl)
  checked-Visible t a false e found = (refl, refl)

  found-Visible :
      (found : Option Task) (a : List Bool)
      → find_row id caller.org_id w.tables.tasks ≡ found
      → Visible caller id w (shown caller (reading (one found (open_at w.tables a))))
  found-Visible none a e = (refl, refl)
  found-Visible (some t) a e = checked-Visible t a _ refl e

  read-Visible :
      (a : List Bool)
      → Visible caller id w
          (shown caller (reading (get_task_for_update id caller.org_id (open_at w.tables a))))
  unfolding get_task_for_update call
  read-Visible [] = found-Visible _ [] refl
  read-Visible (true ∷ a) = found-Visible _ a refl
  read-Visible (false ∷ a) = (refl, refl)

-- GetTask shows a task only from the caller's organisation, under the id that was asked for, and
-- only if the caller's scopes permit reading that row; it changes neither the tables nor the
-- publications, whatever it answers.
pub get_task_by_id-Visible :
    (caller : UserInfo) (id : ℕ) (w : World) → Visible caller id w (get_task_by_id caller id w)
unfolding get_task_by_id get_task
get_task_by_id-Visible caller id w =
    either (Visible caller id w) (not (allow_op caller.scopes op_task_read))
      (inl permission_denied, w)
      (shown caller
        (reading caller id w (get_task_for_update id caller.org_id (open_at w.tables w.answers))))
      (refl, refl) (read-Visible caller id w w.answers)
