-- ===== src/Store/Rows.antt =====
-- How the statements on the tasks table read after each other.
use gritz.Prelude.{ℕ, ◌≡◌, ◌≢◌, ◌⊎◌, refl, some, List, [], ◌∷◌, arith}
use gritz.Task.{Task}
use gritz.Store.{find_row, update_rows, set_columns}

-- A row that was found has the key it was asked by.
pub find_row-has_key :
    (id org : ℕ) (rows : List Task) (t : Task)
    → find_row id org rows ≡ some t
    → (t.id ≡ id) × (t.org_id ≡ org)
unfolding find_row
find_row-has_key id org [] t h = cc
find_row-has_key id org (r ∷ rows) t h = ground (arith, find_row-has_key id org rows t)

-- An update of the key's row is what is found there afterwards.
pub find_row-update_same :
    (t : Task) (rows : List Task) (r : Task)
    → find_row t.id t.org_id rows ≡ some r
    → find_row t.id t.org_id (update_rows t rows) ≡ some (set_columns t r)
unfolding find_row update_rows
find_row-update_same t [] r h = cc
find_row-update_same t (x ∷ rows) r h = ground (arith, find_row-update_same t rows r)

-- An edit of one row leaves the rows with other keys.
pub find_row-update_rows :
    (id org : ℕ) (t : Task) (rows : List Task)
    → ((t.id ≢ id) ⊎ (t.org_id ≢ org))
    → find_row id org (update_rows t rows) ≡ find_row id org rows
unfolding find_row update_rows
find_row-update_rows id org t [] h = refl
find_row-update_rows id org t (r ∷ rows) h = ground (arith, find_row-update_rows id org t rows h)
