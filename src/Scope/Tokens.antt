-- ===== src/Scope/Tokens.antt =====
-- What a task token lets its holder do.
use gritz.Prelude.{ℕ, ◌≡◌, ◌↔◌, true, false, List, Bytes, bytes_eq, bytes_eq_iff, arith, ap}
use gritz.Prelude.Decimal.{format_int, format_int-injective}
use gritz.Task.{Task}
use gritz.Scope.{
  op_task_read, op_task_write, allow, scope_allow, scope_allow_op, preds_hold, attr_value,
  scope_attr, token_scopes,
}

abbrev pub Own : ℕ → Task → Type 0
Own id t = (t.id ≡ id) × (t.archived ≡ false)

-- A task token may write a task exactly when it is the task that the token was minted for and that
-- task is not archived, and it may read it exactly then too: archiving a task revokes its token.
pub token_scopes_iff :
    (id : ℕ) (capabilities : List Bytes) (t : Task)
    → ((allow (token_scopes id capabilities) op_task_write (scope_attr t) ≡ true) ↔ Own id t)
      × ((allow (token_scopes id capabilities) op_task_read (scope_attr t) ≡ true) ↔ Own id t)
unfolding allow scope_allow scope_allow_op preds_hold attr_value token_scopes bytes_eq
token_scopes_iff id capabilities t = ground (
  arith,
  bytes_eq_iff (format_int t.id) (format_int id),
  format_int-injective t.id id,
  ap format_int {x = t.id} {y = id},
)
