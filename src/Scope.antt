-- ===== src/Scope.antt =====
-- The scope-matching engine (internal/auth/authscope/scope.go, task.go) and the scopes that a task
-- token carries (internal/auth/agentauth/scope.go). A `map[string]string` is an association list
-- without repeated keys; the code ranges over it only to form a conjunction, so the order of its
-- entries is immaterial.
pub mod Matching
pub mod Tokens
use gritz.Prelude.{
  ℕ, Bool, true, false, not, ◌&&◌, ◌||◌, Option, none, some, List, [], ◌∷◌, Bytes, codes, bytes_eq,
  if◌then◌else◌,
}
use gritz.Prelude.Decimal.{format_int}
use gritz.Task
use gritz.Task.{Task}

pub record Attr : Type 0 where
  pub name : Bytes
  pub value : Bytes

pub record Scope : Type 0 where
  pub op : List Bytes
  pub preds : List (Bytes × Bytes)

abbrev pub Scopes : Type 0
Scopes = List Scope

-- `preds[a.Name] = a.Value`
unfoldable pub put_pred : Bytes → Bytes → List (Bytes × Bytes) → List (Bytes × Bytes)
put_pred k v [] = (k, v) ∷ []
put_pred k v ((j, w) ∷ rest) = if bytes_eq j k then (k, v) ∷ rest else (j, w) ∷ put_pred k v rest

fold_attrs : List Attr → List (Bytes × Bytes) → List (Bytes × Bytes)
fold_attrs [] preds = preds
fold_attrs (a ∷ attrs) preds = fold_attrs attrs (put_pred a.name a.value preds)

unfoldable pub new : List Bytes → List Attr → Scope
unfolding fold_attrs put_pred
new op attrs = record { op = op; preds = fold_attrs attrs [] }

-- The value of the first attribute with the given name.
unfoldable pub attr_value : List Attr → Bytes → Option Bytes
attr_value [] name = none
attr_value (a ∷ attrs) name = if bytes_eq a.name name then some a.value else attr_value attrs name

abbrev pub star : Bytes
star = codes "*"

-- The length test and the loop over the segments, in one pass.
unfoldable pub covers : List Bytes → List Bytes → Bool
covers [] [] = true
covers (seg ∷ segs) (o ∷ os) =
    if not (bytes_eq seg star) && not (bytes_eq seg o) then false else covers segs os
covers _ _ = false

unfoldable pub scope_allow_op : Scope → List Bytes → Bool
unfolding covers
scope_allow_op s op = covers s.op op

unfoldable pub preds_hold : List (Bytes × Bytes) → List Attr → Bool
preds_hold [] attrs = true
preds_hold ((key, want) ∷ rest) attrs = elim (attr_value attrs key) [
  | none ↦ false
  | some got ↦ if not (bytes_eq got want) then false else preds_hold rest attrs
]

unfoldable pub scope_allow : Scope → List Bytes → List Attr → Bool
scope_allow s op attrs = if not (scope_allow_op s op) then false else preds_hold s.preds attrs

unfoldable pub allow : Scopes → List Bytes → List Attr → Bool
allow [] op attrs = false
allow (s ∷ scopes) op attrs = if scope_allow s op attrs then true else allow scopes op attrs

unfoldable pub allow_op : Scopes → List Bytes → Bool
allow_op [] op = false
allow_op (s ∷ scopes) op = if scope_allow_op s op then true else allow_op scopes op

abbrev pub op_task_read : List Bytes
op_task_read = codes "task" ∷ codes "read" ∷ []

abbrev pub op_task_write : List Bytes
op_task_write = codes "task" ∷ codes "write" ∷ []

abbrev pub op_task_create : List Bytes
op_task_create = codes "task" ∷ codes "create" ∷ []

abbrev pub op_github_token_create : List Bytes
op_github_token_create = codes "github_token" ∷ codes "create" ∷ []

-- What `Admin` parses from "*.*".
abbrev pub admin : Scopes
admin = record { op = star ∷ star ∷ []; preds = [] } ∷ []

abbrev pub with_task_id : ℕ → Attr
with_task_id id = record { name = codes "task.id"; value = format_int id }

abbrev pub format_bool : Bool → Bytes
format_bool true = codes "true"
format_bool false = codes "false"

abbrev pub with_task_archived : Bool → Attr
with_task_archived archived = record { name = codes "task.archived"; value = format_bool archived }

-- `Task.ScopeAttr` of internal/model/task.go.
abbrev pub scope_attr : Task → List Attr
scope_attr t = with_task_id t.id ∷ with_task_archived t.archived ∷ []

abbrev capability_github_token : Bytes
capability_github_token = codes "github_token"

contains : List Bytes → Bytes → Bool
contains [] c = false
contains (x ∷ xs) c = bytes_eq x c || contains xs c

-- `agentauth.Scopes`: what a task token grants.
unfoldable pub token_scopes : ℕ → List Bytes → Scopes
unfolding new contains
token_scopes task_id capabilities =
    new op_task_read (with_task_id task_id ∷ with_task_archived false ∷ [])
    ∷ new op_task_write (with_task_id task_id ∷ with_task_archived false ∷ [])
    ∷ (if contains capabilities capability_github_token
        then new op_github_token_create [] ∷ []
        else [])
