-- ===== src/Server/Access.antt =====
-- Whom a write reaches: the isolation of organisations, and what a task token can do.
use gritz.Prelude.{
  ℕ, ◌≡◌, ◌≢◌, sym, ap, ◌∙◌, subst, Bool, true, false, Option, none, some, List, Bytes, arith,
  if◌then◌else◌, ◌⊎◌, inl, inr,
}
use gritz.Task.{Task, archive, unarchive, cancel, restart_task, start_task}
use gritz.Store.{World, Code, find_row}
use gritz.Store.Rows.{find_row-update_rows, find_row-has_key}
use gritz.Scope.{token_scopes, allow, op_task_write, scope_attr}
use gritz.Scope.Tokens.{token_scopes_iff}
use gritz.Server.{UserInfo, Method, archiving, unarchiving, cancelling, restarting}
use gritz.Server.Requests.{
  UpdateTaskRequest, WriteRequest, archives, unarchives, cancels, restarts, updates, edited, serve,
}
use gritz.Server.Effects.{
  method_edit, method_result, update_result, Edit, Effect, Served, id_of, edit, serve-Effect,
}

some_if {ℓ} :
    {A : Type ℓ} (test : Bool) (x e : A)
    → ◌≡◌ {A = Option A} (if test then some x else none) (some e)
    → x ≡ e
some_if true x e h = cc
some_if false x e h = cc

method-key :
    (caller : UserInfo) (m : Method) (t : Task) (e : Edit)
    → ((m.apply t).0.id ≡ t.id) × ((m.apply t).0.org_id ≡ t.org_id)
    → method_edit caller m t ≡ some e
    → (e.0.id ≡ t.id) × (e.0.org_id ≡ t.org_id)
method-key caller m t e (same_id, same_org) h =
    let p = some_if (m.apply t).1 (method_result caller m t) e h in
    (ap (λ x. x.0.id) (sym p) ∙ same_id, ap (λ x. x.0.org_id) (sym p) ∙ same_org)

edited-key :
    (req : UpdateTaskRequest) (t : Task)
    → ((edited req t).id ≡ t.id) × ((edited req t).org_id ≡ t.org_id)
unfolding start_task
edited-key req t = ground arith

-- An edit keeps the key of its row.
edit-key :
    (caller : UserInfo) (req : WriteRequest) (t : Task) (e : Edit)
    → edit caller req t ≡ some e
    → (e.0.id ≡ t.id) × (e.0.org_id ≡ t.org_id)
unfolding archiving unarchiving cancelling restarting archive unarchive cancel restart_task
edit-key caller (archives id) t e h = method-key caller archiving t e (ground arith) h
edit-key caller (unarchives id) t e h = method-key caller unarchiving t e (ground arith) h
edit-key caller (cancels id) t e h = method-key caller cancelling t e (ground arith) h
edit-key caller (restarts id) t e h = method-key caller restarting t e (ground arith) h
edit-key caller (updates req) t e h =
    let p = some_if true (update_result caller req t) e h in
    (
      ap (λ x. x.0.id) (sym p) ∙ (edited-key req t).0,
      ap (λ x. x.0.org_id) (sym p) ∙ (edited-key req t).1,
    )

module _ (caller : UserInfo) (req : WriteRequest) (w : World) where
  served :
      (r : Option Code × World)
      → Effect caller (id_of req) (edit caller req) w r
      → r.0 ≡ none
      → Served caller (id_of req) (edit caller req) w r.1
  served (none, w') s h = s
  served (some c, w') s h = cc

  kept_row :
      (id org : ℕ) (r : Option Code × World)
      → Effect caller (id_of req) (edit caller req) w r
      → ((id_of req ≢ id) ⊎ (caller.org_id ≢ org))
      → find_row id org r.1.tables.tasks ≡ find_row id org w.tables.tasks
  kept_row id org (some c, w') s h = ap (λ v. find_row id org v.tasks) s.0
  kept_row id org (none, w') s h =
      let key = find_row-has_key (id_of req) caller.org_id w.tables.tasks s.row s.found in
      let same = edit-key caller req s.row s.edit_of_row s.edits in
      ap (λ v. find_row id org v.tasks) s.stores
      ∙ find_row-update_rows id org s.edit_of_row.0 w.tables.tasks (elim h [
        | inl n ↦ inl λ p. n (sym key.0 ∙ sym same.0 ∙ p)
        | inr n ↦ inr λ p. n (sym key.1 ∙ sym same.1 ∙ p)
      ])

-- A write request touches no row but the one that it names in its caller's organisation: any other
-- row, of any organisation, is found as it was.
pub serve-other_rows :
    (caller : UserInfo) (req : WriteRequest) (w : World) (id org : ℕ)
    → ((id_of req ≢ id) ⊎ (caller.org_id ≢ org))
    → find_row id org (serve caller req w).1.tables.tasks ≡ find_row id org w.tables.tasks
serve-other_rows caller req w id org h =
    kept_row caller req w id org (serve caller req w) (serve-Effect caller req w) h

-- A task token writes only the task that it was minted for, and only while that task is not
-- archived: a write request of its holder that is answered with a response named that task, and the
-- row was not archived.
pub serve-token :
    (caller : UserInfo) (id : ℕ) (capabilities : List Bytes) (req : WriteRequest) (w : World)
    → caller.scopes ≡ token_scopes id capabilities
    → (serve caller req w).0 ≡ none
    → (id_of req ≡ id)
      × ((t : Task) → find_row id caller.org_id w.tables.tasks ≡ some t → t.archived ≡ false)
serve-token caller id capabilities req w h answered =
    let s = served caller req w (serve caller req w) (serve-Effect caller req w) answered in
    let own =
      (token_scopes_iff id capabilities s.row).0.0
        (subst (λ scopes. allow scopes op_task_write (scope_attr s.row) ≡ true) h s.permitted) in
    let key = find_row-has_key (id_of req) caller.org_id w.tables.tasks s.row s.found in
    let named = sym key.0 ∙ own.0 in
    (
      named,
      λ t found.
          ap (λ r. r.archived)
            (some_if true t s.row (
              sym found
              ∙ subst (λ i. find_row i caller.org_id w.tables.tasks ≡ some s.row) named s.found))
          ∙ own.1,
    )
