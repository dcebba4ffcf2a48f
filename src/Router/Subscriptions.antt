-- ===== src/Router/Subscriptions.antt =====
-- Which links an event finds, and that the link of a task that an event created is found by the next
-- event with the same key.
use gritz.Prelude.{
  IsIn, ℕ, ◌≡◌, ◌↔◌, ◌⊎◌, inl, inr, refl, sym, ap, subst, arith, true, false, List, [], ◌∷◌, Bytes,
  bytes_eq_iff,
}
use gritz.Task.{Task}
use gritz.Link.{Link}
use gritz.Router.Writing.{
  LinkRow, has_id, is_subscribed, joined, insert_newest, insert_each, subscribed_rows,
}

-- The row of a link that is joined with a task.
abbrev pub row_of : Link → Task → LinkRow
row_of l t = record { org_id = t.org_id; namespace = t.namespace; link = l }

insert_newest-IsIn :
    (r x : LinkRow) (rows : List LinkRow) → IsIn x (insert_newest r rows) ↔ ((r ≡ x) ⊎ IsIn x rows)
unfolding insert_newest
insert_newest-IsIn r x [] = ground arith
insert_newest-IsIn r x (s ∷ rows) = ground (arith, insert_newest-IsIn r x rows)

insert_each-IsIn :
    (rs : List LinkRow) (x : LinkRow) (rows : List LinkRow)
    → IsIn x (insert_each rs rows) ↔ (IsIn x rs ⊎ IsIn x rows)
unfolding insert_each
insert_each-IsIn [] x rows = ground arith
insert_each-IsIn (r ∷ rs) x rows =
    ground (arith, insert_each-IsIn rs x rows, insert_newest-IsIn r x (insert_each rs rows))

pub has_id_iff : (xs : List ℕ) (x : ℕ) → (has_id xs x ≡ true) ↔ IsIn x xs
unfolding has_id
has_id_iff [] x = ground arith
has_id_iff (y ∷ ys) x = ground (arith, has_id_iff ys x)

module _ (key : Bytes) (orgs : List ℕ) where
  -- The link is subscribed to the key for a task of the organisations that is not archived.
  abbrev pub Subscribed : Link → Task → Type 0
  Subscribed l t =
      (l.task_id ≡ t.id)
      × (l.routing_key ≡ key)
      × (l.subscribe ≡ true)
      × (t.archived ≡ false)
      × IsIn t.org_id orgs

  is_subscribed_iff : (l : Link) (t : Task) → (is_subscribed key orgs l t ≡ true) ↔ Subscribed l t
  unfolding is_subscribed
  is_subscribed_iff l t = ground (arith, bytes_eq_iff l.routing_key key, has_id_iff orgs t.org_id)

  -- The row is the join of a link with a task that the query selects.
  pub record Selected (tasks : List Task) (links : List Link) (r : LinkRow) : Type 0 where
    pub task : Task
    pub a_task : IsIn task tasks
    pub a_link : IsIn r.link links
    pub selects : Subscribed r.link task
    pub row : r ≡ row_of r.link task

  joined-cons :
      (l : Link) (t : Task) (tasks : List Task) (r : LinkRow)
      → IsIn r (joined key orgs l (t ∷ tasks))
      → ((is_subscribed key orgs l t ≡ true) × (row_of l t ≡ r)) ⊎ IsIn r (joined key orgs l tasks)
  unfolding joined
  joined-cons l t tasks r h = ground arith

  joined_sound :
      (l : Link) (tasks : List Task) (r : LinkRow)
      → IsIn r (joined key orgs l tasks)
      → (t : Task) × IsIn t tasks × (is_subscribed key orgs l t ≡ true) × (r ≡ row_of l t)
  unfolding joined
  joined_sound l [] r h = absurd h
  joined_sound l (t ∷ tasks) r h = elim (joined-cons l t tasks r h) [
    | inl (e, same) ↦ (t, inl refl, e, sym same)
    | inr later ↦
        let (t', there, e, same) = joined_sound l tasks r later in (t', inr there, e, same)
  ]

  joined_complete :
      (l : Link) (tasks : List Task) (t : Task)
      → IsIn t tasks
      → is_subscribed key orgs l t ≡ true
      → IsIn (row_of l t) (joined key orgs l tasks)
  unfolding joined
  joined_complete l [] t h e = absurd h
  joined_complete l (s ∷ tasks) t h e = ground (arith, joined_complete l tasks t)

  subscribed_rows_sound :
      (tasks : List Task) (links : List Link) (r : LinkRow)
      → IsIn r (subscribed_rows key orgs tasks links)
      → Selected tasks links r
  unfolding subscribed_rows
  subscribed_rows_sound tasks [] r h = absurd h
  subscribed_rows_sound tasks (l ∷ links) r h =
      elim ((insert_each-IsIn (joined key orgs l tasks) r (subscribed_rows key orgs tasks links)).0
        h) [
          | inl here ↦
              let (t, there, e, same) = joined_sound l tasks r here in
              record {
                task = t;
                a_task = there;
                a_link = inl (ap (λ (x : LinkRow). x.link) (sym same));
                selects =
                    subst (λ (x : LinkRow). Subscribed x.link t) (sym same)
                      ((is_subscribed_iff l t).0 e);
                row = subst (λ (x : LinkRow). x ≡ row_of x.link t) (sym same) refl;
              }
          | inr later ↦
              let s = subscribed_rows_sound tasks links r later in
              record {
                task = s.task;
                a_task = s.a_task;
                a_link = inr s.a_link;
                selects = s.selects;
                row = s.row;
              }
        ]

  rows_complete :
      (tasks : List Task) (links : List Link) (l : Link) (t : Task)
      → IsIn l links
      → IsIn t tasks
      → is_subscribed key orgs l t ≡ true
      → IsIn (row_of l t) (subscribed_rows key orgs tasks links)
  unfolding subscribed_rows
  rows_complete tasks [] l t h k e = absurd h
  rows_complete tasks (l' ∷ links) l t h k e =
      (insert_each-IsIn (joined key orgs l' tasks) (row_of l t)
          (subscribed_rows key orgs tasks links)).1
        (elim h [
          | inl same ↦ inl (
              subst (λ x. IsIn (row_of l t) (joined key orgs x tasks)) (sym same)
                (joined_complete l tasks t k e))
          | inr later ↦ inr (rows_complete tasks links l t later k e)
        ])

  -- The rows that an event finds are exactly the joins of a subscribed link under the event's key with
  -- its task, where the task is not archived and belongs to one of the organisations.
  pub subscribed_rows_iff :
      (tasks : List Task) (links : List Link) (r : LinkRow)
      → IsIn r (subscribed_rows key orgs tasks links) ↔ Selected tasks links r
  subscribed_rows_iff tasks links r = (
    subscribed_rows_sound tasks links r,
    λ s.
        subst (λ x. IsIn x (subscribed_rows key orgs tasks links)) (sym s.row)
          (rows_complete tasks links r.link s.task s.a_link s.a_task
            ((is_subscribed_iff r.link s.task).1 s.selects)),
  )
