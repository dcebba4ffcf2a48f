-- ===== src/Server/Links.antt =====
-- CreateLink of internal/server/apiserver/link.go. The routing key of a url, the serial ids and the
-- clock come from outside, as for the router.
use gritz.Prelude.{
  ℕ, ◌≡◌, refl, ap, Bool, true, false, not, ◌⊎◌, inl, inr, Option, none, some, List, [], ◌∷◌, ◌++◌,
  Bytes, codes, if◌then◌else◌,
}
use gritz.Task.{Task}
use gritz.Event.{Event, link}
use gritz.Link.{Link, event_payload}
use gritz.Store.{
  Code, Result, ok, err, Tx, World, Notification, one, permission_denied, internal, ◌>>=◌, ◌>>◌,
  pure, create_event, create_link, commit, with_tx, publish, get_task, find_row, read_only,
  get_task_for_update, call,
}
use gritz.Store.Triples.{link-Ends, event-Ends, commit-Ends, Settled, Saves, with_tx-Settled}
use gritz.Scope.{allow, allow_op, op_task_write, scope_attr}
use gritz.Server.{UserInfo, notification, code_of}

pub record CreateLinkRequest : Type 0 where
  pub task_id : ℕ
  pub relevance : Bytes
  pub url : Bytes
  pub title : Bytes
  pub subscribe : Bool

-- What the handler has from outside.
pub record LinkEnv : Type 0 where
  pub routing_key : Bytes → Bytes
  pub link_id : List Link → ℕ
  pub now : ℕ

abbrev pub link_note : UserInfo → Link → Notification
link_note caller l = record (notification caller) {
  resources =
      record { action = codes "created"; type = codes "task_links"; id = l.task_id }
      ∷ record { action = codes "created"; type = codes "link"; id = l.id }
      ∷ [];
}

abbrev pub requested_event : Task → Link → Event
requested_event t l = record {
  task_id = t.id;
  org_id = t.org_id;
  wake = false;
  payload = link (event_payload l);
}

-- Any error of the transaction is internal.
abbrev pub linked : UserInfo → Result Link × World → (Code ⊎ Link) × World
linked caller (ok l, w) = (inr l, publish (link_note caller l) w)
linked caller (err e, w) = (inl internal, w)

module _ (env : LinkEnv) (caller : UserInfo) (req : CreateLinkRequest) where
  abbrev pub requested_link : Link
  requested_link = record {
    id = 0;
    task_id = req.task_id;
    relevance = req.relevance;
    url = req.url;
    routing_key = env.routing_key req.url;
    title = req.title;
    subscribe = req.subscribe;
    created_at = env.now;
  }

  unfoldable pub link_tx : Task → Tx Link
  link_tx t = do
    l ← create_link env.link_id requested_link
    create_event (requested_event t l)
    commit
    pure l

  -- After the row was loaded.
  abbrev pub link_loaded : Result Task × World → (Code ⊎ Link) × World
  link_loaded (err e, w) = (inl (code_of e), w)
  link_loaded (ok t, w) =
      if not (allow caller.scopes op_task_write (scope_attr t))
      then (inl permission_denied, w)
      else linked caller (with_tx (link_tx t) w)

  unfoldable pub create_link_by : World → (Code ⊎ Link) × World
  create_link_by w =
      if not (allow_op caller.scopes op_task_write)
      then (inl permission_denied, w)
      else link_loaded (get_task req.task_id caller.org_id w)

  -- The link that was stored, and where it may.
  pub record Linked (w : World) (l : Link) (w' : World) : Type 0 where
    pub task : Task
    pub found : find_row req.task_id caller.org_id w.tables.tasks ≡ some task
    pub permitted : allow caller.scopes op_task_write (scope_attr task) ≡ true
    pub row : l ≡ record requested_link { id = env.link_id w.tables.links }
    pub stores : w'.tables ≡ record w.tables {
      events = w.tables.events ++ requested_event task l ∷ [];
      links = w.tables.links ++ l ∷ [];
    }
    pub told : w'.published ≡ w.published ++ link_note caller l ∷ []

  abbrev pub Answered : World → (Code ⊎ Link) × World → Type 0
  Answered w (inl c, w') = (w'.tables ≡ w.tables) × (w'.published ≡ w.published)
  Answered w (inr l, w') = Linked w l w'

  module _ (t : Task) where
    abbrev Saved : World → Link → World → Type 0
    Saved w l w' =
        (l ≡ record requested_link { id = env.link_id w.tables.links })
        × (w'.tables ≡ record w.tables {
          events = w.tables.events ++ requested_event t l ∷ [];
          links = w.tables.links ++ l ∷ [];
        })
        × (w'.published ≡ w.published)

    link_tx-Settled : (w : World) → Settled (Saved w) w (with_tx (link_tx t) w)
    unfolding link_tx
    link_tx-Settled w =
        let Q = Saves (Saved w) w in
        let l = record requested_link { id = env.link_id w.tables.links } in
        with_tx-Settled (Saved w) w (link_tx t) λ a.
          link-Ends Q env.link_id requested_link _ w.tables a λ b.
            event-Ends Q (requested_event t l) _ _ b
              λ c. commit-Ends Q l _ c λ d. (refl, refl, refl)

    linked-Answered :
        (w : World) (a : List Bool) (r : Result Link × World)
        → find_row req.task_id caller.org_id w.tables.tasks ≡ some t
        → allow caller.scopes op_task_write (scope_attr t) ≡ true
        → Settled (Saved (record w { answers = a })) (record w { answers = a }) r
        → Answered w (linked caller r)
    unfolding publish
    linked-Answered w a (err e, w') found may s = s
    linked-Answered w a (ok l, w') found may (row, stores, quiet) = record {
      task = t;
      found = found;
      permitted = may;
      row = row;
      stores = stores;
      told = ap (λ x. x ++ link_note caller l ∷ []) quiet;
    }

  permitted-Answered :
      (w : World) (a : List Bool) (t : Task) (may : Bool)
      → find_row req.task_id caller.org_id w.tables.tasks ≡ some t
      → allow caller.scopes op_task_write (scope_attr t) ≡ may
      → Answered w (
          if not may
          then (inl permission_denied, record w { answers = a })
          else linked caller (with_tx (link_tx t) (record w { answers = a })))
  permitted-Answered w a t false found may = (refl, refl)
  permitted-Answered w a t true found may =
      linked-Answered t w a _ found may (link_tx-Settled t (record w { answers = a }))

  found-Answered :
      (w : World) (a : List Bool) (found : Option Task)
      → find_row req.task_id caller.org_id w.tables.tasks ≡ found
      → Answered w (link_loaded (read_only (one found) (record w { answers = a })))
  unfolding read_only
  found-Answered w a none e = (refl, refl)
  found-Answered w a (some t) e = permitted-Answered w a t _ e refl

  loaded-Answered :
      (w : World) (answers : List Bool)
      → Answered w
          (link_loaded (get_task req.task_id caller.org_id (record w { answers = answers })))
  unfolding get_task call get_task_for_update read_only
  loaded-Answered w [] = found-Answered w [] _ refl
  loaded-Answered w (true ∷ a) = found-Answered w a _ refl
  loaded-Answered w (false ∷ a) = (refl, refl)

  gate-Answered :
      (w : World) (gate : Bool)
      → Answered w (
          if not gate
          then (inl permission_denied, w)
          else link_loaded (get_task req.task_id caller.org_id w))
  gate-Answered w false = (refl, refl)
  gate-Answered w true = loaded-Answered w w.answers

  -- A link is created wholly or not at all, whatever calls the database refuses. A response carries
  -- the link with its id and the routing key of its url; the task it names is in the caller's
  -- organisation and the caller's scopes permit writing it; exactly the row of the link, its event in
  -- the task's stream and one notification have been stored and published. An error leaves the tables
  -- and the publications as they were.
  pub create_link_by-Answered : (w : World) → Answered w (create_link_by w)
  unfolding create_link_by
  create_link_by-Answered w = gate-Answered w (allow_op caller.scopes op_task_write)
