-- ===== src/Archiver/Sweep.antt =====
-- What a sweep does to the rows.
use gritz.Prelude.{
  ℕ, ◌≡◌, ◌≢◌, refl, sym, ap, ◌∙◌, subst, Bool, true, false, not, none, some, List, [], ◌∷◌, ◌++◌,
  ◌⊎◌, inl, inr, arith, All, map, codes,
}
use native.Mathlib.Decide.{ℕ_discrete}
use mathlib.Core.List.{append_assoc, append-nil}
use gritz.Task.{Task, archive, can_archive, label, unspecified}
use gritz.Event.{Event, lifecycle, runner_actor, auto_archived}
use gritz.Store.{
  Tables, Notification, Result, Conn, World, coded, driver, no_rows, refused, ok, err, call,
  find_row, update_rows, set_columns, with_tx, publish,
}
use gritz.Store.Rows.{find_row-has_key, find_row-update_rows, find_row-update_same}
use gritz.Store.Triples.{
  Settled, Saves, with_tx-Settled, get-Ends, check-Ends, update-Ends, event-Ends, commit-Ends,
}
use gritz.Archiver.{
  TaskDueForArchive, archive_notification, auto_archived_event, is_stale, archive_tx,
  archive_result, archive_due, archive_each, listed, tick,
}

-- The row is one of those listed, at the version it was listed with.
abbrev pub IsDue : List TaskDueForArchive → Task → Type 0
IsDue [] t = ⊥
IsDue (d ∷ due) t = ((d.id ≡ t.id) × (d.org_id ≡ t.org_id) × (d.version ≡ t.version)) ⊎ IsDue due t

-- A row that was archived.
pub record Retired (due : List TaskDueForArchive) (id org : ℕ) (before after : List Task)
    : Type 0 where
  pub row : Task
  pub was : find_row id org before ≡ some row
  pub due_row : IsDue due row
  pub accepted : can_archive row ≡ true
  pub now : find_row id org after ≡ some (set_columns (record row { archived = true }) row)

abbrev pub Fate : List TaskDueForArchive → List Task → List Task → Type 0
Fate due before after =
    (id org : ℕ)
    → (find_row id org after ≡ find_row id org before) ⊎ Retired due id org before after

-- What one transaction stored.
record Archived (d : TaskDueForArchive) (w w' : World) : Type 0 where
  row : Task
  found : find_row d.id d.org_id w.tables.tasks ≡ some row
  fresh : is_stale d row ≡ false
  accepted : (archive row).1 ≡ true
  stores : w'.tables ≡ record w.tables {
    tasks = update_rows (archive row).0 w.tables.tasks;
    events = w.tables.events ++ auto_archived_event row.status (archive row).0 ∷ [];
  }
  quiet : w'.published ≡ w.published

some_injective {ℓ} : {A : Type ℓ} {x y : A} → some x ≡ some y → x ≡ y
some_injective e = cc

not-true : (b : Bool) → not b ≡ true → b ≡ false
not-true true h = sym h
not-true false h = refl

archive_tx-Settled :
    (d : TaskDueForArchive) (w : World)
    → Settled (λ _ w'. Archived d w w') w (with_tx (archive_tx d) w)
unfolding archive_tx
archive_tx-Settled d w =
    let P : Unit {0} → World → Type 0 = λ _ w'. Archived d w w' in
    let Q = Saves P w in
    with_tx-Settled P w (archive_tx d) λ a. get-Ends Q d.id d.org_id _ w.tables a λ t b found.
      check-Ends Q (not (is_stale d t)) refused _ w.tables b λ fresh.
        check-Ends Q (archive t).1 refused _ w.tables b λ accepted.
          update-Ends Q (archive t).0 _ w.tables b λ b'.
            event-Ends Q (auto_archived_event t.status (archive t).0) _ _ b' λ b''.
              commit-Ends Q _ _ b'' λ c. record {
                row = t;
                found = found;
                fresh = not-true (is_stale d t) fresh;
                accepted = accepted;
                stores = refl;
                quiet = refl;
              }

archive-is :
    (t : Task)
    → (archive t).1 ≡ true
    → ((archive t).0 ≡ record t { archived = true }) × (can_archive t ≡ true)
unfolding archive
archive-is t h = ground arith

fresh-version : (d : TaskDueForArchive) (t : Task) → is_stale d t ≡ false → d.version ≡ t.version
fresh-version d t h = ground arith

module _ (d : TaskDueForArchive) (w w' : World) (s : Archived d w w') where
  rows_after : w'.tables.tasks ≡ update_rows (record s.row { archived = true }) w.tables.tasks
  rows_after =
      ap (λ v. v.tasks) s.stores
      ∙ ap (λ t. update_rows t w.tables.tasks) (archive-is s.row s.accepted).0

  row_key : (s.row.id ≡ d.id) × (s.row.org_id ≡ d.org_id)
  row_key = find_row-has_key d.id d.org_id w.tables.tasks s.row s.found

  row-Retired : Retired (d ∷ []) s.row.id s.row.org_id w.tables.tasks w'.tables.tasks
  row-Retired =
      let was : find_row s.row.id s.row.org_id w.tables.tasks ≡ some s.row =
        subst (λ i. find_row i s.row.org_id w.tables.tasks ≡ some s.row) (sym row_key.0)
          (subst (λ o. find_row d.id o w.tables.tasks ≡ some s.row) (sym row_key.1) s.found) in
      record {
        row = s.row;
        was = was;
        due_row = inl (sym row_key.0, sym row_key.1, fresh-version d s.row s.fresh);
        accepted = (archive-is s.row s.accepted).1;
        now =
            ap (find_row s.row.id s.row.org_id) rows_after
            ∙ find_row-update_same (record s.row { archived = true }) w.tables.tasks s.row was;
      }

  other_row :
      (id org : ℕ)
      → ((s.row.id ≢ id) ⊎ (s.row.org_id ≢ org))
      → find_row id org w'.tables.tasks ≡ find_row id org w.tables.tasks
  other_row id org h =
      ap (find_row id org) rows_after
      ∙ find_row-update_rows id org (record s.row { archived = true }) w.tables.tasks h

  Archived-Fate : Fate (d ∷ []) w.tables.tasks w'.tables.tasks
  Archived-Fate id org = elim (ℕ_discrete s.row.id id) [
    | no n ↦ inl (other_row id org (inl n))
    | yes p ↦ elim (ℕ_discrete s.row.org_id org) [
      | no n ↦ inl (other_row id org (inr n))
      | yes q ↦ inr (
          subst (λ i. Retired (d ∷ []) i org w.tables.tasks w'.tables.tasks) p
            (subst (λ o. Retired (d ∷ []) s.row.id o w.tables.tasks w'.tables.tasks) q row-Retired))
    ]
  ]

same-Fate :
    (due : List TaskDueForArchive) (before after : List Task)
    → after ≡ before
    → Fate due before after
same-Fate due before after e id org = inl (ap (find_row id org) e)

-- The fate of the rows under one candidate, whatever the answer.
archive_due-Fate :
    (d : TaskDueForArchive) (w : World)
    → Fate (d ∷ []) w.tables.tasks (archive_due d w).1.tables.tasks
unfolding archive_due publish
archive_due-Fate d w = by_result (with_tx (archive_tx d) w) (archive_tx-Settled d w)
  where
    by_result :
        (r : Result (Unit {0}) × World)
        → Settled (λ _ w'. Archived d w w') w r
        → Fate (d ∷ []) w.tables.tasks (archive_result d r).1.tables.tasks
    by_result (ok _, w') s = Archived-Fate d w w' s
    by_result (err refused, w') s = same-Fate (d ∷ []) _ _ (ap (λ v. v.tasks) s.0)
    by_result (err driver, w') s = same-Fate (d ∷ []) _ _ (ap (λ v. v.tasks) s.0)
    by_result (err no_rows, w') s = same-Fate (d ∷ []) _ _ (ap (λ v. v.tasks) s.0)
    by_result (err (coded c), w') s = same-Fate (d ∷ []) _ _ (ap (λ v. v.tasks) s.0)

module _ (d : TaskDueForArchive) (due : List TaskDueForArchive) (before mid after : List Task) where
  first-Retired :
      (id org : ℕ)
      → Retired (d ∷ []) id org before mid
      → find_row id org after ≡ find_row id org mid
      → Retired (d ∷ due) id org before after
  first-Retired id org r e = record {
    row = r.row;
    was = r.was;
    due_row = first r.due_row;
    accepted = r.accepted;
    now = e ∙ r.now;
  }
    where
      first : IsDue (d ∷ []) r.row → IsDue (d ∷ due) r.row
      first (inl h) = inl h
      first (inr h) = absurd h

  later-Retired :
      (id org : ℕ)
      → find_row id org mid ≡ find_row id org before
      → Retired due id org mid after
      → Retired (d ∷ due) id org before after
  later-Retired id org e r = record {
    row = r.row;
    was = sym e ∙ r.was;
    due_row = inr r.due_row;
    accepted = r.accepted;
    now = r.now;
  }

  -- A row is archived once: an archived row is not accepted again.
  once : (id org : ℕ) → Retired (d ∷ []) id org before mid → Retired due id org mid after → ⊥
  unfolding can_archive
  once id org r q =
      let row = some_injective (sym r.now ∙ q.was) in
      let archived : q.row.archived ≡ true = ap (λ t. t.archived) (sym row) in ground arith

  Fate-trans : Fate (d ∷ []) before mid → Fate due mid after → Fate (d ∷ due) before after
  Fate-trans f g id org = elim (f id org) [
    | inl same ↦ elim (g id org) [
      | inl same' ↦ inl (same' ∙ same)
      | inr r ↦ inr (later-Retired id org same r)
    ]
    | inr r ↦ elim (g id org) [
      | inl same' ↦ inr (first-Retired id org r same')
      | inr q ↦ absurd (once id org r q)
    ]
  ]

archive_each-Fate :
    (cancelled : List Bool) (due : List TaskDueForArchive) (w : World)
    → Fate due w.tables.tasks (archive_each cancelled due w).1.tables.tasks
unfolding archive_each
archive_each-Fate cancelled [] w = same-Fate [] _ _ refl
archive_each-Fate (true ∷ cancelled) (d ∷ due) w = same-Fate (d ∷ due) _ _ refl
archive_each-Fate (false ∷ cancelled) (d ∷ due) w =
    Fate-trans d due _ _ _ (archive_due-Fate d w)
      (archive_each-Fate cancelled due (archive_due d w).1)
archive_each-Fate [] (d ∷ due) w =
    Fate-trans d due _ _ _ (archive_due-Fate d w) (archive_each-Fate [] due (archive_due d w).1)

-- The event and the notification of a row that was archived.
abbrev pub retirement : Task → Event
retirement row = record {
  task_id = row.id;
  org_id = row.org_id;
  wake = false;
  payload = lifecycle (record {
    kind = auto_archived;
    actor = runner_actor;
    from_status = label row.status;
    to_status = label row.status;
    message = [];
    fields = [];
  });
}

abbrev pub retirement_note : Task → Notification
retirement_note row = record {
  type = codes "change";
  resources =
      record { action = codes "archived"; type = codes "task"; id = row.id }
      ∷ record { action = codes "appended"; type = codes "task_events"; id = row.id }
      ∷ [];
  org_id = row.org_id;
  user_id = [];
  client_id = [];
  runner = [];
  task_status = unspecified;
  channel_message = [];
  ignore = false;
}

unfoldable pub retire_rows : List Task → List Task → List Task
retire_rows [] tasks = tasks
retire_rows (row ∷ rows) tasks =
    retire_rows rows (update_rows (record row { archived = true }) tasks)

-- All that was written and told: the rows archived, each with its event and its notification.
pub record Wrote (due : List TaskDueForArchive) (w w' : World) : Type 0 where
  pub rows : List Task
  pub listed_rows : All (IsDue due) rows
  pub stores : w'.tables ≡ record w.tables {
    tasks = retire_rows rows w.tables.tasks;
    events = w.tables.events ++ map retirement rows;
  }
  pub told : w'.published ≡ w.published ++ map retirement_note rows

retire_rows-append :
    (xs ys tasks : List Task) → retire_rows (xs ++ ys) tasks ≡ retire_rows ys (retire_rows xs tasks)
unfolding retire_rows
retire_rows-append [] ys tasks = refl
retire_rows-append (x ∷ xs) ys tasks = retire_rows-append xs ys _

All-append : {A : Type 0} (P : A → Type 0) (xs ys : List A) → All P xs → All P ys → All P (xs ++ ys)
All-append P [] ys h k = k
All-append P (x ∷ xs) ys (h, hs) k = (h, All-append P xs ys hs k)

map_append : {A B : Type 0} (f : A → B) (xs ys : List A) → map f (xs ++ ys) ≡ map f xs ++ map f ys
map_append f [] ys = refl
map_append f (x ∷ xs) ys = ap (λ l. f x ∷ l) (map_append f xs ys)

IsDue-more :
    (d : TaskDueForArchive) (due : List TaskDueForArchive) (rows : List Task)
    → All (IsDue due) rows
    → All (IsDue (d ∷ due)) rows
IsDue-more d due [] h = tt
IsDue-more d due (r ∷ rows) (h, hs) = (inr h, IsDue-more d due rows hs)

IsDue-first :
    (d : TaskDueForArchive) (due : List TaskDueForArchive) (rows : List Task)
    → All (IsDue (d ∷ [])) rows
    → All (IsDue (d ∷ due)) rows
IsDue-first d due [] h = tt
IsDue-first d due (r ∷ rows) (inl h, hs) = (inl h, IsDue-first d due rows hs)
IsDue-first d due (r ∷ rows) (inr h, hs) = absurd h

same-Wrote :
    (due : List TaskDueForArchive) (w w' : World)
    → w'.tables ≡ w.tables
    → w'.published ≡ w.published
    → Wrote due w w'
unfolding retire_rows
same-Wrote due w w' e p = record {
  rows = [];
  listed_rows = tt;
  stores = e ∙ ap (λ l. record w.tables { events = l }) (sym (append-nil w.tables.events));
  told = p ∙ sym (append-nil w.published);
}

Archived-Wrote :
    (d : TaskDueForArchive) (w w' : World)
    → Archived d w w'
    → Wrote (d ∷ []) w (publish (archive_notification d) w')
unfolding publish retire_rows
Archived-Wrote d w w' s =
    let key = row_key d w w' s in
    record {
      rows = s.row ∷ [];
      listed_rows = (inl (sym key.0, sym key.1, fresh-version d s.row s.fresh), tt);
      stores =
          s.stores
          ∙ ap
              (λ t. record w.tables {
                tasks = update_rows t w.tables.tasks;
                events = w.tables.events ++ auto_archived_event s.row.status t ∷ [];
              })
              (archive-is s.row s.accepted).0;
      told =
          ap (λ l. l ++ archive_notification d ∷ []) s.quiet
          ∙ ap (λ i. w.published ++ archive_notification (record d { id = i }) ∷ []) (sym key.0)
          ∙ ap
              (λ o.
                w.published ++ archive_notification (record d { id = s.row.id; org_id = o }) ∷ [])
              (sym key.1);
    }

Wrote-trans :
    (d : TaskDueForArchive) (due : List TaskDueForArchive) (w w1 w2 : World)
    → Wrote (d ∷ []) w w1
    → Wrote due w1 w2
    → Wrote (d ∷ due) w w2
Wrote-trans d due w w1 w2 a b = record {
  rows = a.rows ++ b.rows;
  listed_rows =
      All-append (IsDue (d ∷ due)) a.rows b.rows (IsDue-first d due a.rows a.listed_rows)
        (IsDue-more d due b.rows b.listed_rows);
  stores =
      b.stores
      ∙ ap
          (λ (v : Tables). record v {
            tasks = retire_rows b.rows v.tasks;
            events = v.events ++ map retirement b.rows;
          })
          a.stores
      ∙ ap
          (λ l. record w.tables {
            tasks = l;
            events = (w.tables.events ++ map retirement a.rows) ++ map retirement b.rows;
          })
          (sym (retire_rows-append a.rows b.rows w.tables.tasks))
      ∙ ap
          (λ l. record w.tables {
            tasks = retire_rows (a.rows ++ b.rows) w.tables.tasks;
            events = l;
          })
          (joined retirement w.tables.events);
  told =
      b.told
      ∙ ap (λ l. l ++ map retirement_note b.rows) a.told
      ∙ joined retirement_note w.published;
}
  where
    joined :
        {B : Type 0} (f : Task → B) (l : List B)
        → (l ++ map f a.rows) ++ map f b.rows ≡ l ++ map f (a.rows ++ b.rows)
    joined f l =
        append_assoc l (map f a.rows) (map f b.rows)
        ∙ ap (λ x. l ++ x) (sym (map_append f a.rows b.rows))

archive_due-Wrote : (d : TaskDueForArchive) (w : World) → Wrote (d ∷ []) w (archive_due d w).1
unfolding archive_due
archive_due-Wrote d w = by_result (with_tx (archive_tx d) w) (archive_tx-Settled d w)
  where
    by_result :
        (r : Result (Unit {0}) × World)
        → Settled (λ _ w'. Archived d w w') w r
        → Wrote (d ∷ []) w (archive_result d r).1
    by_result (ok _, w') s = Archived-Wrote d w w' s
    by_result (err refused, w') s = same-Wrote (d ∷ []) w w' s.0 s.1
    by_result (err driver, w') s = same-Wrote (d ∷ []) w w' s.0 s.1
    by_result (err no_rows, w') s = same-Wrote (d ∷ []) w w' s.0 s.1
    by_result (err (coded c), w') s = same-Wrote (d ∷ []) w w' s.0 s.1

archive_each-Wrote :
    (cancelled : List Bool) (due : List TaskDueForArchive) (w : World)
    → Wrote due w (archive_each cancelled due w).1
unfolding archive_each
archive_each-Wrote cancelled [] w = same-Wrote [] w w refl refl
archive_each-Wrote (true ∷ cancelled) (d ∷ due) w = same-Wrote (d ∷ due) w w refl refl
archive_each-Wrote (false ∷ cancelled) (d ∷ due) w =
    Wrote-trans d due w _ _ (archive_due-Wrote d w)
      (archive_each-Wrote cancelled due (archive_due d w).1)
archive_each-Wrote [] (d ∷ due) w =
    Wrote-trans d due w _ _ (archive_due-Wrote d w) (archive_each-Wrote [] due (archive_due d w).1)

from_answers :
    (due : List TaskDueForArchive) (w w' : World) (a : List Bool)
    → Wrote due (record w { answers = a }) w'
    → Wrote due w w'
from_answers due w w' a k = record {
  rows = k.rows;
  listed_rows = k.listed_rows;
  stores = k.stores;
  told = k.told;
}

-- A sweep of the archiver leaves every row as it was, except for rows that were listed as due, are
-- still at the version that they were listed with, and can be archived: such a row may have become
-- archived, its other columns written back as they were read. For each row archived it writes one
-- event, of that row's task and organisation, and tells one notification, and it writes and tells
-- nothing else. This holds whatever calls the database refuses, and wherever the context ends.
pub tick-Fate :
    (cancelled : List Bool) (due : List TaskDueForArchive) (w : World)
    → Fate due w.tables.tasks (tick cancelled due w).1.tables.tasks
      × Wrote due w (tick cancelled due w).1
unfolding tick
tick-Fate cancelled due w =
    by_call (call (record { view = w.tables; stored = none; answers = w.answers }))
  where
    by_call :
        (r : Result (Unit {0}) × Conn)
        → Fate due w.tables.tasks (listed cancelled due w r).1.tables.tasks
          × Wrote due w (listed cancelled due w r).1
    by_call (ok _, c) = (
      archive_each-Fate cancelled due (record w { answers = c.answers }),
      from_answers due w _ c.answers
          (archive_each-Wrote cancelled due (record w { answers = c.answers })),
    )
    by_call (err e, c) = (same-Fate due _ _ refl, same-Wrote due w _ refl refl)
