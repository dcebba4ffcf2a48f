-- ===== src/Server/Folding.antt =====
-- A batch of runner events against the state machine: what the handler stores and publishes is a
-- fold of the task's own reaction to each event.
use gritz.Prelude.{
  ℕ, suc, ◌≤◌, ◌≡◌, refl, sym, ap, ◌∙◌, Bool, true, false, not, Option, none, some, List, [], ◌∷◌,
  ◌++◌, length, take, arith, if◌then◌else◌,
}
use mathlib.Core.List.{append-nil, append_assoc}
use gritz.Task.{Task, RunnerEvent, apply_runner_event}
use gritz.Event.{lifecycle_event}
use gritz.Store.{
  coded, permission_denied, Code, Tables, World, Notification, Result, ok, err, find_row,
  update_rows, publish, with_tx,
}
use gritz.Store.Triples.{
  open_at, Ends, Settled, Saves, with_tx-Settled, get-Ends, check-Ends, update-Ends, events-Ends,
  commit-Ends,
}
use gritz.Scope.{allow, allow_op, op_task_write, scope_attr}
use gritz.Server.{UserInfo, respond}
use gritz.Server.Effects.{either}
use gritz.Server.Reports.{
  continue_with, if_some, applied_notification, report_if_applied, report_tx, submit_each,
  submit_runner_events,
}

-- The reaction of a row, with the notifications that are published, by the method's result.
abbrev pub react_if :
    UserInfo → RunnerEvent → Tables → Task → Task → Bool → Tables × List Notification
react_if caller e v t t' true = (
  record v {
    tasks = update_rows t' v.tasks;
    events = v.events ++ if_some (lifecycle_event e t' t.status);
  },
  applied_notification caller e t' ∷ [],
)
react_if caller e v t t' false = (v, [])

abbrev pub react : UserInfo → RunnerEvent → Tables → Task → Tables × List Notification
react caller e v t = react_if caller e v t (apply_runner_event t e).0 (apply_runner_event t e).1

abbrev pub react_at : UserInfo → RunnerEvent → Tables → Option Task → Tables × List Notification
react_at caller e v none = (v, [])
react_at caller e v (some t) = react caller e v t

abbrev pub report : UserInfo → RunnerEvent → Tables → Tables × List Notification
report caller e v = react_at caller e v (find_row e.task_id caller.org_id v.tasks)

abbrev pub reports : UserInfo → List RunnerEvent → Tables → Tables × List Notification
reports caller [] v = (v, [])
reports caller (e ∷ events) v =
    let (v1, n1) = report caller e v in let (v2, n2) = reports caller events v1 in (v2, n1 ++ n2)

abbrev heard : Notification → List Notification
heard n = if n.ignore then [] else n ∷ []

record Reported (caller : UserInfo) (e : RunnerEvent) (w : World) (n : Notification) (w' : World)
    : Type 0 where
  tables : w'.tables ≡ (report caller e w.tables).0
  notes : heard n ≡ (report caller e w.tables).1
  quiet : w'.published ≡ w.published

module _ (caller : UserInfo) (e : RunnerEvent) (w : World) where
  report_if :
      (t : Task) (applied : Bool)
      → find_row e.task_id caller.org_id w.tables.tasks ≡ some t
      → (apply_runner_event t e).1 ≡ applied
      → report caller e w.tables ≡ react_if caller e w.tables t (apply_runner_event t e).0 applied
  report_if t applied found h =
      ap (react_at caller e w.tables) found
      ∙ ap (react_if caller e w.tables t (apply_runner_event t e).0) h

  branch-Ends :
      (t : Task) (b : List Bool) (applied : Bool)
      → find_row e.task_id caller.org_id w.tables.tasks ≡ some t
      → (apply_runner_event t e).1 ≡ applied
      → Ends
          (Saves (Reported caller e w) w)
          (report_if_applied caller e t (apply_runner_event t e).0 applied (open_at w.tables b))
  branch-Ends t b false found h =
      let p = report_if t false found h in
      record { tables = ap (λ r. r.0) (sym p); notes = ap (λ r. r.1) (sym p); quiet = refl }
  branch-Ends t b true found h =
      let Q = Saves (Reported caller e w) w in
      let t' = (apply_runner_event t e).0 in
      let p = report_if t true found h in
      update-Ends Q t' _ w.tables b λ b'.
        events-Ends Q (if_some (lifecycle_event e t' t.status)) _ _ b' λ b''.
          commit-Ends Q _ _ b'' λ c. record {
            tables = ap (λ r. r.0) (sym p);
            notes = ap (λ r. r.1) (sym p);
            quiet = refl;
          }

  report_tx-Settled : Settled (Reported caller e w) w (with_tx (report_tx caller e) w)
  unfolding report_tx
  report_tx-Settled =
      let Q = Saves (Reported caller e w) w in
      with_tx-Settled (Reported caller e w) w (report_tx caller e) λ a.
        get-Ends Q e.task_id caller.org_id _ w.tables a λ t b found.
          check-Ends Q (allow caller.scopes op_task_write (scope_attr t)) (coded permission_denied)
            (λ _.
              report_if_applied caller e t (apply_runner_event t e).0 (apply_runner_event t e).1)
            w.tables b λ permitted. branch-Ends t b (apply_runner_event t e).1 found refl

-- What one event's transaction leaves, told by its answer.
abbrev Settles : UserInfo → RunnerEvent → World → Option Code × World → Type 0
Settles caller e w (none, w') =
    (w'.tables ≡ (report caller e w.tables).0)
    × (w'.published ≡ w.published ++ (report caller e w.tables).1)
Settles caller e w (some c, w') = (w'.tables ≡ w.tables) × (w'.published ≡ w.published)

publish-heard :
    (n : Notification) (w : World)
    → ((publish n w).tables ≡ w.tables) × ((publish n w).published ≡ w.published ++ heard n)
unfolding publish
publish-heard n w = ground (arith, append-nil w.published)

respond-Settles :
    (caller : UserInfo) (e : RunnerEvent) (w : World) (r : Result Notification × World)
    → Settled (Reported caller e w) w r
    → Settles caller e w (respond r)
respond-Settles caller e w (err f, w') s = s
respond-Settles caller e w (ok n, w') s =
    let (same, more) = publish-heard n w' in
    (same ∙ s.tables, more ∙ ap (λ l. l ++ heard n) s.quiet ∙ ap (λ l. w.published ++ l) s.notes)

-- How far a batch got: the events before it stopped, and their effect.
pub record Submitted (caller : UserInfo) (events : List RunnerEvent) (w : World)
    (r : Option Code × World) : Type 0 where
  pub done : ℕ
  pub within : done ≤ length events
  pub tables : r.1.tables ≡ (reports caller (take done events) w.tables).0
  pub published : r.1.published ≡ w.published ++ (reports caller (take done events) w.tables).1
  pub all : r.0 ≡ none → done ≡ length events

none-Submitted :
    (caller : UserInfo) (events : List RunnerEvent) (w : World) (c : Code) (w' : World)
    → (w'.tables ≡ w.tables) × (w'.published ≡ w.published)
    → Submitted caller events w (some c, w')
none-Submitted caller events w c w' (p, q) = record {
  done = 0;
  within = omega arith;
  tables = p;
  published = q ∙ sym (append-nil w.published);
  all = λ h. cc;
}

append_reports :
    (a b c : List Notification) (x : List Notification) → b ≡ a ++ c → b ++ x ≡ a ++ (c ++ x)
append_reports a b c x h = ap (λ l. l ++ x) h ∙ append_assoc a c x

step-Submitted :
    (caller : UserInfo) (e : RunnerEvent) (events : List RunnerEvent) (w : World)
    (r : Option Code × World)
    → Settles caller e w r
    → ((w' : World) → Submitted caller events w' (submit_each caller events w'))
    → Submitted caller (e ∷ events) w (continue_with (submit_each caller events) r)
step-Submitted caller e events w (some c, w') s k = none-Submitted caller (e ∷ events) w c w' s
step-Submitted caller e events w (none, w') (stored, noted) k =
    let h = k w' in
    record {
      done = suc h.done;
      within = omega (arith, h.within);
      tables = h.tables ∙ ap (λ v. (reports caller (take h.done events) v).0) stored;
      published =
          h.published
          ∙ ap (λ v. w'.published ++ (reports caller (take h.done events) v).1) stored
          ∙ append_reports w.published w'.published (report caller e w.tables).1 _ noted;
      all = λ answered. ap suc (h.all answered);
    }

submit_each-Submitted :
    (caller : UserInfo) (events : List RunnerEvent) (w : World)
    → Submitted caller events w (submit_each caller events w)
unfolding submit_each
submit_each-Submitted caller [] w = record {
  done = 0;
  within = omega arith;
  tables = refl;
  published = sym (append-nil w.published);
  all = λ h. refl;
}
submit_each-Submitted caller (e ∷ events) w =
    step-Submitted caller e events w _ (respond-Settles caller e w _ (report_tx-Settled caller e w))
      (submit_each-Submitted caller events)

-- A batch of runner events is the fold of the task's reaction over the events before the first
-- whose transaction fails, and over all of them where the handler answers with a response: the
-- tables hold the rows and lifecycle events of exactly these reactions, and a notification is
-- published for each event that was applied and for no other.
pub submit_runner_events-Submitted :
    (caller : UserInfo) (events : List RunnerEvent) (w : World)
    → Submitted caller events w (submit_runner_events caller events w)
unfolding submit_runner_events
submit_runner_events-Submitted caller events w =
    either (Submitted caller events w) (not (allow_op caller.scopes op_task_write))
      (some permission_denied, w) (submit_each caller events w)
      (none-Submitted caller events w permission_denied w (refl, refl))
      (submit_each-Submitted caller events w)
