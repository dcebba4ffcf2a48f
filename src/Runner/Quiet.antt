-- ===== src/Runner/Quiet.antt =====
-- The operations of the runner that leave its slots and its supervisions as they are.
use gritz.Prelude.{
  ℕ, ◌≡◌, refl, ◌∙◌, Bool, true, false, Option, none, some, codes, if◌then◌else◌, List, [], ◌∷◌,
}
use gritz.Task.{RunnerEvent}
use gritz.Runner.{
  Runner, Result, ok, err, next, ◌>>=◌, ask, Outside, Handle, Record, SandboxState, state_unknown,
  state_running, state_exited, state_gone, TaskAnswer, task_found, task_not_found, task_error,
  find_record, handle_of, running_state, pure, read, report, kill, kill_of, is_running, running_of,
  remove, remove_of, remove_record, list_records,
}
use gritz.Runner.Loop.{
  Sandbox, failed_event, fail_by_answer, fail_if_task_running, sandboxes, list, prune_by_answer,
  prune_sandbox, prune_each, pruned, prune,
}
use gritz.Runner.Rules.{ask-Post, ask-moved, tracked-Post, remove_record-Post, report-Post}

module _ {E : Type 0} where
  abbrev pub Quiet : Runner E → Runner E → Type 0
  Quiet r s = (s.sem ≡ r.sem) × (s.supervised ≡ r.supervised)

  pub Quiet-trans : (r s t : Runner E) → Quiet r s → Quiet s t → Quiet r t
  Quiet-trans r s t (a, b) (c, d) = (c ∙ a, d ∙ b)

  Quiet-if :
      (test : Bool) (r s t : Runner E) → Quiet r s → Quiet r t → Quiet r (if test then s else t)
  Quiet-if true r s t h k = h
  Quiet-if false r s t h k = k

module _ {E : Type 0} (o : Outside E) where
  pub report-Quiet : (event : RunnerEvent) (r : Runner E) → Quiet r (report o event r)
  report-Quiet event r = report-Post o (Quiet r) event r (λ e. (refl, refl)) (λ e. (refl, refl))

  pub read-Quiet : (id : ℕ) (r : Runner E) → Quiet r (read o id r).1
  unfolding read
  read-Quiet id r =
      ask-Post (λ p. Quiet r p.1) o.accepts r (λ _ r. (ok (find_record id r.records), r))
        (λ _ e. (refl, refl)) (λ x e. (refl, refl))

  pub kill-Quiet : (id : ℕ) (r : Runner E) → Quiet r (kill o id r).1
  unfolding kill
  kill-Quiet id r =
      tracked-Post o (λ p. Quiet r p.1) id r (kill_of o)
        (λ e. by_handle (handle_of (find_record id r.records)) e) (λ x e why. (refl, refl))
    where
      by_handle :
          (found : Option Handle) (e : E) → Quiet r (kill_of o found (record r { outside = e })).1
      by_handle none e = (refl, refl)
      by_handle (some h) e =
          ask-moved (λ p. Quiet r p.1) (o.signal h) (record r { outside = e })
            (λ a e'. (refl, refl))

  pub is_running-Quiet : (id : ℕ) (r : Runner E) → Quiet r (is_running o id r).1
  unfolding is_running
  is_running-Quiet id r =
      tracked-Post o (λ p. Quiet r p.1) id r (running_of o)
        (λ e. by_handle (handle_of (find_record id r.records)) e) (λ x e why. (refl, refl))
    where
      by_handle :
          (found : Option Handle) (e : E)
          → Quiet r (running_of o found (record r { outside = e })).1
      by_handle none e = (refl, refl)
      by_handle (some h) e =
          ask-Post (λ p. Quiet r p.1) (o.probe h) (record r { outside = e })
            (λ state. pure (running_state state)) (λ a e'. (refl, refl)) (λ x e'. (refl, refl))

  remove_record-Quiet : (id : ℕ) (r : Runner E) → Quiet r (remove_record o id r).1
  remove_record-Quiet id r =
      remove_record-Post o (λ p. Quiet r p.1) id r (λ e. (refl, refl)) (λ x e why. (refl, refl))

  pub remove-Quiet : (id : ℕ) (r : Runner E) → Quiet r (remove o id r).1
  unfolding remove
  remove-Quiet id r =
      tracked-Post o (λ p. Quiet r p.1) id r (remove_of o id)
        (λ e. by_handle (handle_of (find_record id r.records)) e) (λ x e why. (refl, refl))
    where
      by_handle :
          (found : Option Handle) (e : E)
          → Quiet r (remove_of o id found (record r { outside = e })).1
      by_handle none e = (refl, refl)
      by_handle (some h) e =
          ask-Post (λ p. Quiet r p.1) (o.destroy h) (record r { outside = e })
            (λ _. remove_record o id) (λ a e'. remove_record-Quiet id (record r { outside = e' }))
            (λ x e'. (refl, refl))

  pub fail_if_task_running-Quiet :
      (id version : ℕ) (r : Runner E) → Quiet r (fail_if_task_running o id version r)
  unfolding fail_if_task_running
  fail_if_task_running-Quiet id version r =
      ask-moved (λ p. Quiet r (fail_by_answer o id version p)) (o.get_task id) r by_answer
    where
      by_answer :
          (a : TaskAnswer) (e : E)
          → Quiet r (fail_by_answer o id version (a, record r { outside = e }))
      by_answer task_not_found e = (refl, refl)
      by_answer task_error e = (refl, refl)
      by_answer (task_found t) e =
          let event = failed_event id version (codes "sandbox exited") in
          let s = record r { outside = e } in
          Quiet-if t.is_running r (report o event s) s (report-Quiet event s) (refl, refl)

  pub gone_record-Quiet :
      (id version : ℕ) (r : Runner E)
      → Quiet r (remove_record o id (fail_if_task_running o id version r)).1
  gone_record-Quiet id version r =
      Quiet-trans r (fail_if_task_running o id version r)
        (remove_record o id (fail_if_task_running o id version r)).1
        (fail_if_task_running-Quiet id version r)
        (remove_record-Quiet id (fail_if_task_running o id version r))

  sandboxes-Quiet : (recs : List Record) (r : Runner E) → Quiet r (sandboxes o recs r).1
  unfolding sandboxes
  sandboxes-Quiet [] r = (refl, refl)
  sandboxes-Quiet (rec ∷ recs) r =
      ask-Post (λ p. Quiet r p.1) (o.probe rec.handle) r
        (λ state. sandboxes o recs >>= λ rest.
          pure (record { task_id = rec.task_id; state = state } ∷ rest))
        (λ state e.
          by_rest state (sandboxes o recs (record r { outside = e }))
            (sandboxes-Quiet recs (record r { outside = e })))
        (λ x e. (refl, refl))
    where
      by_rest :
          (state : SandboxState) (p : Result (List Sandbox) × Runner E)
          → Quiet r p.1
          → Quiet r
              (next p (λ rest. pure (record { task_id = rec.task_id; state = state } ∷ rest))).1
      by_rest state (ok rest, s) h = h
      by_rest state (err x, s) h = h

  prune_answer-Quiet :
      (id : ℕ) (a : TaskAnswer) (r : Runner E) → Quiet r (prune_by_answer o id (a, r))
  prune_answer-Quiet id task_error r = (refl, refl)
  prune_answer-Quiet id task_not_found r = remove-Quiet id r
  prune_answer-Quiet id (task_found t) r =
      Quiet-if t.archived r (remove o id r).1 r (remove-Quiet id r) (refl, refl)

  asked-Quiet : (id : ℕ) (r : Runner E) → Quiet r (prune_by_answer o id (ask (o.get_task id) r))
  asked-Quiet id r =
      ask-moved (λ p. Quiet r (prune_by_answer o id p)) (o.get_task id) r
        (λ a e. prune_answer-Quiet id a (record r { outside = e }))

  prune_sandbox-Quiet :
      (id : ℕ) (state : SandboxState) (r : Runner E) → Quiet r (prune_sandbox o id state r)
  prune_sandbox-Quiet id state_running r = (refl, refl)
  prune_sandbox-Quiet id state_exited r = asked-Quiet id r
  prune_sandbox-Quiet id state_gone r = asked-Quiet id r
  prune_sandbox-Quiet id state_unknown r = asked-Quiet id r

  prune_each-Quiet : (sbs : List Sandbox) (r : Runner E) → Quiet r (prune_each o sbs r)
  unfolding prune_each
  prune_each-Quiet [] r = (refl, refl)
  prune_each-Quiet (sb ∷ sbs) r =
      let s = prune_sandbox o sb.task_id sb.state r in
      Quiet-trans r s (prune_each o sbs s) (prune_sandbox-Quiet sb.task_id sb.state r)
        (prune_each-Quiet sbs s)

  pub prune-Quiet : (r : Runner E) → Quiet r (prune o r)
  unfolding prune list list_records
  prune-Quiet r =
      ask-Post (λ p. Quiet r (pruned o (next p (sandboxes o)))) o.accepts r
        (λ _ r. (ok r.records, r))
        (λ _ e.
          by_list (sandboxes o r.records (record r { outside = e }))
            (sandboxes-Quiet r.records (record r { outside = e })))
        (λ x e. (refl, refl))
    where
      by_list : (p : Result (List Sandbox) × Runner E) → Quiet r p.1 → Quiet r (pruned o p)
      by_list (ok sbs, s) h = Quiet-trans r s (prune_each o sbs s) h (prune_each-Quiet sbs s)
      by_list (err x, s) h = h
