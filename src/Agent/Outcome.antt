-- ===== src/Agent/Outcome.antt =====
-- What a run tells the server, and what its exit code says.
use gritz.Prelude.{
  ℕ, ◌≡◌, ◌⊎◌, inl, inr, refl, ap, sym, ◌∙◌, Bool, true, false, Option, none, some, if◌then◌else◌,
  [], ◌∷◌, ◌++◌, Bytes, codes, length, ◌==◌, by_test,
}
use mathlib.Core.List.{append_assoc}
use gritz.Task.{Task, RunnerEvent, RunnerEventType, started, stopped, failure}
use gritz.Agent.{
  Run, Result, ok, err, Outside, Driver, next, submit, submitted, run_task, event_of, failure_of,
  terminal_event, exit_of, run_started, run_driver,
}
use gritz.Agent.Rules.{answer-Post, ask_last-Post}
use gritz.Agent.Cursor.{AgentRun, run_agent-AgentRun}

-- The result says whether an error was returned.
abbrev pub is_ok : {A : Type 0} → Result A → Bool
is_ok (ok a) = true
is_ok (err x) = false

-- A report on the run of a task, under the version of the task.
abbrev pub report : ℕ → Task → RunnerEventType → Bytes → RunnerEvent
report id task kind reason = record {
  task_id = id;
  event = kind;
  version = task.version;
  reconcile = false;
  reason = reason;
}

module _ {E : Type 0} (o : Outside E) (id : ℕ) (d : Driver E) where
  -- The driver once the start was acknowledged.
  abbrev pub after_start : Task → E → Driver E
  after_start task e = record d {
    outside = e;
    sent = d.sent ++ (report id task started [], true) ∷ [];
  }

  -- How a run ended, as the server is told.
  abbrev pub end_report : Task → Result (Unit {0}) × Driver E → RunnerEvent
  end_report task (ok _, d') = report id task stopped []
  end_report task (err x, d') =
      if o.is_stopped d'.outside then report id task stopped [] else report id task failure x

  -- The start was not acknowledged.
  abbrev pub Unstarted : Task → E → Result (Unit {0}) → Driver E → Type 0
  Unstarted task e r d' =
      (x : Bytes) × (e' : E) × (o.submit (report id task started []) e ≡ (err x, e'))
      × (is_ok r ≡ false)
      × (d'.sent ≡ d.sent ++ (report id task started [], false) ∷ [])

  -- The start was acknowledged, and the event of the end was submitted after the task.
  abbrev pub Ended : Task → E → Result (Unit {0}) → Driver E → Type 0
  Ended task e r d' =
      (e' : E) × (o.submit (report id task started []) e ≡ (ok _, e'))
      × (let ran = run_task o id task (after_start task e') in
          (is_ok (o.submit (end_report task ran) ran.1.outside).0 ≡ is_ok r)
          × (d'.sent
              ≡ d.sent ++ (report id task started [], true) ∷ (end_report task ran, is_ok r) ∷ []))

  -- What was submitted, and whether it was acknowledged, for each way that a run ends: without a task,
  -- with a start that was not acknowledged, or with the event of how the task ended.
  abbrev pub Told : Result (Unit {0}) × Driver E → Type 0
  Told (r, d') =
      ((x : Bytes) × ((o.get_task id d.outside).0 ≡ err x) × (is_ok r ≡ false) × (d'.sent ≡ d.sent))
      ⊎ ((task : Task) × (e : E) × (o.get_task id d.outside ≡ (ok task, e))
          × (Unstarted task e r d' ⊎ Ended task e r d'))

module _ {E : Type 0} (o : Outside E) (id : ℕ) where
  AgentRun-sent :
      (d : Driver E) (task : Task) (r : Result (Unit {0}) × Driver E)
      → AgentRun o id task d r
      → r.1.sent ≡ d.sent
  AgentRun-sent d task (ok _, d') (events, e, i, walk, given, flag, at, ran, worked, sent) = sent
  AgentRun-sent d task (err x, d') (u, why) = u.sent

  run_task-sent : (task : Task) (d : Driver E) → (run_task o id task d).1.sent ≡ d.sent
  unfolding run_task
  run_task-sent task d =
      by_test (λ (f : Run E (Unit {0})). (f d).1.sent ≡ d.sent) (length task.shell_session == 0) _ _
        (λ e. AgentRun-sent d task _ (run_agent-AgentRun o id task d))
        (λ e.
          ask_last-Post (λ (p : Result (Unit {0}) × Driver E). p.1.sent ≡ d.sent) []
            (o.serve_shell task.shell_session) d (λ r e'. refl))

  -- The event of the end follows what was sent before, and the result says whether it arrived.
  exit_told :
      (failed : Option Bytes) (event : RunnerEvent) (d : Driver E) (p : Result (Unit {0}) × E)
      → (exit_of o id failed (submitted event d p)).1.sent
        ≡ d.sent ++ (event, is_ok (exit_of o id failed (submitted event d p)).0) ∷ []
  exit_told failed event d (ok _, e) = refl
  exit_told failed event d (err x, e) = refl

  -- The code's event of the end is the one that is told.
  end-is_reported :
      (task : Task) (d : Driver E) (p : Result (Unit {0}) × Driver E)
      → terminal_event o id task (failure_of o id p) ≡ end_report o id d task p
  end-is_reported task d (ok _, d') = refl
  end-is_reported task d (err x, d') = by_stop (o.is_stopped d'.outside)
    where
      by_stop :
          (b : Bool)
          → terminal_event o id task (if b then none else some x)
            ≡ (if b then report id task stopped [] else report id task failure x)
      by_stop true = refl
      by_stop false = refl

  exit_acks :
      (failed : Option Bytes) (event : RunnerEvent) (d : Driver E) (p : Result (Unit {0}) × E)
      → is_ok p.0 ≡ is_ok (exit_of o id failed (submitted event d p)).0
  exit_acks failed event d (ok _, e) = refl
  exit_acks failed event d (err x, e) = refl

  started-Told :
      (task : Task) (e0 : E) (d : Driver E) (p : Result (Unit {0}) × E)
      → o.get_task id d.outside ≡ (ok task, e0)
      → o.submit (report id task started []) e0 ≡ p
      → Told o id d (
          next
            (submitted (event_of o id task started []) (record d { outside = e0 }) p)
            (λ _. run_started o id task))
  unfolding submit
  started-Told task e0 d (err x, e) same not_acked =
      inr (task, e0, same, inl (x, e, not_acked, refl, refl))
  started-Told task e0 d (ok _, e) same acked =
      let d1 = after_start o id d task e in
      let x = run_task o id task d1 in
      let failed = failure_of o id x in
      let event = terminal_event o id task failed in
      let answer = o.submit event x.1.outside in
      let left = is_ok (exit_of o id failed (submitted event x.1 answer)).0 in
      let told = end-is_reported task d x in
      inr (
        task,
        e0,
        same,
        inr (
          e,
          acked,
          (
            ap (λ v. is_ok (o.submit v x.1.outside).0) (sym told)
                ∙ exit_acks failed event x.1 answer,
            exit_told failed event x.1 answer
                ∙ ap (λ l. l ++ (event, left) ∷ []) (run_task-sent task d1)
                ∙ append_assoc d.sent _ _
                ∙ ap (λ v. d.sent ++ (report id task started [], true) ∷ (v, left) ∷ []) told,
          ),
        ),
      )

  -- A run tells the server, under the version of the task that it fetched, first that it started and
  -- then, once that was acknowledged and the task has ended, that it stopped or failed: failed exactly
  -- where the task returned an error and the run was not told to stop, with the error as the reason.
  -- The driver returns without an error exactly when this last event was acknowledged. Without a task
  -- nothing is sent, and without the first acknowledgement nothing more.
  pub run_driver-Told : (d : Driver E) → Told o id d (run_driver o id d)
  unfolding run_driver submit
  run_driver-Told d =
      answer-Post (Told o id d) (codes "failed to get task: ") (o.get_task id) d _
        (λ task e same.
          started-Told task e d (o.submit (event_of o id task started []) e) same refl)
        (λ x e same. inl (x, ap (λ q. q.0) same, refl, refl))
