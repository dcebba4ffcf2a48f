-- ===== src/Runner/Slots.antt =====
-- The concurrency limit of the runner.
use gritz.Prelude.{
  ℕ, ◌+◌, ◌^◌, ◌≤◌, ◌<◌, ◌≡◌, refl, ap, ◌∙◌, subst, List, [], ◌∷◌, length, arith, max,
}
use gritz.Prelude.Int.{pos}
use gritz.Semaphore.{new_semaphore, set_count}
use gritz.Runner.{
  Runner, Result, ok, err, next, ask, Outside, Record, SandboxState, state_unknown, state_running,
  state_exited, state_gone, list_records,
}
use gritz.Runner.Loop.{Step, run, load, load_each, load_record, seeded}
use gritz.Runner.Quiet.{fail_if_task_running-Quiet, gone_record-Quiet}
use gritz.Runner.Rules.{ask-Post, ask-moved}
use gritz.Runner.Holding.{Holds, steps-Holds}

module _ {E : Type 0} where
  -- What a prefix of the records left: as many supervisions as were counted.
  record Counted (r : Runner E) (n : ℕ) (p : ℕ × Runner E) : Type 0 where
    counted : length p.1.supervised ≡ p.0
    limit : p.1.sem ≡ r.sem
    few : p.0 ≤ n

module _ {E : Type 0} (o : Outside E) where
  load_record-Counted :
      (rec : Record) (r : Runner E) (count : ℕ) (s : Runner E) (n : ℕ) (a : Result SandboxState)
      (e : E)
      → Counted r n (count, s)
      → Counted r (n + 1) (load_record o rec count (a, record s { outside = e }))
  load_record-Counted rec r count s n (err x) e h = record {
    counted = h.counted;
    limit = h.limit;
    few = omega (arith, h.few);
  }
  load_record-Counted rec r count s n (ok state_unknown) e h = record {
    counted = h.counted;
    limit = h.limit;
    few = omega (arith, h.few);
  }
  load_record-Counted rec r count s n (ok state_running) e h = record {
    counted = omega (arith, h.counted);
    limit = h.limit;
    few = omega (arith, h.few);
  }
  load_record-Counted rec r count s n (ok state_exited) e h =
      let (a, b) =
        fail_if_task_running-Quiet o rec.task_id rec.version (record s { outside = e }) in
      record { counted = ap length b ∙ h.counted; limit = a ∙ h.limit; few = omega (arith, h.few) }
  load_record-Counted rec r count s n (ok state_gone) e h =
      let (a, b) = gone_record-Quiet o rec.task_id rec.version (record s { outside = e }) in
      record { counted = ap length b ∙ h.counted; limit = a ∙ h.limit; few = omega (arith, h.few) }

  load_each-Counted :
      (recs : List Record) (r : Runner E) (count : ℕ) (s : Runner E) (n : ℕ)
      → Counted r n (count, s)
      → Counted r (n + length recs) (load_each o recs count s)
  unfolding load_each
  load_each-Counted [] r count s n h = record {
    counted = h.counted;
    limit = h.limit;
    few = omega (arith, h.few);
  }
  load_each-Counted (rec ∷ recs) r count s n h =
      let p = load_record o rec count (ask (o.probe rec.handle) s) in
      subst (λ m. Counted r m (load_each o recs p.0 p.1)) (omega arith)
        (load_each-Counted recs r p.0 p.1 (n + 1) (
          ask-moved (λ q. Counted r (n + 1) (load_record o rec count q)) (o.probe rec.handle) s
            (λ a e. load_record-Counted rec r count s n a e h)))

  seeded-Holds :
      (capacity : ℕ) (r : Runner E) (p : ℕ × Runner E)
      → r.sem ≡ new_semaphore (pos capacity)
      → length r.records < 2 ^ 62
      → Counted r (length r.records) p
      → Holds capacity (max capacity (length (seeded p).1.supervised)) (seeded p).1
  unfolding set_count
  seeded-Holds capacity r (count, s) fresh b h = record {
    count = count;
    sem_at = ap (set_count (pos count)) (h.limit ∙ fresh);
    small = omega (arith, h.few);
    slots = omega (arith, h.counted);
    within = omega arith;
  }

  load-Holds :
      (capacity : ℕ) (r : Runner E)
      → length r.records < 2 ^ 62
      → r.sem ≡ new_semaphore (pos capacity)
      → r.supervised ≡ []
      → Holds capacity (max capacity (length (load o r).1.supervised)) (load o r).1
  unfolding load list_records
  load-Holds capacity r b fresh none_yet =
      ask-Post (λ p. Q (next p (λ recs r. seeded (load_each o recs 0 r)))) o.accepts r
        (λ _ r. (ok r.records, r))
        (λ _ e.
          seeded-Holds capacity r (load_each o r.records 0 (record r { outside = e })) fresh b (
            subst (λ m. Counted r m (load_each o r.records 0 (record r { outside = e }))) plain
              (load_each-Counted r.records r 0 (record r { outside = e }) 0
                (record { counted = ap length none_yet; limit = refl; few = omega arith }))))
        (λ x e. record {
          count = 0;
          sem_at = fresh;
          small = omega arith;
          slots = omega (arith, ap length none_yet);
          within = omega arith;
        })
    where
      plain : 0 + length r.records ≡ length r.records
      plain = omega arith

      Q : Result (Unit {0}) × Runner E → Type 0
      Q p = Holds capacity (max capacity (length p.1.supervised)) p.1

  -- After `Load` of a new runner the sandboxes that are supervised never exceed the slots that are
  -- taken, nor the larger of the concurrency limit and the number that were found running, whatever
  -- is polled, exits or is pruned, and whatever the backend, the server and the disk answer. The
  -- limit and the number of records are below 2 ^ 62.
  pub run-Holds :
      (capacity : ℕ) (steps : List Step) (r : Runner E)
      → capacity < 2 ^ 62
      → length r.records < 2 ^ 62
      → r.sem ≡ new_semaphore (pos capacity)
      → r.supervised ≡ []
      → Holds capacity (max capacity (length (load o r).1.supervised)) (run o steps (load o r).1)
  run-Holds capacity steps r c b fresh none_yet =
      steps-Holds o capacity (max capacity (length (load o r).1.supervised)) c (omega arith) steps
        (load o r).1 (load-Holds capacity r b fresh none_yet)
