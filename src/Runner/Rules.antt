-- ===== src/Runner/Rules.antt =====
-- What a call leads to: each rule reduces a sequence that begins with a call to what follows it.
use gritz.Prelude.{ℕ, ◌≡◌, ◌≢◌, refl, ap, true, Option, none, some, List, [], ◌∷◌, ◌++◌, arith}
use gritz.Task.{RunnerEvent}
use gritz.Runner.{
  Runner, Error, Run, Result, ok, err, next, moved, ask, Outside, Handle, Record, find_record,
  put_record, drop_record, handle_of, pure, read, write, remove_record, tracked, enqueue, report,
  or_die,
}

-- Somewhere the call answers with an error.
abbrev pub Failing : {E A : Type 0} → (E → Result A × E) → Type 0
Failing {E} g = (x : Error) × (at : E) × ((g at).0 ≡ err x)

module _ {E : Type 0} {A B : Type 0} (Q : Result B × Runner E → Type 0) where
  pub ask-Post :
      (g : E → Result A × E) (r : Runner E) (f : A → Run E B)
      → ((a : A) (e : E) → Q (f a (record r { outside = e })))
      → ((x : Error) (e : E) → Q (err x, record r { outside = e }))
      → Q (next (ask g r) f)
  unfolding ask
  ask-Post g r f k h = by_answer (g r.outside)
    where
      by_answer : (p : Result A × E) → Q (next (moved r p) f)
      by_answer (ok a, e) = k a e
      by_answer (err x, e) = h x e

  -- The same, where the answer matters.
  pub answer-Post :
      (g : E → Result A × E) (r : Runner E) (f : A → Run E B)
      → ((a : A) (e : E) → g r.outside ≡ (ok a, e) → Q (f a (record r { outside = e })))
      → ((x : Error) (e : E) → Failing g → Q (err x, record r { outside = e }))
      → Q (next (ask g r) f)
  unfolding ask
  answer-Post g r f k h = by_answer (g r.outside) refl
    where
      by_answer : (p : Result A × E) → g r.outside ≡ p → Q (next (moved r p) f)
      by_answer (ok a, e) same = k a e same
      by_answer (err x, e) same = h x e (x, r.outside, ap (λ q. q.0) same)

module _ {E : Type 0} {A : Type 0} where
  pub ask-moved :
      (Q : A × Runner E → Type 0) (g : E → A × E) (r : Runner E)
      → ((a : A) (e : E) → Q (a, record r { outside = e }))
      → Q (ask g r)
  unfolding ask
  ask-moved Q g r k = by_answer (g r.outside)
    where
      by_answer : (p : A × E) → Q (moved r p)
      by_answer (a, e) = k a e

module _ {E : Type 0} (o : Outside E) {B : Type 0} (Q : Result B × Runner E → Type 0) where
  pub read-Post :
      (id : ℕ) (r : Runner E) (f : Option Record → Run E B)
      → ((e : E) → Q (f (find_record id r.records) (record r { outside = e })))
      → ((x : Error) (e : E) → Q (err x, record r { outside = e }))
      → Q (next (read o id r) f)
  unfolding read
  read-Post id r f k h = ask-Post (λ p. Q (next p f)) o.accepts r _ (λ _ e. k e) h

module _ {E : Type 0} (o : Outside E) {B : Type 0} (Q : Result B × Runner E → Type 0) where
  pub tracked-Post :
      (id : ℕ) (r : Runner E) (f : Option Handle → Run E B)
      → ((e : E) → Q (f (handle_of (find_record id r.records)) (record r { outside = e })))
      → ((x : Error) (e : E) → Failing o.accepts → Q (err x, record r { outside = e }))
      → Q (next (tracked o id r) f)
  unfolding tracked read
  tracked-Post id r f k h =
      answer-Post (λ p. Q (next (next p (λ x. pure (handle_of x))) f)) o.accepts r _
        (λ _ e same. k e) h

module _ {E : Type 0} (o : Outside E) where
  module _ (Q : Result (Unit {0}) × Runner E → Type 0) where
    pub write-Post :
        (rec : Record) (r : Runner E)
        → ((e : E) → Q (ok _, record r { records = put_record rec r.records; outside = e }))
        → ((x : Error) (e : E) → Failing o.accepts → Q (err x, record r { outside = e }))
        → Q (write o rec r)
    unfolding write
    write-Post rec r k h = answer-Post Q o.accepts r _ (λ _ e same. k e) h

    pub remove_record-Post :
        (id : ℕ) (r : Runner E)
        → ((e : E) → Q (ok _, record r { records = drop_record id r.records; outside = e }))
        → ((x : Error) (e : E) → Failing o.accepts → Q (err x, record r { outside = e }))
        → Q (remove_record o id r)
    unfolding remove_record
    remove_record-Post id r k h = answer-Post Q o.accepts r _ (λ _ e same. k e) h

  -- A report is accepted by the outbox, or the runner dies.
  pub report-Post :
      (Q : Runner E → Type 0) (event : RunnerEvent) (r : Runner E)
      → ((e : E) → Q (record r { queue = r.queue ++ event ∷ []; outside = e }))
      → ((e : E) → Q (record r { died = true; outside = e }))
      → Q (report o event r)
  unfolding report enqueue
  report-Post Q event r k h = ask-Post (λ p. Q (or_die p)) o.accepts r _ (λ _ e. k e) (λ x e. h e)

pub find_record-put :
    (rec : Record) (recs : List Record) → find_record rec.task_id (put_record rec recs) ≡ some rec
unfolding find_record put_record
find_record-put rec [] = ground arith
find_record-put rec (x ∷ xs) = ground (arith, find_record-put rec xs)

pub find_record-put_other :
    (id : ℕ) (rec : Record) (recs : List Record)
    → rec.task_id ≢ id
    → find_record id (put_record rec recs) ≡ find_record id recs
unfolding find_record put_record
find_record-put_other id rec [] h = ground arith
find_record-put_other id rec (x ∷ xs) h = ground (arith, find_record-put_other id rec xs h)

pub find_record-drop : (id : ℕ) (recs : List Record) → find_record id (drop_record id recs) ≡ none
unfolding find_record drop_record
find_record-drop id [] = refl
find_record-drop id (x ∷ xs) = ground (arith, find_record-drop id xs)

pub find_record-drop_other :
    (id other : ℕ) (recs : List Record)
    → id ≢ other
    → find_record other (drop_record id recs) ≡ find_record other recs
unfolding find_record drop_record
find_record-drop_other id other [] h = refl
find_record-drop_other id other (x ∷ xs) h = ground (arith, find_record-drop_other id other xs h)
