-- ===== src/Agent/Rules.antt =====
-- What a call leads to: each rule reduces a sequence that begins with a call to what follows it.
use gritz.Prelude.{ℕ, ◌≡◌, refl, ap, Bytes, codes, ◌++◌}
use gritz.Agent.{
  Result, ok, err, Config, Outside, Driver, Run, next, ask, ask_noted, noted, moved, wrapped, save,
  saved,
}

-- Somewhere the call answers with an error.
abbrev pub Failing : {E A : Type 0} → (E → Result A × E) → Type 0
Failing {E} g = (x : Bytes) × (at : E) × ((g at).0 ≡ err x)

module _ {E A B : Type 0} (Q : Result B × Driver E → Type 0) where
  pub ask-Post :
      (text : Bytes) (g : E → Result A × E) (d : Driver E) (f : A → Run E B)
      → ((a : A) (e : E) → Q (f a (record d { outside = e })))
      → ((x : Bytes) (e : E) → Failing g → Q (err x, record d { outside = e }))
      → Q (next (ask text g d) f)
  unfolding ask
  ask-Post text g d f k h = by_answer (g d.outside) refl
    where
      by_answer : (p : Result A × E) → g d.outside ≡ p → Q (next (moved d (wrapped text p)) f)
      by_answer (ok a, e) same = k a e
      by_answer (err x, e) same = h (text ++ x) e (x, d.outside, ap (λ q. q.0) same)

  -- The same, where the answer matters.
  pub answer-Post :
      (text : Bytes) (g : E → Result A × E) (d : Driver E) (f : A → Run E B)
      → ((a : A) (e : E) → g d.outside ≡ (ok a, e) → Q (f a (record d { outside = e })))
      → ((x : Bytes) (e : E)
          → g d.outside ≡ (err x, e)
          → Q (err (text ++ x), record d { outside = e }))
      → Q (next (ask text g d) f)
  unfolding ask
  answer-Post text g d f k h = by_answer (g d.outside) refl
    where
      by_answer : (p : Result A × E) → g d.outside ≡ p → Q (next (moved d (wrapped text p)) f)
      by_answer (ok a, e) same = k a e same
      by_answer (err x, e) same = h x e same

module _ {E A B : Type 0} (Q : Result B × Driver E → Type 0) where
  pub noted-Post :
      (text : Bytes) (note : A → Driver E → Driver E) (g : A → E → Result (Unit {0}) × E) (a : A)
      (d : Driver E) (f : Unit {0} → Run E B)
      → ((e : E) → g a d.outside ≡ (ok _, e) → Q (f _ (note a (record d { outside = e }))))
      → ((x : Bytes) (e : E) → Failing (g a) → Q (err x, record d { outside = e }))
      → Q (next (ask_noted text note g a d) f)
  unfolding ask
  noted-Post text note g a d f k h = by_answer (g a d.outside) refl
    where
      by_answer :
          (p : Result (Unit {0}) × E)
          → g a d.outside ≡ p
          → Q (next (noted (note a) (moved d (wrapped text p))) f)
      by_answer (ok _, e) same = k e same
      by_answer (err x, e) same = h (text ++ x) e (x, d.outside, ap (λ q. q.0) same)

module _ {E B : Type 0} (o : Outside E) (task_id : ℕ) (Q : Result B × Driver E → Type 0) where
  pub save-Post :
      (cfg : Config) (d : Driver E) (f : Unit {0} → Run E B)
      → ((e : E) → Q (f _ (record d { outside = e; file = cfg })))
      → ((x : Bytes) (e : E) → Failing o.write_config → Q (err x, record d { outside = e }))
      → Q (next (save o task_id cfg d) f)
  unfolding save
  save-Post cfg d f k h =
      ask-Post (λ p. Q (next p f)) (codes "failed to save config: ") o.write_config d
        (λ _. saved cfg) (λ _ e. k e) h

module _ {E : Type 0} (o : Outside E) (task_id : ℕ)
    (Q : Result (Unit {0}) × Driver E → Type 0) where
  pub save_last-Post :
      (cfg : Config) (d : Driver E)
      → ((e : E) → Q (ok _, record d { outside = e; file = cfg }))
      → ((x : Bytes) (e : E) → Failing o.write_config → Q (err x, record d { outside = e }))
      → Q (save o task_id cfg d)
  unfolding save
  save_last-Post cfg d k h =
      ask-Post Q (codes "failed to save config: ") o.write_config d (λ _. saved cfg) (λ _ e. k e) h

module _ {E A : Type 0} (Q : Result A × Driver E → Type 0) where
  pub ask_last-Post :
      (text : Bytes) (g : E → Result A × E) (d : Driver E)
      → ((r : Result A) (e : E) → Q (r, record d { outside = e }))
      → Q (ask text g d)
  unfolding ask
  ask_last-Post text g d k = by_answer (g d.outside)
    where
      by_answer : (p : Result A × E) → Q (moved d (wrapped text p))
      by_answer (ok a, e) = k (ok a) e
      by_answer (err x, e) = k (err (text ++ x)) e
