-- ===== src/Trie/Lookup.antt =====
-- Lookup finds the longest stored key that is a prefix of its input, and a lookup that is not
-- partial is settled: more input does not change it.
use gritz.Prelude.{
  ℕ, zero, suc, ◌+◌, ◌≤◌, ◌<◌, ◌≡◌, ◌⊎◌, refl, sym, ap, ◌∙◌, Bool, true, false, Option, none, some,
  [], ◌∷◌, ◌++◌, Bytes, arith, length, take, Option-cases, Bool-cases, inl, inr, if◌then◌else◌,
}
use gritz.Trie.{
  Node, node, Children, end, child, Trie, value, terminal, children, has_children, find, walk,
  lookup,
}
use gritz.Trie.Store.{get_from, get}

if_true {ℓ} : {A : Type ℓ} (b : Bool) (x y : A) → b ≡ true → (if b then x else y) ≡ x
if_true b x y e = rw e

module _ {ℓ} {V : Type ℓ} where
  -- No non-empty prefix of `p` longer than `m` bytes is a key.
  abbrev pub NoneAbove : (Bytes → Option V) → Bytes → ℕ → Type ℓ
  NoneAbove stored p m = (k : ℕ) → m < k → k ≤ length p → stored (take k p) ≡ none

  -- After `i` bytes: the result names the longest stored prefix, or there is none and it is what
  -- the walk had before.
  abbrev pub Longest : (Bytes → Option V) → Bytes → ℕ → ℕ → V → ℕ × V × Bool → Type ℓ
  Longest stored p i n v r =
      ((r.0 ≡ n) × (r.1 ≡ v) × NoneAbove stored p 0)
      ⊎ ((m : ℕ) × (0 < m)
          × (m ≤ length p)
          × (r.0 ≡ i + m)
          × (stored (take m p) ≡ some r.1)
          × NoneAbove stored p m)

  NoneAbove-suc :
      (cur next : Node V) (c : ℕ) (rest : Bytes) (m : ℕ)
      → find c (children cur) ≡ some next
      → NoneAbove (get_from next) rest m
      → NoneAbove (get_from cur) (c ∷ rest) (suc m)
  unfolding get_from
  NoneAbove-suc cur next c rest m e h zero lo hi = absurd (omega arith)
  NoneAbove-suc cur next c rest m e h (suc k) lo hi =
      rw (e, get_from) (h k (omega arith) (omega arith))

  NoneAbove-zero :
      (cur next : Node V) (c : ℕ) (rest : Bytes)
      → find c (children cur) ≡ some next
      → terminal next ≡ false
      → NoneAbove (get_from next) rest 0
      → NoneAbove (get_from cur) (c ∷ rest) 0
  unfolding get_from
  NoneAbove-zero cur next c rest e t h zero lo hi = absurd (omega arith)
  NoneAbove-zero cur next c rest e t h (suc zero) lo hi = rw (e, get_from) (rw (t, get_from) refl)
  NoneAbove-zero cur next c rest e t h (suc (suc k)) lo hi =
      rw (e, get_from) (h (suc k) (omega arith) (omega arith))

  NoneAbove-missing :
      (cur : Node V) (c : ℕ) (rest : Bytes)
      → find c (children cur) ≡ none
      → NoneAbove (get_from cur) (c ∷ rest) 0
  unfolding get_from
  NoneAbove-missing cur c rest e zero lo hi = absurd (omega arith)
  NoneAbove-missing cur c rest e (suc k) lo hi = rw (e, get_from)

  get_from-below :
      (cur next : Node V) (c : ℕ) (rest : Bytes) (m : ℕ)
      → find c (children cur) ≡ some next
      → get_from cur (take (suc m) (c ∷ rest)) ≡ get_from next (take m rest)
  unfolding get_from
  get_from-below cur next c rest m e = rw (e, get_from)

  get_from-terminal : (n : Node V) → terminal n ≡ true → get_from n [] ≡ some (value n)
  unfolding get_from
  get_from-terminal n t = rw t

  -- One step of the walk down to `next`.
  Longest-next :
      (cur next : Node V) (c : ℕ) (rest : Bytes) (i n : ℕ) (v : V) (r : ℕ × V × Bool)
      → find c (children cur) ≡ some next
      → Longest
          (get_from next)
          rest
          (i + 1)
          (if terminal next then i + 1 else n)
          (if terminal next then value next else v)
          r
      → Longest (get_from cur) (c ∷ rest) i n v r
  Longest-next cur next c rest i n v r e (inr (m, pos, len, rn, found, above)) = inr (
    suc m,
    omega arith,
    omega arith,
    omega arith,
    get_from-below cur next c rest m e ∙ found,
    NoneAbove-suc cur next c rest m e above,
  )
  Longest-next cur next c rest i n v r e (inl (rn, rv, above)) = elim (Bool-cases (terminal next)) [
    | inl t ↦ inr (
      1,
      omega arith,
      omega arith,
      rn ∙ rw t,
      get_from-below cur next c rest 0 e
          ∙ get_from-terminal next t
          ∙ ap some (sym (rv ∙ if_true (terminal next) (value next) v t)),
      NoneAbove-suc cur next c rest 0 e above,
    )
    | inr t ↦ inl (rn ∙ rw t, rv ∙ rw t, NoneAbove-zero cur next c rest e t above)
  ]

  walk-Longest :
      (cur : Node V) (i : ℕ) (p : Bytes) (n : ℕ) (v : V)
      → Longest (get_from cur) p i n v (walk cur i p n v)
  unfolding walk
  walk-Longest cur i [] n v = inl (refl, refl, λ k lo hi. absurd (omega arith))
  walk-Longest cur i (c ∷ rest) n v = elim (Option-cases (find c (children cur))) [
    | inl e ↦ rw (e, walk) (inl (refl, refl, NoneAbove-missing cur c rest e))
    | inr (next, e) ↦
        rw (e, walk)
          (Longest-next cur next c rest i n v
            (walk next (i + 1) rest (if terminal next then i + 1 else n)
              (if terminal next then value next else v))
            e
            (walk-Longest next (i + 1) rest (if terminal next then i + 1 else n)
              (if terminal next then value next else v)))
  ]

  settled_end :
      (kids : Children V) (w : V) (t : Bool) (i : ℕ) (q : Bytes) (n : ℕ) (v : V)
      → has_children kids ≡ false
      → walk (node kids w t) i q n v ≡ (n, v, false)
  unfolding walk find
  settled_end end w t i [] n v h = refl
  settled_end end w t i (c ∷ q) n v h = refl
  settled_end (child d m rest) w t i q n v h = cc

  walk_settled :
      (cur : Node V) (i : ℕ) (p q : Bytes) (n : ℕ) (v : V)
      → (walk cur i p n v).2 ≡ false
      → walk cur i (p ++ q) n v ≡ walk cur i p n v
  unfolding walk
  walk_settled (node kids w t) i [] q n v h = settled_end kids w t i q n v h ∙ rw h
  walk_settled cur i (c ∷ rest) q n v h = elim (Option-cases (find c (children cur))) [
    | inl e ↦ rw (e, walk)
    | inr (next, e) ↦
        rw (e, walk)
          (walk_settled next (i + 1) rest q (if terminal next then i + 1 else n)
            (if terminal next then value next else v) (rw (e, walk) at h))
  ]

module _ {ℓ} {V : Type ℓ} (blank : V) where
  -- Lookup reports a positive length m exactly of the longest non-empty prefix of the input that is
  -- stored as a key, with the value stored under it; where no prefix is a key it reports length 0
  -- and the zero value.
  pub lookup-Longest : (t : Trie V) (p : Bytes) → Longest (get t) p 0 0 blank (lookup blank t p)
  unfolding lookup get
  lookup-Longest none p = inl (refl, refl, λ k lo hi. refl)
  lookup-Longest (some root) p = walk-Longest root 0 p 0 blank

  -- A lookup that does not report partial is settled: its length and value stay the same whatever
  -- bytes follow the input.
  pub lookup_settled :
      (t : Trie V) (p q : Bytes)
      → (lookup blank t p).2 ≡ false
      → lookup blank t (p ++ q) ≡ lookup blank t p
  unfolding lookup
  lookup_settled none p q h = refl
  lookup_settled (some root) p q h = walk_settled root 0 p q 0 blank h

  pub lookup-le-length : (t : Trie V) (p : Bytes) → (lookup blank t p).0 ≤ length p
  lookup-le-length t p = elim (lookup-Longest t p) [
    | inl (n, v, above) ↦ omega arith
    | inr (m, pos, len, n, found, above) ↦ omega arith
  ]
