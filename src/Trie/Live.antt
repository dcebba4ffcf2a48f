-- ===== src/Trie/Live.antt =====
-- Every node that Put makes leads to a key, so a partial lookup has a longer key to wait for.
use gritz.Prelude.{
  ℕ, ◌+◌, ◌≡◌, ◌↔◌, ◌⊎◌, refl, subst, Bool, true, false, Option, none, some, [], ◌∷◌, ◌++◌, Bytes,
  arith, ◌==◌, ==-refl, Option-cases, Bool-cases, inl, inr, if◌then◌else◌,
}
use gritz.Trie.{
  Node, node, Children, end, child, Trie, value, terminal, children, has_children, find, set_child,
  new_node, or_new, put_from, put, walk, lookup,
}
use gritz.Trie.Store.{get_from, get}

-- A node that is a key or has children, and so has each below it.
mutual
  pub Live {ℓ} : {V : Type ℓ} → Node V → Type 0
  Live (node kids v t) = ((t ≡ true) ⊎ (has_children kids ≡ true)) × AllLive kids

  pub AllLive {ℓ} : {V : Type ℓ} → Children V → Type 0
  AllLive end = Unit {0}
  AllLive (child c n rest) = Live n × AllLive rest

-- The root alone may be without a key.
abbrev pub IsLive {ℓ} : {V : Type ℓ} → Trie V → Type 0
IsLive none = Unit {0}
IsLive (some root) = AllLive (children root)

module _ {ℓ} {V : Type ℓ} where
  find-Live :
      (c : ℕ) (kids : Children V) (m : Node V) → AllLive kids → find c kids ≡ some m → Live m
  unfolding find Live
  find-Live c end m h e = absurd (cc e)
  find-Live c (child d n rest) m h e = elim (Bool-cases (d == c)) [
    | inl hit ↦ let same : n ≡ m = ground arith in subst Live same h.0
    | inr miss ↦ find-Live c rest m h.1 (ground arith)
  ]

  set_child-AllLive :
      (c : ℕ) (m : Node V) (kids : Children V)
      → Live m
      → AllLive kids
      → AllLive (set_child c m kids)
  unfolding set_child Live
  set_child-AllLive c m end hm h = (hm, tt)
  set_child-AllLive c m (child d n rest) hm h = elim (Bool-cases (d == c)) [
    | inl hit ↦ rw (hit, set_child) (hm, h.1)
    | inr miss ↦ rw (miss, set_child) (h.0, set_child-AllLive c m rest hm h.1)
  ]

  set_child-has_children :
      (c : ℕ) (m : Node V) (kids : Children V) → has_children (set_child c m kids) ≡ true
  unfolding set_child
  set_child-has_children c m end = refl
  set_child-has_children c m (child d n rest) = ground arith

  children-AllLive : (m : Node V) → Live m → AllLive (children m)
  unfolding Live
  children-AllLive (node kids v t) h = h.1

  -- A key below a live node.
  abbrev pub KeyBelow : Node V → Type ℓ
  KeyBelow n = (s : Bytes) × (v : V) × (get_from n s ≡ some v)

  KeyBelow-child : (c : ℕ) (n m : Node V) → find c (children n) ≡ some m → KeyBelow m → KeyBelow n
  unfolding get_from
  KeyBelow-child c n m e (s, v, h) = (c ∷ s, v, rw (e, get_from) h)

  find-first : (c : ℕ) (m : Node V) (rest : Children V) → find c (child c m rest) ≡ some m
  unfolding find
  find-first c m rest = rw (==-refl c)

  Live-KeyBelow : (n : Node V) → Live n → KeyBelow n
  unfolding Live
  Live-KeyBelow (node end v true) h = ([], v, unfold get_from in refl)
  Live-KeyBelow (node end v false) (inl e, _) = absurd (cc e)
  Live-KeyBelow (node end v false) (inr e, _) = absurd (cc e)
  Live-KeyBelow (node (child c m rest) v t) h =
      KeyBelow-child c (node (child c m rest) v t) m (find-first c m rest) (Live-KeyBelow m h.1.0)

  -- Some stored key starts with `p` and is longer.
  abbrev pub Longer : (Bytes → Option V) → Bytes → Type ℓ
  Longer stored p = (c : ℕ) × (s : Bytes) × (v : V) × (stored (p ++ c ∷ s) ≡ some v)

  walk_partial :
      (cur : Node V) (i : ℕ) (p : Bytes) (n : ℕ) (v : V)
      → AllLive (children cur)
      → (walk cur i p n v).2 ≡ true
      → Longer (get_from cur) p
  unfolding walk get_from Live
  walk_partial (node end w t) i [] n v h e = absurd (cc e)
  walk_partial (node (child c m rest) w t) i [] n v h e =
      let (s, x, found) = Live-KeyBelow m h.0 in (c, s, x, rw (find-first c m rest, get_from) found)
  walk_partial cur i (c ∷ rest) n v h e = elim (Option-cases (find c (children cur))) [
    | inl missing ↦ absurd (cc (rw (missing, walk) at e))
    | inr (next, there) ↦
        let live = find-Live c (children cur) next h there in
        let (d, s, x, found) =
          walk_partial next (i + 1) rest (if terminal next then i + 1 else n)
            (if terminal next then value next else v) (children-AllLive next live)
            (rw (there, walk) at e) in
        (d, s, x, rw (there, get_from) found)
  ]

  get_from-end : (w : V) (t : Bool) (d : ℕ) (s : Bytes) → get_from (node end w t) (d ∷ s) ≡ none
  unfolding get_from find
  get_from-end w t d s = refl

  partial_walk :
      (cur : Node V) (i : ℕ) (p : Bytes) (n : ℕ) (v : V)
      → Longer (get_from cur) p
      → (walk cur i p n v).2 ≡ true
  unfolding walk get_from
  partial_walk (node end w t) i [] n v (d, s, x, e) = absurd (cc (get_from-end w t d s, e))
  partial_walk (node (child c m rest) w t) i [] n v h = refl
  partial_walk cur i (c ∷ rest) n v (d, s, x, e) = elim (Option-cases (find c (children cur))) [
    | inl missing ↦ absurd (cc (rw (missing, get_from) at e))
    | inr (next, there) ↦
        rw (there, walk)
          (partial_walk next (i + 1) rest (if terminal next then i + 1 else n)
            (if terminal next then value next else v) (d, s, x, (rw (there, get_from) at e)))
  ]

module _ {ℓ} {V : Type ℓ} (blank : V) where
  or_new-AllLive :
      (o : Option (Node V))
      → ((m : Node V) → o ≡ some m → Live m)
      → AllLive (children (or_new blank o))
  unfolding Live
  or_new-AllLive none h = tt
  or_new-AllLive (some m) h = children-AllLive m (h m refl)

  put_from-Live :
      (k : Bytes) (n : Node V) (x : V) → AllLive (children n) → Live (put_from blank k n x)
  unfolding put_from Live
  put_from-Live [] n x h = (inl refl, h)
  put_from-Live (c ∷ k) n x h =
      let o = find c (children n) in
      let below =
        put_from-Live k (or_new blank o) x
          (or_new-AllLive o (λ m e. find-Live c (children n) m h e)) in
      (inr (set_child-has_children c _ (children n)), set_child-AllLive c _ (children n) below h)

  -- Put keeps every node of the trie on the way to a key.
  pub put-IsLive : (t : Trie V) (k : Bytes) (x : V) → IsLive t → IsLive (put blank t k x)
  unfolding put
  put-IsLive t [] x h = h
  put-IsLive none (c ∷ k) x h =
      children-AllLive _ (put_from-Live (c ∷ k) (new_node blank) x (unfold Live in tt))
  put-IsLive (some root) (c ∷ k) x h = children-AllLive _ (put_from-Live (c ∷ k) root x h)

  -- In a trie that Put built, a lookup reports partial exactly when some stored key starts with the
  -- whole input and is longer.
  pub lookup_partial_iff :
      (t : Trie V) (p : Bytes) → IsLive t → ((lookup blank t p).2 ≡ true) ↔ Longer (get t) p
  unfolding lookup get
  lookup_partial_iff none p h = (λ e. absurd (cc e), λ (c, s, v, e). absurd (cc e))
  lookup_partial_iff (some root) p h =
      (walk_partial root 0 p 0 blank h, partial_walk root 0 p 0 blank)
