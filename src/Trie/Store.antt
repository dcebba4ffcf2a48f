-- ===== src/Trie/Store.antt =====
-- The trie as a map: what is stored under each key.
use gritz.Prelude.{
  ℕ, ◌≡◌, refl, not, ◌&&◌, Option, none, some, [], ◌∷◌, Bytes, bytes_eq, arith, ◌==◌, ==_iff,
  if◌then◌else◌, Bool-cases, inl, inr,
}
use gritz.Trie.{
  Node, Children, end, child, Trie, value, terminal, children, find, set_child, new_node, or_new,
  put_from, put,
}

module _ {ℓ} {V : Type ℓ} where
  -- What is stored under a key that starts at a node.
  unfoldable pub get_from : Node V → Bytes → Option V
  get_from n [] = if terminal n then some (value n) else none
  get_from n (c ∷ key) = elim (find c (children n)) [ none ↦ none | some m ↦ get_from m key ]

  unfoldable pub get : Trie V → Bytes → Option V
  get none key = none
  get (some root) key = get_from root key

  pub find-set_child :
      (c d : ℕ) (m : Node V) (kids : Children V)
      → find d (set_child c m kids) ≡ (if c == d then some m else find d kids)
  unfolding find set_child
  find-set_child c d m end = refl
  find-set_child c d m (child e n rest) = ground (arith, find-set_child c d m rest)

module _ {ℓ} {V : Type ℓ} (blank : V) where
  get_from-new : (key : Bytes) → get_from (new_node blank) key ≡ none
  unfolding get_from find
  get_from-new [] = refl
  get_from-new (c ∷ key) = refl

  get_from-or_new :
      (o : Option (Node V)) (key : Bytes)
      → get_from (or_new blank o) key ≡ (elim o [ none ↦ none | some m ↦ get_from m key ])
  get_from-or_new none key = get_from-new key
  get_from-or_new (some m) key = refl

  get_from-put_from :
      (k j : Bytes) (n : Node V) (x : V)
      → get_from (put_from blank k n x) j ≡ (if bytes_eq k j then some x else get_from n j)
  unfolding get_from put_from bytes_eq
  get_from-put_from [] [] n x = refl
  get_from-put_from [] (d ∷ j) n x = refl
  get_from-put_from (c ∷ k) [] n x = refl
  get_from-put_from (c ∷ k) (d ∷ j) n x = elim (Bool-cases (c == d)) [
    | inl same ↦
        let e : c ≡ d = (==_iff c d).0 same in
        rw (find-set_child c d, get_from)
          (rw same (
            rw
              (
                get_from-put_from k j (or_new blank (find c (children n))) x,
                e,
                get_from-or_new (find d (children n)) j,
              )
              refl))
    | inr differ ↦ rw (find-set_child c d, get_from) (rw differ refl)
  ]

  -- Put stores the value under its key and leaves every other key as it was; the empty key is
  -- ignored.
  pub get-put :
      (t : Trie V) (k j : Bytes) (x : V)
      → get (put blank t k x) j ≡ (if not (bytes_eq k []) && bytes_eq k j then some x else get t j)
  unfolding get put bytes_eq
  get-put t [] j x = refl
  get-put none (c ∷ key) j x =
      ground (arith, get_from-put_from (c ∷ key) j (new_node blank) x, get_from-new j)
  get-put (some root) (c ∷ key) j x = get_from-put_from (c ∷ key) j root x
