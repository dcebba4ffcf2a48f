-- ===== src/Trie.antt =====
-- The byte-keyed trie (internal/x/bytetrie/bytetrie.go). A node owns its children, so the pointers
-- form a tree and a walk that mutates in place is a walk that rebuilds its path. `blank` stands for
-- Go's zero value of V.
pub mod Store
pub mod Lookup
pub mod Live
use gritz.Prelude.{
  ℕ, suc, ◌+◌, Bool, true, false, Option, none, some, [], ◌∷◌, Bytes, ◌==◌, if◌then◌else◌,
}

mutual
  pub data Node {ℓ} (V : Type ℓ) : Type ℓ where
    node : Children V → V → Bool → Node V

  -- `map[byte]*node[V]`, nil and empty alike.
  pub data Children {ℓ} (V : Type ℓ) : Type ℓ where
    end : Children V
    child : ℕ → Node V → Children V → Children V

-- `Trie.root`, which is nil in the zero trie.
abbrev pub Trie {ℓ} : Type ℓ → Type ℓ
Trie V = Option (Node V)

module _ {ℓ} {V : Type ℓ} where
  abbrev pub value : Node V → V
  value (node kids v t) = v

  abbrev pub terminal : Node V → Bool
  terminal (node kids v t) = t

  abbrev pub children : Node V → Children V
  children (node kids v t) = kids

  unfoldable pub find : ℕ → Children V → Option (Node V)
  find c end = none
  find c (child d n rest) = if d == c then some n else find c rest

  unfoldable pub set_child : ℕ → Node V → Children V → Children V
  set_child c m end = child c m end
  set_child c m (child d n rest) = if d == c then child c m rest else child d n (set_child c m rest)

  abbrev pub has_children : Children V → Bool
  has_children end = false
  has_children (child d n rest) = true

  -- The loop of `Lookup` after `i` bytes, with the best match so far.
  unfoldable pub walk : Node V → ℕ → Bytes → ℕ → V → ℕ × V × Bool
  walk cur i [] n v = (n, v, has_children (children cur))
  walk cur i (c ∷ rest) n v = elim (find c (children cur)) [
    | none ↦ (n, v, false)
    | some next ↦
        walk next (i + 1) rest (if terminal next then i + 1 else n)
          (if terminal next then value next else v)
  ]

module _ {ℓ} {V : Type ℓ} (blank : V) where
  abbrev pub new_node : Node V
  new_node = node end blank false

  abbrev pub or_new : Option (Node V) → Node V
  or_new none = new_node
  or_new (some n) = n

  -- The loop of `Put` from a node on.
  unfoldable pub put_from : Bytes → Node V → V → Node V
  put_from [] cur x = node (children cur) x true
  put_from (c ∷ key) cur x =
      node (set_child c (put_from key (or_new (find c (children cur))) x) (children cur))
        (value cur) (terminal cur)

  unfoldable pub put : Trie V → Bytes → V → Trie V
  put t [] x = t
  put t (c ∷ key) x = some (put_from (c ∷ key) (or_new t) x)

  unfoldable pub lookup : Trie V → Bytes → ℕ × V × Bool
  lookup none p = (0, blank, false)
  lookup (some root) p = walk root 0 p 0 blank
