-- ===== src/Redact/Masking.antt =====
-- What masking means: leftmost-longest replacement, as a relation and as a function.
use gritz.Prelude.{
  ℕ, zero, suc, ◌-◌, ◌≤◌, ◌<◌, ◌≡◌, false, some, [], ◌∷◌, ◌++◌, Bytes, length, take, drop, arith,
  ◌==◌, if◌then◌else◌, inl, inr,
}
use gritz.Trie
use gritz.Trie.{Trie}
use gritz.Trie.Store.{get}
use gritz.Trie.Lookup.{NoneAbove, lookup-Longest}

-- `Masks t s o`: o is s with the longest key at each position, from left to right, replaced by what
-- the trie stores under it, and every byte where no key starts kept.
pub data Masks (t : Trie Bytes) : Bytes → Bytes → Type 0 where
  done : Masks t [] []
  literal :
      (c : ℕ) (s o : Bytes) → NoneAbove (get t) (c ∷ s) 0 → Masks t s o → Masks t (c ∷ s) (c ∷ o)
  masked :
      (m : ℕ) (s mark o : Bytes)
      → 0 < m
      → m ≤ length s
      → get t (take m s) ≡ some mark
      → NoneAbove (get t) s m
      → Masks t (drop m s) o
      → Masks t s (mark ++ o)

-- The masked text as a function of the whole input.
unfoldable pub mask : Trie Bytes → Bytes → ℕ → Bytes
mask t [] skip = []
mask t (c ∷ rest) (suc skip) = mask t rest skip
mask t (c ∷ rest) zero =
    let (n, mark, partial) = Trie.lookup [] t (c ∷ rest) in
    let kept = c ∷ mask t rest 0 in
    let replaced = mark ++ mask t rest (n - 1) in if n == 0 then kept else replaced

pub if-suc {ℓ} :
    {A : Type ℓ} (m : ℕ) (x : A) (f : ℕ → A) → (if suc m == 0 then x else f (suc m - 1)) ≡ f m
if-suc m x f =
    let e : suc m - 1 ≡ m = omega arith in
    let z : (suc m == 0) ≡ false = ground arith in rw z (rw e)

module _ (t : Trie Bytes) (c : ℕ) (s : Bytes) where
  pub mask-kept : (Trie.lookup [] t (c ∷ s)).0 ≡ 0 → mask t (c ∷ s) 0 ≡ c ∷ mask t s 0
  unfolding mask
  mask-kept n = rw n

  pub mask-replaced :
      (m : ℕ)
      → (Trie.lookup [] t (c ∷ s)).0 ≡ suc m
      → mask t (c ∷ s) 0 ≡ (Trie.lookup [] t (c ∷ s)).1 ++ mask t s m
  unfolding mask
  mask-replaced m n = rw n (if-suc m _ (λ k. (Trie.lookup [] t (c ∷ s)).1 ++ mask t s k))

mask-Masks_from : (t : Trie Bytes) (s : Bytes) (k : ℕ) → Masks t (drop k s) (mask t s k)
unfolding mask
mask-Masks_from t [] zero = done
mask-Masks_from t [] (suc k) = done
mask-Masks_from t (c ∷ s) (suc k) = mask-Masks_from t s k
mask-Masks_from t (c ∷ s) zero = elim (lookup-Longest [] t (c ∷ s)) [
  | inl (n, v, above) ↦
      rw (mask-kept t c s n) (literal c s (mask t s 0) above (mask-Masks_from t s 0))
  | inr (suc m, pos, len, n, found, above) ↦ rw (mask-replaced t c s m (omega arith)) (
      masked (suc m) (c ∷ s) (Trie.lookup [] t (c ∷ s)).1 (mask t s m) pos len found above
        (mask-Masks_from t s m))
  | inr (zero, pos, len, n, found, above) ↦ absurd (omega arith)
]

pub mask-Masks : (t : Trie Bytes) (s : Bytes) → Masks t s (mask t s 0)
mask-Masks t s = mask-Masks_from t s 0
