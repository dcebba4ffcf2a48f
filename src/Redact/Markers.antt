-- ===== src/Redact/Markers.antt =====
-- Which marker replaces a secret value, and what a writer holds back.
use gritz.Prelude.{
  ℕ, ◌≡◌, ◌≢◌, refl, sym, ap, subst, true, false, not, ◌&&◌, ◌⊎◌, inl, inr, none, some, List, [],
  ◌∷◌, ◌++◌, Bytes, bytes_eq, bytes_eq_iff, bytes_eq_complete, arith, Bool-cases, if◌then◌else◌,
}
use gritz.Trie
use gritz.Trie.{Trie}
use gritz.Trie.Store.{get, get-put}
use gritz.Trie.Live.{IsLive, put-IsLive, lookup_partial_iff}
use gritz.Redact.{
  Writer, marker, bytes_le, insert_name, sort_names, secret_names, secret_value, put_names,
  new_writer, scan, write, write_all,
}
use gritz.Redact.Stream.{scan-held, consume-accepted}

-- `In n ns`: the name n is one of ns.
abbrev pub In : Bytes → List Bytes → Type 0
In n [] = ⊥
In n (m ∷ ms) = (n ≡ m) ⊎ In n ms

-- n comes no later than any of ns.
abbrev pub Least : Bytes → List Bytes → Type 0
Least n [] = Unit {0}
Least n (m ∷ ms) = (bytes_le n m ≡ true) × Least n ms

abbrev pub IsSorted : List Bytes → Type 0
IsSorted [] = Unit {0}
IsSorted (n ∷ ns) = Least n ns × IsSorted ns

bytes_le_refl : (a : Bytes) → bytes_le a a ≡ true
unfolding bytes_le
bytes_le_refl [] = refl
bytes_le_refl (x ∷ a) = ground (arith, bytes_le_refl a)

bytes_le-total : (a b : Bytes) → bytes_le a b ≡ false → bytes_le b a ≡ true
unfolding bytes_le
bytes_le-total [] b h = cc
bytes_le-total (x ∷ a) [] h = refl
bytes_le-total (x ∷ a) (y ∷ b) h = ground (arith, bytes_le-total a b)

bytes_le_trans : (a b c : Bytes) → bytes_le a b ≡ true → bytes_le b c ≡ true → bytes_le a c ≡ true
unfolding bytes_le
bytes_le_trans [] b c h k = refl
bytes_le_trans (x ∷ a) [] c h k = cc
bytes_le_trans (x ∷ a) (y ∷ b) [] h k = cc
bytes_le_trans (x ∷ a) (y ∷ b) (z ∷ c) h k = ground (arith, bytes_le_trans a b c)

Least-trans : (a b : Bytes) (ns : List Bytes) → bytes_le a b ≡ true → Least b ns → Least a ns
Least-trans a b [] h l = tt
Least-trans a b (m ∷ ns) h l = (bytes_le_trans a b m h l.0, Least-trans a b ns h l.1)

Least-insert_name :
    (a n : Bytes) (ns : List Bytes) → bytes_le a n ≡ true → Least a ns → Least a (insert_name n ns)
unfolding insert_name
Least-insert_name a n [] h l = (h, tt)
Least-insert_name a n (m ∷ ns) h l = ground (arith, Least-insert_name a n ns h l.1)

insert_name-IsSorted : (n : Bytes) (ns : List Bytes) → IsSorted ns → IsSorted (insert_name n ns)
unfolding insert_name
insert_name-IsSorted n [] s = (tt, tt)
insert_name-IsSorted n (m ∷ ns) s = ground (
  arith,
  bytes_le-total n m,
  Least-trans n m ns,
  Least-insert_name m n ns,
  insert_name-IsSorted n ns s.1,
)

sort_names-IsSorted : (ns : List Bytes) → IsSorted (sort_names ns)
unfolding sort_names
sort_names-IsSorted [] = tt
sort_names-IsSorted (n ∷ ns) = insert_name-IsSorted n (sort_names ns) (sort_names-IsSorted ns)

In-insert_name : (a n : Bytes) (ns : List Bytes) → (a ≡ n) ⊎ In a ns → In a (insert_name n ns)
unfolding insert_name
In-insert_name a n [] h = h
In-insert_name a n (m ∷ ns) h = ground (arith, In-insert_name a n ns)

In-sort_names : (a : Bytes) (ns : List Bytes) → In a ns → In a (sort_names ns)
unfolding sort_names
In-sort_names a [] h = elim h [ ]
In-sort_names a (n ∷ ns) (inl e) = In-insert_name a n (sort_names ns) (inl e)
In-sort_names a (n ∷ ns) (inr h) = In-insert_name a n (sort_names ns) (inr (In-sort_names a ns h))

Least-In : (a b : Bytes) (ns : List Bytes) → Least a ns → In b ns → bytes_le a b ≡ true
Least-In a b [] l h = elim h [ ]
Least-In a b (m ∷ ns) l (inl e) = rw e l.0
Least-In a b (m ∷ ns) l (inr h) = Least-In a b ns l.1 h

module _ (secrets : List (Bytes × Bytes)) where
  get-put_names :
      (n : Bytes) (ns : List Bytes) (k : Bytes)
      → get (put_names secrets (n ∷ ns)) k ≡ (
          if not (bytes_eq (secret_value secrets n) []) && bytes_eq (secret_value secrets n) k
          then some (marker n)
          else get (put_names secrets ns) k)
  get-put_names n ns k =
      unfold put_names in get-put [] (put_names secrets ns) (secret_value secrets n) k (marker n)

  -- The value of `a` is stored with the marker of a name that has it and comes no later than `a`.
  abbrev Marked : List Bytes → Bytes → Type 0
  Marked ns a =
      (n : Bytes) × (get (put_names secrets ns) (secret_value secrets a) ≡ some (marker n))
      × (secret_value secrets n ≡ secret_value secrets a)
      × (bytes_le n a ≡ true)

  marked_here :
      (m : Bytes) (ns : List Bytes) (a : Bytes)
      → bytes_eq (secret_value secrets m) (secret_value secrets a) ≡ true
      → secret_value secrets a ≢ []
      → get (put_names secrets (m ∷ ns)) (secret_value secrets a) ≡ some (marker m)
  marked_here m ns a same v = ground (
    arith,
    get-put_names m ns (secret_value secrets a),
    bytes_eq_iff (secret_value secrets m) (secret_value secrets a),
    bytes_eq_iff (secret_value secrets m) [],
  )

  Marked-later :
      (m : Bytes) (ns : List Bytes) (a : Bytes)
      → bytes_eq (secret_value secrets m) (secret_value secrets a) ≡ false
      → In a (m ∷ ns)
      → (In a ns → Marked ns a)
      → Marked (m ∷ ns) a
  Marked-later m ns a differ (inl e) rest =
      absurd (cc (differ, bytes_eq_complete _ _ (ap (secret_value secrets) (sym e))))
  Marked-later m ns a differ (inr i) rest =
      let (n, found, value, least) = rest i in
      (n, ground (arith, get-put_names m ns (secret_value secrets a)), value, least)

  marked :
      (ns : List Bytes) (a : Bytes)
      → IsSorted ns
      → In a ns
      → secret_value secrets a ≢ []
      → Marked ns a
  marked [] a s h v = elim h [ ]
  marked (m ∷ ns) a s h v =
      let rest = λ (i : In a ns). marked ns a s.1 i v in
      elim (Bool-cases (bytes_eq (secret_value secrets m) (secret_value secrets a))) [
        | inl same ↦ (m, marked_here m ns a same v, (bytes_eq_iff _ _).0 same, first h)
        | inr differ ↦ Marked-later m ns a differ h rest
      ]
    where
      first : In a (m ∷ ns) → bytes_le m a ≡ true
      first (inl e) = rw e (bytes_le_refl m)
      first (inr i) = Least-In m a ns s.0 i

  -- Every secret with a name among the non-empty ones is replaced by the marker of a name that has
  -- the same value and stands no later in lexical order, so the marker of a shared value is that of
  -- its first name, whatever the order in which the map is walked.
  pub marker_of_secret :
      (a : Bytes)
      → In a (secret_names secrets)
      → secret_value secrets a ≢ []
      → (n : Bytes) × (get (new_writer secrets).markers (secret_value secrets a) ≡ some (marker n))
        × (secret_value secrets n ≡ secret_value secrets a)
        × (bytes_le n a ≡ true)
  unfolding new_writer
  marker_of_secret a h v =
      marked (sort_names (secret_names secrets)) a (sort_names-IsSorted (secret_names secrets))
        (In-sort_names a (secret_names secrets) h) v

  put_names-IsLive : (ns : List Bytes) → IsLive (put_names secrets ns)
  unfolding put_names
  put_names-IsLive [] = tt
  put_names-IsLive (n ∷ ns) =
      put-IsLive [] (put_names secrets ns) (secret_value secrets n) (marker n) (put_names-IsLive ns)

  get-nil : (k : Bytes) → get (put_names secrets []) k ≡ none
  unfolding put_names get
  get-nil k = refl

  -- A key of the trie is the value of a name.
  pub key-IsSecret :
      (ns : List Bytes) (k m : Bytes)
      → get (put_names secrets ns) k ≡ some m
      → (n : Bytes) × (secret_value secrets n ≡ k) × (m ≡ marker n) × (k ≢ [])
  key-IsSecret [] k m e = absurd (cc (get-nil k, e))
  key-IsSecret (n ∷ ns) k m e =
      elim (Bool-cases
        (not (bytes_eq (secret_value secrets n) []) && bytes_eq (secret_value secrets n) k)) [
          | inl hit ↦ (
            n,
            ground (arith, bytes_eq_iff (secret_value secrets n) k),
            ground (arith, get-put_names n ns k),
            ground (
              arith,
              bytes_eq_iff (secret_value secrets n) k,
              bytes_eq_iff (secret_value secrets n) [],
            ),
          )
          | inr miss ↦ key-IsSecret ns k m (ground (arith, get-put_names n ns k))
        ]

  -- `p` is a proper prefix of the value of a secret.
  abbrev pub IsOpen : Bytes → Type 0
  IsOpen p = (n : Bytes) × (c : ℕ) × (s : Bytes) × (secret_value secrets n ≡ p ++ c ∷ s)

  abbrev Ready : Writer → Type 0
  Ready w = (w.markers ≡ (new_writer secrets).markers) × ((w.held ≡ []) ⊎ IsOpen w.held)

  write-Ready : (p : Bytes) (w : Writer) → Ready w → Ready (write false p w).0
  unfolding write new_writer
  write-Ready p w h =
      let r = (scan w.markers false (w.held ++ p) 0 [] none).0 in
      rw (consume-accepted p false w) (h.0, held (scan-held w.markers (w.held ++ p) 0 [] none))
    where
      names : List Bytes
      names = sort_names (secret_names secrets)

      held :
          let r = (scan w.markers false (w.held ++ p) 0 [] none).0 in
          (r ≡ []) ⊎ ((Trie.lookup [] w.markers r).2 ≡ true) → (r ≡ []) ⊎ IsOpen r
      held (inl e) = inl e
      held (inr e) =
          let r = (scan w.markers false (w.held ++ p) 0 [] none).0 in
          let (c, s, m, found) =
            (lookup_partial_iff [] (put_names secrets names) r (put_names-IsLive names)).0
              (subst (λ t. (Trie.lookup [] t r).2 ≡ true) h.0 e) in
          let (n, value, _, _) = key-IsSecret names (r ++ c ∷ s) m found in inr (n, c, s, value)

  write_all-Ready : (ps : List Bytes) (w : Writer) → Ready w → Ready (write_all ps w)
  unfolding write_all
  write_all-Ready [] w h = h
  write_all-Ready (p ∷ ps) w h = write_all-Ready ps (write false p w).0 (write-Ready p w h)

  -- What a writer holds back after any writes that are accepted is empty or a proper prefix of the
  -- value of some secret.
  held_IsOpen :
      (ps : List Bytes)
      → let held = (write_all ps (new_writer secrets)).held in (held ≡ []) ⊎ IsOpen held
  unfolding new_writer
  held_IsOpen ps = (write_all-Ready ps (new_writer secrets) (refl, inl refl)).1
