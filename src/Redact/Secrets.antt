-- ===== src/Redact/Secrets.antt =====
-- The stream of a writer, read by the secrets that it was made for.
use gritz.Prelude.{
  ◌≡◌, ◌≢◌, sym, ap, ◌∙◌, true, false, some, List, [], ◌∷◌, ◌++◌, Bytes, codes, bytes_eq,
  bytes_eq_iff, inl, inr, All, IsIn, if◌then◌else◌, Bool-cases,
}
use gritz.Trie.{Trie}
use gritz.Trie.Store.{get}
use gritz.Redact.{
  marker, bytes_le, secret_names, secret_value, sort_names, new_writer, write_all, flush,
  redact_string,
}
use gritz.Redact.Masking.{Masks}
use gritz.Redact.Stream.{concat, stream-Masks}
use gritz.Redact.Markers.{In, marker_of_secret, key-IsSecret}

-- A map has each name once.
abbrev pub Unique : List (Bytes × Bytes) → Type 0
Unique [] = Unit {0}
Unique ((name, value) ∷ rest) = All (λ p. p.0 ≢ name) rest × Unique rest

-- A named value that is to be masked.
abbrev pub Secret : List (Bytes × Bytes) → Bytes → Bytes → Type 0
Secret secrets name value = IsIn (name, value) secrets × (value ≢ [])

abbrev pub masked_text : Bytes → Bytes
masked_text name = codes "[gritz:masked " ++ (name ++ codes "]")

-- The trie maps every secret, and nothing else, to the text with a name that has this value, and no
-- name that has it comes earlier.
abbrev pub Knows : List (Bytes × Bytes) → Trie Bytes → Type 0
Knows secrets t =
    ((name value : Bytes)
      → Secret secrets name value
      → (n : Bytes) × (get t value ≡ some (masked_text n))
        × Secret secrets n value
        × (bytes_le n name ≡ true))
    × ((key mark : Bytes)
        → get t key ≡ some mark
        → (n : Bytes) × Secret secrets n key × (mark ≡ masked_text n))

-- `o` is `s` masked leftmost-longest by a trie of exactly the secrets.
abbrev pub MasksSecrets : List (Bytes × Bytes) → Bytes → Bytes → Type 0
MasksSecrets secrets s o = (t : Trie Bytes) × Knows secrets t × Masks t s o

value_there :
    (secrets : List (Bytes × Bytes)) (n v : Bytes)
    → secret_value secrets n ≡ v
    → v ≢ []
    → IsIn (n, v) secrets
unfolding secret_value
value_there [] n v e nz = absurd (nz (sym e))
value_there ((m, x) ∷ rest) n v e nz = elim (Bool-cases (bytes_eq m n)) [
  | inl same ↦
      let name : n ≡ m = sym ((bytes_eq_iff m n).0 same) in
      let value : v ≡ x = sym e ∙ ap (λ b. if b then x else secret_value rest n) same in
      inl (sym (ap (λ a. (a, v)) name ∙ ap (λ a. (m, a)) value))
  | inr differ ↦
      inr
        (value_there rest n v (sym (ap (λ b. if b then x else secret_value rest n) differ) ∙ e) nz)
]

other_name :
    (rest : List (Bytes × Bytes)) (m n v : Bytes)
    → All (λ p. p.0 ≢ m) rest
    → IsIn (n, v) rest
    → n ≢ m
other_name [] m n v h i = absurd i
other_name (p ∷ rest) m n v (h, hs) (inl e) = λ same. h (ap (λ q. q.0) e ∙ same)
other_name (p ∷ rest) m n v (h, hs) (inr i) = other_name rest m n v hs i

value_of :
    (secrets : List (Bytes × Bytes)) (n v : Bytes)
    → Unique secrets
    → IsIn (n, v) secrets
    → secret_value secrets n ≡ v
unfolding secret_value
value_of [] n v u i = absurd i
value_of ((m, x) ∷ rest) n v (fresh, u) (inl e) =
    let same : bytes_eq m n ≡ true = (bytes_eq_iff m n).1 (ap (λ q. q.0) e) in
    ap (λ b. if b then x else secret_value rest n) same ∙ ap (λ q. q.1) e
value_of ((m, x) ∷ rest) n v (fresh, u) (inr i) =
    let ne = other_name rest m n v fresh i in
    elim (Bool-cases (bytes_eq m n)) [
      | inl same ↦ absurd (ne (sym ((bytes_eq_iff m n).0 same)))
      | inr differ ↦ ap (λ b. if b then x else secret_value rest n) differ ∙ value_of rest n v u i
    ]

name_there :
    (secrets : List (Bytes × Bytes)) (n v : Bytes)
    → IsIn (n, v) secrets
    → v ≢ []
    → In n (secret_names secrets)
unfolding secret_names
name_there [] n v i nz = absurd i
name_there ((m, x) ∷ rest) n v (inl e) nz =
    let named : n ≡ m = sym (ap (λ q. q.0) e) in
    let valued : v ≡ x = sym (ap (λ q. q.1) e) in
    elim (Bool-cases (bytes_eq x [])) [
      | inl empty ↦ absurd (nz (valued ∙ (bytes_eq_iff x []).0 empty))
      | inr full ↦ rw full (inl named)
    ]
name_there ((m, x) ∷ rest) n v (inr i) nz =
    let later = name_there rest n v i nz in
    elim (Bool-cases (bytes_eq x [])) [
      | inl empty ↦ rw empty later
      | inr full ↦ rw full (inr later)
    ]

module _ (secrets : List (Bytes × Bytes)) (unique : Unique secrets) where
  new_writer-Knows : Knows secrets (new_writer secrets).markers
  unfolding new_writer marker
  new_writer-Knows = (
    λ name value (there, nz).
        let is = value_of secrets name value unique there in
        let full : secret_value secrets name ≢ [] = λ e. nz (sym is ∙ e) in
        let (n, found, same, least) =
          marker_of_secret secrets name (name_there secrets name value there nz) full in
        (
          n,
          ap (get (new_writer secrets).markers) (sym is) ∙ found,
          (value_there secrets n value (same ∙ is) nz, nz),
          least,
        ),
    λ key mark found.
        let (n, value, text, nz) =
          key-IsSecret secrets (sort_names (secret_names secrets)) key mark found in
        (n, (value_there secrets n key value nz, nz), text),
  )

  -- However a stream is cut into writes that the underlying writer accepts, what has reached it after
  -- a final flush is the whole stream with the longest secret at each position, from left to right,
  -- replaced by its marker; so it is also what String makes of the whole stream. The secrets are
  -- exactly the values of the map that are not empty, and the marker of one is the text with the
  -- first of its names.
  pub stream-MasksSecrets :
      (ps : List Bytes)
      → let sent = (flush false (write_all ps (new_writer secrets))).0.sent in
        MasksSecrets secrets (concat ps) sent × (sent ≡ redact_string (concat ps) secrets)
  stream-MasksSecrets ps =
      let m = stream-Masks ps secrets in
      (((new_writer secrets).markers, new_writer-Knows, m.0), m.1)
