-- ===== src/Pagination/Steps.antt =====
-- One page of a forward walk: what the source and the codec promise, and what a page holds.
use gritz.Prelude.{
  ℕ, zero, suc, ◌≤◌, ◌<◌, ◌≡◌, ◌≢◌, refl, ap, ◌∙◌, true, false, none, some, List, [], ◌∷◌, ◌++◌,
  Bytes, length, take, drop, arith, ltb, ◌==◌, if◌then◌else◌,
}
use mathlib.Core.List.{append-nil}
use gritz.Prelude.Int.{pos}
use gritz.Pagination.{
  token_of, Token, Source, Codec, Options, Reply, page, rows, list_page, last_of, page_of,
}

-- What is documented of base64 and JSON: a token that is encoded is not empty and decodes to itself.
pub record IsCodec {ℓ} {C : Type ℓ} (codec : Codec C) : Type ℓ where
  pub text : Token C → Bytes
  pub encodes : (t : Token C) → codec.encode t ≡ some (text t)
  pub decodes : (t : Token C) → codec.decode (text t) ≡ some t
  pub filled : (t : Token C) → text t ≢ []

-- The contract of a source on its forward walk over `all`: up to `limit` rows, from the start or
-- from behind the row of the cursor.
pub record IsWalk {ℓ} {T C : Type ℓ} (src : Source T C) (all : List T) : Type ℓ where
  pub from_start :
      (limit : ℕ)
      → src.query (record { cursor = none; backward = false }) (pos limit) ≡ rows (take limit all)
  pub from_row :
      (before : List T) (x : T) (rest : List T) (limit : ℕ)
      → all ≡ before ++ (x ∷ rest)
      → src.query (record { cursor = some (src.cursor_of x); backward = false }) (pos limit)
        ≡ rows (take limit rest)

abbrev pub at_token {ℓ} : {T C : Type ℓ} → Options T C → Bytes → Options T C
at_token opt token = record opt { page_token = token }

abbrev pub items_then {ℓ} : {T : Type ℓ} → (Bytes → List T) → Reply T → List T
items_then rest (page p) = p.items ++ (if length p.next_token == 0 then [] else rest p.next_token)
items_then rest _ = []

-- The items of the pages, following the next tokens for at most `fuel` pages.
unfoldable pub follow {ℓ} : {T C : Type ℓ} → Codec C → Options T C → ℕ → Bytes → List T
follow codec opt zero token = []
follow codec opt (suc fuel) token =
    items_then (follow codec opt fuel) (list_page codec (at_token opt token))

module _ {ℓ} {A : Type ℓ} where
  take-take : (n : ℕ) (xs : List A) → take n (take (suc n) xs) ≡ take n xs
  take-take zero xs = refl
  take-take (suc n) [] = refl
  take-take (suc n) (x ∷ xs) = ap (λ l. x ∷ l) (take-take n xs)

  take-short : (n : ℕ) (xs : List A) → length xs ≤ n → take n xs ≡ xs
  take-short zero [] h = refl
  take-short zero (x ∷ xs) h = absurd (omega arith)
  take-short (suc n) [] h = refl
  take-short (suc n) (x ∷ xs) h = ap (λ l. x ∷ l) (take-short n xs (omega arith))

  length-take-suc : (n : ℕ) (xs : List A) → n < length xs → length (take (suc n) xs) ≡ suc n
  length-take-suc zero [] h = absurd (omega arith)
  length-take-suc zero (x ∷ xs) h = refl
  length-take-suc (suc n) [] h = absurd (omega arith)
  length-take-suc (suc n) (x ∷ xs) h = ap suc (length-take-suc n xs (omega arith))

  -- The last of the first rows, with what stands before and behind it.
  pub last-take :
      {C : Type ℓ} (codec : Codec C) (src : Source A C) (n : ℕ) (x : A) (xs : List A)
      → n ≤ length xs
      → (init : List A) × (x ∷ xs ≡ init ++ (last_of codec src x (take n xs) ∷ drop n xs))
        × (x ∷ take n xs ≡ init ++ last_of codec src x (take n xs) ∷ [])
  last-take codec src zero x xs h = ([], refl, refl)
  last-take codec src (suc n) x [] h = absurd (omega arith)
  last-take codec src (suc n) x (y ∷ xs) h =
      let (init, e, f) = last-take codec src n y xs (omega arith) in
      (x ∷ init, ap (λ l. x ∷ l) e, ap (λ l. x ∷ l) f)

  pub take-drop : (n : ℕ) (xs : List A) → take n xs ++ drop n xs ≡ xs
  take-drop zero xs = refl
  take-drop (suc n) [] = refl
  take-drop (suc n) (x ∷ xs) = ap (λ l. x ∷ l) (take-drop n xs)

pub token_of-text {ℓ} :
    {T C : Type ℓ} (codec : Codec C) (src : Source T C) (lawful : IsCodec codec) (t : Token C)
    → token_of codec src (lawful.text t) ≡ some t
token_of-text codec src lawful t = by_text (lawful.text t) (lawful.filled t) ∙ lawful.decodes t
  where
    by_text : (b : Bytes) → b ≢ [] → token_of codec src b ≡ codec.decode b
    by_text [] h = absurd (h refl)
    by_text (c ∷ b) h = refl

module _ {ℓ} {T C : Type ℓ} (codec : Codec C) (src : Source T C) (lawful : IsCodec codec) (n : ℕ)
    (rest : Bytes → List T) (token : Bytes) where
  abbrev onward : T → Bytes
  onward x = lawful.text (record { cursor = some (src.cursor_of x); backward = false })

  text_filled : (t : Token C) → (length (lawful.text t) == 0) ≡ false
  text_filled t = by_text (lawful.text t) (lawful.filled t)
    where
      by_text : (b : Bytes) → b ≢ [] → (length b == 0) ≡ false
      by_text [] h = absurd (h refl)
      by_text (c ∷ b) h = ground arith

  -- The last page of a walk has all the rows that are left, and no next token.
  pub last_page :
      (ys : List T)
      → length ys ≤ suc n
      → items_then rest (page_of codec src (suc n) false false token (take (suc (suc n)) ys)) ≡ ys
  last_page [] h = let none_more : ltb (suc n) 0 ≡ false = ground arith in rw none_more refl
  last_page (y ∷ ys) h =
      let short : take (suc n) ys ≡ ys = take-short (suc n) ys (omega arith) in
      let none_more : ltb (suc n) (suc (length ys)) ≡ false = ground arith in
      rw short (
        rw none_more (
          rw (lawful.encodes (record { cursor = some (src.cursor_of y); backward = true }))
            (append-nil (y ∷ ys))))

  -- A page before the last has its size of rows and leads on behind them.
  pub full_page :
      (y : T) (ys : List T)
      → suc n ≤ length ys
      → items_then rest (page_of codec src (suc n) false false token (take (suc (suc n)) (y ∷ ys)))
        ≡ (y ∷ take n ys) ++ rest (onward (last_of codec src y (take n ys)))
  full_page y ys h =
      let size = length-take-suc n ys (omega arith) in
      let more : ltb (suc n) (suc (length (take (suc n) ys))) ≡ true = ground arith in
      rw more (
        rw (take-take n ys) (
          rw
            (
              lawful.encodes (record { cursor = some (src.cursor_of y); backward = true }),
              lawful.encodes (record {
                cursor = some (src.cursor_of (last_of codec src y (take n ys)));
                backward = false;
              }),
            )
            (rw
              (text_filled (record {
                cursor = some (src.cursor_of (last_of codec src y (take n ys)));
                backward = false;
              }))
              refl)))
