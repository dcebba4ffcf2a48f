-- ===== src/Pagination.antt =====
-- Keyset pagination (internal/x/pagination/pagination.go). The source of rows is an argument, as in
-- the code; so is the codec of page tokens, which is JSON in base64, both of the standard library.
-- Sizes are int, which has 64 bits.
pub mod Steps
pub mod Walks
use gritz.Prelude.{
  ℕ, zero, suc, Bool, true, false, not, ◌&&◌, ◌||◌, Option, none, some, List, [], ◌∷◌, reverse,
  Bytes, length, take, ltb, ◌==◌, if◌then◌else◌,
}
use gritz.Prelude.Int.{ℤ, pos, negsuc, pos_part, ltb_ℤ, add_i64}

pub record Token {ℓ} (C : Type ℓ) : Type ℓ where
  pub cursor : Option C
  pub backward : Bool

pub data QueryResult {ℓ} (T : Type ℓ) : Type ℓ where
  rows : List T → QueryResult T
  unsupported_direction query_failed : QueryResult T

pub record Source {ℓ} (T C : Type ℓ) : Type ℓ where
  pub query : Token C → ℤ → QueryResult T
  pub cursor_of : T → C

pub record Codec {ℓ} (C : Type ℓ) : Type ℓ where
  pub encode : Token C → Option Bytes
  pub decode : Bytes → Option (Token C)

pub record Options {ℓ} (T C : Type ℓ) : Type ℓ where
  pub default_page_size : ℤ
  pub max_page_size : ℤ
  pub reversed : Bool
  pub page_size : ℤ
  pub page_token : Bytes
  pub source : Source T C

pub record Page {ℓ} (T : Type ℓ) : Type ℓ where
  pub items : List T
  pub next_token : Bytes
  pub prev_token : Bytes
  pub more : Bool

pub data Reply {ℓ} (T : Type ℓ) : Type ℓ where
  page : Page T → Reply T
  invalid_request failed_query failed_encoding : Reply T

-- `cmp.Or` on sizes.
abbrev pub or_size : ℤ → ℤ → ℤ
or_size (pos zero) d = d
or_size (pos (suc n)) d = pos (suc n)
or_size (negsuc n) d = negsuc n

abbrev pub is_size : ℤ → ℤ → Bool
is_size size max = not (ltb_ℤ size (pos 1) || ltb_ℤ max size)

module _ {ℓ} {T C : Type ℓ} (codec : Codec C) (src : Source T C) where
  abbrev pub token_of : Bytes → Option (Token C)
  token_of [] = some (record { cursor = none; backward = false })
  token_of (b ∷ bs) = codec.decode (b ∷ bs)

  abbrev pub last_of : T → List T → T
  last_of x [] = x
  last_of x (y ∷ ys) = last_of y ys

  abbrev pub both : Option Bytes → Option Bytes → Option (Bytes × Bytes)
  both none next = none
  both (some prev) none = none
  both (some prev) (some next) = some (next, prev)

  -- The continuation tokens: the next and the previous one.
  abbrev pub page_tokens : Bool → Bool → Bytes → List T → Option (Bytes × Bytes)
  page_tokens true more token [] = some ([], token)
  page_tokens false more token [] = some ([], [])
  page_tokens true more token (x ∷ xs) =
      both (codec.encode (record { cursor = some (src.cursor_of (last_of x xs)); backward = true }))
        (codec.encode (record { cursor = some (src.cursor_of x); backward = false }))
  page_tokens false more token (x ∷ xs) =
      both (codec.encode (record { cursor = some (src.cursor_of x); backward = true })) (
        if more
        then codec.encode
            (record { cursor = some (src.cursor_of (last_of x xs)); backward = false })
        else some [])

  -- `backward != opt.Reverse`
  abbrev pub oriented : Bool → Bool → List T → List T
  oriented true true items = items
  oriented true false items = reverse items
  oriented false true items = reverse items
  oriented false false items = items

  abbrev pub with_tokens : Bool → Bool → Bool → List T → Option (Bytes × Bytes) → Reply T
  with_tokens backward rev more items none = failed_encoding
  with_tokens backward rev more items (some (next, prev)) = page (record {
    items = oriented backward rev items;
    next_token = next;
    prev_token = prev;
    more = more;
  })

  -- The page from the rows that were fetched, one more than its size if there are.
  abbrev pub page_of : ℕ → Bool → Bool → Bytes → List T → Reply T
  page_of size backward rev token items =
      let more = ltb size (length items) in
      let kept = if more then take size items else items in
      with_tokens backward rev more kept (page_tokens backward more token kept)

  abbrev pub fetched : ℕ → Bool → Bool → Bytes → QueryResult T → Reply T
  fetched size backward rev token (rows items) = page_of size backward rev token items
  fetched size backward rev token unsupported_direction = invalid_request
  fetched size backward rev token query_failed = failed_query

  abbrev pub decoded : ℤ → Bool → Bytes → Option (Token C) → Reply T
  decoded size rev token none = invalid_request
  decoded size rev token (some t) =
      fetched (pos_part size) t.backward rev token (src.query t (add_i64 size (pos 1)))

-- `List` of the source.
unfoldable pub list_page {ℓ} : {T C : Type ℓ} → Codec C → Options T C → Reply T
list_page codec opt =
    let size = or_size opt.page_size opt.default_page_size in
    if not (is_size size opt.max_page_size)
    then invalid_request
    else decoded codec opt.source size opt.reversed opt.page_token
        (token_of codec opt.source opt.page_token)
