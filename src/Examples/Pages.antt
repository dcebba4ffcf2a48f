-- ===== src/Examples/Pages.antt =====
-- A walk over three rows in pages of two.
use gritz.Prelude.{
  ℕ, zero, suc, ◌≡◌, ◌≢◌, refl, ap, Bool, true, false, Option, none, some, List, [], ◌∷◌, ◌++◌,
  Bytes, take, arith,
}
use gritz.Prelude.Int.{ℤ, pos, negsuc}
use gritz.Pagination.{Token, Source, Codec, Options, rows, QueryResult, query_failed}
use gritz.Pagination.Steps.{IsCodec, IsWalk, follow}
use gritz.Pagination.Walks.{IsSized, follow-all}

-- The numbers below m, from the largest on; the rows behind x are those below x.
abbrev down : ℕ → List ℕ
down zero = []
down (suc k) = k ∷ down k

abbrev query_down : Token ℕ → ℤ → QueryResult ℕ
query_down t (negsuc l) = query_failed
query_down t (pos l) = elim t.cursor [
  | none ↦ rows (take l (down 3))
  | some c ↦ rows (take l (down c))
]

abbrev source : Source ℕ ℕ
source = record { query = query_down; cursor_of = λ x. x }

abbrev flag : Bool → ℕ
flag true = 1
flag false = 0

abbrev text_of : Option ℕ → Bool → Bytes
text_of none b = flag b ∷ []
text_of (some c) b = flag b ∷ c ∷ []

abbrev token_at : Option ℕ → ℕ → Option (Token ℕ)
token_at c zero = some (record { cursor = c; backward = false })
token_at c (suc n) = some (record { cursor = c; backward = true })

abbrev decode_text : Bytes → Option (Token ℕ)
decode_text [] = none
decode_text (b ∷ []) = token_at none b
decode_text (b ∷ c ∷ rest) = token_at (some c) b

abbrev codec : Codec ℕ
codec = record { encode = λ t. some (text_of t.cursor t.backward); decode = decode_text }

decode-text :
    (c : Option ℕ) (b : Bool)
    → decode_text (text_of c b) ≡ some (record { cursor = c; backward = b })
decode-text none true = refl
decode-text none false = refl
decode-text (some c) true = refl
decode-text (some c) false = refl

text_filled_of : (c : Option ℕ) (b : Bool) → text_of c b ≢ []
text_filled_of none b e = cc
text_filled_of (some c) b e = cc

codec-IsCodec : IsCodec codec
codec-IsCodec = record {
  text = λ t. text_of t.cursor t.backward;
  encodes = λ t. refl;
  decodes = λ t. decode-text t.cursor t.backward;
  filled = λ t. text_filled_of t.cursor t.backward;
}

down-rest :
    (m : ℕ) (before : List ℕ) (x : ℕ) (rest : List ℕ)
    → down m ≡ before ++ (x ∷ rest)
    → down x ≡ rest
down-rest zero [] x rest e = cc
down-rest zero (b ∷ before) x rest e = cc
down-rest (suc k) [] x rest e = cc
down-rest (suc k) (b ∷ before) x rest e = down-rest k before x rest (cc)

source-IsWalk : IsWalk source (down 3)
source-IsWalk = record {
  from_start = λ l. refl;
  from_row = λ before x rest l e. ap (λ r. rows (take l r)) (down-rest 3 before x rest e);
}

abbrev options : Options ℕ ℕ
options = record {
  default_page_size = pos 50;
  max_page_size = pos 100;
  reversed = false;
  page_size = pos 2;
  page_token = [];
  source = source;
}

options-IsSized : IsSized options 1
options-IsSized = record { size = refl; accepted = refl; small = omega arith; in_order = refl }

follow-all_example : follow codec options 4 [] ≡ down 3
follow-all_example =
    follow-all codec options codec-IsCodec 1 options-IsSized (down 3) source-IsWalk 4 (omega arith)
