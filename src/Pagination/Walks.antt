-- ===== src/Pagination/Walks.antt =====
-- Following the tokens of a forward walk.
use gritz.Prelude.{
  ℕ, zero, suc, ◌^◌, ◌≤◌, ◌<◌, ◌≡◌, refl, sym, ap, ◌∙◌, true, false, not, Option, none, some, List,
  [], ◌∷◌, ◌++◌, Bytes, length, take, drop, length-drop, arith, ltb, if◌then◌else◌, Bool-cases, inl,
  inr,
}
use mathlib.Core.List.{append_assoc}
use gritz.Prelude.Int.{pos, add_i64}
use gritz.Pagination.{
  invalid_request, or_size, is_size, token_of, decoded, fetched, Token, Codec, Options, rows,
  list_page, last_of, page_of,
}
use gritz.Pagination.Steps.{
  IsCodec, IsWalk, at_token, items_then, follow, last-take, take-drop, token_of-text, last_page,
  full_page,
}

-- The options of a walk in pages of n + 1 rows.
pub record IsSized {ℓ} {T C : Type ℓ} (opt : Options T C) (n : ℕ) : Type 0 where
  pub size : or_size opt.page_size opt.default_page_size ≡ pos (suc n)
  pub accepted : is_size (pos (suc n)) opt.max_page_size ≡ true
  pub small : suc n < 2 ^ 62
  pub in_order : opt.reversed ≡ false

module _ {ℓ} {T C : Type ℓ} (codec : Codec C) (opt : Options T C) (lawful : IsCodec codec) (n : ℕ)
    (sized : IsSized opt n) (all : List T) (walk : IsWalk opt.source all) where
  -- The page that a token leads to is that of the rows `ys`.
  abbrev Leads : Bytes → List T → Type ℓ
  Leads token ys =
      list_page codec (at_token opt token)
      ≡ page_of codec opt.source (suc n) false false token (take (suc (suc n)) ys)

  limit : add_i64 (pos (suc n)) (pos 1) ≡ pos (suc (suc n))
  unfolding add_i64
  limit = let h = sized.small in ground arith

  token-Leads :
      (token : Bytes) (c : Option C) (ys : List T)
      → token_of codec opt.source token ≡ some (record { cursor = c; backward = false })
      → ((l : ℕ)
          → opt.source.query (record { cursor = c; backward = false }) (pos l) ≡ rows (take l ys))
      → Leads token ys
  unfolding list_page
  token-Leads token c ys found answers =
      let t : Token C = record { cursor = c; backward = false } in
      let src = opt.source in
      ap
        (λ s.
          if not (is_size s opt.max_page_size)
          then invalid_request
          else decoded codec src s opt.reversed token (token_of codec src token))
        sized.size
      ∙ ap
          (λ b.
            if not b
            then invalid_request
            else decoded codec src (pos (suc n)) opt.reversed token (token_of codec src token))
          sized.accepted
      ∙ ap (λ r. decoded codec src (pos (suc n)) r token (token_of codec src token)) sized.in_order
      ∙ ap (decoded codec src (pos (suc n)) false token) found
      ∙ ap (λ l. fetched codec src (suc n) false false token (src.query t l)) limit
      ∙ ap (fetched codec src (suc n) false false token) (answers (suc (suc n)))

  row-Leads :
      (before : List T) (x : T) (rest : List T)
      → all ≡ before ++ (x ∷ rest)
      → Leads
          (lawful.text (record { cursor = some (opt.source.cursor_of x); backward = false }))
          rest
  row-Leads before x rest e =
      let t : Token C = record { cursor = some (opt.source.cursor_of x); backward = false } in
      token-Leads (lawful.text t) t.cursor rest (token_of-text codec opt.source lawful t)
        (λ l. walk.from_row before x rest l e)

  full_walk :
      (fuel : ℕ) (token : Bytes) (before : List T) (y : T) (ys : List T)
      → all ≡ before ++ (y ∷ ys)
      → suc n ≤ length ys
      → Leads token (y ∷ ys)
      → ((b : Bytes) (done : List T)
          → all ≡ done ++ drop n ys
          → Leads b (drop n ys)
          → follow codec opt fuel b ≡ drop n ys)
      → items_then (follow codec opt fuel) (list_page codec (at_token opt token)) ≡ y ∷ ys
  full_walk fuel token before y ys e longer lead onwards =
      let x = last_of codec opt.source y (take n ys) in
      let (init, split, ends) = last-take codec opt.source n y ys (omega arith) in
      let here = e ∙ ap (λ l. before ++ l) split ∙ sym (append_assoc before init (x ∷ drop n ys)) in
      ap (items_then (follow codec opt fuel)) lead
      ∙ full_page codec opt.source lawful n (follow codec opt fuel) token y ys longer
      ∙ ap (λ l. (y ∷ take n ys) ++ l)
          (onwards _ ((before ++ init) ++ x ∷ [])
            (here ∙ sym (append_assoc (before ++ init) (x ∷ []) (drop n ys)))
            (row-Leads (before ++ init) x (drop n ys) here))
      ∙ ap (λ l. y ∷ l) (take-drop n ys)

  -- From a token that leads to the rows `ys` at the end of the walk, the pages hold exactly these.
  follow-Leads :
      (fuel : ℕ) (token : Bytes) (before ys : List T)
      → all ≡ before ++ ys
      → length ys < fuel
      → Leads token ys
      → follow codec opt fuel token ≡ ys
  unfolding follow
  follow-Leads zero token before ys e h lead = absurd (omega arith)
  follow-Leads (suc fuel) token before [] e h lead =
      ap (items_then (follow codec opt fuel)) lead
      ∙ last_page codec opt.source lawful n (follow codec opt fuel) token [] (omega arith)
  follow-Leads (suc fuel) token before (y ∷ ys) e h lead = elim (Bool-cases (ltb n (length ys))) [
    | inl longer ↦ full_walk fuel token before y ys e (ground arith) lead (λ b done e' lead'.
        follow-Leads fuel b done (drop n ys) e' (omega (arith, length-drop n ys)) lead')
    | inr shorter ↦
        ap (items_then (follow codec opt fuel)) lead
        ∙ last_page codec opt.source lawful n (follow codec opt fuel) token (y ∷ ys) (ground arith)
  ]

  -- Following the next tokens from the first page gives every row of the forward walk exactly once
  -- and in order, for any allowance of more pages than there are rows: where the source keeps its
  -- contract, the tokens decode to themselves, the walk is not reversed, and the page size is below 2 ^ 62.
  pub follow-all : (fuel : ℕ) → length all < fuel → follow codec opt fuel [] ≡ all
  follow-all fuel h =
      follow-Leads fuel [] [] all refl h (token-Leads [] none all refl walk.from_start)
