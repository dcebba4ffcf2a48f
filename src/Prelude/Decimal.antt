-- ===== src/Prelude/Decimal.antt =====
-- Go's `strconv.FormatInt(n, 10)` of a non-negative number, and `strconv.ParseUint(s, 10, 64)`.
use gritz.Prelude.{
  ℕ, zero, suc, ◌+◌, ◌-◌, ◌*◌, ◌/◌, ◌%◌, ◌^◌, ◌<◌, ◌≡◌, refl, ap, sym, ◌∙◌, Bool, true, ◌&&◌,
  Option, none, some, [], ◌∷◌, ◌++◌, Bytes, arith, length, length-append, leb, ltb, if◌then◌else◌,
  Bool-cases, inl, inr,
}

-- `fuel` bounds the number of digits; `suc n` is always enough.
digits_from : ℕ → ℕ → Bytes
digits_from zero n = []
digits_from (suc fuel) n =
    let more = digits_from fuel (n / 10) ++ (48 + n % 10) ∷ [] in
    if ltb n 10 then (48 + n) ∷ [] else more

unfoldable pub format_int : ℕ → Bytes
unfolding digits_from
format_int n = digits_from (suc n) n

is_digit : ℕ → Bool
is_digit c = leb 48 c && leb c 57

unfoldable pub all_digits : Bytes → Bool
unfolding is_digit
all_digits [] = true
all_digits (c ∷ s) = is_digit c && all_digits s

-- The number that a row of digits stands for, after `acc`.
unfoldable pub value_from : ℕ → Bytes → ℕ
value_from acc [] = acc
value_from acc (c ∷ s) = value_from (acc * 10 + (c - 48)) s

-- An empty text, a byte that is no digit and a value past 2 ^ 64 - 1 are errors.
unfoldable pub parse_uint : Bytes → Option ℕ
parse_uint [] = none
parse_uint (c ∷ s) =
    let n = value_from 0 (c ∷ s) in
    if all_digits (c ∷ s) then (if ltb n (2 ^ 64) then some n else none) else none

pub value_from-append :
    (acc : ℕ) (s t : Bytes) → value_from acc (s ++ t) ≡ value_from (value_from acc s) t
unfolding value_from
value_from-append acc [] t = refl
value_from-append acc (c ∷ s) t = value_from-append (acc * 10 + (c - 48)) s t

pub all_digits-append :
    (s t : Bytes) → all_digits s ≡ true → all_digits t ≡ true → all_digits (s ++ t) ≡ true
unfolding all_digits
all_digits-append [] t h k = k
all_digits-append (c ∷ s) t h k = ground (arith, all_digits-append s t)

value-digits_from : (fuel n : ℕ) → n < fuel → value_from 0 (digits_from fuel n) ≡ n
unfolding digits_from
value-digits_from zero n h = elim h [ ]
value-digits_from (suc fuel) n h = elim (Bool-cases (ltb n 10)) [
  | inl small ↦ rw small (unfold value_from in omega arith)
  | inr big ↦
      rw (big, value_from-append 0 (digits_from fuel (n / 10)))
        (rw (value-digits_from fuel (n / 10) (ground arith)) (unfold value_from in omega arith))
]

pub value-format_int : (n : ℕ) → value_from 0 (format_int n) ≡ n
unfolding format_int
value-format_int n = value-digits_from (suc n) n (omega arith)

pub format_int-injective : (m n : ℕ) → format_int m ≡ format_int n → m ≡ n
format_int-injective m n e = sym (value-format_int m) ∙ ap (value_from 0) e ∙ value-format_int n

format_int_runs : format_int 1205 ≡ 49 ∷ 50 ∷ 48 ∷ 53 ∷ []
unfolding format_int
format_int_runs = refl

all_digits-digits_from : (fuel n : ℕ) → all_digits (digits_from fuel n) ≡ true
unfolding digits_from
all_digits-digits_from zero n = unfold all_digits in refl
all_digits-digits_from (suc fuel) n = elim (Bool-cases (ltb n 10)) [
  | inl small ↦ rw small (unfold all_digits in ground arith)
  | inr big ↦ rw big (
      all_digits-append (digits_from fuel (n / 10)) ((48 + n % 10) ∷ [])
        (all_digits-digits_from fuel (n / 10)) (unfold all_digits in ground arith))
]

pub all_digits-format_int : (n : ℕ) → all_digits (format_int n) ≡ true
unfolding format_int
all_digits-format_int n = all_digits-digits_from (suc n) n

pub length-format_int : (n : ℕ) → 0 < length (format_int n)
unfolding format_int
length-format_int n = elim (Bool-cases (ltb n 10)) [
  | inl small ↦ rw small (omega arith)
  | inr big ↦ rw big (omega (arith, length-append (digits_from n (n / 10)) ((48 + n % 10) ∷ [])))
]
