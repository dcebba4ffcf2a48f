-- ===== src/Outbox/Names.antt =====
-- The names of record files (formatSeq and parseRecordName of filestore.go).
use gritz.Prelude.{
  ℕ, zero, suc, ◌-◌, ◌^◌, ◌<◌, ◌≡◌, refl, ap, ◌∙◌, true, false, Option, none, some, [], ◌∷◌, ◌++◌,
  Bytes, codes, bytes_eq, bytes_eq_iff, bytes_eq_refl, length, length-append, arith, if◌then◌else◌,
  Bool-cases, inl, inr,
}
use gritz.Prelude.Decimal.{
  format_int, parse_uint, value_from, value-format_int, all_digits, all_digits-append,
  all_digits-format_int, length-format_int,
}

zeros : ℕ → Bytes
zeros zero = []
zeros (suc n) = 48 ∷ zeros n

-- `fmt.Sprintf("%0*d", 20, seq)`
unfoldable pub format_seq : ℕ → Bytes
unfolding zeros
format_seq seq = zeros (20 - length (format_int seq)) ++ format_int seq

-- `strings.CutSuffix`
unfoldable pub cut_suffix : Bytes → Bytes → Option Bytes
cut_suffix [] suffix = if bytes_eq [] suffix then some [] else none
cut_suffix (c ∷ s) suffix =
    let rest : Option Bytes = elim (cut_suffix s suffix) [
      | none ↦ none
      | some base ↦ some (c ∷ base)
    ] in
    if bytes_eq (c ∷ s) suffix then some [] else rest

abbrev pub json_suffix : Bytes
json_suffix = codes ".json"

unfoldable pub parse_record_name : Bytes → Option ℕ
parse_record_name name = elim (cut_suffix name json_suffix) [
  | none ↦ none
  | some base ↦ parse_uint base
]

-- The base name of `livePath` and `deadPath`.
unfoldable pub record_name : ℕ → Bytes
record_name seq = format_seq seq ++ json_suffix

shorter-ne : (s t : Bytes) → length t < length s → bytes_eq s t ≡ false
shorter-ne s t h = elim (Bool-cases (bytes_eq s t)) [
  | inl e ↦ absurd (omega (arith, ap length ((bytes_eq_iff s t).0 e)))
  | inr e ↦ e
]

cut_suffix-append :
    (s suffix : Bytes) → 0 < length suffix → cut_suffix (s ++ suffix) suffix ≡ some s
unfolding cut_suffix
cut_suffix-append [] [] h = absurd (omega arith)
cut_suffix-append [] (c ∷ t) h = rw (bytes_eq_refl (c ∷ t))
cut_suffix-append (c ∷ s) t h =
    ground (arith, cut_suffix-append s t h, shorter-ne (c ∷ (s ++ t)) t, length-append s t)

value_from-zeros : (n : ℕ) (s : Bytes) → value_from 0 (zeros n ++ s) ≡ value_from 0 s
unfolding value_from zeros
value_from-zeros zero s = refl
value_from-zeros (suc n) s = value_from-zeros n s

all_digits-zeros : (n : ℕ) → all_digits (zeros n) ≡ true
unfolding all_digits zeros
all_digits-zeros zero = refl
all_digits-zeros (suc n) = all_digits-zeros n

parse_uint-digits :
    (s : Bytes)
    → 0 < length s
    → all_digits s ≡ true
    → value_from 0 s < 2 ^ 64
    → parse_uint s ≡ some (value_from 0 s)
unfolding parse_uint
parse_uint-digits [] h d b = absurd (omega arith)
parse_uint-digits (c ∷ s) h d b = ground arith

-- The name of a record file is read back as its Seq, for every uint64.
parse_record_name-record_name :
    (seq : ℕ) → seq < 2 ^ 64 → parse_record_name (record_name seq) ≡ some seq
unfolding parse_record_name record_name format_seq
parse_record_name-record_name seq h =
    let pad = zeros (20 - length (format_int seq)) in
    let value : value_from 0 (pad ++ format_int seq) ≡ seq =
      value_from-zeros _ (format_int seq) ∙ value-format_int seq in
    rw (cut_suffix-append (pad ++ format_int seq) json_suffix (omega arith), parse_record_name)
      (parse_uint-digits (pad ++ format_int seq)
          (omega (arith, length-append pad (format_int seq), length-format_int seq))
          (all_digits-append pad (format_int seq) (all_digits-zeros _) (all_digits-format_int seq))
          (omega (arith, value))
        ∙ ap some value)
