-- ===== src/Logship/Progress.antt =====
-- The end of a drain, and the bounds on what is buffered and sent.
use gritz.Prelude.{
  ℕ, zero, suc, ◌≤◌, ◌<◌, ◌≡◌, refl, sym, ap, ◌∙◌, subst, Bool, true, false, Option, none, some,
  List, [], ◌∷◌, ltb, length, take, drop, length-take, length-drop, arith, if◌then◌else◌, ◌⊎◌, inl,
  inr, ◌≢◌, Bool-cases,
}
use native.Mathlib.Decide.{ℕ_discrete}
use gritz.Logship.{
  Chunk, Shipper, chunk_of, cut, delivered, answered, after_cut, pass_with, pass, Step, begins,
  passes, begun, passed, step, run,
}

-- Passes whose requests are all delivered, with nobody writing in between.
abbrev pub delivers : ℕ → List Step
delivers zero = []
delivers (suc n) = passes delivered ∷ delivers n

abbrev pub Done : Shipper → Type 0
Done s = (s.draining ≡ none) × (s.inflight ≡ none) × (length s.mask.sent ≡ 0)

-- A drain under way with no request in flight, which may take a remainder if there is one.
record Clear (s : Shipper) (n : ℕ) : Type 0 where
  size : 0 < s.chunk_size
  idle : s.inflight ≡ none
  partial : Bool
  under_way : s.draining ≡ some partial
  may : (partial ≡ true) ⊎ (length s.mask.sent ≡ 0)
  few : length s.mask.sent ≤ n

Done-stays : (n : ℕ) (s : Shipper) → Done s → Done (run (delivers n) s)
unfolding run step
Done-stays zero s h = h
Done-stays (suc n) s (d, i, e) =
    subst (λ t. Done (run (delivers n) t)) (sym (ap (λ o. passed delivered o s) d))
      (Done-stays n s (d, i, e))

cut-none : (partial : Bool) (s : Shipper) → length s.mask.sent ≡ 0 → cut partial s ≡ (none, s)
unfolding cut
cut-none partial s e = ground arith

abbrev shorter : Shipper → Shipper
shorter s = record s { mask = record s.mask { sent = drop s.chunk_size s.mask.sent } }

cut-some : (s : Shipper) → length s.mask.sent ≢ 0 → cut true s ≡ (some (chunk_of s), shorter s)
unfolding cut
cut-some s e = ground arith

pass_clear :
    (s : Shipper) (partial : Bool)
    → s.inflight ≡ none
    → s.draining ≡ some partial
    → step (passes delivered) s ≡ after_cut delivered partial (cut partial s)
unfolding step pass
pass_clear s partial i d =
    ap (λ o. passed delivered o s) d ∙ ap (λ f. pass_with delivered partial f s) i

after_chunk : Shipper → Shipper
after_chunk s = after_cut delivered true (some (chunk_of s), shorter s)

chunk-Clear :
    (n : ℕ) (s : Shipper) → Clear s (suc n) → length s.mask.sent ≢ 0 → Clear (after_chunk s) n
unfolding after_chunk
chunk-Clear n s h nz = record {
  size = h.size;
  idle = refl;
  partial = if ltb (length (take s.chunk_size s.mask.sent)) s.chunk_size then false else true;
  under_way = refl;
  may = elim (Bool-cases (ltb (length (take s.chunk_size s.mask.sent)) s.chunk_size)) [
    | inl e ↦
        inr (
          ground
            (arith, length-take s.chunk_size s.mask.sent, length-drop s.chunk_size s.mask.sent))
    | inr e ↦ inl (ap (λ b. if b then false else true) e)
  ];
  few = omega (arith, length-drop s.chunk_size s.mask.sent, h.few, h.size);
}

last-Done :
    (m n : ℕ) (s : Shipper) → Clear s m → length s.mask.sent ≡ 0 → Done (run (delivers (suc n)) s)
unfolding run
last-Done m n s h e =
    subst (λ t. Done (run (delivers n) t))
      (sym (
        pass_clear s h.partial h.idle h.under_way
        ∙ ap (after_cut delivered h.partial) (cut-none h.partial s e)))
      (Done-stays n (record s { draining = none }) (refl, h.idle, e))

partial_true : (n : ℕ) (s : Shipper) → Clear s n → length s.mask.sent ≢ 0 → s.draining ≡ some true
partial_true n s h nz = elim h.may [ inl e ↦ h.under_way ∙ ap some e | inr e ↦ absurd (nz e) ]

drain-Done : (n : ℕ) (s : Shipper) → Clear s n → Done (run (delivers (suc n)) s)
unfolding run after_chunk
drain-Done zero s h = last-Done zero zero s h (omega (arith, h.few))
drain-Done (suc n) s h = elim (ℕ_discrete (length s.mask.sent) 0) [
  | yes e ↦ last-Done (suc n) (suc n) s h e
  | no nz ↦
      subst (λ t. Done (run (delivers (suc n)) t))
        (sym (
          pass_clear s true h.idle (partial_true (suc n) s h nz)
          ∙ ap (after_cut delivered true) (cut-some s nz)))
        (drain-Done n (after_chunk s) (chunk-Clear n s h nz))
]

-- Two passes more than there are bytes in the buffer are enough.
pub flush-Done :
    (s : Shipper)
    → 0 < s.chunk_size
    → s.draining ≡ none
    → Done (run (begins true ∷ delivers (suc (suc (length s.mask.sent)))) s)
unfolding run step pass
flush-Done s size d =
    subst (λ t. Done (run (delivers (suc (suc (length s.mask.sent)))) t))
      (sym (ap (λ o. begun true o s) d)) (by_inflight s.inflight refl)
  where
    ready : Shipper
    ready = record s { draining = some true }

    by_inflight :
        (i : Option Chunk)
        → s.inflight ≡ i
        → Done (run (delivers (suc (suc (length s.mask.sent)))) ready)
    by_inflight none e = drain-Done (suc (length s.mask.sent)) ready (record {
      size = size;
      idle = e;
      partial = true;
      under_way = refl;
      may = inl refl;
      few = omega arith;
    })
    by_inflight (some c) e =
        subst (λ t. Done (run (delivers (suc (length s.mask.sent))) t))
          (sym (ap (λ f. pass_with delivered true f ready) e))
          (drain-Done (length s.mask.sent) (answered delivered true c ready) (record {
            size = size;
            idle = refl;
            partial = true;
            under_way = refl;
            may = inl refl;
            few = omega arith;
          }))
