-- ===== src/Redact/Stream.antt =====
-- The streaming writer agrees with masking the whole stream at once, however the stream is cut.
use mathlib.Core.List.{append_assoc, append-nil}
use gritz.Prelude.{
  ℕ, zero, suc, ◌-◌, ◌≤◌, ◌≡◌, refl, sym, ap, ◌∙◌, Bool, true, false, Option, none, some, List, [],
  ◌∷◌, ◌++◌, Bytes, length, arith, ◌&&◌, not, Bool-cases, inl, inr, ◌⊎◌,
}
use gritz.Trie
use gritz.Trie.{Trie}
use gritz.Trie.Lookup.{lookup-le-length, lookup_settled}
use gritz.Redact.{
  Writer, new_writer, or_nil, emitted, scan, consume, write, flush, write_all, redact_string,
}
use gritz.Redact.Masking.{Masks, mask, mask-Masks, mask-kept, mask-replaced, if-suc}

emitted-literal :
    (run : Bytes) (out : Option Bytes) (c : ℕ) (rest : Bytes)
    → emitted (run, out) ++ c ∷ rest ≡ emitted (run ++ c ∷ [], out) ++ rest
emitted-literal run none c rest = simp append_assoc
emitted-literal run (some o) c rest = simp append_assoc

emitted-masked :
    (run : Bytes) (out : Option Bytes) (mark rest : Bytes)
    → emitted (run, out) ++ (mark ++ rest)
      ≡ emitted ([], some ((or_nil out ++ run) ++ mark)) ++ rest
emitted-masked run none mark rest = simp (append_assoc, append-nil)
emitted-masked run (some o) mark rest = simp (append_assoc, append-nil)

module _ (t : Trie Bytes) (c : ℕ) (s run : Bytes) (out : Option Bytes) where
  scan-wait :
      (Trie.lookup [] t (c ∷ s)).2 ≡ true → scan t false (c ∷ s) 0 run out ≡ (c ∷ s, run, out)
  unfolding scan
  scan-wait p = rw p

  scan-literal :
      (final : Bool)
      → ((Trie.lookup [] t (c ∷ s)).2 && not final) ≡ false
      → (Trie.lookup [] t (c ∷ s)).0 ≡ 0
      → scan t final (c ∷ s) 0 run out ≡ scan t final s 0 (run ++ c ∷ []) out
  unfolding scan
  scan-literal final p n = rw p (rw n)

  scan-masked :
      (final : Bool) (m : ℕ)
      → ((Trie.lookup [] t (c ∷ s)).2 && not final) ≡ false
      → (Trie.lookup [] t (c ∷ s)).0 ≡ suc m
      → scan t final (c ∷ s) 0 run out
        ≡ scan t final s m [] (some ((or_nil out ++ run) ++ (Trie.lookup [] t (c ∷ s)).1))
  unfolding scan
  scan-masked final m p n = rw p (
      rw n (
        if-suc m _
          (λ k. scan t final s k [] (some ((or_nil out ++ run) ++ (Trie.lookup [] t (c ∷ s)).1)))))

zero_or_suc : (n : ℕ) → (n ≡ 0) ⊎ ((m : ℕ) × (n ≡ suc m))
zero_or_suc zero = inl refl
zero_or_suc (suc m) = inr (m, refl)

module _ (t : Trie Bytes) where
  -- What the scan has taken for certain, with the masked form of all that follows, after a scan
  -- that leaves `r`.
  abbrev Kept : Bytes → Bytes → Option Bytes → Bytes × Bytes × Option Bytes → Bytes → ℕ → Type 0
  Kept rest run out r q skip =
      emitted (run, out) ++ mask t (rest ++ q) skip ≡ emitted (r.1, r.2) ++ mask t (r.0 ++ q) 0

  scan-mask :
      (rest : Bytes) (skip : ℕ) (run : Bytes) (out : Option Bytes) (q : Bytes)
      → skip ≤ length rest
      → Kept rest run out (scan t false rest skip run out) q skip
  scan-mask [] zero run out q h = unfold scan in refl
  scan-mask [] (suc skip) run out q h = absurd (omega arith)
  scan-mask (c ∷ rest) (suc skip) run out q h =
      let ih = scan-mask rest skip run out q (omega arith) in later ih
    where
      later :
          Kept rest run out (scan t false rest skip run out) q skip
          → Kept (c ∷ rest) run out (scan t false (c ∷ rest) (suc skip) run out) q (suc skip)
      later ih = unfold scan mask in ih
  scan-mask (c ∷ rest) zero run out q h = elim (Bool-cases (Trie.lookup [] t (c ∷ rest)).2) [
    | inl wait ↦ rw (scan-wait t c rest run out wait)
    | inr settled ↦
        let same = lookup_settled [] t (c ∷ rest) q settled in
        let open_ : ((Trie.lookup [] t (c ∷ rest)).2 && true) ≡ false = rw settled in
        elim (zero_or_suc (Trie.lookup [] t (c ∷ rest)).0) [
          | inl n ↦
              rw
                (
                  scan-literal t c rest run out false open_ n,
                  mask-kept t c (rest ++ q) (ap (λ r. r.0) same ∙ n),
                  emitted-literal run out c,
                )
                (scan-mask rest 0 (run ++ c ∷ []) out q (omega arith))
          | inr (m, n) ↦
              let mark = (Trie.lookup [] t (c ∷ rest)).1 in
              rw
                (
                  scan-masked t c rest run out false m open_ n,
                  mask-replaced t c (rest ++ q) m (ap (λ r. r.0) same ∙ n),
                  ap (λ (r : ℕ × Bytes × Bool). r.1) same,
                  emitted-masked run out mark,
                )
                (scan-mask rest m [] (some ((or_nil out ++ run) ++ mark)) q
                  (omega (arith, lookup-le-length [] t (c ∷ rest))))
        ]
  ]

  -- The last scan leaves nothing behind and takes everything.
  scan-final :
      (rest : Bytes) (skip : ℕ) (run : Bytes) (out : Option Bytes)
      → skip ≤ length rest
      → let r = scan t true rest skip run out in
        (r.0 ≡ []) × (emitted (run, out) ++ mask t rest skip ≡ emitted (r.1, r.2))
  scan-final [] zero run out h = (unfold scan in refl, unfold scan mask in append-nil _)
  scan-final [] (suc skip) run out h = absurd (omega arith)
  scan-final (c ∷ rest) (suc skip) run out h =
      let ih = scan-final rest skip run out (omega arith) in later ih
    where
      later :
          (let r = scan t true rest skip run out in
            (r.0 ≡ []) × (emitted (run, out) ++ mask t rest skip ≡ emitted (r.1, r.2)))
          → let r = scan t true (c ∷ rest) (suc skip) run out in
            (r.0 ≡ []) × (emitted (run, out) ++ mask t (c ∷ rest) (suc skip) ≡ emitted (r.1, r.2))
      later ih = unfold scan mask in ih
  scan-final (c ∷ rest) zero run out h =
      let open_ : ((Trie.lookup [] t (c ∷ rest)).2 && false) ≡ false = ground arith in
      elim (zero_or_suc (Trie.lookup [] t (c ∷ rest)).0) [
        | inl n ↦
            rw
              (
                scan-literal t c rest run out true open_ n,
                mask-kept t c rest n,
                emitted-literal run out c,
              )
              (scan-final rest 0 (run ++ c ∷ []) out (omega arith))
        | inr (m, n) ↦
            let mark = (Trie.lookup [] t (c ∷ rest)).1 in
            rw
              (
                scan-masked t c rest run out true m open_ n,
                mask-replaced t c rest m n,
                emitted-masked run out mark,
              )
              (scan-final rest m [] (some ((or_nil out ++ run) ++ mark))
                (omega (arith, lookup-le-length [] t (c ∷ rest))))
      ]

  pub scan-held :
      (rest : Bytes) (skip : ℕ) (run : Bytes) (out : Option Bytes)
      → let r = scan t false rest skip run out in (r.0 ≡ []) ⊎ ((Trie.lookup [] t r.0).2 ≡ true)
  unfolding scan
  scan-held [] skip run out = inl refl
  scan-held (c ∷ rest) (suc skip) run out = scan-held rest skip run out
  scan-held (c ∷ rest) zero run out = ground (
    arith,
    scan-held rest 0 (run ++ c ∷ []) out,
    scan-held rest ((Trie.lookup [] t (c ∷ rest)).0 - 1) []
        (some ((or_nil out ++ run) ++ (Trie.lookup [] t (c ∷ rest)).1)),
  )

-- A call that the underlying writer accepts.
pub consume-accepted :
    (p : Bytes) (final : Bool) (w : Writer)
    → let r = scan w.markers final (w.held ++ p) 0 [] none in
      consume false p final w
      ≡ (record w { sent = w.sent ++ emitted (r.1, r.2); held = r.0 }, false)
unfolding consume
consume-accepted p final w = ground arith

-- All that the writer has sent and would still send, if `q` came next and the stream ended.
abbrev pub outcome : Writer → Bytes → Bytes
outcome w q = w.sent ++ mask w.markers (w.held ++ q) 0

pub outcome-write : (p q : Bytes) (w : Writer) → outcome (write false p w).0 q ≡ outcome w (p ++ q)
unfolding write
outcome-write p q w =
    let r = scan w.markers false (w.held ++ p) 0 [] none in
    rw (consume-accepted p false w) (
      append_assoc w.sent (emitted (r.1, r.2)) (mask w.markers (r.0 ++ q) 0)
      ∙ ap (λ x. w.sent ++ x)
          (sym (scan-mask w.markers (w.held ++ p) 0 [] none q (omega arith))
            ∙ ap (λ x. mask w.markers x 0) (append_assoc w.held p q)))

abbrev pub concat : List Bytes → Bytes
concat [] = []
concat (p ∷ ps) = p ++ concat ps

outcome-write_all :
    (ps : List Bytes) (q : Bytes) (w : Writer)
    → outcome (write_all ps w) q ≡ outcome w (concat ps ++ q)
unfolding write_all
outcome-write_all [] q w = refl
outcome-write_all (p ∷ ps) q w =
    outcome-write_all ps q (write false p w).0
    ∙ outcome-write p (concat ps ++ q) w
    ∙ ap (outcome w) (sym (append_assoc p (concat ps) q))

pub sent-flush : (w : Writer) → (flush false w).0.sent ≡ outcome w []
unfolding flush
sent-flush w =
    rw (consume-accepted [] true w)
      (ap (λ x. w.sent ++ x) (sym (scan-final w.markers (w.held ++ []) 0 [] none (omega arith)).1))

sent-stream :
    (ps : List Bytes) (secrets : List (Bytes × Bytes))
    → (flush false (write_all ps (new_writer secrets))).0.sent
      ≡ mask (new_writer secrets).markers (concat ps) 0
unfolding new_writer
sent-stream ps secrets =
    sent-flush _
    ∙ outcome-write_all ps [] (new_writer secrets)
    ∙ ap (λ x. mask (new_writer secrets).markers x 0) (append-nil (concat ps))

-- The same by the trie of the writer.
pub stream-Masks :
    (ps : List Bytes) (secrets : List (Bytes × Bytes))
    → let sent = (flush false (write_all ps (new_writer secrets))).0.sent in
      Masks (new_writer secrets).markers (concat ps) sent
      × (sent ≡ redact_string (concat ps) secrets)
unfolding redact_string
stream-Masks ps secrets = (
  rw (sent-stream ps secrets) (mask-Masks _ (concat ps)),
  sent-stream ps secrets
      ∙ ap (λ x. mask (new_writer secrets).markers x 0) (sym (append-nil (concat ps)))
      ∙ sym (sent-stream (concat ps ∷ []) secrets)
      ∙ unfold write_all in refl,
)
