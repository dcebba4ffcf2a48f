-- ===== src/Logship/Sent.antt =====
-- What passes with delivered requests send.
use gritz.Prelude.{
  ℕ, zero, suc, ◌<◌, ◌≡◌, refl, sym, ap, ◌∙◌, Bool, true, false, Option, none, some, List, [], ◌∷◌,
  ◌++◌, Bytes, length, take, drop, arith, if◌then◌else◌, map,
}
use mathlib.Core.List.{append-nil, append_assoc}
use gritz.Logship.{
  Chunk, Shipper, chunk_of, nothing_to_cut, cut, delivered, after_cut, pass_with, pass, begins,
  begun, passed, step, run,
}
use gritz.Logship.Order.{content_of, take-drop}
use gritz.Logship.Progress.{Done, delivers, flush-Done}

-- The request in flight and the buffer.
abbrev pub waiting : Shipper → Bytes
waiting s = content_of s.inflight ++ s.mask.sent

abbrev pub texts : List Chunk → Bytes
texts [] = []
texts (c ∷ cs) = c.content ++ texts cs

abbrev pub taken : Chunk → Chunk × Bool
taken c = (c, true)

-- Chunks were delivered from the front of what was waiting.
pub record Sends (s s' : Shipper) : Type 0 where
  pub chunks : List Chunk
  pub settled : s'.settled ≡ s.settled ++ map taken chunks
  pub content : texts chunks ++ waiting s' ≡ waiting s

no_more-Sends : (s s' : Shipper) → s'.settled ≡ s.settled → waiting s' ≡ waiting s → Sends s s'
no_more-Sends s s' e w = record {
  chunks = [];
  settled = e ∙ sym (append-nil s.settled);
  content = w;
}

Sends-trans : (s t u : Shipper) → Sends s t → Sends t u → Sends s u
Sends-trans s t u a b = record {
  chunks = a.chunks ++ b.chunks;
  settled =
      b.settled
      ∙ ap (λ l. l ++ map taken b.chunks) a.settled
      ∙ append_assoc s.settled (map taken a.chunks) (map taken b.chunks)
      ∙ ap (λ l. s.settled ++ l) (map_chunks a.chunks);
  content = texts_chunks a.chunks ∙ ap (λ l. texts a.chunks ++ l) b.content ∙ a.content;
}
  where
    map_chunks : (cs : List Chunk) → map taken cs ++ map taken b.chunks ≡ map taken (cs ++ b.chunks)
    map_chunks [] = refl
    map_chunks (c ∷ cs) = ap (λ l. taken c ∷ l) (map_chunks cs)

    texts_chunks :
        (cs : List Chunk)
        → texts (cs ++ b.chunks) ++ waiting u ≡ texts cs ++ (texts b.chunks ++ waiting u)
    texts_chunks [] = refl
    texts_chunks (c ∷ cs) =
        append_assoc c.content (texts (cs ++ b.chunks)) (waiting u)
        ∙ ap (λ l. c.content ++ l) (texts_chunks cs)
        ∙ sym (append_assoc c.content (texts cs) (texts b.chunks ++ waiting u))

cut-Sends :
    (partial : Bool) (s : Shipper)
    → s.inflight ≡ none
    → Sends s (after_cut delivered partial (cut partial s))
unfolding cut
cut-Sends partial s idle = by_test (nothing_to_cut partial s)
  where
    left : Shipper
    left = record s { mask = record s.mask { sent = drop s.chunk_size s.mask.sent } }

    by_test :
        (b : Bool)
        → Sends s (after_cut delivered partial (if b then (none, s) else (some (chunk_of s), left)))
    by_test true = no_more-Sends s (record s { draining = none }) refl refl
    by_test false = record {
      chunks = chunk_of s ∷ [];
      settled = refl;
      content =
          ap (λ l. l ++ drop s.chunk_size s.mask.sent) (append-nil (take s.chunk_size s.mask.sent))
          ∙ take-drop s.chunk_size s.mask.sent
          ∙ sym (ap (λ i. content_of i ++ s.mask.sent) idle);
    }

pass-Sends : (partial : Bool) (s : Shipper) → Sends s (pass delivered partial s)
unfolding pass
pass-Sends partial s = by_inflight s.inflight refl
  where
    by_inflight : (i : Option Chunk) → s.inflight ≡ i → Sends s (pass_with delivered partial i s)
    by_inflight none e = cut-Sends partial s e
    by_inflight (some c) e = record {
      chunks = c ∷ [];
      settled = refl;
      content =
          ap (λ l. l ++ s.mask.sent) (append-nil c.content)
          ∙ sym (ap (λ i. content_of i ++ s.mask.sent) e);
    }

passed-Sends : (d : Option Bool) (s : Shipper) → Sends s (passed delivered d s)
passed-Sends none s = no_more-Sends s s refl refl
passed-Sends (some partial) s = pass-Sends partial s

run-Sends : (n : ℕ) (s : Shipper) → Sends s (run (delivers n) s)
unfolding run step
run-Sends zero s = no_more-Sends s s refl refl
run-Sends (suc n) s =
    Sends-trans s (passed delivered s.draining s) _ (passed-Sends s.draining s)
      (run-Sends n (passed delivered s.draining s))

begun-Sends : (d : Option Bool) (s : Shipper) → Sends s (begun true d s)
begun-Sends none s = no_more-Sends s (record s { draining = some true }) refl refl
begun-Sends (some b) s = no_more-Sends s s refl refl

empty_list : (l : Bytes) → length l ≡ 0 → l ≡ []
empty_list [] e = refl
empty_list (c ∷ l) e = absurd (omega (arith, e))

Done-waiting : (s : Shipper) → Done s → waiting s ≡ []
Done-waiting s (d, i, e) = ap (λ x. content_of x ++ s.mask.sent) i ∙ empty_list s.mask.sent e

-- All that was waiting was delivered, in order, in chunks that follow those settled before.
abbrev pub Delivered : Shipper → Shipper → Type 0
Delivered s s' =
    (chunks : List Chunk) × (s'.settled ≡ s.settled ++ map taken chunks)
    × (texts chunks ≡ waiting s)

-- The drain of a `Flush` that finds no other drain under way ends while the server takes what it is
-- sent and nothing is written: two passes more than there are bytes in the buffer are enough, and
-- then nothing is buffered or in flight, and the server has taken, in order, exactly the request
-- that was in flight and the bytes that were buffered. What the mask still holds back is not part of
-- the buffer. A chunk has at least one byte.
pub flush-Delivered :
    (s : Shipper)
    → 0 < s.chunk_size
    → s.draining ≡ none
    → let s' = run (begins true ∷ delivers (suc (suc (length s.mask.sent)))) s in
      Done s' × Delivered s s'
unfolding run step
flush-Delivered s size d =
    let n = suc (suc (length s.mask.sent)) in
    let done = flush-Done s size d in
    let sends =
      Sends-trans s (begun true s.draining s) (run (delivers n) (begun true s.draining s))
        (begun-Sends s.draining s) (run-Sends n (begun true s.draining s)) in
    (
      done,
      (
        sends.chunks,
        sends.settled,
        sym (append-nil (texts sends.chunks))
            ∙ ap (λ l. texts sends.chunks ++ l)
                (sym (Done-waiting (run (delivers n) (begun true s.draining s)) done))
            ∙ sends.content,
      ),
    )
