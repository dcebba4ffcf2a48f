-- ===== src/Logship/Order.antt =====
-- The order and the completeness of what is shipped.
use gritz.Prelude.{
  ℕ, zero, suc, ◌≤◌, ◌≡◌, refl, sym, ap, ◌∙◌, Bool, true, false, Option, none, some, List, [], ◌∷◌,
  ◌++◌, Bytes, length, take, drop, arith, if◌then◌else◌,
}
use mathlib.Core.List.{append-nil, append_assoc}
use gritz.Redact
use gritz.Redact.{Writer, new_writer, redact_string}
use gritz.Redact.Masking.{mask}
use gritz.Redact.Stream.{outcome, outcome-write, sent-flush, concat}
use gritz.Logship.{
  Chunk, Shipper, new_shipper, set_version, capped, write, flush_mask, chunk_of, nothing_to_cut,
  cut, Answer, delivered, permanent, transient, answered, after_cut, pass_with, pass, Step, writes,
  versions, begins, wakes, passes, cancels, begun, passed, step, run,
}

abbrev pub contents : List (Chunk × Bool) → Bytes
contents [] = []
contents ((c, b) ∷ chunks) = c.content ++ contents chunks

abbrev pub content_of : Option Chunk → Bytes
content_of none = []
content_of (some c) = c.content

-- The chunks that are settled, the one in flight and the buffer, in this order.
abbrev pub shipped : Shipper → Bytes
shipped s = contents s.settled ++ (content_of s.inflight ++ s.mask.sent)

abbrev pub written : List Step → List Bytes
written [] = []
written (writes p ∷ steps) = p ∷ written steps
written (versions v ∷ steps) = written steps
written (begins b ∷ steps) = written steps
written (wakes ∷ steps) = written steps
written (passes a ∷ steps) = written steps
written (cancels ∷ steps) = written steps

-- No write takes the buffer past its cap.
abbrev pub FitsStep : Step → Shipper → Type 0
FitsStep (writes p) s = length (Redact.write false p s.mask).0.sent ≤ s.max_pending
FitsStep _ s = Unit {0}

abbrev pub Fits : List Step → Shipper → Type 0
Fits [] s = Unit {0}
Fits (x ∷ steps) s = FitsStep x s × Fits steps (step x s)

-- What is and would be shipped, if `q` were written next and the mask flushed.
future : Shipper → Bytes → Bytes
future s q = contents s.settled ++ (content_of s.inflight ++ outcome s.mask q)

pub take-drop : (n : ℕ) (xs : Bytes) → take n xs ++ drop n xs ≡ xs
take-drop zero xs = refl
take-drop (suc n) [] = refl
take-drop (suc n) (x ∷ xs) = ap (λ ys. x ∷ ys) (take-drop n xs)

contents-append :
    (chunks : List (Chunk × Bool)) (c : Chunk) (b : Bool)
    → contents (chunks ++ (c, b) ∷ []) ≡ contents chunks ++ c.content
contents-append [] c b = append-nil c.content
contents-append ((d, b') ∷ chunks) c b =
    ap (λ x. d.content ++ x) (contents-append chunks c b)
    ∙ sym (append_assoc d.content (contents chunks) c.content)

settled-future :
    (chunks : List (Chunk × Bool)) (c : Chunk) (b : Bool) (rest : Bytes)
    → contents (chunks ++ (c, b) ∷ []) ++ rest ≡ contents chunks ++ (c.content ++ rest)
settled-future chunks c b rest =
    ap (λ x. x ++ rest) (contents-append chunks c b) ∙ append_assoc (contents chunks) c.content rest

answered-future :
    (a : Answer) (partial : Bool) (c : Chunk) (s : Shipper) (q : Bytes)
    → future (answered a partial c s) q ≡ contents s.settled ++ (c.content ++ outcome s.mask q)
unfolding future
answered-future delivered partial c s q = settled-future s.settled c true (outcome s.mask q)
answered-future permanent partial c s q = settled-future s.settled c false (outcome s.mask q)
answered-future (transient slept) partial c s q = refl

cut-future :
    (a : Answer) (partial : Bool) (s : Shipper) (q : Bytes)
    → s.inflight ≡ none
    → future (after_cut a partial (cut partial s)) q ≡ future s q
unfolding cut future
cut-future a partial s q e = by_test (nothing_to_cut partial s)
  where
    left : Shipper
    left = record s { mask = record s.mask { sent = drop s.chunk_size s.mask.sent } }

    rest : Bytes
    rest = mask s.mask.markers (s.mask.held ++ q) 0

    rejoined :
        take s.chunk_size s.mask.sent ++ (drop s.chunk_size s.mask.sent ++ rest)
        ≡ content_of s.inflight ++ (s.mask.sent ++ rest)
    rejoined =
        sym (append_assoc (take s.chunk_size s.mask.sent) (drop s.chunk_size s.mask.sent) rest)
        ∙ ap (λ x. x ++ rest) (take-drop s.chunk_size s.mask.sent)
        ∙ sym (ap (λ i. content_of i ++ (s.mask.sent ++ rest)) e)

    by_test :
        (b : Bool)
        → future (after_cut a partial (if b then (none, s) else (some (chunk_of s), left))) q
          ≡ future s q
    by_test true = refl
    by_test false =
        answered-future a _ (chunk_of s) left q ∙ ap (λ x. contents s.settled ++ x) rejoined

pass-future :
    (a : Answer) (partial : Bool) (s : Shipper) (q : Bytes)
    → future (pass a partial s) q ≡ future s q
unfolding pass future
pass-future a partial s q = by_inflight s.inflight refl
  where
    by_inflight :
        (i : Option Chunk) → s.inflight ≡ i → future (pass_with a partial i s) q ≡ future s q
    by_inflight none e = cut-future a partial s q e
    by_inflight (some c) e =
        answered-future a partial c s q
        ∙ sym (ap (λ i. contents s.settled ++ (content_of i ++ outcome s.mask q)) e)

passed-future :
    (a : Answer) (d : Option Bool) (s : Shipper) (q : Bytes) → future (passed a d s) q ≡ future s q
passed-future a none s q = refl
passed-future a (some partial) s q = pass-future a partial s q

begun-future :
    (partial : Bool) (d : Option Bool) (s : Shipper) (q : Bytes)
    → future (begun partial d s) q ≡ future s q
unfolding future
begun-future partial none s q = refl
begun-future partial (some p) s q = refl

not_capped : (n : ℕ) (before after : Writer) → length after.sent ≤ n → capped n before after ≡ after
not_capped n before after h = ground arith

write-future :
    (p : Bytes) (s : Shipper) (q : Bytes)
    → length (Redact.write false p s.mask).0.sent ≤ s.max_pending
    → future (write p s) q ≡ future s (p ++ q)
unfolding write future
write-future p s q h =
    ap (λ m. contents s.settled ++ (content_of s.inflight ++ outcome m q))
      (not_capped s.max_pending s.mask (Redact.write false p s.mask).0 h)
    ∙ ap (λ x. contents s.settled ++ (content_of s.inflight ++ x)) (outcome-write p q s.mask)

if-future :
    (b : Bool) (s t u : Shipper) (q : Bytes)
    → future s q ≡ future u q
    → future t q ≡ future u q
    → future (if b then s else t) q ≡ future u q
if-future true s t u q h k = h
if-future false s t u q h k = k

abbrev added : Step → Bytes → Bytes
added (writes p) q = p ++ q
added _ q = q

step-future :
    (x : Step) (s : Shipper) (q : Bytes) → FitsStep x s → future (step x s) q ≡ future s (added x q)
unfolding step set_version future
step-future (writes p) s q h = write-future p s q h
step-future (versions v) s q h = refl
step-future (begins b) s q h = begun-future b s.draining s q
step-future wakes s q h =
    if-future s.notified (begun false s.draining (record s { notified = false })) s s q
      (begun-future false s.draining (record s { notified = false }) q) refl
step-future (passes a) s q h = passed-future a s.draining s q
step-future cancels s q h = refl

added-written :
    (x : Step) (steps : List Step) (q : Bytes)
    → added x (concat (written steps) ++ q) ≡ concat (written (x ∷ steps)) ++ q
added-written (writes p) steps q = sym (append_assoc p (concat (written steps)) q)
added-written (versions v) steps q = refl
added-written (begins b) steps q = refl
added-written wakes steps q = refl
added-written (passes a) steps q = refl
added-written cancels steps q = refl

run-future :
    (steps : List Step) (s : Shipper) (q : Bytes)
    → Fits steps s
    → future (run steps s) q ≡ future s (concat (written steps) ++ q)
unfolding run
run-future [] s q h = refl
run-future (x ∷ steps) s q (h, more) =
    run-future steps (step x s) q more
    ∙ step-future x s (concat (written steps) ++ q) h
    ∙ ap (future s) (added-written x steps q)

flush-shipped : (s : Shipper) → shipped (flush_mask s) ≡ future s []
unfolding flush_mask future
flush-shipped s = ap (λ x. contents s.settled ++ (content_of s.inflight ++ x)) (sent-flush s.mask)

redact_string-outcome :
    (bytes : Bytes) (secrets : List (Bytes × Bytes))
    → redact_string bytes secrets ≡ outcome (new_writer secrets) (bytes ++ [])
unfolding redact_string
redact_string-outcome bytes secrets =
    sent-flush (Redact.write false bytes (new_writer secrets)).0
    ∙ outcome-write bytes [] (new_writer secrets)

-- However writes, the passes of drains, their answers, versions and cancellations interleave, as
-- long as no write takes the buffer past its cap: after a last flush of the mask, the chunks that
-- were settled, the one in flight and the buffer are, in this order, the masked text of all that
-- was written. No byte is lost, repeated or overtaken, over retries and cancelled drains too.
pub run-shipped :
    (task_id : ℕ) (secrets : List (Bytes × Bytes)) (chunk_size max_pending : ℕ) (steps : List Step)
    → Fits steps (new_shipper task_id secrets chunk_size max_pending)
    → shipped (flush_mask (run steps (new_shipper task_id secrets chunk_size max_pending)))
      ≡ redact_string (concat (written steps)) secrets
unfolding new_shipper future
run-shipped task_id secrets chunk_size max_pending steps h =
    flush-shipped (run steps (new_shipper task_id secrets chunk_size max_pending))
    ∙ run-future steps (new_shipper task_id secrets chunk_size max_pending) [] h
    ∙ sym (redact_string-outcome (concat (written steps)) secrets)
