-- ===== src/Logship.antt =====
-- The shipping of a driver's log (internal/runner/logship/logship.go): writes go through the mask
-- into a buffer, and a sender cuts chunks off its front and delivers them, one at a time. The mask
-- writes into the buffer, so the buffer is the `sent` of the mask. `drain` is taken one pass of its
-- loop at a time: its caller, the clock and the server choose the steps, and other goroutines write
-- between them. `sendSem` is held exactly while `draining` holds the `partial` of the loop.
pub mod Order
pub mod Progress
pub mod Sent
use gritz.Prelude.{
  ℕ, ◌-◌, Bool, true, false, not, ◌&&◌, ◌||◌, Option, none, some, List, [], ◌∷◌, ◌++◌, Bytes, ltb,
  leb, ◌==◌, length, take, drop, if◌then◌else◌,
}
use gritz.Redact
use gritz.Redact.{Writer, new_writer}

-- `AppendLogChunkRequest`
pub record Chunk : Type 0 where
  pub task_id : ℕ
  pub version : ℕ
  pub content : Bytes

-- `settled` is what the sender is done with, delivered to the server or dropped after a permanent
-- error.
pub record Shipper : Type 0 where
  pub task_id : ℕ
  pub chunk_size : ℕ
  pub max_pending : ℕ
  pub version : ℕ
  pub mask : Writer
  pub inflight : Option Chunk
  pub failing : Bool
  pub notified : Bool
  pub draining : Option Bool
  pub settled : List (Chunk × Bool)

-- `cmp.Or` with a default.
abbrev pub or_default : ℕ → ℕ → ℕ
or_default n d = if n == 0 then d else n

-- `New`, with the fields of `Options` that it uses.
unfoldable pub new_shipper : ℕ → List (Bytes × Bytes) → ℕ → ℕ → Shipper
new_shipper task_id secrets chunk_size max_pending = record {
  task_id = task_id;
  chunk_size = or_default chunk_size 32768;
  max_pending = or_default max_pending 1048576;
  version = 0;
  mask = new_writer secrets;
  inflight = none;
  failing = false;
  notified = false;
  draining = none;
  settled = [];
}

unfoldable pub set_version : ℕ → Shipper → Shipper
set_version version s = record s { version = version }

-- `s.buf.Truncate(before)` past the cap.
abbrev pub capped : ℕ → Writer → Writer → Writer
capped max_pending before after =
    if ltb max_pending (length after.sent)
    then record after { sent = take (length before.sent) after.sent }
    else after

unfoldable pub write : Bytes → Shipper → Shipper
write p s =
    let mask = capped s.max_pending s.mask (Redact.write false p s.mask).0 in
    record s { mask = mask; notified = s.notified || leb s.chunk_size (length mask.sent) }

-- The first half of `Flush`; the second half is a drain that may send a remainder.
unfoldable pub flush_mask : Shipper → Shipper
flush_mask s = record s { mask = (Redact.flush false s.mask).0 }

abbrev pub chunk_of : Shipper → Chunk
chunk_of s = record {
  task_id = s.task_id;
  version = s.version;
  content = take s.chunk_size s.mask.sent;
}

abbrev pub nothing_to_cut : Bool → Shipper → Bool
nothing_to_cut partial s =
    (length s.mask.sent == 0) || (ltb (length s.mask.sent) s.chunk_size && not partial)

unfoldable pub cut : Bool → Shipper → Option Chunk × Shipper
cut partial s = if nothing_to_cut partial s then (none, s) else (
  some (chunk_of s),
  record s { mask = record s.mask { sent = drop s.chunk_size s.mask.sent } },
)

-- The answer of `AppendLogChunk`; after a transient failure, whether the wait ran to its end.
pub data Answer : Type 0 where
  delivered permanent : Answer
  transient : Bool → Answer

abbrev pub answered : Answer → Bool → Chunk → Shipper → Shipper
answered delivered partial chunk s = record s {
  inflight = none;
  failing = false;
  draining = some partial;
  settled = s.settled ++ (chunk, true) ∷ [];
}
answered permanent partial chunk s = record s {
  inflight = none;
  draining = some partial;
  settled = s.settled ++ (chunk, false) ∷ [];
}
answered (transient slept) partial chunk s = record s {
  inflight = some chunk;
  failing = true;
  draining = if slept then some partial else none;
}

abbrev pub after_cut : Answer → Bool → Option Chunk × Shipper → Shipper
after_cut a partial (none, s) = record s { draining = none }
after_cut a partial (some chunk, s) =
    answered a (if ltb (length chunk.content) s.chunk_size then false else partial) chunk s

abbrev pub pass_with : Answer → Bool → Option Chunk → Shipper → Shipper
pass_with a partial (some chunk) s = answered a partial chunk s
pass_with a partial none s = after_cut a partial (cut partial s)

-- One pass of the loop of `drain`, with the server's answer if it comes to a request.
unfoldable pub pass : Answer → Bool → Shipper → Shipper
pass a partial s = pass_with a partial s.inflight s

pub data Step : Type 0 where
  writes : Bytes → Step
  versions : ℕ → Step
  begins : Bool → Step
  wakes : Step
  passes : Answer → Step
  cancels : Step

abbrev pub begun : Bool → Option Bool → Shipper → Shipper
begun partial none s = record s { draining = some partial }
begun partial (some p) s = s

abbrev pub passed : Answer → Option Bool → Shipper → Shipper
passed a none s = s
passed a (some partial) s = pass a partial s

-- A drain begins when none is under way, on a tick, a flush or a wake-up, which is then taken; it
-- ends in a pass or when its context does.
unfoldable pub step : Step → Shipper → Shipper
step (writes p) s = write p s
step (versions v) s = set_version v s
step (begins partial) s = begun partial s.draining s
step wakes s = if s.notified then begun false s.draining (record s { notified = false }) else s
step (passes a) s = passed a s.draining s
step cancels s = record s { draining = none }

unfoldable pub run : List Step → Shipper → Shipper
run [] s = s
run (x ∷ steps) s = run steps (step x s)
