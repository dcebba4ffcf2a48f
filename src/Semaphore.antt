-- ===== src/Semaphore.antt =====
-- The counting semaphore of the runner (internal/x/safesem/semaphore.go): int64 counters, whose sums
-- wrap around. Each method holds the mutex, so a use by several goroutines is a sequence of calls.
use gritz.Prelude.{
  ℕ, ◌+◌, ◌-◌, ◌^◌, ◌≤◌, ◌<◌, ◌≡◌, refl, ap, ◌∙◌, Bool, true, false, List, [], ◌∷◌, All, arith, leb,
  if◌then◌else◌,
}
use gritz.Prelude.Int.{ℤ, pos, leb_ℤ, ltb_ℤ, add_i64, sub_i64}

pub record Semaphore : Type 0 where
  pub count : ℤ
  pub capacity : ℤ

abbrev pub new_semaphore : ℤ → Semaphore
new_semaphore capacity = record { count = pos 0; capacity = capacity }

unfoldable pub try_acquire : ℤ → Semaphore → Semaphore × Bool
try_acquire n s =
    if leb_ℤ (add_i64 s.count n) s.capacity
    then (record s { count = add_i64 s.count n }, true)
    else (s, false)

unfoldable pub release : ℤ → Semaphore → Semaphore
release n s =
    let c = sub_i64 s.count n in
    if ltb_ℤ c (pos 0) then record s { count = pos 0 } else record s { count = c }

unfoldable pub set_count : ℤ → Semaphore → Semaphore
set_count n s = record s { count = n }

pub data Use : Type 0 where
  acquires releases sets : ℕ → Use

unfoldable pub use_once : Semaphore → Use → Semaphore
unfolding try_acquire release set_count
use_once s (acquires n) = (try_acquire (pos n) s).0
use_once s (releases n) = release (pos n) s
use_once s (sets n) = set_count (pos n) s

unfoldable pub use_all : Semaphore → List Use → Semaphore
use_all s [] = s
use_all s (u ∷ uses) = use_all (use_once s u) uses

-- The counter that the semaphore stands for, without bounds on its numbers.
abbrev pub count_once : ℕ → ℕ → Use → ℕ
count_once capacity k (acquires n) = if leb (k + n) capacity then k + n else k
count_once capacity k (releases n) = k - n
count_once capacity k (sets n) = n

abbrev pub count_all : ℕ → ℕ → List Use → ℕ
count_all capacity k [] = k
count_all capacity k (u ∷ uses) = count_all capacity (count_once capacity k u) uses

abbrev pub amount : Use → ℕ
amount (acquires n) = n
amount (releases n) = n
amount (sets n) = n

abbrev pub at : ℕ → ℕ → Semaphore
at capacity k = record { count = pos k; capacity = pos capacity }

use_once-count :
    (capacity k : ℕ) (u : Use)
    → capacity < 2 ^ 62
    → k < 2 ^ 62
    → amount u < 2 ^ 62
    → (use_once (at capacity k) u ≡ at capacity (count_once capacity k u))
      × (count_once capacity k u < 2 ^ 62)
unfolding use_once try_acquire release set_count add_i64 sub_i64
use_once-count capacity k (acquires n) c b a = ground arith
use_once-count capacity k (releases n) c b a = ground arith
use_once-count capacity k (sets n) c b a = (refl, a)

-- With a capacity and amounts below 2 ^ 62 no sum overflows: after any sequence of acquisitions,
-- releases and resets the semaphore holds what an unbounded counter holds that grants an
-- acquisition when the sum stays within the capacity and never goes below zero.
use_all-count :
    (capacity k : ℕ) (uses : List Use)
    → capacity < 2 ^ 62
    → k < 2 ^ 62
    → All (λ u. amount u < 2 ^ 62) uses
    → use_all (at capacity k) uses ≡ at capacity (count_all capacity k uses)
unfolding use_all
use_all-count capacity k [] c b a = refl
use_all-count capacity k (u ∷ uses) c b (a, more) =
    let (same, bound) = use_once-count capacity k u c b a in
    ap (λ s. use_all s uses) same
    ∙ use_all-count capacity (count_once capacity k u) uses c bound more

abbrev pub IsReset : Use → Type 0
IsReset (sets n) = Unit {0}
IsReset _ = ⊥

count_once-le :
    (capacity k : ℕ) (u : Use) → k ≤ capacity → (IsReset u → ⊥) → count_once capacity k u ≤ capacity
count_once-le capacity k (acquires n) h r = ground arith
count_once-le capacity k (releases n) h r = omega arith
count_once-le capacity k (sets n) h r = absurd (r tt)

count_all-le :
    (capacity k : ℕ) (uses : List Use)
    → k ≤ capacity
    → All (λ u. IsReset u → ⊥) uses
    → count_all capacity k uses ≤ capacity
count_all-le capacity k [] h r = h
count_all-le capacity k (u ∷ uses) h (r, rs) =
    count_all-le capacity (count_once capacity k u) uses (count_once-le capacity k u h r) rs

-- A new semaphore that is not reset never holds more than its capacity, nor less than nothing,
-- whatever is acquired and released in amounts below 2 ^ 62.
pub use_all-le :
    (capacity : ℕ) (uses : List Use)
    → capacity < 2 ^ 62
    → All (λ u. amount u < 2 ^ 62) uses
    → All (λ u. IsReset u → ⊥) uses
    → (k : ℕ) × (use_all (new_semaphore (pos capacity)) uses ≡ at capacity k) × (k ≤ capacity)
use_all-le capacity uses c a r = (
  count_all capacity 0 uses,
  use_all-count capacity 0 uses c (omega arith) a,
  count_all-le capacity 0 uses (omega arith) r,
)
