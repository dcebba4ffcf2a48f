-- ===== src/PubSub.antt =====
-- In-process publish and subscribe (internal/server/pubsub/local.go). A channel is a number; its
-- buffer holds at most 64 notifications, and `received` is what its reader has taken from it. The
-- calls are taken one after the other: two publishes share the read lock and may interleave between
-- subscribers, but each subscriber gets them one by one. A cancelled context is a call of `cancel`.
pub mod Offers
pub mod Delivery
pub mod Subscribers
use gritz.Prelude.{ℕ, ◌+◌, Bool, true, false, List, [], ◌∷◌, ◌++◌, ◌==◌, ltb, length, if◌then◌else◌}
use gritz.Store
use gritz.Store.{Notification}

pub record Channel : Type 0 where
  pub org_id : ℕ
  pub buffer : List Notification
  pub received : List Notification
  pub closed : Bool

-- `made` is the number of channels that were made.
pub record LocalPubSub : Type 0 where
  pub subs : ℕ → List ℕ
  pub channels : ℕ → Channel
  pub made : ℕ

abbrev pub subscriber_buf_size : ℕ
subscriber_buf_size = 64

abbrev pub set {ℓ} : {A : Type ℓ} → ℕ → A → (ℕ → A) → ℕ → A
set k a f x = if x == k then a else f x

-- `select { case ch <- n: default: }`
abbrev pub offer : Notification → Channel → Channel
offer n c =
    if ltb (length c.buffer) subscriber_buf_size
    then record c { buffer = c.buffer ++ n ∷ [] }
    else c

unfoldable pub offer_each : Notification → List ℕ → (ℕ → Channel) → ℕ → Channel
offer_each n [] channels = channels
offer_each n (ch ∷ chs) channels = offer_each n chs (set ch (offer n (channels ch)) channels)

unfoldable pub publish : Notification → LocalPubSub → LocalPubSub
publish n ps = record ps { channels = offer_each n (ps.subs n.org_id) ps.channels }

abbrev pub new_channel : ℕ → Channel
new_channel org = record { org_id = org; buffer = []; received = []; closed = false }

-- The new channel is the number `made` of the state before.
unfoldable pub subscribe : ℕ → LocalPubSub → LocalPubSub
subscribe org ps = record {
  subs = set org (ps.subs org ++ ps.made ∷ []) ps.subs;
  channels = set ps.made (new_channel org) ps.channels;
  made = ps.made + 1;
}

unfoldable pub delete : ℕ → List ℕ → List ℕ
delete ch [] = []
delete ch (x ∷ xs) = let rest = delete ch xs in if x == ch then rest else x ∷ rest

unfoldable pub cancel : ℕ → LocalPubSub → LocalPubSub
cancel ch ps =
    let c = ps.channels ch in
    if c.closed then ps else record ps {
      subs = set c.org_id (delete ch (ps.subs c.org_id)) ps.subs;
      channels = set ch (record c { closed = true }) ps.channels;
    }

abbrev pub taken_from : Channel → List Notification → Channel
taken_from c [] = c
taken_from c (n ∷ ns) = record c { buffer = ns; received = c.received ++ n ∷ [] }

-- The reader of a channel takes what is first in its buffer, also after the channel was closed.
unfoldable pub receive : ℕ → LocalPubSub → LocalPubSub
receive ch ps =
    let c = ps.channels ch in record ps { channels = set ch (taken_from c c.buffer) ps.channels }

pub data Step : Type 0 where
  publishes : Notification → Step
  subscribes cancels receives : ℕ → Step

unfoldable pub step : Step → LocalPubSub → LocalPubSub
step (publishes n) ps = publish n ps
step (subscribes org) ps = subscribe org ps
step (cancels ch) ps = cancel ch ps
step (receives ch) ps = receive ch ps

unfoldable pub run : List Step → LocalPubSub → LocalPubSub
run [] ps = ps
run (s ∷ steps) ps = run steps (step s ps)

abbrev pub new_local_pub_sub : LocalPubSub
new_local_pub_sub = record { subs = λ org. []; channels = λ ch. new_channel 0; made = 0 }
