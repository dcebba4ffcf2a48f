-- ===== src/Outbox/Engine.antt =====
-- internal/x/outbox/engine.go: Enqueue, Run and drain, as the steps of one process. A run is a list
-- of steps that the environment chooses: what the producer enqueues, whether the context is
-- cancelled at a look, how a delivery ends, whether the file system and the sleeps succeed, and
-- when the process is restarted. `accepted`, `delivered` and `settled` only record what happened.
use gritz.Prelude.{Bool, true, false, Option, none, some, List, [], ◌∷◌, ◌++◌, Bytes, if◌then◌else◌}
use gritz.Outbox.FileStore.{Record, FileStore, append, peek, drop, open_store}

-- Where the consumer stands: at the top of drain, in drop with its argument, waiting for a wake-up
-- after the store drained, or returned.
pub data Phase : Type 0 where
  top waiting stopped : Phase
  dropping : Bool → Phase

-- The end of one delivery. An undecodable payload is never handed to `deliver`.
pub data Outcome : Type 0 where
  undecodable success permanent transient : Outcome

pub record Engine : Type 0 where
  pub store : FileStore
  pub phase : Phase
  pub accepted : List Bytes
  pub delivered : List Bytes
  pub settled : List (Bytes × Bool)

pub data Step : Type 0 where
  enqueue : Bool → Bytes → Step
  look : Bool → Outcome → Bool → Step
  try_drop : Bool → Bool → Step
  notified : Step
  restart : Step

abbrev log_if : Bool → Bytes → List Bytes → List Bytes
log_if true p ps = ps ++ p ∷ []
log_if false p ps = ps

-- The switch of drain after a delivery; `slept` is the result of the sleep before a retry.
unfoldable pub settle : Outcome → Bool → Record → Engine → Engine
settle undecodable slept rec g = record g { phase = dropping true }
settle success slept rec g = record g {
  phase = dropping false;
  delivered = g.delivered ++ rec.payload ∷ [];
}
settle permanent slept rec g = record g { phase = dropping true }
settle transient slept rec g = record g { phase = if slept then top else stopped }

-- One look at the head, from the top of drain.
unfoldable pub look_at_head : Bool → Outcome → Bool → Engine → Engine
look_at_head cancelled outcome slept g =
    if cancelled then record g { phase = stopped } else elim (peek g.store) [
      | none ↦ record g { phase = waiting }
      | some rec ↦ settle outcome slept rec g
    ]

abbrev settle_head : Bool → Option Record → List (Bytes × Bool) → List (Bytes × Bool)
settle_head dead none done = done
settle_head dead (some rec) done = done ++ (rec.payload, dead) ∷ []

-- One attempt of the loop of `drop`.
unfoldable pub attempt_drop : Bool → Bool → Bool → Engine → Engine
attempt_drop dead io slept g =
    let (store', dropped) = drop io dead g.store in
    if dropped
    then record g {
      store = store';
      phase = top;
      settled = settle_head dead (peek g.store) g.settled;
    }
    else record g { store = store'; phase = if slept then dropping dead else stopped }

unfoldable pub look_in : Phase → Bool → Outcome → Bool → Engine → Engine
look_in top cancelled outcome slept g = look_at_head cancelled outcome slept g
look_in _ cancelled outcome slept g = g

unfoldable pub drop_in : Phase → Bool → Bool → Engine → Engine
drop_in (dropping dead) io slept g = attempt_drop dead io slept g
drop_in _ io slept g = g

unfoldable pub notified_in : Phase → Engine → Engine
notified_in waiting g = record g { phase = top }
notified_in _ g = g

-- A restart reads the store again, and its first pass drains what is there.
unfoldable pub reopen : Option FileStore → Engine → Engine
reopen none g = record g { phase = stopped }
reopen (some s) g = record g { store = s; phase = top }

unfoldable pub step : Engine → Step → Engine
unfolding look_in drop_in notified_in reopen
step g (enqueue io payload) =
    let (store', taken) = append io payload g.store in
    record g { store = store'; accepted = log_if taken payload g.accepted }
step g (look cancelled outcome slept) = look_in g.phase cancelled outcome slept g
step g (try_drop io slept) = drop_in g.phase io slept g
step g notified = notified_in g.phase g
step g restart = reopen (open_store g.store.disk) g

unfoldable pub run : Engine → List Step → Engine
run g [] = g
run g (s ∷ steps) = run (step g s) steps
