-- ===== src/Examples/Queue.antt =====
-- The outbox at concrete runs.
use gritz.Prelude.{◌≡◌, refl, ◌≤◌, true, false, some, List, [], ◌∷◌, codes, arith}
use gritz.Outbox.FileStore.{FileStore, append, open_store}
use gritz.Outbox.Recovery.{IsSynced, append-IsSynced, open_store-IsSynced}
use gritz.Outbox.Engine.{Step, enqueue, look, try_drop, restart, transient, success, run}
use gritz.Outbox.Soundness.{IsSound}
use gritz.Outbox.Delivery.{fresh, run-IsSound}

abbrev empty_store : FileStore
empty_store = record { disk = record { live_dir = []; dead_dir = [] }; next = 1; live = [] }

empty_store-IsSynced : IsSynced empty_store
empty_store-IsSynced = record {
  files = refl;
  rising = tt;
  dead_below = tt;
  in_range = omega arith;
  positive = omega arith;
}

abbrev one_record : FileStore
one_record = (append true (codes "a") empty_store).0

one_record-IsSynced : IsSynced one_record
one_record-IsSynced =
    append-IsSynced true (codes "a") empty_store (omega arith) empty_store-IsSynced

open_store-IsSynced_example :
    (t : FileStore) × (open_store one_record.disk ≡ some t)
    × (t.live ≡ one_record.live)
    × (t.disk ≡ one_record.disk)
    × (t.next ≤ one_record.next)
    × IsSynced t
open_store-IsSynced_example = open_store-IsSynced one_record one_record-IsSynced

abbrev steps : List Step
steps =
    enqueue true (codes "a")
    ∷ look false transient true
    ∷ look false success true
    ∷ restart
    ∷ look false success true
    ∷ try_drop true true
    ∷ []

run-IsSound_example : IsSound (run fresh steps)
run-IsSound_example = run-IsSound steps (omega arith)
