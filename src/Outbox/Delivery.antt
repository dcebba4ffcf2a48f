-- ===== src/Outbox/Delivery.antt =====
-- At least once and in order.
use mathlib.Core.List.{append_assoc}
use gritz.Prelude.{
  ◌+◌, ◌^◌, ◌≤◌, ◌<◌, ◌≡◌, refl, sym, ap, ◌∙◌, Bool, true, false, List, [], ◌∷◌, ◌++◌, length,
  Bytes, arith,
}
use gritz.Outbox.FileStore.{Record, FileStore, append, drop_head, drop}
use gritz.Outbox.Recovery.{append-IsSynced, open_store-IsSynced}
use gritz.Outbox.Engine.{
  Phase, top, waiting, stopped, dropping, Outcome, Engine, Step, enqueue, look, try_drop, notified,
  restart, settle, look_at_head, attempt_drop, look_in, drop_in, notified_in, step, run,
}
use gritz.Outbox.Soundness.{
  payloads, firsts, IsSound, payloads-append, look-IsSound, drop-IsSound, InHand-append,
}

enqueue-IsSound :
    (io : Bool) (payload : Bytes) (g : Engine)
    → g.store.next + 1 < 2 ^ 64
    → IsSound g
    → IsSound (step g (enqueue io payload))
unfolding step append
enqueue-IsSound false payload g room v = record {
  synced = v.synced;
  in_order = v.in_order;
  sent = v.sent;
  in_hand = v.in_hand;
}
enqueue-IsSound true payload g room v =
    let rec : Record = record { seq = g.store.next; payload = payload } in
    record {
      synced = append-IsSynced true payload g.store room v.synced;
      in_order =
          ap (λ l. l ++ payload ∷ []) v.in_order
          ∙ append_assoc (firsts g.settled) (payloads g.store.live) (payload ∷ [])
          ∙ ap (λ l. firsts g.settled ++ l) (sym (payloads-append g.store.live (rec ∷ [])));
      sent = v.sent;
      in_hand = InHand-append g.phase g.store.live g.delivered rec v.in_hand;
    }

restart-IsSound : (g : Engine) → IsSound g → IsSound (step g restart)
unfolding step
restart-IsSound g v =
    let (t, opened, live, disk, le, synced) = open_store-IsSynced g.store v.synced in
    rw (opened, step)
      (record {
        synced = synced;
        in_order = v.in_order ∙ ap (λ l. firsts g.settled ++ payloads l) (sym live);
        sent = v.sent;
        in_hand = tt;
      })

notified-IsSound : (phase : Phase) (g : Engine) → IsSound g → IsSound (notified_in phase g)
unfolding notified_in
notified-IsSound waiting g v = record {
  synced = v.synced;
  in_order = v.in_order;
  sent = v.sent;
  in_hand = tt;
}
notified-IsSound top g v = v
notified-IsSound stopped g v = v
notified-IsSound (dropping dead) g v = v

step-IsSound : (g : Engine) (s : Step) → g.store.next + 1 < 2 ^ 64 → IsSound g → IsSound (step g s)
step-IsSound g (enqueue io payload) room v = enqueue-IsSound io payload g room v
step-IsSound g (look cancelled outcome slept) room v =
    unfold step in look-IsSound g.phase cancelled outcome slept g v
step-IsSound g (try_drop io slept) room v = unfold step in drop-IsSound g.phase io slept g refl v
step-IsSound g notified room v = unfold step in notified-IsSound g.phase g v
step-IsSound g restart room v = restart-IsSound g v

next-look :
    (phase : Phase) (cancelled : Bool) (outcome : Outcome) (slept : Bool) (g : Engine)
    → (look_in phase cancelled outcome slept g).store ≡ g.store
unfolding look_in look_at_head settle
next-look phase cancelled outcome slept g = ground arith

next-drop_store : (io dead : Bool) (s : FileStore) → (drop io dead s).0.next ≡ s.next
unfolding drop drop_head
next-drop_store io dead s = ground arith

next-drop :
    (phase : Phase) (io slept : Bool) (g : Engine)
    → (drop_in phase io slept g).store.next ≡ g.store.next
unfolding drop_in attempt_drop
next-drop (dropping dead) io slept g = ground (arith, next-drop_store io dead g.store)
next-drop top io slept g = refl
next-drop waiting io slept g = refl
next-drop stopped io slept g = refl

-- One step gives out at most one Seq.
next-step : (g : Engine) (s : Step) → IsSound g → (step g s).store.next ≤ g.store.next + 1
unfolding step append notified_in
next-step g (enqueue io payload) v = ground arith
next-step g (look cancelled outcome slept) v =
    omega (arith, ap (λ (s : FileStore). s.next) (next-look g.phase cancelled outcome slept g))
next-step g (try_drop io slept) v = omega (arith, next-drop g.phase io slept g)
next-step g notified v = ground arith
next-step g restart v =
    let (t, opened, live, disk, le, synced) = open_store-IsSynced g.store v.synced in
    rw (opened, step) (omega arith)

run-keeps :
    (g : Engine) (steps : List Step)
    → g.store.next + length steps < 2 ^ 64
    → IsSound g
    → IsSound (run g steps)
unfolding run
run-keeps g [] room v = v
run-keeps g (s ∷ steps) room v =
    run-keeps (step g s) steps (omega (arith, next-step g s v)) (step-IsSound g s (omega arith) v)

-- An outbox over an empty directory, as it is first made.
abbrev pub fresh : Engine
fresh = record {
  store = record { disk = record { live_dir = []; dead_dir = [] }; next = 1; live = [] };
  phase = top;
  accepted = [];
  delivered = [];
  settled = [];
}

fresh-IsSound : IsSound fresh
fresh-IsSound = record {
  synced = record {
    files = refl;
    rising = tt;
    dead_below = tt;
    in_range = omega arith;
    positive = omega arith;
  };
  in_order = refl;
  sent = tt;
  in_hand = tt;
}

-- Whatever is enqueued, however deliveries, file operations and sleeps end and whenever the process
-- restarts, as long as fewer than 2 ^ 64 - 1 steps are made: the accepted payloads are, in their
-- order, those that left the queue followed by those that are still in it; each that left without
-- being dead-lettered has been delivered before; and the memory is what the disk holds.
pub run-IsSound : (steps : List Step) → length steps + 1 < 2 ^ 64 → IsSound (run fresh steps)
run-IsSound steps room = run-keeps fresh steps (omega arith) fresh-IsSound
