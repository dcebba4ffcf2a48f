-- ===== src/Outbox/Soundness.antt =====
-- What holds between the outbox and what it has accepted and delivered, through looks and drops.
use mathlib.Core.List.{append_assoc}
use gritz.Prelude.{
  ◌≡◌, refl, sym, ap, subst, ◌∙◌, Bool, true, false, none, some, List, [], ◌∷◌, ◌++◌, Bytes, arith,
  if◌then◌else◌, inl, inr, ◌⊎◌,
}
use gritz.Outbox.FileStore.{Record, FileStore, peek}
use gritz.Outbox.Recovery.{IsSynced, drop-IsSynced, drop-synced, dropped}
use gritz.Outbox.Engine.{
  Phase, top, waiting, stopped, dropping, Outcome, undecodable, success, permanent, transient,
  Engine, settle, look_at_head, attempt_drop, look_in, drop_in,
}

abbrev pub payloads : List Record → List Bytes
payloads [] = []
payloads (r ∷ rs) = r.payload ∷ payloads rs

abbrev pub firsts : List (Bytes × Bool) → List Bytes
firsts [] = []
firsts ((p, dead) ∷ rest) = p ∷ firsts rest

-- `In p ps`: p is one of ps.
abbrev pub In : Bytes → List Bytes → Type 0
In p [] = ⊥
In p (q ∷ ps) = (p ≡ q) ⊎ In p ps

-- Each record that was settled as delivered has been delivered.
abbrev pub AllDelivered : List Bytes → List (Bytes × Bool) → Type 0
AllDelivered log [] = Unit {0}
AllDelivered log ((p, dead) ∷ rest) = (dead ≡ false → In p log) × AllDelivered log rest

-- In drop, there is a head, and it has been delivered if it is not to be dead-lettered.
abbrev pub InHand : List Record → List Bytes → Phase → Type 0
InHand live log (dropping dead) =
    (rec : Record) × (rest : List Record) × (live ≡ rec ∷ rest)
    × (dead ≡ false → In rec.payload log)
InHand live log _ = Unit {0}

pub record IsSound (g : Engine) : Type 0 where
  pub synced : IsSynced g.store
  pub in_order : g.accepted ≡ firsts g.settled ++ payloads g.store.live
  pub sent : AllDelivered g.delivered g.settled
  pub in_hand : InHand g.store.live g.delivered g.phase

pub payloads-append : (rs qs : List Record) → payloads (rs ++ qs) ≡ payloads rs ++ payloads qs
payloads-append [] qs = refl
payloads-append (r ∷ rs) qs = ap (λ x. r.payload ∷ x) (payloads-append rs qs)

firsts-append : (xs ys : List (Bytes × Bool)) → firsts (xs ++ ys) ≡ firsts xs ++ firsts ys
firsts-append [] ys = refl
firsts-append ((p, d) ∷ xs) ys = ap (λ x. p ∷ x) (firsts-append xs ys)

In-append : (p : Bytes) (ps qs : List Bytes) → In p ps ⊎ In p qs → In p (ps ++ qs)
In-append p [] qs (inl h) = elim h [ ]
In-append p [] qs (inr h) = h
In-append p (q ∷ ps) qs (inl (inl e)) = inl e
In-append p (q ∷ ps) qs (inl (inr h)) = inr (In-append p ps qs (inl h))
In-append p (q ∷ ps) qs (inr h) = inr (In-append p ps qs (inr h))

AllDelivered-append :
    (log : List Bytes) (xs : List (Bytes × Bool)) (p : Bytes) (dead : Bool)
    → AllDelivered log xs
    → (dead ≡ false → In p log)
    → AllDelivered log (xs ++ (p, dead) ∷ [])
AllDelivered-append log [] p dead h k = (k, tt)
AllDelivered-append log ((q, d) ∷ xs) p dead h k = (h.0, AllDelivered-append log xs p dead h.1 k)

AllDelivered-log :
    (log more : List Bytes) (xs : List (Bytes × Bool))
    → AllDelivered log xs
    → AllDelivered (log ++ more) xs
AllDelivered-log log more [] h = tt
AllDelivered-log log more ((p, d) ∷ xs) h =
    (λ e. In-append p log more (inl (h.0 e)), AllDelivered-log log more xs h.1)

peek-nil : (s : FileStore) → s.live ≡ [] → peek s ≡ none
unfolding peek
peek-nil s e = ground arith

peek-cons :
    (s : FileStore) (rec : Record) (rest : List Record) → s.live ≡ rec ∷ rest → peek s ≡ some rec
unfolding peek
peek-cons s rec rest e = ground arith

settle-IsSound :
    (outcome : Outcome) (slept : Bool) (rec : Record) (rest : List Record) (g : Engine)
    → g.store.live ≡ rec ∷ rest
    → IsSound g
    → IsSound (settle outcome slept rec g)
unfolding settle
settle-IsSound undecodable slept rec rest g e v = record {
  synced = v.synced;
  in_order = v.in_order;
  sent = v.sent;
  in_hand = (rec, rest, e, λ h. absurd (cc h));
}
settle-IsSound success slept rec rest g e v = record {
  synced = v.synced;
  in_order = v.in_order;
  sent = AllDelivered-log g.delivered (rec.payload ∷ []) g.settled v.sent;
  in_hand =
      (rec, rest, e, λ h. In-append rec.payload g.delivered (rec.payload ∷ []) (inr (inl refl)));
}
settle-IsSound permanent slept rec rest g e v = record {
  synced = v.synced;
  in_order = v.in_order;
  sent = v.sent;
  in_hand = (rec, rest, e, λ h. absurd (cc h));
}
settle-IsSound transient true rec rest g e v = record {
  synced = v.synced;
  in_order = v.in_order;
  sent = v.sent;
  in_hand = tt;
}
settle-IsSound transient false rec rest g e v = record {
  synced = v.synced;
  in_order = v.in_order;
  sent = v.sent;
  in_hand = tt;
}

pub look-IsSound :
    (phase : Phase) (cancelled : Bool) (outcome : Outcome) (slept : Bool) (g : Engine)
    → IsSound g
    → IsSound (look_in phase cancelled outcome slept g)
unfolding look_in look_at_head
look-IsSound top true outcome slept g v = record {
  synced = v.synced;
  in_order = v.in_order;
  sent = v.sent;
  in_hand = tt;
}
look-IsSound top false outcome slept g v = by_queue g.store.live refl
  where
    by_queue :
        (queue : List Record) → g.store.live ≡ queue → IsSound (look_at_head false outcome slept g)
    by_queue [] e =
        rw (peek-nil g.store e, look_at_head)
          (record { synced = v.synced; in_order = v.in_order; sent = v.sent; in_hand = tt })
    by_queue (rec ∷ rest) e =
        rw (peek-cons g.store rec rest e, look_at_head)
          (settle-IsSound outcome slept rec rest g e v)
look-IsSound waiting cancelled outcome slept g v = v
look-IsSound stopped cancelled outcome slept g v = v
look-IsSound (dropping dead) cancelled outcome slept g v = v

drop_failed :
    (dead slept : Bool) (g : Engine) (rec : Record) (rest : List Record)
    → g.store.live ≡ rec ∷ rest
    → (dead ≡ false → In rec.payload g.delivered)
    → IsSound g
    → IsSound (record g { phase = if slept then dropping dead else stopped })
drop_failed dead true g rec rest e h v = record {
  synced = v.synced;
  in_order = v.in_order;
  sent = v.sent;
  in_hand = (rec, rest, e, h);
}
drop_failed dead false g rec rest e h v = record {
  synced = v.synced;
  in_order = v.in_order;
  sent = v.sent;
  in_hand = tt;
}

module _ (g : Engine) (v : IsSound g) (dead : Bool) (rec : Record) (rest : List Record)
    (e : g.store.live ≡ rec ∷ rest) (h : dead ≡ false → In rec.payload g.delivered) where
  moved : g.accepted ≡ firsts (g.settled ++ (rec.payload, dead) ∷ []) ++ payloads rest
  moved =
      v.in_order
      ∙ ap (λ l. firsts g.settled ++ payloads l) e
      ∙ sym (append_assoc (firsts g.settled) (rec.payload ∷ []) (payloads rest))
      ∙ ap (λ l. l ++ payloads rest) (sym (firsts-append g.settled ((rec.payload, dead) ∷ [])))

  drop_done : IsSound (record g {
    store = dropped dead rec rest g.store;
    phase = top;
    settled = g.settled ++ (rec.payload, dead) ∷ [];
  })
  drop_done = record {
    synced =
        subst IsSynced (ap (λ r. r.0) (drop-synced g.store rec rest v.synced e true dead))
          (drop-IsSynced true dead g.store v.synced);
    in_order = moved;
    sent = AllDelivered-append g.delivered g.settled rec.payload dead v.sent h;
    in_hand = tt;
  }

  attempt-IsSound : (io slept : Bool) → IsSound (attempt_drop dead io slept g)
  unfolding attempt_drop
  attempt-IsSound true slept =
      rw (drop-synced g.store rec rest v.synced e true dead, attempt_drop)
        (rw (peek-cons g.store rec rest e) drop_done)
  attempt-IsSound false slept =
      rw (drop-synced g.store rec rest v.synced e false dead, attempt_drop)
        (drop_failed dead slept g rec rest e h v)

pub drop-IsSound :
    (phase : Phase) (io slept : Bool) (g : Engine)
    → g.phase ≡ phase
    → IsSound g
    → IsSound (drop_in phase io slept g)
unfolding drop_in
drop-IsSound (dropping dead) io slept g e v =
    let (rec, rest, live, h) = subst (InHand g.store.live g.delivered) e v.in_hand in
    attempt-IsSound g v dead rec rest live h io slept
drop-IsSound top io slept g e v = v
drop-IsSound waiting io slept g e v = v
drop-IsSound stopped io slept g e v = v

-- Appending behind the head leaves what is in hand in hand.
pub InHand-append :
    (phase : Phase) (live : List Record) (log : List Bytes) (r : Record)
    → InHand live log phase
    → InHand (live ++ r ∷ []) log phase
InHand-append (dropping dead) live log r (rec, rest, e, h) =
    (rec, rest ++ r ∷ [], ap (λ l. l ++ r ∷ []) e, h)
InHand-append top live log r h = tt
InHand-append waiting live log r h = tt
InHand-append stopped live log r h = tt
