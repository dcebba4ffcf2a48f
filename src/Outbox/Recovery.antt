-- ===== src/Outbox/Recovery.antt =====
-- What is in memory is what is on disk, so a restart, at whatever point, finds the queue again.
use gritz.Prelude.{
  ℕ, suc, ◌+◌, ◌%◌, ◌^◌, ◌≤◌, ◌<◌, ◌≡◌, refl, ap, subst, ◌∙◌, max, Bool, true, false, Option, some,
  List, [], ◌∷◌, ◌++◌, Bytes, ==-refl, arith, if◌then◌else◌,
}
use gritz.Outbox.FileStore.{
  Record, Files, FileStore, exists_file, put_file, remove_file, read_file, read_records, max_seq,
  insert_record, sort_records, open_store, append, drop_head, drop,
}

abbrev entry : Record → ℕ × Option Record
entry r = (r.seq, some r)

abbrev entries : List Record → Files
entries [] = []
entries (r ∷ rs) = entry r ∷ entries rs

-- Seqs rise along the list and stay between `low` and `high`.
abbrev pub Rising : ℕ → ℕ → List Record → Type 0
Rising low high [] = Unit {0}
Rising low high (r ∷ rs) = (low ≤ r.seq) × (r.seq < high) × Rising (suc r.seq) high rs

abbrev pub Below : ℕ → Files → Type 0
Below high [] = Unit {0}
Below high ((s, c) ∷ files) = (s < high) × Below high files

-- The queue in memory is the directory, in order of Seq, and Seqs are not given twice.
pub record IsSynced (s : FileStore) : Type 0 where
  pub files : s.live_dir ≡ entries s.live
  pub rising : Rising 0 s.next s.live
  pub dead_below : Below s.next s.dead_dir
  pub in_range : s.next < 2 ^ 64
  pub positive : 0 < s.next

Rising-high : (low h k : ℕ) (rs : List Record) → h ≤ k → Rising low h rs → Rising low k rs
Rising-high low h k [] le r = tt
Rising-high low h k (x ∷ rs) le r = (r.0, omega arith, Rising-high (suc x.seq) h k rs le r.2)

Below-high : (h k : ℕ) (fs : Files) → h ≤ k → Below h fs → Below k fs
Below-high h k [] le b = tt
Below-high h k ((s, c) ∷ fs) le b = (omega arith, Below-high h k fs le b.1)

Rising-append :
    (low high : ℕ) (rs : List Record) (r : Record)
    → Rising low high rs
    → low ≤ high
    → r.seq ≡ high
    → Rising low (suc high) (rs ++ r ∷ [])
Rising-append low high [] r h le e = (omega arith, omega arith, tt)
Rising-append low high (x ∷ rs) r h le e =
    (h.0, omega arith, Rising-append (suc x.seq) high rs r h.2 (omega arith) e)

put_file-new :
    (low high : ℕ) (rs : List Record) (r : Record)
    → Rising low high rs
    → r.seq ≡ high
    → put_file r.seq (some r) (entries rs) ≡ entries (rs ++ r ∷ [])
unfolding put_file
put_file-new low high [] r h e = refl
put_file-new low high (x ∷ rs) r h e = ground (arith, put_file-new (suc x.seq) high rs r h.2 e)

put_file-Below :
    (high k : ℕ) (c : Option Record) (fs : Files)
    → k < high
    → Below high fs
    → Below high (put_file k c fs)
unfolding put_file
put_file-Below high k c [] h b = (h, tt)
put_file-Below high k c ((s, d) ∷ fs) h b = ground (arith, put_file-Below high k c fs h b.1)

pub append-IsSynced :
    (io : Bool) (payload : Bytes) (s : FileStore)
    → s.next + 1 < 2 ^ 64
    → IsSynced s
    → IsSynced (append io payload s).0
unfolding append
append-IsSynced false payload s h v = v
append-IsSynced true payload s h v =
    let e : (s.next + 1) % 2 ^ 64 ≡ suc s.next = omega arith in
    let rec : Record = record { seq = s.next; payload = payload } in
    rw e (record {
      files =
          ap (put_file s.next (some rec)) v.files ∙ put_file-new 0 s.next s.live rec v.rising refl;
      rising = Rising-append 0 s.next s.live rec v.rising (omega arith) refl;
      dead_below = Below-high s.next (suc s.next) s.dead_dir (omega arith) v.dead_below;
      in_range = omega arith;
      positive = omega arith;
    })

Rising-low : (low k high : ℕ) (rs : List Record) → k ≤ low → Rising low high rs → Rising k high rs
Rising-low low k high [] le r = tt
Rising-low low k high (x ∷ rs) le r = (omega arith, r.1, r.2)

-- The store once its head has left it.
abbrev pub dropped : Bool → Record → List Record → FileStore → FileStore
dropped dead rec rest s = record s {
  disk = record {
    live_dir = entries rest;
    dead_dir = if dead then put_file rec.seq (some rec) s.dead_dir else s.dead_dir;
  };
  live = rest;
}

module _ (s : FileStore) (rec : Record) (rest : List Record) (v : IsSynced s)
    (e : s.live ≡ rec ∷ rest) where
  head_files : s.live_dir ≡ entry rec ∷ entries rest
  head_files = v.files ∙ ap entries e

  exists_head : exists_file rec.seq s.live_dir ≡ true
  exists_head = rw head_files (unfold exists_file in rw (==-refl rec.seq))

  remove_head : remove_file rec.seq s.live_dir ≡ entries rest
  remove_head = rw head_files (unfold remove_file in rw (==-refl rec.seq))

  read_head : read_file rec.seq s.live_dir ≡ some rec
  read_head = rw head_files (unfold read_file in rw (==-refl rec.seq))

  drop-cons : (io dead : Bool) → drop io dead s ≡ drop_head io dead rec rest s
  unfolding drop
  drop-cons io dead = ground arith

  -- In a synced store a drop of the head either is refused and changes nothing, or takes the head
  -- out of the queue and its file out of the directory, into the dead-letter area if it is dead.
  pub drop-synced :
      (io dead : Bool)
      → drop io dead s ≡ (if io then (dropped dead rec rest s, true) else (s, false))
  unfolding drop_head
  drop-synced true true =
      drop-cons true true ∙ rw (exists_head, drop_head) (rw (remove_head, read_head))
  drop-synced true false = drop-cons true false ∙ rw remove_head
  drop-synced false true = drop-cons false true
  drop-synced false false = drop-cons false false ∙ rw exists_head

  dropped-IsSynced : (dead : Bool) → IsSynced (dropped dead rec rest s)
  dropped-IsSynced dead =
      let r : Rising 0 s.next (rec ∷ rest) = subst (Rising 0 s.next) e v.rising in
      record {
        files = refl;
        rising = Rising-low (suc rec.seq) 0 s.next rest (omega arith) r.2;
        dead_below = ground (
          arith,
          put_file-Below s.next rec.seq (some rec) s.dead_dir r.1 v.dead_below,
          v.dead_below,
        );
        in_range = v.in_range;
        positive = v.positive;
      }

  drop-IsSynced_head : (io dead : Bool) → IsSynced (drop io dead s).0
  drop-IsSynced_head true dead = rw (drop-synced true dead) (dropped-IsSynced dead)
  drop-IsSynced_head false dead = rw (drop-synced false dead) v

pub drop-nil : (io dead : Bool) (s : FileStore) → s.live ≡ [] → drop io dead s ≡ (s, true)
unfolding drop
drop-nil io dead s e = ground arith

pub drop-IsSynced : (io dead : Bool) (s : FileStore) → IsSynced s → IsSynced (drop io dead s).0
drop-IsSynced io dead s v = by_queue s.live refl
  where
    by_queue : (queue : List Record) → s.live ≡ queue → IsSynced (drop io dead s).0
    by_queue [] e = rw (drop-nil io dead s e) v
    by_queue (rec ∷ rest) e = drop-IsSynced_head s rec rest v e io dead

read_records-entries : (rs : List Record) → read_records (entries rs) ≡ some rs
unfolding read_records
read_records-entries [] = refl
read_records-entries (r ∷ rs) = rw (read_records-entries rs, read_records)

insert_record-first :
    (low high : ℕ) (r : Record) (rs : List Record)
    → r.seq ≤ low
    → Rising low high rs
    → insert_record r rs ≡ r ∷ rs
unfolding insert_record
insert_record-first low high r [] h v = refl
insert_record-first low high r (x ∷ rs) h v = ground arith

sort_records-Rising : (low high : ℕ) (rs : List Record) → Rising low high rs → sort_records rs ≡ rs
unfolding sort_records
sort_records-Rising low high [] v = refl
sort_records-Rising low high (r ∷ rs) v =
    ap (insert_record r) (sort_records-Rising (suc r.seq) high rs v.2)
    ∙ insert_record-first (suc r.seq) high r rs (omega arith) v.2

max_seq-lt :
    (low high : ℕ) (rs : List Record) → 0 < high → Rising low high rs → max_seq (entries rs) < high
unfolding max_seq
max_seq-lt low high [] h v = h
max_seq-lt low high (r ∷ rs) h v = omega (arith, max_seq-lt (suc r.seq) high rs h v.2)

Rising-max_seq :
    (low high m : ℕ) (rs : List Record)
    → Rising low high rs
    → max_seq (entries rs) < m
    → Rising low m rs
unfolding max_seq
Rising-max_seq low high m [] v h = tt
Rising-max_seq low high m (r ∷ rs) v h =
    (v.0, omega arith, Rising-max_seq (suc r.seq) high m rs v.2 (omega arith))

max_seq-Below : (high : ℕ) (fs : Files) → 0 < high → Below high fs → max_seq fs < high
unfolding max_seq
max_seq-Below high [] h b = h
max_seq-Below high ((s, c) ∷ fs) h b = omega (arith, max_seq-Below high fs h b.1)

Below-max_seq : (m : ℕ) (fs : Files) → max_seq fs < m → Below m fs
unfolding max_seq
Below-max_seq m [] h = tt
Below-max_seq m ((s, c) ∷ fs) h = (omega arith, Below-max_seq m fs (omega arith))

module _ (s : FileStore) (v : IsSynced s) where
  reopened_next : ℕ
  reopened_next = max (max_seq s.live_dir) (max_seq s.dead_dir) + 1

  live_max : max_seq s.live_dir < s.next
  live_max = rw v.files (max_seq-lt 0 s.next s.live v.positive v.rising)

  reopened-le : reopened_next ≤ s.next
  unfolding reopened_next
  reopened-le = omega (arith, live_max, max_seq-Below s.next s.dead_dir v.positive v.dead_below)

  -- A restart finds the same records in the same order, in a store that is synced again. Its next
  -- Seq is above every Seq on disk and at most what it was before.
  pub open_store-IsSynced :
      (t : FileStore) × (open_store s.disk ≡ some t)
      × (t.live ≡ s.live)
      × (t.disk ≡ s.disk)
      × (t.next ≤ s.next)
      × IsSynced t
  unfolding open_store reopened_next
  open_store-IsSynced =
      let e : (max (max_seq s.live_dir) (max_seq s.dead_dir) + 1) % 2 ^ 64 ≡ reopened_next =
        omega (arith, reopened-le, v.in_range) in
      (
        record { disk = s.disk; next = reopened_next; live = s.live },
        ground (
          arith,
          ap read_records v.files ∙ read_records-entries s.live,
          sort_records-Rising 0 s.next s.live v.rising,
          e,
        ),
        refl,
        refl,
        reopened-le,
        record {
          files = v.files;
          rising = Rising-max_seq 0 s.next _ s.live v.rising (omega (arith, ap max_seq v.files));
          dead_below = Below-max_seq _ s.dead_dir (omega arith);
          in_range = omega (arith, reopened-le, v.in_range);
          positive = omega arith;
        },
      )
