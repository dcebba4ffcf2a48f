-- ===== src/Outbox/FileStore.antt =====
-- internal/x/outbox/filestore.go. A directory is an association list from the Seq that a record
-- file is named for to its contents, `none` for a file that cannot be read or decoded; files that
-- are no record files are ignored by the code and have no place here. The file system refuses an
-- operation when `io` is false; the writes are atomic (internal/x/atomicio), so a refused one
-- changes nothing. Numbers are uint64.
use gritz.Prelude.{
  ℕ, ◌+◌, ◌%◌, ◌^◌, max, Bool, true, false, not, ◌&&◌, Option, none, some, List, [], ◌∷◌, ◌++◌,
  Bytes, ◌==◌, leb, length, if◌then◌else◌,
}

pub record Record : Type 0 where
  pub seq : ℕ
  pub payload : Bytes

abbrev pub Files : Type 0
Files = List (ℕ × Option Record)

pub record Disk : Type 0 where
  pub live_dir : Files
  pub dead_dir : Files

pub record FileStore : Type 0 where
  pub disk : Disk
  pub open disk use *
  pub next : ℕ
  pub live : List Record

unfoldable pub exists_file : ℕ → Files → Bool
exists_file seq [] = false
exists_file seq ((s, c) ∷ files) = if s == seq then true else exists_file seq files

-- A write to a new name, or over an old one.
unfoldable pub put_file : ℕ → Option Record → Files → Files
put_file seq c [] = (seq, c) ∷ []
put_file seq c ((s, d) ∷ files) =
    if s == seq then (seq, c) ∷ files else (s, d) ∷ put_file seq c files

unfoldable pub remove_file : ℕ → Files → Files
remove_file seq [] = []
remove_file seq ((s, c) ∷ files) = if s == seq then files else (s, c) ∷ remove_file seq files

unfoldable pub read_file : ℕ → Files → Option Record
read_file seq [] = none
read_file seq ((s, c) ∷ files) = if s == seq then c else read_file seq files

-- The reading loop of `Open`: an unreadable or undecodable record is an error.
unfoldable pub read_records : Files → Option (List Record)
read_records [] = some []
read_records ((s, none) ∷ files) = none
read_records ((s, some r) ∷ files) = elim (read_records files) [
  | none ↦ none
  | some records ↦ some (r ∷ records)
]

unfoldable pub max_seq : Files → ℕ
max_seq [] = 0
max_seq ((s, c) ∷ files) = max s (max_seq files)

unfoldable pub insert_record : Record → List Record → List Record
insert_record r [] = r ∷ []
insert_record r (x ∷ records) =
    if leb r.seq x.seq then r ∷ x ∷ records else x ∷ insert_record r records

-- `slices.SortFunc` by Seq.
unfoldable pub sort_records : List Record → List Record
sort_records [] = []
sort_records (r ∷ records) = insert_record r (sort_records records)

unfoldable pub open_store : Disk → Option FileStore
open_store d = elim (read_records d.live_dir) [
  | none ↦ none
  | some records ↦ some (record {
    disk = d;
    next = (max (max_seq d.live_dir) (max_seq d.dead_dir) + 1) % 2 ^ 64;
    live = sort_records records;
  })
]

-- The new store, and whether the payload was accepted.
unfoldable pub append : Bool → Bytes → FileStore → FileStore × Bool
append io payload s =
    let rec : Record = record { seq = s.next; payload = payload } in
    if not io then (s, false) else (
      record s {
        disk = record s.disk { live_dir = put_file s.next (some rec) s.live_dir };
        live = s.live ++ rec ∷ [];
        next = (s.next + 1) % 2 ^ 64;
      },
      true,
    )

unfoldable pub peek : FileStore → Option Record
peek s = elim s.live [ [] ↦ none | rec ∷ rest ↦ some rec ]

-- `os.Rename` needs the file; `os.Remove` of a missing file is no error.
unfoldable pub drop_head : Bool → Bool → Record → List Record → FileStore → FileStore × Bool
drop_head io dead rec rest s =
    if dead
    then (if io && exists_file rec.seq s.live_dir
        then (
          record s {
            disk = record {
              live_dir = remove_file rec.seq s.live_dir;
              dead_dir = put_file rec.seq (read_file rec.seq s.live_dir) s.dead_dir;
            };
            live = rest;
          },
          true,
        )
        else (s, false))
    else (if not io && exists_file rec.seq s.live_dir then (s, false) else (
      record s { disk = record s.disk { live_dir = remove_file rec.seq s.live_dir }; live = rest },
      true,
    ))

-- The new store, and whether the drop succeeded.
unfoldable pub drop : Bool → Bool → FileStore → FileStore × Bool
drop io dead s = elim s.live [ [] ↦ (s, true) | rec ∷ rest ↦ drop_head io dead rec rest s ]

unfoldable pub len : FileStore → ℕ
len s = length s.live
