-- ===== src/DriverServer.antt =====
-- The driver's server inside a sandbox (internal/runner/driverserver/driverserver.go) over its run
-- record on the sandbox's disk (internal/runner/runrecord/runrecord.go): which runs are started, and
-- what is said of them. The runs are a heap: a run is its number there, and `next` is the number of the
-- next one. The boots and crashes of the process, the calls of its handlers and the progress of the
-- runs are steps that the environment chooses. A write of the record succeeds wholly or changes
-- nothing, for it is atomic (internal/x/atomicio).
pub mod Steps
pub mod Sound
pub mod Kept
pub mod Opening
pub mod Once
use gritz.Prelude.{
  ℕ, suc, Bool, true, false, not, ◌&&◌, Option, none, some, List, [], ◌∷◌, ◌==◌, ltb, if◌then◌else◌,
}

pub data RunState : Type 0 where
  running finished : RunState

-- A time of zero is the zero time.
pub record RunRecord : Type 0 where
  pub version : ℕ
  pub state : RunState
  pub finished_at : ℕ
  pub reported : Bool

-- The file: from a broken one no record with a valid state is decoded.
pub data RecordFile : Type 0 where
  absent broken : RecordFile
  holds : RunRecord → RecordFile

-- `Read`, where the disk answers: `none` is an error, and `some none` says that there is no record.
unfoldable pub read : Bool → RecordFile → Option (Option RunRecord)
read false f = none
read true absent = some none
read true broken = none
read true (holds r) = some (some r)

-- `Write` changes the file if the disk accepts.
abbrev pub write : Bool → RunRecord → RecordFile → RecordFile
write accepted r f = if accepted then holds r else f

-- What `Reconcile` makes of a record: a run that was running has crashed.
abbrev pub crashed_record : RunRecord → ℕ → RunRecord
crashed_record r now = record {
  version = r.version;
  state = finished;
  finished_at = now;
  reported = false;
}

abbrev pub reconcile_by :
    RunState → Bool → ℕ → RunRecord → RecordFile → Option (Option RunRecord) × RecordFile
reconcile_by finished can_write now r f = (some (some r), f)
reconcile_by running false now r f = (none, f)
reconcile_by running true now r f =
    (some (some (crashed_record r now)), write true (crashed_record r now) f)

abbrev pub reconcile_read :
    Option (Option RunRecord) → Bool → ℕ → RecordFile → Option (Option RunRecord) × RecordFile
reconcile_read none can_write now f = (none, f)
reconcile_read (some none) can_write now f = (some none, f)
reconcile_read (some (some r)) can_write now f = reconcile_by r.state can_write now r f

unfoldable pub reconcile : Bool → Bool → ℕ → RecordFile → Option (Option RunRecord) × RecordFile
unfolding read
reconcile can_read can_write now f = reconcile_read (read can_read f) can_write now f

-- A run executing in this process; `outcome` is the record that `execute` has written, or tried to,
-- before it takes the lock.
pub record Run : Type 0 where
  pub version : ℕ
  pub stopped : Bool
  pub outcome : Option RunRecord
  pub done : Bool
  pub reported : Bool

pub record Server : Type 0 where
  pub rec : Option RunRecord
  pub runs : ℕ → Run
  pub next : ℕ
  pub active : Option ℕ
  pub stream : Option ℕ
  pub closed : Bool

-- A sandbox: its disk and the process, if it is up. `started` are the versions of the runs that were
-- started, the newest first, and `acked` those whose driver returned without an error.
pub record Sandbox : Type 0 where
  pub disk : RecordFile
  pub server : Option Server
  pub started : List ℕ
  pub acked : List ℕ

pub data OpenCode : Type 0 where
  unavailable failed_precondition aborted not_found internal : OpenCode

-- An error, or the run that the stream follows and whether it was attached to.
pub data Opened : Type 0 where
  refused : OpenCode → Opened
  follows : ℕ → Bool → Opened

abbrev pub put_run : (ℕ → Run) → ℕ → Run → ℕ → Run
put_run runs i r j = if j == i then r else runs j

abbrev pub new_run : ℕ → Run
new_run version = record {
  version = version;
  stopped = false;
  outcome = none;
  done = false;
  reported = false;
}

abbrev pub finished_run : ℕ → Bool → Run
finished_run version reported = record (new_run version) { done = true; reported = reported }

-- `New`
abbrev pub new_server : Option RunRecord → Server
new_server rec = record {
  rec = rec;
  runs = λ i. finished_run 0 false;
  next = 0;
  active = none;
  stream = none;
  closed = false;
}

abbrev pub booted : Option (Option RunRecord) × RecordFile → Sandbox → Sandbox
booted (none, f) x = record x { disk = f; server = none }
booted (some rec, f) x = record x { disk = f; server = some (new_server rec) }

-- A call that the server answers.
abbrev pub answered : Server → Opened → Sandbox → Sandbox × Opened
answered s o x = (record x { server = some s }, o)

abbrev pub follow : ℕ → Bool → Server → Sandbox → Sandbox × Opened
follow i attached s x = answered (record s { stream = some i }) (follows i attached) x

-- A stream on a run that ended before this process saw it.
abbrev pub follow_past : RunRecord → Server → Sandbox → Sandbox × Opened
follow_past r s x =
    follow s.next true
      (record s {
        runs = put_run s.runs s.next (finished_run r.version r.reported);
        next = suc s.next;
      })
      x

abbrev pub is_version : Server → Option ℕ → ℕ → Bool
is_version s none version = false
is_version s (some i) version = (s.runs i).version == version

-- The run of the record's version: the active one if it has that version.
abbrev pub attach_to : Option ℕ → RunRecord → Server → Sandbox → Sandbox × Opened
attach_to none r s x = follow_past r s x
attach_to (some i) r s x =
    if (s.runs i).version == r.version then follow i true s x else follow_past r s x

abbrev pub running_record : ℕ → RunRecord
running_record version = record {
  version = version;
  state = running;
  finished_at = 0;
  reported = false;
}

-- `start`, where the record is written.
abbrev pub started_run : ℕ → Server → Sandbox → Sandbox × Opened
started_run version s x =
    follow s.next false
      (record s {
        rec = some (running_record version);
        runs = put_run s.runs s.next (new_run version);
        next = suc s.next;
        active = some s.next;
      })
      (record x { disk = holds (running_record version); started = version ∷ x.started })

-- The last cases of `open`.
abbrev pub open_new : ℕ → Bool → Bool → Server → Sandbox → Sandbox × Opened
open_new version has_spec can_write s x =
    if not has_spec
    then answered s (refused not_found) x
    else if s.closed
    then answered s (refused unavailable) x
    else if not can_write
    then answered s (refused internal) x
    else started_run version s x

abbrev pub is_running : RunState → Bool
is_running running = true
is_running finished = false

abbrev pub open_by : Option RunRecord → ℕ → Bool → Bool → Server → Sandbox → Sandbox × Opened
open_by none version has_spec can_write s x = open_new version has_spec can_write s x
open_by (some r) version has_spec can_write s x =
    if ltb version r.version
    then answered s (refused failed_precondition) x
    else if r.version == version
    then attach_to s.active r s x
    else if is_running r.state
    then answered s (refused aborted) x
    else open_new version has_spec can_write s x

abbrev pub open_unless : Option ℕ → ℕ → Bool → Bool → Server → Sandbox → Sandbox × Opened
open_unless (some i) version has_spec can_write s x = answered s (refused unavailable) x
open_unless none version has_spec can_write s x = open_by s.rec version has_spec can_write s x

-- `open`, with the version and whether a spec comes with it, and what the disk answers.
unfoldable pub open_run : ℕ → Bool → Bool → Server → Sandbox → Sandbox × Opened
open_run version has_spec can_write s x = open_unless s.stream version has_spec can_write s x
