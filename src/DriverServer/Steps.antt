-- ===== src/DriverServer/Steps.antt =====
-- The rest of the driver's server, and the steps of a sandbox.
use gritz.Prelude.{
  ℕ, Bool, true, false, not, ◌&&◌, Option, none, some, List, [], ◌∷◌, ◌==◌, ltb, if◌then◌else◌,
}
use gritz.DriverServer.{
  finished, RunRecord, absent, write, reconcile, Run, Server, Sandbox, put_run, booted, open_run,
}

-- `stop` cancels the active run if it has the version and is not done.
abbrev pub stop_run : ℕ → Option ℕ → Server → Server × Bool
stop_run version none s = (s, false)
stop_run version (some i) s =
    if not ((s.runs i).version == version)
    then (s, false)
    else if (s.runs i).done
    then (s, false)
    else (record s { runs = put_run s.runs i (record (s.runs i) { stopped = true }) }, true)

-- `Stop` and `Shutdown`; the waiting of `Shutdown` ends when no run is executing.
unfoldable pub stop : ℕ → Server → Server × Bool
stop version s = stop_run version s.active s

abbrev pub stop_active : Option ℕ → Server → Server
stop_active none s = s
stop_active (some i) s = (stop_run (s.runs i).version s.active s).0

unfoldable pub shutdown : Server → Server
shutdown s = let closing = record s { closed = true } in stop_active closing.active closing

-- The tail of `execute`: the driver has returned, and its outcome is written; then, under the lock, it
-- becomes the record, and the run is done.
abbrev pub outcome_of : Run → Bool → ℕ → RunRecord
outcome_of r acked now = record {
  version = r.version;
  state = finished;
  finished_at = now;
  reported = acked;
}

abbrev pub is_executing : Run → Bool
is_executing r = elim r.outcome [ none ↦ not r.done | some o ↦ false ]

unfoldable pub driver_returns : ℕ → Bool → Bool → ℕ → Server → Sandbox → Sandbox
driver_returns i acked can_write now s x =
    let r = s.runs i in
    let o = outcome_of r acked now in
    if ltb i s.next && is_executing r
    then record x {
      disk = write can_write o x.disk;
      server = some (record s { runs = put_run s.runs i (record r { outcome = some o }) });
      acked = if acked then r.version ∷ x.acked else x.acked;
    }
    else x

abbrev pub finish_with : ℕ → Run → Option RunRecord → Server → Server
finish_with i r none s = s
finish_with i r (some o) s =
    if ltb i s.next && not r.done
    then record s {
      rec = some o;
      runs = put_run s.runs i (record r { done = true; reported = o.reported });
    }
    else s

unfoldable pub finish : ℕ → Server → Server
finish i s = finish_with i (s.runs i) (s.runs i).outcome s

-- What may happen to a sandbox: its process is started or dies, a Run is called with a version and
-- perhaps a spec, its stream ends, Stop and Shutdown are called, the driver of a run returns with its
-- report acknowledged or not, and the run is finished. A flag says whether the disk answers.
pub data Step : Type 0 where
  boots : Bool → Bool → ℕ → Step
  opens : ℕ → Bool → Bool → Step
  returns : ℕ → Bool → Bool → ℕ → Step
  finishes stops : ℕ → Step
  crashes releases shuts_down : Step

abbrev pub step_up : Step → Server → Sandbox → Sandbox
step_up (boots can_read can_write now) s x = x
step_up crashes s x = record x { server = none }
step_up (opens version has_spec can_write) s x = (open_run version has_spec can_write s x).0
step_up releases s x = record x { server = some (record s { stream = none }) }
step_up (returns i acked can_write now) s x = driver_returns i acked can_write now s x
step_up (finishes i) s x = record x { server = some (finish i s) }
step_up (stops version) s x = record x { server = some (stop version s).0 }
step_up shuts_down s x = record x { server = some (shutdown s) }

abbrev pub step_down : Step → Sandbox → Sandbox
step_down (boots can_read can_write now) x = booted (reconcile can_read can_write now x.disk) x
step_down _ x = x

abbrev pub step_by : Step → Option Server → Sandbox → Sandbox
step_by a none x = step_down a x
step_by a (some s) x = step_up a s x

unfoldable pub step : Step → Sandbox → Sandbox
step a x = step_by a x.server x

unfoldable pub run : List Step → Sandbox → Sandbox
run [] x = x
run (a ∷ steps) x = run steps (step a x)

-- A sandbox with an empty disk.
abbrev pub new_sandbox : Sandbox
new_sandbox = record { disk = absent; server = none; started = []; acked = [] }
