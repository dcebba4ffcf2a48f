-- ===== src/DriverServer/Once.antt =====
-- What holds after any steps of a sandbox.
use gritz.Prelude.{
  ℕ, ◌≡◌, refl, Bool, true, false, not, ◌&&◌, Option, none, some, List, [], ◌∷◌, ltb, arith,
  by_test,
}
use gritz.DriverServer.{
  RunState, running, finished, RunRecord, RecordFile, absent, broken, holds, reconcile,
  reconcile_by, Run, Server, Sandbox, booted, open_run, crashed_record,
}
use gritz.DriverServer.Steps.{
  is_executing, driver_returns, finish, stop, Step, boots, opens, returns, finishes, stops, crashes,
  releases, shuts_down, step_up, step_by, step, run, new_sandbox,
}
use gritz.DriverServer.Sound.{
  Latest, Falling, Mirrors, RecordHonest, FileHonest, ServerSound, Serving, IsSound,
}
use gritz.DriverServer.Kept.{stop_run-Sound, shutdown-Sound, finish_with-Sound, returned-IsSound}
use gritz.DriverServer.Opening.{open_unless-IsSound}

-- A boot reads the record of the last process.
module _ (x : Sandbox) (now : ℕ) where
  abbrev Boots : Option (Option RunRecord) × RecordFile → Type 0
  Boots p = IsSound (booted p x)

  booted_held :
      (f : RecordFile) (rec : Option RunRecord)
      → Latest f x.started
      → Falling x.started
      → FileHonest x.acked f
      → Mirrors rec f
      → RecordHonest x.acked rec
      → Boots (some rec, f)
  booted_held f rec latest falling file m told = record {
    latest = latest;
    falling = falling;
    file = file;
    serving = record { mirrored = m; runs = λ i lt. elim lt [ ]; honest = told };
  }

  booted_not :
      (f : RecordFile)
      → Latest f x.started
      → Falling x.started
      → FileHonest x.acked f
      → Boots (none, f)
  booted_not f latest falling file = record {
    latest = latest;
    falling = falling;
    file = file;
    serving = tt;
  }

  reconcile_by-IsSound :
      (state : RunState) (can_write : Bool) (r : RunRecord)
      → Latest (holds r) x.started
      → Falling x.started
      → FileHonest x.acked (holds r)
      → Boots (reconcile_by state can_write now r (holds r))
  reconcile_by-IsSound finished can_write r latest falling file =
      booted_held (holds r) (some r) latest falling file (r, refl, refl) file
  reconcile_by-IsSound running false r latest falling file =
      booted_not (holds r) latest falling file
  reconcile_by-IsSound running true r latest falling file =
      booted_held (holds (crashed_record r now)) (some (crashed_record r now)) latest falling
        (λ e. cc) (crashed_record r now, refl, refl) (λ e. cc)

  reconcile-IsSound :
      (can_read can_write : Bool) (f : RecordFile)
      → Latest f x.started
      → Falling x.started
      → FileHonest x.acked f
      → Boots (reconcile can_read can_write now f)
  unfolding reconcile
  reconcile-IsSound false can_write absent latest falling file =
      booted_not absent latest falling file
  reconcile-IsSound false can_write broken latest falling file = absurd latest
  reconcile-IsSound false can_write (holds r) latest falling file =
      booted_not (holds r) latest falling file
  reconcile-IsSound true can_write absent latest falling file =
      booted_held absent none latest falling file refl tt
  reconcile-IsSound true can_write broken latest falling file = absurd latest
  reconcile-IsSound true can_write (holds r) latest falling file =
      reconcile_by-IsSound r.state can_write r latest falling file

executing_open : (r : Run) → is_executing r ≡ true → r.done ≡ false
executing_open r e = executing_by r.outcome r.done e
  where
    executing_by :
        (o : Option RunRecord) (d : Bool)
        → (elim o [ none ↦ not d | some q ↦ false ]) ≡ true
        → d ≡ false
    executing_by none true h = cc
    executing_by none false h = refl
    executing_by (some q) d h = cc

module _ (x : Sandbox) (latest : Latest x.disk x.started) (falling : Falling x.started)
    (file : FileHonest x.acked x.disk) where
  served : (s : Server) → ServerSound x.disk x.acked s → IsSound (record x { server = some s })
  served s h = record { latest = latest; falling = falling; file = file; serving = h }

  down : IsSound (record x { server = none })
  down = record { latest = latest; falling = falling; file = file; serving = tt }

  step_up-IsSound :
      (a : Step) (s : Server) → IsSound x → ServerSound x.disk x.acked s → IsSound (step_up a s x)
  unfolding open_run driver_returns finish stop
  step_up-IsSound (boots can_read can_write now) s k h = k
  step_up-IsSound crashes s k h = down
  step_up-IsSound (opens version has_spec can_write) s k h =
      open_unless-IsSound s x latest falling file h version has_spec can_write s.stream
  step_up-IsSound releases s k h =
      served (record s { stream = none })
        (record { mirrored = h.mirrored; runs = h.runs; honest = h.honest })
  step_up-IsSound (returns i acked can_write now) s k h =
      by_test IsSound (ltb i s.next && is_executing (s.runs i)) _ _
        (λ e.
          returned-IsSound acked can_write now i s x (ground arith) latest falling file h
            (executing_open (s.runs i) (ground arith)))
        (λ e. k)
  step_up-IsSound (finishes i) s k h =
      served _ (finish_with-Sound x.disk x.acked i s (s.runs i).outcome refl h)
  step_up-IsSound (stops version) s k h =
      served _ (stop_run-Sound x.disk x.acked version s.active s h)
  step_up-IsSound shuts_down s k h = served _ (shutdown-Sound x.disk x.acked s h)

step_by-IsSound :
    (a : Step) (x : Sandbox) (server : Option Server)
    → IsSound x
    → Serving x.disk x.acked server
    → IsSound (step_by a server x)
step_by-IsSound a x (some s) k h = step_up-IsSound x k.latest k.falling k.file a s k h
step_by-IsSound (boots can_read can_write now) x none k h =
    reconcile-IsSound x now can_read can_write x.disk k.latest k.falling k.file
step_by-IsSound (opens version has_spec can_write) x none k h = k
step_by-IsSound (returns i acked can_write now) x none k h = k
step_by-IsSound (finishes i) x none k h = k
step_by-IsSound (stops version) x none k h = k
step_by-IsSound crashes x none k h = k
step_by-IsSound releases x none k h = k
step_by-IsSound shuts_down x none k h = k

run-keeps : (steps : List Step) (x : Sandbox) → IsSound x → IsSound (run steps x)
unfolding run step
run-keeps [] x k = k
run-keeps (a ∷ steps) x k = run-keeps steps (step a x) (step_by-IsSound a x x.server k k.serving)

-- Whatever happens to a new sandbox, crashes and restarts of its process and failures of its disk
-- included, the versions of the runs started rise, so none is started twice; the newest of them is the
-- one on disk; a run that executes is the active one and of the running record, so two never execute
-- at once; and a report that the record, the disk or a run claims was acknowledged.
pub run-new_sandbox-IsSound : (steps : List Step) → IsSound (run steps new_sandbox)
run-new_sandbox-IsSound steps =
    run-keeps steps new_sandbox (record { latest = refl; falling = tt; file = tt; serving = tt })
