-- ===== src/Examples/Drivers.antt =====
-- A sandbox whose driver crashes in a run.
use gritz.Prelude.{◌≡◌, refl, true, List, [], ◌∷◌}
use gritz.DriverServer.{reconcile, read, open_run}
use gritz.DriverServer.Steps.{
  Step, boots, opens, returns, finishes, crashes, releases, driver_returns, finish, stop, run, step,
  new_sandbox,
}
use gritz.DriverServer.Sound.{IsSound}
use gritz.DriverServer.Once.{run-new_sandbox-IsSound}

-- The second run of version 1 is not started; after the crash version 2 is.
abbrev steps : List Step
steps =
    boots true true 0
    ∷ opens 1 true true
    ∷ releases
    ∷ opens 1 true true
    ∷ crashes
    ∷ boots true true 9
    ∷ opens 1 true true
    ∷ releases
    ∷ opens 2 true true
    ∷ returns 1 true true 12
    ∷ finishes 1
    ∷ []

run-new_sandbox-IsSound_example : IsSound (run steps new_sandbox)
run-new_sandbox-IsSound_example = run-new_sandbox-IsSound steps

each_once : (run steps new_sandbox).started ≡ 2 ∷ 1 ∷ []
unfolding run step reconcile read open_run driver_returns finish stop
each_once = refl
