-- ===== src/DriverServer/Sound.antt =====
-- What always holds of a sandbox: the record of the server is of the version on disk, at most the run
-- of the record executes, and a report is never claimed that was not acknowledged.
use gritz.Prelude.{
  ℕ, ◌<◌, ◌≡◌, Bool, true, false, Option, none, some, List, [], ◌∷◌, arith, All, IsIn,
}
use gritz.DriverServer.{
  running, finished, RunRecord, RecordFile, absent, broken, holds, Run, Server, Sandbox, put_run,
}

-- The newest of the versions started is the one on disk.
abbrev pub Latest : RecordFile → List ℕ → Type 0
Latest absent started = started ≡ []
Latest broken started = ⊥
Latest (holds d) started = (rest : List ℕ) × (started ≡ d.version ∷ rest)

-- Each version is above all that were started before it.
abbrev pub Falling : List ℕ → Type 0
Falling [] = Unit {0}
Falling (v ∷ vs) = All (λ u. u < v) vs × Falling vs

abbrev pub Mirrors : Option RunRecord → RecordFile → Type 0
Mirrors none f = f ≡ absent
Mirrors (some r) f = (d : RunRecord) × (f ≡ holds d) × (d.version ≡ r.version)

-- The record is of a running run with the version.
abbrev pub IsRunning : Option RunRecord → ℕ → Type 0
IsRunning none v = ⊥
IsRunning (some r) v = (r.state ≡ running) × (r.version ≡ v)

-- A report that is claimed was acknowledged.
abbrev pub IsHonest : List ℕ → ℕ → Bool → Type 0
IsHonest acked v reported = reported ≡ true → IsIn v acked

abbrev pub RecordHonest : List ℕ → Option RunRecord → Type 0
RecordHonest acked none = Unit {0}
RecordHonest acked (some r) = IsHonest acked r.version r.reported

abbrev pub FileHonest : List ℕ → RecordFile → Type 0
FileHonest acked absent = Unit {0}
FileHonest acked broken = Unit {0}
FileHonest acked (holds d) = IsHonest acked d.version d.reported

-- The outcome of a run is of its version.
abbrev pub OutcomeOf : List ℕ → ℕ → Option RunRecord → Type 0
OutcomeOf acked v none = Unit {0}
OutcomeOf acked v (some o) = (o.version ≡ v) × (o.state ≡ finished) × IsHonest acked v o.reported

abbrev pub RunSound : List ℕ → Server → Run → ℕ → Type 0
RunSound acked s r i =
    (r.done ≡ false → (s.active ≡ some i) × IsRunning s.rec r.version)
    × IsHonest acked r.version r.reported
    × OutcomeOf acked r.version r.outcome

pub record ServerSound (disk : RecordFile) (acked : List ℕ) (s : Server) : Type 0 where
  pub mirrored : Mirrors s.rec disk
  pub runs : (i : ℕ) → i < s.next → RunSound acked s (s.runs i) i
  pub honest : RecordHonest acked s.rec

abbrev pub Serving : RecordFile → List ℕ → Option Server → Type 0
Serving disk acked none = Unit {0}
Serving disk acked (some s) = ServerSound disk acked s

pub record IsSound (x : Sandbox) : Type 0 where
  pub latest : Latest x.disk x.started
  pub falling : Falling x.started
  pub file : FileHonest x.acked x.disk
  pub serving : Serving x.disk x.acked x.server

module _ (disk : RecordFile) (acked : List ℕ) (s : Server) where
  -- A change of one run that leaves what is sound of it.
  pub put_run-Sound :
      (i : ℕ) (r : Run)
      → (i < s.next → RunSound acked s (s.runs i) i → RunSound acked s r i)
      → ServerSound disk acked s
      → ServerSound disk acked (record s { runs = put_run s.runs i r })
  put_run-Sound i r k h = record {
    mirrored = h.mirrored;
    runs = λ j lt. ground (arith, h.runs j, k);
    honest = h.honest;
  }
