-- ===== src/Agent/Setup.antt =====
-- How the setup commands are resumed.
use gritz.Prelude.{
  ℕ, suc, ◌+◌, ◌≤◌, ◌<◌, ◌≡◌, ◌⊎◌, inl, inr, refl, ap, sym, ◌∙◌, List, [], ◌∷◌, ◌++◌, Bytes, codes,
  length, drop, All, arith,
}
use mathlib.Core.List.{append_assoc, append-nil}
use gritz.Prelude.Decimal.{format_int}
use gritz.Agent.{
  Result, ok, err, Config, Outside, Driver, setup_from, setup, first_command, ran_command,
}
use gritz.Agent.Rules.{Failing, noted-Post, save-Post}

-- Only the count of the config has changed.
abbrev pub Counts : Config → Config → Type 0
Counts old new = new ≡ record old { setup_commands_completed = new.setup_commands_completed }

-- The command was run, and succeeded.
abbrev pub Worked : {E : Type 0} → Outside E → Bytes → Type 0
Worked {E} o c = (e : E) × ((o.run_command c e).0 ≡ ok _)

-- The next command failed, or the count could not be saved.
abbrev pub Stopped : {E : Type 0} → Outside E → List Bytes → Type 0
Stopped o later =
    ((c : Bytes) × (rest : List Bytes) × (later ≡ c ∷ rest) × Failing (o.run_command c))
    ⊎ Failing o.write_config

-- From command i on, `done` have succeeded: the count on disk is as it was with at most one command
-- done, or is at most one behind.
pub record Progress {E : Type 0} (o : Outside E) (i : ℕ) (done : List Bytes) (d d' : Driver E)
    : Type 0 where
  pub ran : d'.ran ≡ d.ran ++ done
  pub worked : All (Worked o) done
  pub sent : d'.sent ≡ d.sent
  pub given : d'.given ≡ d.given
  pub counts : Counts d.file d'.file
  pub lags :
      ((d'.file ≡ d.file) × (length done ≤ 1))
      ⊎ ((d'.file.setup_commands_completed ≤ i + length done)
          × (i + length done ≤ d'.file.setup_commands_completed + 1))

-- Where a setup resumes: at the count, unless that is past the end.
abbrev pub ResumesAt : Config → ℕ → Type 0
ResumesAt cfg i =
    ((cfg.setup_commands_completed ≤ length cfg.commands) × (i ≡ cfg.setup_commands_completed))
    ⊎ ((length cfg.commands < cfg.setup_commands_completed) × (i ≡ 0))

-- All commands are done, with their number in the config, or the first ones are.
abbrev pub Resumed :
    {E : Type 0}
    → Outside E
    → ℕ
    → List Bytes
    → Config
    → Driver E
    → Result Config × Driver E
    → Type 0
Resumed o i rest cfg d (ok cfg', d') =
    Progress o i rest d d'
    × (cfg' ≡ record cfg { setup_commands_completed = i + length rest })
    × (((rest ≡ []) × (d'.file ≡ d.file)) ⊎ (d'.file ≡ cfg'))
Resumed o i rest cfg d (err x, d') =
    (done : List Bytes) × (later : List Bytes) × (rest ≡ done ++ later)
    × Progress o i done d d'
    × Stopped o later

module _ {E : Type 0} (o : Outside E) (i : ℕ) (c : Bytes) (cfg : Config) (d : Driver E) (e e' : E)
    (of_file : Counts d.file cfg) (worked : Worked o c) where
  -- The driver once command i has succeeded and was counted.
  abbrev counted : Config
  counted = record cfg { setup_commands_completed = suc i }

  abbrev stepped : Driver E
  stepped = record d { outside = e'; ran = d.ran ++ c ∷ []; file = counted }

  cons-Progress :
      (done : List Bytes) (d' : Driver E)
      → Progress o (suc i) done stepped d'
      → Progress o i (c ∷ done) d d'
  cons-Progress done d' p = record {
    ran = p.ran ∙ append_assoc d.ran (c ∷ []) done;
    worked = (worked, p.worked);
    sent = p.sent;
    given = p.given;
    counts =
        p.counts
        ∙ ap
            (λ (k : Config). record k {
              setup_commands_completed = d'.file.setup_commands_completed;
            })
            of_file;
    lags = inr (elim p.lags [
      | inl (same, few) ↦
          let n : d'.file.setup_commands_completed ≡ suc i =
            ap (λ (k : Config). k.setup_commands_completed) same in
          (omega (arith, n), omega (arith, n, few))
      | inr (low, high) ↦ (omega (arith, low), omega (arith, high))
    ]);
  }

  cons-Resumed :
      (rest : List Bytes) (r : Result Config × Driver E)
      → Resumed o (suc i) rest counted stepped r
      → Resumed o i (c ∷ rest) cfg d r
  cons-Resumed rest (ok cfg', d') (p, same, at) = (
    cons-Progress rest d' p,
    same ∙ ap (λ (n : ℕ). record cfg { setup_commands_completed = n }) (omega arith),
    inr (at_config at),
  )
    where
      at_config : (((rest ≡ []) × (d'.file ≡ counted)) ⊎ (d'.file ≡ cfg')) → d'.file ≡ cfg'
      at_config (inr k) = k
      at_config (inl (empty, k)) =
          k
          ∙ ap (λ (n : ℕ). record cfg { setup_commands_completed = n })
              (omega (arith, ap length empty))
          ∙ sym same
  cons-Resumed rest (err x, d') (done, later, e, p, stopped) =
      (c ∷ done, later, ap (λ l. c ∷ l) e, cons-Progress done d' p, stopped)

module _ {E : Type 0} (o : Outside E) (task_id : ℕ) where
  none_done :
      (i : ℕ) (d : Driver E) (e : E) (ran : List Bytes)
      → length ran ≤ 1
      → All (Worked o) ran
      → Progress o i ran d (record d { outside = e; ran = d.ran ++ ran })
  none_done i d e ran few worked = record {
    ran = refl;
    worked = worked;
    sent = refl;
    given = refl;
    counts = refl;
    lags = inl (refl, few);
  }

  nothing_done : (i : ℕ) (d : Driver E) (e : E) → Progress o i [] d (record d { outside = e })
  nothing_done i d e = record {
    ran = sym (append-nil d.ran);
    worked = tt;
    sent = refl;
    given = refl;
    counts = refl;
    lags = inl (refl, omega arith);
  }

  setup_from-Resumed :
      (i : ℕ) (rest : List Bytes) (cfg : Config) (d : Driver E)
      → Counts d.file cfg
      → cfg.setup_commands_completed ≡ i
      → Resumed o i rest cfg d (setup_from o task_id i rest cfg d)
  unfolding setup_from
  setup_from-Resumed i [] cfg d of_file at = (
    nothing_done i d d.outside,
    ap (λ (n : ℕ). record cfg { setup_commands_completed = n }) (omega (arith, at)),
    inl (refl, refl),
  )
  setup_from-Resumed i (c ∷ rest) cfg d of_file at =
      let R = Resumed o i (c ∷ rest) cfg d in
      noted-Post R (codes "setup command " ++ format_int i ++ codes " failed: ") ran_command
        o.run_command c d _
        (λ e same.
          save-Post o task_id R (record cfg { setup_commands_completed = suc i })
            (record d { outside = e; ran = d.ran ++ c ∷ [] }) _
            (λ e'.
              cons-Resumed o i c cfg d e e' of_file (d.outside, ap (λ p. p.0) same) rest _
                (setup_from-Resumed (suc i) rest (record cfg { setup_commands_completed = suc i })
                  (record d {
                    outside = e';
                    ran = d.ran ++ c ∷ [];
                    file = record cfg { setup_commands_completed = suc i };
                  })
                  refl refl))
            (λ x e' failing. (
              c ∷ [],
              rest,
              refl,
              none_done i d e' (c ∷ []) (omega arith) ((d.outside, ap (λ p. p.0) same), tt),
              inr failing,
            )))
        (λ x e failing. ([], c ∷ rest, refl, nothing_done i d e, inl (c, rest, refl, failing)))

  first_command-ResumesAt : (cfg : Config) → ResumesAt cfg (first_command cfg)
  first_command-ResumesAt cfg = ground arith

  -- The setup runs the commands from the count in the config on, or all of them if the count is past
  -- the end, in order and each once, and stops only where one fails or its count cannot be saved; it succeeds only
  -- when all are done. Nothing of the config on disk changes but the count, which is as it was with at
  -- most one command done, or at most one behind the commands done: what a crash at any point makes
  -- the next run repeat.
  pub setup-Resumed :
      (cfg : Config) (d : Driver E)
      → Counts d.file cfg
      → (i : ℕ) × ResumesAt cfg i
        × Resumed o i
            (drop i cfg.commands)
            (record cfg { setup_commands_completed = i })
            d
            (setup o task_id cfg d)
  unfolding setup
  setup-Resumed cfg d of_file =
      let i = first_command cfg in
      (
        i,
        first_command-ResumesAt cfg,
        setup_from-Resumed i (drop i cfg.commands) (record cfg { setup_commands_completed = i }) d
            (ap (λ (k : Config). record k { setup_commands_completed = i }) of_file) refl,
      )
