-- ===== src/DriverServer/Opening.antt =====
-- A call of Run keeps a sandbox sound.
use gritz.Prelude.{
  ℕ, ◌<◌, ◌≡◌, refl, sym, subst, Bool, false, not, Option, none, some, List, [], ◌∷◌, ◌==◌, ltb,
  arith, All, by_test,
}
use gritz.DriverServer.{
  RunRecord, RecordFile, absent, broken, holds, Server, Sandbox, running_record, open_by, open_new,
  open_unless, started_run, follow_past, attach_to, Opened, is_running,
}
use gritz.DriverServer.Sound.{
  Latest, Falling, Mirrors, IsRunning, RecordHonest, FileHonest, ServerSound, IsSound,
}

-- The version is above the record's.
abbrev Above : Option RunRecord → ℕ → Type 0
Above none v = Unit {0}
Above (some r) v = r.version < v

below_trans : (u v : ℕ) (l : List ℕ) → u < v → All (λ w. w < u) l → All (λ w. w < v) l
below_trans u v [] h k = tt
below_trans u v (w ∷ l) h k = (omega arith, below_trans u v l h k.1)

newer_Falling :
    (rec : Option RunRecord) (v : ℕ) (f : RecordFile) (started : List ℕ)
    → Above rec v
    → Mirrors rec f
    → Latest f started
    → Falling started
    → Falling (v ∷ started)
newer_Falling none v absent started a m l h =
    subst (λ s. All (λ u. u < v) s × Falling s) (sym l) (tt, tt)
newer_Falling none v broken started a m l h = absurd l
newer_Falling none v (holds d) started a m l h = cc
newer_Falling (some r) v absent started a (d, e, p) l h = cc
newer_Falling (some r) v broken started a m l h = absurd l
newer_Falling (some r) v (holds d') started a (d, e, p) (rest, l) h =
    let same : d'.version ≡ r.version = cc in
    let h' : Falling (d'.version ∷ rest) = subst Falling l h in
    subst (λ s. All (λ u. u < v) s × Falling s) (sym l)
      ((omega (arith, same), below_trans d'.version v rest (omega (arith, same)) h'.0), h')

module _ (s : Server) (x : Sandbox) (latest : Latest x.disk x.started) (falling : Falling x.started)
    (file : FileHonest x.acked x.disk) (h : ServerSound x.disk x.acked s) where
  kept-IsSound : (i : Option ℕ) → IsSound (record x { server = some (record s { stream = i }) })
  kept-IsSound i = record {
    latest = latest;
    falling = falling;
    file = file;
    serving = record { mirrored = h.mirrored; runs = h.runs; honest = h.honest };
  }

  past-IsSound : (r : RunRecord) → RecordHonest x.acked (some r) → IsSound (follow_past r s x).0
  past-IsSound r told = record {
    latest = latest;
    falling = falling;
    file = file;
    serving = record {
      mirrored = h.mirrored;
      runs = λ j lt. ground (arith, h.runs j, told);
      honest = h.honest;
    };
  }

  attach_to-IsSound :
      (active : Option ℕ) (r : RunRecord)
      → RecordHonest x.acked (some r)
      → IsSound (attach_to active r s x).0
  attach_to-IsSound none r told = past-IsSound r told
  attach_to-IsSound (some i) r told =
      by_test (λ (p : Sandbox × Opened). IsSound p.0) ((s.runs i).version == r.version) _ _
        (λ e. kept-IsSound (some i)) (λ e. past-IsSound r told)

  same-IsSound : IsSound (record x { server = some s })
  same-IsSound = record { latest = latest; falling = falling; file = file; serving = h }

  started_run-IsSound :
      (version : ℕ)
      → Above s.rec version
      → ((v : ℕ) → IsRunning s.rec v → ⊥)
      → IsSound (started_run version s x).0
  started_run-IsSound version above idle = record {
    latest = (x.started, refl);
    falling = newer_Falling s.rec version x.disk x.started above h.mirrored latest falling;
    file = λ e. cc;
    serving = record {
      mirrored = (running_record version, refl, refl);
      runs = λ j lt. ground (arith, h.runs j, idle (s.runs j).version);
      honest = λ e. cc;
    };
  }

  open_new-IsSound :
      (version : ℕ) (has_spec can_write : Bool)
      → Above s.rec version
      → ((v : ℕ) → IsRunning s.rec v → ⊥)
      → IsSound (open_new version has_spec can_write s x).0
  open_new-IsSound version has_spec can_write above idle =
      let P : Sandbox × Opened → Type 0 = λ p. IsSound p.0 in
      by_test P (not has_spec) _ _ (λ e. same-IsSound)
        λ e.
          by_test P s.closed _ _ (λ e1. same-IsSound)
            λ e1.
              by_test P (not can_write) _ _ (λ e2. same-IsSound)
                λ e2. started_run-IsSound version above idle

  open_by-IsSound :
      (version : ℕ) (has_spec can_write : Bool) (rec : Option RunRecord)
      → s.rec ≡ rec
      → IsSound (open_by rec version has_spec can_write s x).0
  open_by-IsSound version has_spec can_write none e =
      open_new-IsSound version has_spec can_write (subst (λ r. Above r version) (sym e) tt)
        λ v k. subst (λ r. IsRunning r v) e k
  open_by-IsSound version has_spec can_write (some r) e =
      let P : Sandbox × Opened → Type 0 = λ p. IsSound p.0 in
      by_test P (ltb version r.version) _ _ (λ e1. same-IsSound)
        λ e1.
          by_test P (r.version == version) _ _
            (λ e2. attach_to-IsSound s.active r (subst (RecordHonest x.acked) e h.honest))
            λ e2.
              by_test P (is_running r.state) _ _ (λ e3. same-IsSound)
                λ e3.
                  open_new-IsSound version has_spec can_write
                    (subst (λ o. Above o version) (sym e) (ground arith))
                    λ v k. not_running r e3 v (subst (λ o. IsRunning o v) e k)
    where
      not_running :
          (q : RunRecord) → is_running q.state ≡ false → (v : ℕ) → IsRunning (some q) v → ⊥
      not_running q f v k = ground arith

  pub open_unless-IsSound :
      (version : ℕ) (has_spec can_write : Bool) (stream : Option ℕ)
      → IsSound (open_unless stream version has_spec can_write s x).0
  open_unless-IsSound version has_spec can_write (some i) = same-IsSound
  open_unless-IsSound version has_spec can_write none =
      open_by-IsSound version has_spec can_write s.rec refl
