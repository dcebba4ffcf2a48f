-- ===== src/DriverServer/Kept.antt =====
-- The progress and the end of a run keep a sandbox sound.
use gritz.Prelude.{
  ℕ, ◌<◌, ◌≡◌, inl, inr, refl, sym, subst, ◌∙◌, Bool, true, false, not, ◌&&◌, Option, none, some,
  List, ◌∷◌, ◌==◌, ltb, if◌then◌else◌, arith, IsIn, by_test,
}
use gritz.DriverServer.{
  RunRecord, RecordFile, absent, broken, holds, write, Server, Sandbox, put_run,
}
use gritz.DriverServer.Steps.{outcome_of, finish_with, stop_run, stop_active, shutdown}
use gritz.DriverServer.Sound.{
  Latest, Falling, Mirrors, IsRunning, IsHonest, RecordHonest, FileHonest, OutcomeOf, ServerSound,
  IsSound, put_run-Sound,
}

-- More acknowledgements.
more-Honest : (u v : ℕ) (acked : List ℕ) (b : Bool) → IsHonest acked v b → IsHonest (u ∷ acked) v b
more-Honest u v acked b h e = inr (h e)

module _ (disk : RecordFile) (acked : List ℕ) where
  pub stop_run-Sound :
      (version : ℕ) (active : Option ℕ) (s : Server)
      → ServerSound disk acked s
      → ServerSound disk acked (stop_run version active s).0
  stop_run-Sound version none s h = h
  stop_run-Sound version (some i) s h =
      let P : Server × Bool → Type 0 = λ p. ServerSound disk acked p.0 in
      by_test P (not ((s.runs i).version == version)) _ _ (λ e. h)
        λ e.
          by_test P (s.runs i).done _ _ (λ e'. h)
            λ e'. put_run-Sound disk acked s i (record (s.runs i) { stopped = true }) (λ lt r. r) h

  stop_active-Sound :
      (active : Option ℕ) (s : Server)
      → ServerSound disk acked s
      → ServerSound disk acked (stop_active active s)
  stop_active-Sound none s h = h
  stop_active-Sound (some i) s h = stop_run-Sound (s.runs i).version s.active s h

  pub shutdown-Sound : (s : Server) → ServerSound disk acked s → ServerSound disk acked (shutdown s)
  unfolding shutdown
  shutdown-Sound s h =
      stop_active-Sound s.active (record s { closed = true })
        (record { mirrored = h.mirrored; runs = h.runs; honest = h.honest })

  Mirrors-outcome :
      (rec : Option RunRecord) (v : ℕ) (o : RunRecord)
      → IsRunning rec v
      → o.version ≡ v
      → Mirrors rec disk
      → Mirrors (some o) disk
  Mirrors-outcome none v o h e m = absurd h
  Mirrors-outcome (some r) v o h e (d, f, m) = (d, f, m ∙ h.1 ∙ sym e)

  finished-Sound :
      (i : ℕ) (s : Server) (o : RunRecord)
      → i < s.next
      → (s.runs i).done ≡ false
      → (s.runs i).outcome ≡ some o
      → ServerSound disk acked s
      → ServerSound disk acked (record s {
        rec = some o;
        runs = put_run s.runs i (record (s.runs i) { done = true; reported = o.reported });
      })
  finished-Sound i s o lt open_run_ out h =
      let sound = h.runs i lt in
      let of_run : OutcomeOf acked (s.runs i).version (some o) =
        subst (OutcomeOf acked (s.runs i).version) out sound.2 in
      record {
        mirrored =
            Mirrors-outcome s.rec (s.runs i).version o (sound.0 open_run_).1 of_run.0 h.mirrored;
        runs = λ j lt'. ground (arith, h.runs j, sound, of_run, open_run_);
        honest = λ e. subst (λ v. IsIn v acked) (sym of_run.0) (of_run.2 e);
      }

  pub finish_with-Sound :
      (i : ℕ) (s : Server) (o : Option RunRecord)
      → (s.runs i).outcome ≡ o
      → ServerSound disk acked s
      → ServerSound disk acked (finish_with i (s.runs i) o s)
  finish_with-Sound i s none out h = h
  finish_with-Sound i s (some o) out h =
      by_test (ServerSound disk acked) (ltb i s.next && not (s.runs i).done) _ _
        (λ e. finished-Sound i s o (ground arith) (ground arith) out h) (λ e. h)

-- What is sound of a server stays so as the disk is written and reports are acknowledged.
module _ (disk disk' : RecordFile) (acked acked' : List ℕ)
    (more : (v : ℕ) → IsIn v acked → IsIn v acked') where
  RecordHonest-more : (rec : Option RunRecord) → RecordHonest acked rec → RecordHonest acked' rec
  RecordHonest-more none h = tt
  RecordHonest-more (some r) h = λ e. more r.version (h e)

  OutcomeOf-more : (v : ℕ) (o : Option RunRecord) → OutcomeOf acked v o → OutcomeOf acked' v o
  OutcomeOf-more v none h = tt
  OutcomeOf-more v (some o) h = (h.0, h.1, λ e. more v (h.2 e))

  ServerSound-more :
      (s : Server) → Mirrors s.rec disk' → ServerSound disk acked s → ServerSound disk' acked' s
  ServerSound-more s m h = record {
    mirrored = m;
    runs = λ i lt.
        let k = h.runs i lt in
        (
          k.0,
          (λ e. more (s.runs i).version (k.1 e)),
          OutcomeOf-more (s.runs i).version (s.runs i).outcome k.2,
        );
    honest = RecordHonest-more s.rec h.honest;
  }

FileHonest-more :
    (acked acked' : List ℕ) (f : RecordFile)
    → ((v : ℕ) → IsIn v acked → IsIn v acked')
    → FileHonest acked f
    → FileHonest acked' f
FileHonest-more acked acked' absent more h = tt
FileHonest-more acked acked' broken more h = tt
FileHonest-more acked acked' (holds d) more h = λ e. more d.version (h e)

running_newest :
    (rec : Option RunRecord) (v : ℕ) (f : RecordFile) (started : List ℕ)
    → IsRunning rec v
    → Mirrors rec f
    → Latest f started
    → (rest : List ℕ) × (started ≡ v ∷ rest)
running_newest none v f started h m l = absurd h
running_newest (some r) v absent started h (d, e, p) l = cc
running_newest (some r) v broken started h m l = absurd l
running_newest (some r) v (holds d') started h (d, e, p) (rest, l) = (rest, cc)

abbrev grown : Bool → ℕ → List ℕ → List ℕ
grown acked v l = if acked then v ∷ l else l

grown_more : (acked : Bool) (v : ℕ) (l : List ℕ) (u : ℕ) → IsIn u l → IsIn u (grown acked v l)
grown_more true v l u h = inr h
grown_more false v l u h = h

grown_new : (acked : Bool) (v : ℕ) (l : List ℕ) → IsHonest (grown acked v l) v acked
grown_new true v l e = inl refl
grown_new false v l e = cc

written_Mirrors :
    (can_write : Bool) (rec : Option RunRecord) (o : RunRecord) (f : RecordFile)
    → IsRunning rec o.version
    → Mirrors rec f
    → Mirrors rec (write can_write o f)
written_Mirrors can_write none o f h m = absurd h
written_Mirrors true (some r) o f h m = (o, refl, sym h.1)
written_Mirrors false (some r) o f h m = m

module _ (acked can_write : Bool) (now i : ℕ) (s : Server) (x : Sandbox) (lt : i < s.next)
    (latest : Latest x.disk x.started) (falling : Falling x.started)
    (file : FileHonest x.acked x.disk) (h : ServerSound x.disk x.acked s)
    (is_open : (s.runs i).done ≡ false) where
  abbrev out : RunRecord
  out = outcome_of (s.runs i) acked now

  abbrev acks : List ℕ
  acks = grown acked (s.runs i).version x.acked

  IsRunning-run : IsRunning s.rec (s.runs i).version
  IsRunning-run = ((h.runs i lt).0 is_open).1

  written_Latest : (b : Bool) → Latest (write b out x.disk) x.started
  written_Latest true =
      running_newest s.rec (s.runs i).version x.disk x.started IsRunning-run h.mirrored latest
  written_Latest false = latest

  written_Honest : (b : Bool) → FileHonest acks (write b out x.disk)
  written_Honest true = grown_new acked (s.runs i).version x.acked
  written_Honest false =
      FileHonest-more x.acked acks x.disk (grown_more acked (s.runs i).version x.acked) file

  pub returned-IsSound : IsSound (record x {
    disk = write can_write out x.disk;
    server = some (record s { runs = put_run s.runs i (record (s.runs i) { outcome = some out }) });
    acked = acks;
  })
  returned-IsSound = record {
    latest = written_Latest can_write;
    falling = falling;
    file = written_Honest can_write;
    serving =
        put_run-Sound (write can_write out x.disk) acks s i
          (record (s.runs i) { outcome = some out })
          (λ lt' r. (r.0, r.1, (refl, refl, grown_new acked (s.runs i).version x.acked)))
          (ServerSound-more x.disk (write can_write out x.disk) x.acked acks
            (grown_more acked (s.runs i).version x.acked) s
            (written_Mirrors can_write s.rec out x.disk IsRunning-run h.mirrored) h);
  }
