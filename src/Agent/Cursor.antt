-- ===== src/Agent/Cursor.antt =====
-- When the cursor of the events moves.
use gritz.Prelude.{
  ℕ, ◌≡◌, inl, inr, refl, ap, sym, ◌∙◌, subst, Bool, true, false, List, [], ◌∷◌, ◌++◌, Bytes, codes,
  drop, All,
}
use gritz.Task.{Task}
use gritz.Event.{Event}
use gritz.Link.{Link}
use gritz.Agent.{
  Result, ok, err, Config, PromptOptions, Outside, Driver, Run, next, ◌>>=◌, drain_events,
  brief_links, prompt_agent, run_agent, drained, gave,
}
use gritz.Agent.Rules.{Failing, ask-Post, answer-Post, noted-Post, save_last-Post}
use gritz.Agent.Setup.{Stopped, Worked, Progress, ResumesAt, Resumed, setup-Resumed}

-- What has not changed: what was sent, and the cursor and the flag on disk.
pub record Unmoved {E : Type 0} (d d' : Driver E) : Type 0 where
  pub sent : d'.sent ≡ d.sent
  pub token : d'.file.next_event_token ≡ d.file.next_event_token
  pub started : d'.file.started ≡ d.file.started

-- What made a run of the agent fail.
pub data Failed {E : Type 0} (o : Outside E) (id : ℕ) : Type 0 where
  by_load : Failing o.read_config → Failed o id
  by_command : (c : Bytes) → Failing (o.run_command c) → Failed o id
  by_save : Failing o.write_config → Failed o id
  by_events :
      (token : Bytes) (e : E) (x : Bytes)
      → drained [] (o.events_from token e).0 ≡ err x
      → Failed o id
  by_links : Failing (o.list_links id) → Failed o id
  by_agent : (cfg : Config) → Failing (o.new_agent cfg) → Failed o id
  by_render : (options : PromptOptions) → Failing (o.render options) → Failed o id
  by_prompt : (text : Bytes) (b : Bool) → Failing (o.prompt text b) → Failed o id

-- The prompt handed over is what was rendered from the events.
pub record Gave {E : Type 0} (o : Outside E) (task : Task) (was_started : Bool) (brief : Bytes)
    (events : List Event) (d d' : Driver E) : Type 0 where
  pub text : Bytes
  pub links : List Link
  pub at : E
  pub rendered :
      (o.render
        (record {
          started = was_started;
          prompt = brief;
          task = task;
          events = events;
          links = links;
        })
        at).0
      ≡ ok text
  pub accepted : (e : E) × ((o.prompt text was_started e).0 ≡ ok _)
  pub handed : d'.given ≡ d.given ++ (text, was_started) ∷ []

-- A prompt that succeeded was given the events, and the config was saved as started.
abbrev pub Prompted :
    {E : Type 0}
    → Outside E
    → ℕ
    → Task
    → Config
    → List Event
    → Driver E
    → Result (Unit {0}) × Driver E
    → Type 0
Prompted o id task cfg events d (ok _, d') =
    (d'.file ≡ record cfg { started = true })
    × Gave o task cfg.started cfg.prompt events d d'
    × (d'.ran ≡ d.ran)
    × (d'.sent ≡ d.sent)
Prompted o id task cfg events d (err x, d') = Unmoved d d' × Failed o id

module _ {E : Type 0} (o : Outside E) (task_id : ℕ) where
  links-Post :
      {B : Type 0} (Q : Result B × Driver E → Type 0) (b : Bool) (d : Driver E)
      (f : List Link → Run E B)
      → ((links : List Link) (e : E) → Q (f links (record d { outside = e })))
      → ((x : Bytes) (e : E) → Failing (o.list_links task_id) → Q (err x, record d { outside = e }))
      → Q (next (brief_links o task_id b d) f)
  links-Post Q true d f k h = k [] d.outside
  links-Post Q false d f k h =
      ask-Post Q (codes "failed to fetch task links: ") (o.list_links task_id) d f k h

  outside-Unmoved :
      (d : Driver E) (e : E) (l : List (Bytes × Bool))
      → Unmoved d (record d { outside = e; given = l })
  outside-Unmoved d e l = record { sent = refl; token = refl; started = refl }

  prompt_agent-Prompted :
      (task : Task) (cfg : Config) (events : List Event) (d : Driver E)
      → Prompted o task_id task cfg events d (prompt_agent o task_id task cfg events d)
  unfolding prompt_agent
  prompt_agent-Prompted task cfg events d =
      let Q = Prompted o task_id task cfg events d in
      let failed : (x : Bytes) (e : E) → Failed o task_id → Q (err x, record d { outside = e }) =
        λ x e why. (outside-Unmoved d e d.given, why) in
      links-Post Q cfg.started d _
        (λ links e.
          ask-Post Q (codes "failed to create agent: ") (o.new_agent cfg) (record d { outside = e })
            _
            (λ _ e1.
              let options : PromptOptions = record {
                started = cfg.started;
                prompt = cfg.prompt;
                task = task;
                events = events;
                links = links;
              } in
              answer-Post Q (codes "failed to build prompt: ") (o.render options)
                (record d { outside = e1 }) _
                (λ text e2 same.
                  noted-Post Q [] gave (λ (t, b). o.prompt t b) (text, cfg.started)
                    (record d { outside = e2 }) _
                    (λ e3 agreed.
                      save_last-Post o task_id Q (record cfg { started = true })
                        (record d { outside = e3; given = d.given ++ (text, cfg.started) ∷ [] })
                        (λ e4. (
                          refl,
                          record {
                            text = text;
                            links = links;
                            at = e1;
                            rendered = ap (λ r. r.0) same;
                            accepted = (e2, ap (λ r. r.0) agreed);
                            handed = refl;
                          },
                          refl,
                          refl,
                        ))
                        (λ x e4 why. (
                          outside-Unmoved d e4 (d.given ++ (text, cfg.started) ∷ []),
                          by_save why,
                        )))
                    (λ x e3 why. failed x e3 (by_prompt text cfg.started why)))
                (λ x e2 same.
                  failed (codes "failed to build prompt: " ++ x) e2
                    (by_render options (x, e1, ap (λ r. r.0) same))))
            (λ x e1 why. failed x e1 (by_agent cfg why)))
        (λ x e why. failed x e (by_links why))

-- What a run of the agent leaves. The cursor on disk moves with a prompt that was given the events
-- behind it, and only then.
abbrev pub AgentRun :
    {E : Type 0} → Outside E → ℕ → Task → Driver E → Result (Unit {0}) × Driver E → Type 0
AgentRun o id task d (err x, d') = Unmoved d d' × Failed o id
AgentRun {E} o id task d (ok _, d') =
    (events : List Event) × (e : E) × (i : ℕ) × (drained []
        (o.events_from d.file.next_event_token e).0
      ≡ ok (events, d'.file.next_event_token))
    × Gave o task d.file.started d.file.prompt events d d'
    × (d'.file.started ≡ true)
    × ResumesAt d.file i
    × (d'.ran ≡ d.ran ++ drop i d.file.commands)
    × All (Worked o) (drop i d.file.commands)
    × (d'.sent ≡ d.sent)

module _ {E : Type 0} (o : Outside E) (task_id : ℕ) (task : Task) where
  -- After the setup.
  abbrev agent_rest : Config → Run E (Unit {0})
  agent_rest cfg = do
    (events, token) ← drain_events o task_id cfg
    prompt_agent o task_id task (record cfg { next_event_token = token }) events

  Unmoved-setup :
      (i : ℕ) (done : List Bytes) (d d' : Driver E) → Progress o i done d d' → Unmoved d d'
  Unmoved-setup i done d d' p = record {
    sent = p.sent;
    token = ap (λ (k : Config). k.next_event_token) p.counts;
    started = ap (λ (k : Config). k.started) p.counts;
  }

  Unmoved-trans : (d d' d'' : Driver E) → Unmoved d d' → Unmoved d' d'' → Unmoved d d''
  Unmoved-trans d d' d'' u v = record {
    sent = v.sent ∙ u.sent;
    token = v.token ∙ u.token;
    started = v.started ∙ u.started;
  }

  module _ (d d' : Driver E) (e : E) (i : ℕ) (at : ResumesAt d.file i)
      (p : Progress o i (drop i d.file.commands) d d') where
    Unmoved-after : (e' : E) → Unmoved d (record d' { outside = e' })
    Unmoved-after e' =
        let u = Unmoved-setup _ _ d d' p in
        record { sent = u.sent; token = u.token; started = u.started }

    -- What was given is seen from before the setup.
    Gave-after :
        (cfg : Config) (events : List Event) (e' : E) (d'' : Driver E)
        → cfg.started ≡ d.file.started
        → cfg.prompt ≡ d.file.prompt
        → Gave o task cfg.started cfg.prompt events (record d' { outside = e' }) d''
        → Gave o task d.file.started d.file.prompt events d d''
    Gave-after cfg events e' d'' flag brief g =
        subst (λ b. Gave o task b d.file.prompt events d d'') flag
          (subst (λ b. Gave o task cfg.started b events d d'') brief
            (record {
              text = g.text;
              links = g.links;
              at = g.at;
              rendered = g.rendered;
              accepted = g.accepted;
              handed = g.handed ∙ ap (λ l. l ++ (g.text, cfg.started) ∷ []) p.given;
            }))

    Prompted-run :
        (cfg : Config) (events : List Event) (e' : E) (r : Result (Unit {0}) × Driver E)
        → drained [] (o.events_from d.file.next_event_token e).0 ≡ ok (events, cfg.next_event_token)
        → cfg.started ≡ d.file.started
        → cfg.prompt ≡ d.file.prompt
        → Prompted o task_id task cfg events (record d' { outside = e' }) r
        → AgentRun o task_id task d r
    Prompted-run cfg events e' (err x, d'') walk flag brief (u, why) =
        (Unmoved-trans d (record d' { outside = e' }) d'' (Unmoved-after e') u, why)
    Prompted-run cfg events e' (ok _, d'') walk flag brief (file, given, ran, sent) = (
      events,
      e,
      i,
      walk ∙ ap (λ (k : Config). ok (events, k.next_event_token)) (sym file),
      Gave-after cfg events e' d'' flag brief given,
      ap (λ (k : Config). k.started) file,
      at,
      ran ∙ p.ran,
      p.worked,
      sent ∙ p.sent,
    )

    drained_run :
        (cfg : Config) (e' : E) (r : Result (List Event × Bytes))
        → cfg.started ≡ d.file.started
        → cfg.prompt ≡ d.file.prompt
        → drained [] (o.events_from d.file.next_event_token e).0 ≡ r
        → AgentRun o task_id task d (
            next
              (r, record d' { outside = e' })
              (λ x. prompt_agent o task_id task (record cfg { next_event_token = x.1 }) x.0))
    drained_run cfg e' (err x) flag brief walk =
        (Unmoved-after e', by_events d.file.next_event_token e x walk)
    drained_run cfg e' (ok (events, token)) flag brief walk =
        Prompted-run (record cfg { next_event_token = token }) events e' _ walk flag brief
          (prompt_agent-Prompted o task_id task (record cfg { next_event_token = token }) events
            (record d' { outside = e' }))

  setup_done :
      (d : Driver E) (r : Result Config × Driver E) (i : ℕ)
      → ResumesAt d.file i
      → Resumed o i (drop i d.file.commands) (record d.file { setup_commands_completed = i }) d r
      → AgentRun o task_id task d (next r agent_rest)
  unfolding drain_events
  setup_done d (err x, d') i at (done, later, e, p, stopped) =
      (Unmoved-setup _ done d d' p, why stopped)
    where
      why : Stopped o later → Failed o task_id
      why (inl (c, rest, first, failing)) = by_command c failing
      why (inr failing) = by_save failing
  setup_done d (ok cfg, d') i at (p, same, disk) =
      drained_run d d' d'.outside i at p cfg (o.events_from cfg.next_event_token d'.outside).1 _
        (ap (λ (k : Config). k.started) same) (ap (λ (k : Config). k.prompt) same)
        (ap (λ t. drained [] (o.events_from t d'.outside).0)
          (sym (ap (λ (k : Config). k.next_event_token) same)))

  before_load :
      (d : Driver E) (e : E) (r : Result (Unit {0}) × Driver E)
      → AgentRun o task_id task (record d { outside = e }) r
      → AgentRun o task_id task d r
  before_load d e (err x, d') (u, why) =
      (record { sent = u.sent; token = u.token; started = u.started }, why)
  before_load d e (ok _, d') (events, e', i, walk, g, flag, at, ran, worked, sent) = (
    events,
    e',
    i,
    walk,
    record {
      text = g.text;
      links = g.links;
      at = g.at;
      rendered = g.rendered;
      accepted = g.accepted;
      handed = g.handed;
    },
    flag,
    at,
    ran,
    worked,
    sent,
  )

  pub run_agent-AgentRun : (d : Driver E) → AgentRun o task_id task d (run_agent o task_id task d)
  unfolding run_agent
  run_agent-AgentRun d =
      ask-Post (AgentRun o task_id task d) (codes "failed to load config: ") o.read_config d _
        (λ _ e.
          let s = setup-Resumed o task_id d.file (record d { outside = e }) refl in
          before_load d e _ (setup_done (record d { outside = e }) _ s.0 s.1 s.2))
        (λ x e why. (record { sent = refl; token = refl; started = refl }, by_load why))
