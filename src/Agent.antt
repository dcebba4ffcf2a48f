-- ===== src/Agent.antt =====
-- The driver of one run inside a sandbox (internal/runner/agent/driver.go): it tells the server that
-- the run has started, runs the setup commands and the agent's prompt, and reports the end. The
-- server, the commands, the agent and the disk are outside: each call hands over the state of what is
-- outside and takes an answer with the state that is left. The config file of the task is written
-- atomically, and a missing one reads as the empty config. Log lines and the flush of the log, which
-- change no outcome, are left out.
pub mod Rules
pub mod Setup
pub mod Cursor
pub mod Outcome
use gritz.Prelude.{
  ◌==◌, ℕ, suc, ◌+◌, ◌==◌, Bool, true, false, not, ◌&&◌, Option, none, some, List, [], ◌∷◌, ◌++◌,
  Bytes, codes, length, drop, ltb, if◌then◌else◌,
}
use gritz.Prelude.Decimal.{format_int}
use gritz.Task.{Task, RunnerEvent, RunnerEventType, started, stopped, failure, other}
use gritz.Event.{Event}
use gritz.Link.{Link}

-- An error is its text.
pub data Result {ℓ} (A : Type ℓ) : Type ℓ where
  ok : A → Result A
  err : Bytes → Result A

-- `settings` stands for the fields that are only handed to the agent.
pub record Config : Type 0 where
  pub prompt : Bytes
  pub settings : Bytes
  pub commands : List Bytes
  pub setup_commands_completed : ℕ
  pub started : Bool
  pub next_event_token : Bytes

-- The answers to the walk over the pages of events: the last page, a page with more behind it, or an
-- error; with each page goes the token of the next one. How the client threads the tokens from page
-- to page is left to the answer.
pub data Pages : Type 0 where
  last : List Event → Bytes → Pages
  more : List Event → Bytes → Pages → Pages
  broken_off : Bytes → Pages

pub record PromptOptions : Type 0 where
  pub started : Bool
  pub prompt : Bytes
  pub task : Task
  pub events : List Event
  pub links : List Link

pub record Outside (E : Type 0) : Type 0 where
  pub get_task : ℕ → E → Result Task × E
  pub submit : RunnerEvent → E → Result (Unit {0}) × E
  pub serve_shell : Bytes → E → Result (Unit {0}) × E
  pub read_config : E → Result (Unit {0}) × E
  pub write_config : E → Result (Unit {0}) × E
  pub run_command : Bytes → E → Result (Unit {0}) × E
  pub events_from : Bytes → E → Pages × E
  pub list_links : ℕ → E → Result (List Link) × E
  pub new_agent : Config → E → Result (Unit {0}) × E
  pub render : PromptOptions → E → Result Bytes × E
  pub prompt : Bytes → Bool → E → Result (Unit {0}) × E
  pub is_stopped : E → Bool

-- `file` is the config on disk. The rest is what the driver has done: the events it submitted, and
-- whether they were acknowledged; the commands that succeeded; the prompts that succeeded, as they
-- were handed over: the text, and whether the agent was started before.
pub record Driver (E : Type 0) : Type 0 where
  pub outside : E
  pub file : Config
  pub sent : List (RunnerEvent × Bool)
  pub ran : List Bytes
  pub given : List (Bytes × Bool)

abbrev pub Run : Type 0 → Type 0 → Type 0
Run E A = Driver E → Result A × Driver E

module _ {E A B : Type 0} where
  abbrev pub next : Result A × Driver E → (A → Run E B) → Result B × Driver E
  next (ok a, d) f = f a d
  next (err x, d) f = (err x, d)

  infixl 10 ◌>>=◌ ◌>>◌
  abbrev pub ◌>>=◌ : Run E A → (A → Run E B) → Run E B
  m >>= f = λ d. next (m d) f

  abbrev pub ◌>>◌ : Run E A → Run E B → Run E B
  m >> n = λ d. next (m d) (λ _. n)

module _ {E A : Type 0} where
  abbrev pub pure : A → Run E A
  pure a d = (ok a, d)

  abbrev pub fail : Bytes → Run E A
  fail x d = (err x, d)

  -- `fmt.Errorf("…: %w", err)`
  abbrev pub wrapped : Bytes → Result A × E → Result A × E
  wrapped text (ok a, e) = (ok a, e)
  wrapped text (err x, e) = (err (text ++ x), e)

  abbrev pub moved : Driver E → Result A × E → Result A × Driver E
  moved d (a, e) = (a, record d { outside = e })

  -- A call, with what its error is prefixed by.
  unfoldable pub ask : Bytes → (E → Result A × E) → Run E A
  ask text g d = moved d (wrapped text (g d.outside))

module _ {E : Type 0} where
  abbrev pub noted :
      (Driver E → Driver E) → Result (Unit {0}) × Driver E → Result (Unit {0}) × Driver E
  noted note (ok _, d) = (ok _, note d)
  noted note (err x, d) = (err x, d)

module _ {E A : Type 0} where
  -- A call that is written down, with the argument that it was made with, when it succeeded.
  abbrev pub ask_noted :
      Bytes → (A → Driver E → Driver E) → (A → E → Result (Unit {0}) × E) → A → Run E (Unit {0})
  ask_noted text note g a d = noted (note a) (ask text (g a) d)

-- What follows the last answer of the walk.
abbrev pub drained : List Event → Pages → Result (List Event × Bytes)
drained events (last page token) = ok (events ++ page, token)
drained events (more page token pages) = drained (events ++ page) pages
drained events (broken_off x) = err (codes "failed to fetch events: " ++ x)

-- `errors.Join(err, serr)` of an error of the run, if any, and that of the submit.
abbrev pub joined : Option Bytes → Bytes → Bytes
joined none serr = serr
joined (some e) serr = e ++ codes "\n" ++ serr

abbrev pub event_name : RunnerEventType → Bytes
event_name started = codes "started"
event_name stopped = codes "stopped"
event_name failure = codes "failed"
event_name (other name) = name

module _ {E : Type 0} where
  abbrev pub submitted :
      RunnerEvent → Driver E → Result (Unit {0}) × E → Result (Unit {0}) × Driver E
  submitted event d (ok _, e) =
      (ok _, record d { outside = e; sent = d.sent ++ (event, true) ∷ [] })
  submitted event d (err x, e) = (
    err (codes "failed to submit " ++ event_name event.event ++ codes " event: " ++ x),
    record d { outside = e; sent = d.sent ++ (event, false) ∷ [] },
  )

  -- A call of the server with an event, written down with the answer.
  abbrev pub submit_noted :
      (RunnerEvent → E → Result (Unit {0}) × E) → RunnerEvent → Run E (Unit {0})
  submit_noted g event d = submitted event d (g event d.outside)

  abbrev pub ran_command : Bytes → Driver E → Driver E
  ran_command c d = record d { ran = d.ran ++ c ∷ [] }

  abbrev pub gave : Bytes × Bool → Driver E → Driver E
  gave p d = record d { given = d.given ++ p ∷ [] }

  -- `Config.Save`, where the disk has accepted.
  abbrev pub saved : Config → Run E (Unit {0})
  saved cfg d = (ok _, record d { file = cfg })

  abbrev pub loaded : Run E Config
  loaded d = (ok d.file, d)

  abbrev pub walked : List Event → Driver E → Pages × E → Result (List Event × Bytes) × Driver E
  walked events d (pages, e) = (drained events pages, record d { outside = e })

-- Where the loop of `setup` begins: a count past the end starts over.
abbrev pub first_command : Config → ℕ
first_command cfg =
    if ltb (length cfg.commands) cfg.setup_commands_completed
    then 0
    else cfg.setup_commands_completed

module _ {E : Type 0} (o : Outside E) (task_id : ℕ) where
  unfoldable pub submit : RunnerEvent → Run E (Unit {0})
  submit event = submit_noted o.submit event

  unfoldable pub save : Config → Run E (Unit {0})
  save cfg = do ask (codes "failed to save config: ") o.write_config; saved cfg

  -- The loop of `setup` from command i on, and the config it leaves.
  unfoldable pub setup_from : ℕ → List Bytes → Config → Run E Config
  setup_from i [] cfg = pure cfg
  setup_from i (c ∷ rest) cfg = do
    ask_noted (codes "setup command " ++ format_int i ++ codes " failed: ") ran_command
        o.run_command c
    save (record cfg { setup_commands_completed = suc i })
    setup_from (suc i) rest (record cfg { setup_commands_completed = suc i })

  unfoldable pub setup : Config → Run E Config
  setup cfg =
      let i = first_command cfg in
      setup_from i (drop i cfg.commands) (record cfg { setup_commands_completed = i })

  -- `drainEvents`: the events from the config's token on, and the token after them.
  unfoldable pub drain_events : Config → Run E (List Event × Bytes)
  drain_events cfg d = walked [] d (o.events_from cfg.next_event_token d.outside)

  -- The links of the brief, on the first run only.
  abbrev pub brief_links : Bool → Run E (List Link)
  brief_links true = pure []
  brief_links false = ask (codes "failed to fetch task links: ") (o.list_links task_id)

  -- `runAgent` from the drained events on, with the config that the token was put in.
  unfoldable pub prompt_agent : Task → Config → List Event → Run E (Unit {0})
  prompt_agent task cfg events = do
    links ← brief_links cfg.started
    ask (codes "failed to create agent: ") (o.new_agent cfg)
    text ← ask (codes "failed to build prompt: ") (
        o.render (record {
          started = cfg.started;
          prompt = cfg.prompt;
          task = task;
          events = events;
          links = links;
        }))
    ask_noted [] gave (λ (t, b). o.prompt t b) (text, cfg.started)
    save (record cfg { started = true })

  unfoldable pub run_agent : Task → Run E (Unit {0})
  run_agent task = do
    ask (codes "failed to load config: ") o.read_config
    stored ← loaded
    cfg ← setup stored
    (events, token) ← drain_events cfg
    prompt_agent task (record cfg { next_event_token = token }) events

  -- `run`: a shell session, or the agent.
  unfoldable pub run_task : Task → Run E (Unit {0})
  run_task task =
      let agent = run_agent task in
      if length task.shell_session == 0 then agent else ask [] (o.serve_shell task.shell_session)

  abbrev pub event_of : Task → RunnerEventType → Bytes → RunnerEvent
  event_of task type reason = record {
    task_id = task_id;
    event = type;
    version = task.version;
    reconcile = false;
    reason = reason;
  }

  -- How the run went: its error, unless it was stopped.
  abbrev pub failure_of : Result (Unit {0}) × Driver E → Option Bytes
  failure_of (ok _, d) = none
  failure_of (err x, d) = if o.is_stopped d.outside then none else some x

  abbrev pub terminal_event : Task → Option Bytes → RunnerEvent
  terminal_event task none = event_of task stopped []
  terminal_event task (some x) = event_of task failure x

  abbrev pub exit_of : Option Bytes → Result (Unit {0}) × Driver E → Result (Unit {0}) × Driver E
  exit_of failed (ok _, d) = (ok _, d)
  exit_of failed (err x, d) = (err (joined failed x), d)

  abbrev pub ended : Task → Result (Unit {0}) × Driver E → Result (Unit {0}) × Driver E
  ended task r =
      let failed = failure_of r in exit_of failed (submit (terminal_event task failed) r.1)

  abbrev pub run_started : Task → Run E (Unit {0})
  run_started task d = ended task (run_task task d)

  -- `Run`
  unfoldable pub run_driver : Run E (Unit {0})
  run_driver = do
    task ← ask (codes "failed to get task: ") (o.get_task task_id)
    submit (event_of task started [])
    run_started task
