-- ===== src/Examples/Agents.antt =====
-- A run of the driver from its first call on.
use gritz.Prelude.{
  ℕ, ◌+◌, ◌==◌, ◌≡◌, refl, false, [], ◌∷◌, codes, bytes_eq, ◌&&◌, if◌then◌else◌, drop,
}
use gritz.Agent.{
  Outside, Driver, Config, Result, ok, err, last, more, run_driver, run_agent, setup, run_task, ask,
  submit, save, setup_from, drain_events, prompt_agent,
}
use gritz.Agent.Setup.{ResumesAt, Resumed, setup-Resumed}
use gritz.Agent.Outcome.{Told, run_driver-Told}
use gritz.Examples.Tasks.{running_task}

-- The state of what is outside counts the calls.
abbrev says_yes : ℕ → Result (Unit {0}) × ℕ
says_yes n = (ok _, n + 1)

abbrev outside : Outside ℕ
outside = record {
  get_task = λ id n. (ok running_task, n + 1);
  submit = λ event n. says_yes n;
  serve_shell = λ session n. says_yes n;
  read_config = says_yes;
  write_config = says_yes;
  run_command = λ c n.
      if (n == 6) && bytes_eq c (codes "b") then (err (codes "exit 1"), n + 1) else says_yes n;
  events_from = λ token n. (more [] (codes "t1") (last [] (codes "t2")), n + 1);
  list_links = λ id n. (ok [], n + 1);
  new_agent = λ cfg n. says_yes n;
  render = λ options n. (ok (codes "go"), n + 1);
  prompt = λ text started n. says_yes n;
  is_stopped = λ n. false;
}

abbrev config : Config
config = record {
  prompt = [];
  settings = [];
  commands = codes "a" ∷ codes "b" ∷ [];
  setup_commands_completed = 0;
  started = false;
  next_event_token = [];
}

abbrev driver : Driver ℕ
driver = record { outside = 0; file = config; sent = []; ran = []; given = [] }

setup-Resumed_example :
    (i : ℕ) × ResumesAt config i
    × Resumed outside i
        (drop i config.commands)
        (record config { setup_commands_completed = i })
        driver
        (setup outside 7 config driver)
setup-Resumed_example = setup-Resumed outside 7 config driver refl

run_driver-Told_example : Told outside 7 driver (run_driver outside 7 driver)
run_driver-Told_example = run_driver-Told outside 7 driver

moves : (run_driver outside 7 driver).1.file.next_event_token ≡ codes "t2"
unfolding run_driver run_agent setup run_task ask submit save setup_from drain_events prompt_agent
    bytes_eq
moves = refl
