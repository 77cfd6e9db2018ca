-- ===== src/Orch/Agent.antt =====
-- The agent's process: kernel/crates/gctrl-orch/src/agent.rs. The operating system is a parameter.
use gctrl.Prelude.{
  ℕ, Bool, false, not, List, [], ◌∷◌, Option, none, some, String, nat_eq, if◌then◌else◌,
}
use gctrl.Prelude.Decimal.{decimal, ◌⁀◌}
use gctrl.Prelude.Result.{Result, ok, err}

-- An error of the operating system: whether its kind is `BrokenPipe`, and its text.
pub record IoError : Type 0 where
  pub broken_pipe : Bool
  pub text : String

pub data Exit : Type 0 where
  elapsed : Exit
  failed : IoError → Exit
  exited : (code : Option ℕ) (stdout stderr : String) → Exit

pub record System : Type 1 where
  pub Child : Type 0
  -- `Command::spawn` with the program, its arguments, the directory and the whole environment.
  pub spawn : String → List String → String → List (String × String) → Result IoError Child
  pub write_all : Child → String → Option IoError
  pub shutdown : Child → Option IoError
  -- `wait_with_output` under a timeout.
  pub wait : Child → ℕ → Exit
  pub show_duration : ℕ → String
  pub vars : List (String × String)

pub data SpawnError : Type 0 where
  spawn_failed : IoError → SpawnError
  non_zero : ℕ → SpawnError
  signal : SpawnError
  timeout : ℕ → SpawnError

pub record AgentRun : Type 0 where
  pub stdout : String
  pub stderr : String
  pub exit_code : ℕ

-- An error that is not a broken pipe.
abbrev pub hard : Option IoError → Option IoError
hard none = none
hard (some e) = if e.broken_pipe then none else some e

unfoldable pub fail_on {ℓ} :
    {A : Type ℓ} → Option IoError → Result SpawnError A → Result SpawnError A
fail_on none rest = rest
fail_on (some e) rest = err (spawn_failed e)

abbrev pub empty_command : IoError
empty_command = record { broken_pipe = false; text = "empty agent command" }

module _ (system : System) where
  -- The prompt is written to the child's input, which is then closed.
  unfoldable pub feed : system.Child → String → Result SpawnError system.Child
  unfolding fail_on
  feed child prompt =
      fail_on (hard (system.write_all child prompt))
        (fail_on (hard (system.shutdown child)) (ok child))

  unfoldable pub feed_started :
      Result IoError system.Child → String → Result SpawnError system.Child
  unfolding feed
  feed_started (err e) prompt = err (spawn_failed e)
  feed_started (ok child) prompt = feed child prompt

  unfoldable pub spawn_agent :
      List String → String → String → List (String × String) → Result SpawnError system.Child
  unfolding feed_started
  spawn_agent [] working_dir prompt env = err (spawn_failed empty_command)
  spawn_agent (program ∷ args) working_dir prompt env =
      feed_started (system.spawn program args working_dir env) prompt

  unfoldable pub read_exit : ℕ → Exit → Result SpawnError AgentRun
  read_exit limit elapsed = err (timeout limit)
  read_exit limit (failed e) = err (spawn_failed e)
  read_exit limit (exited none stdout stderr) = err signal
  read_exit limit (exited (some code) stdout stderr) =
      if not (nat_eq code 0)
      then err (non_zero code)
      else ok (record { stdout = stdout; stderr = stderr; exit_code = code })

  unfoldable pub await_agent : system.Child → ℕ → Result SpawnError AgentRun
  unfolding read_exit
  await_agent child limit = read_exit limit (system.wait child limit)

  unfoldable pub error_text : SpawnError → String
  error_text (spawn_failed e) = "spawn failed: " ⁀ e.text
  error_text (non_zero code) = "agent exited with code " ⁀ decimal code
  error_text signal = "agent killed by signal"
  error_text (timeout limit) = "timed out after " ⁀ system.show_duration limit
