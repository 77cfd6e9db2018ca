-- ===== src/Scheduler/Exec.antt =====
-- The spawning of scheduled programs: kernel/crates/gctrl-scheduler/src/exec.rs, with its part of
-- kernel/crates/gctrl-core/src/config.rs. The operating system, the debug form of a text and the lossy
-- decoding of bytes are a parameter; a stream is the list of what its reads give, up to its end.
pub mod Capped
pub mod Laws
use gctrl.Prelude.{
  ℕ, ◌+◌, ◌-◌, Bool, true, false, not, ◌&&◌, List, [], ◌∷◌, ◌++◌, Option, none, some, String, ◌==◌,
  String_eq, ltb, nat_eq, any, retain, take, length, if◌then◌else◌,
}
use gctrl.Prelude.Decimal.{decimal, ◌⁀◌}
use gctrl.Prelude.Result.{Result, ok, err}
use gctrl.Prelude.Text.{is_empty, starts_with}
use Prim.Native.Char.{Char, code}
use gctrl.Scheduler.{Schedule, ExecOutcome, refused, spawned}

-- The part of `SchedulerConfig` that is about programs.
pub record ExecConfig : Type 0 where
  pub exec_enabled : Bool
  pub exec_allowed_programs : List String

-- What a read gives: an error, or bytes, of which there are none at the end.
abbrev pub Read : Type 0
Read = Option (List ℕ)

-- How the wait for the child ends: it exits, the wait itself fails, or the time is over.
pub data Waited : Type 0 where
  exited : (exit_code : Option ℕ) → Waited
  wait_failed : String → Waited
  elapsed : Waited

-- What is known of a child: its two streams, and the end of a wait of so many seconds.
pub record Child : Type 0 where
  pub stdout : List Read
  pub stderr : List Read
  pub wait : ℕ → Waited

-- A call of `Command::spawn`.
pub record Spawn : Type 0 where
  pub program : String
  pub args : List String
  pub cwd : String
  pub env : List (String × String)

pub record ExecSystem : Type 0 where
  pub spawn : Spawn → Result String Child
  pub vars : List (String × String)
  pub debug : String → String
  pub lossy : List ℕ → String

-- The outcome, and the programs that were started.
pub record ExecRun : Type 0 where
  pub spawns : List Spawn
  pub outcome : ExecOutcome

abbrev pub stdout_cap_bytes : ℕ
stdout_cap_bytes = 65536

abbrev pub stderr_cap_bytes : ℕ
stderr_cap_bytes = 65536

-- The parts of a path between its slashes.
abbrev push_part : Char → List String → List String
push_part c [] = String.◌∷◌ c String.[] ∷ []
push_part c (part ∷ parts) = String.◌∷◌ c part ∷ parts

unfoldable pub split_path : String → List String
split_path String.[] = String.[] ∷ []
split_path (String.◌∷◌ c s) =
    let rest = split_path s in if nat_eq (code c) 47 then String.[] ∷ rest else push_part c rest

abbrev counts_part : String → Bool
counts_part part = not (is_empty part) && not (part == ".")

unfoldable pub path_parts : String → List String
unfolding split_path
path_parts s = retain counts_part (split_path s)

abbrev same_parts : List String → List String → Bool
same_parts [] [] = true
same_parts [] (y ∷ ys) = false
same_parts (x ∷ xs) [] = false
same_parts (x ∷ xs) (y ∷ ys) = x == y && same_parts xs ys

-- `Path`'s equality with an absolute path: the components are compared.
unfoldable pub same_path : String → String → Bool
unfolding path_parts
same_path p bin = starts_with p "/" && same_parts (path_parts p) (path_parts bin)

unfoldable pub is_allowed_program : ExecConfig → String → Bool
unfolding same_path
is_allowed_program cfg bin = any (λ p. same_path p bin) cfg.exec_allowed_programs

abbrev pub has_none : List String → Bool
has_none [] = true
has_none (p ∷ ps) = false

-- The gates on a program that is there.
unfoldable pub check_program : ExecSystem → (bin cwd : String) → ExecConfig → Option String
unfolding is_allowed_program
check_program system bin cwd cfg =
    if not (starts_with bin "/")
    then some ("argv[0] must be an absolute path, got " ⁀ system.debug bin)
    else if has_none cfg.exec_allowed_programs
    then some "exec_allowed_programs is empty (no programs permitted)"
    else if not (is_allowed_program cfg bin)
    then some ("argv[0]=" ⁀ system.debug bin ⁀ " not in exec_allowed_programs")
    else if not (starts_with cwd "/")
    then some ("cwd must be absolute, got " ⁀ system.debug cwd)
    else none

-- The first gate that the arguments do not pass.
unfoldable pub check_gates : ExecSystem → List String → String → ExecConfig → Option String
unfolding check_program
check_gates system argv cwd cfg =
    if not cfg.exec_enabled
    then some "exec_enabled=false in scheduler config"
    else elim argv [ [] ↦ some "argv is empty" | bin ∷ args ↦ check_program system bin cwd cfg ]

-- The buffer after the reads, and whether something was left out.
unfoldable pub capped_loop : ℕ → List ℕ → List Read → List ℕ × Bool
capped_loop cap buf [] = (buf, false)
capped_loop cap buf (none ∷ reads) = (buf, false)
capped_loop cap buf (some [] ∷ reads) = (buf, false)
capped_loop cap buf (some (b ∷ bytes) ∷ reads) =
    let remaining = cap - length buf in
    let rest = capped_loop cap (buf ++ b ∷ bytes) reads in
    if nat_eq remaining 0
    then (buf, true)
    else if ltb remaining (length (b ∷ bytes))
    then (buf ++ take remaining (b ∷ bytes), true)
    else rest

abbrev capped_text : ExecSystem → ℕ → List ℕ × Bool → String
capped_text system cap (buf, overflow) =
    if overflow
    then system.lossy buf ⁀ "…[truncated at " ⁀ decimal cap ⁀ "-byte cap]"
    else system.lossy buf

unfoldable pub read_capped : ExecSystem → List Read → ℕ → String
unfolding capped_loop
read_capped system reads cap = capped_text system cap (capped_loop cap [] reads)

unfoldable pub prefix_or_empty : String → String → String
prefix_or_empty stderr fallback = if is_empty stderr then fallback else fallback ⁀ "\n" ⁀ stderr

abbrev pub at_least_one : ℕ → ℕ
at_least_one n = if nat_eq n 0 then 1 else n

unfoldable pub outcome_of_wait : ExecSystem → ℕ → Child → Waited → ExecOutcome
unfolding read_capped prefix_or_empty
outcome_of_wait system timeout_secs child (exited exit_code) =
    spawned exit_code (read_capped system child.stdout stdout_cap_bytes)
      (read_capped system child.stderr stderr_cap_bytes) false
outcome_of_wait system timeout_secs child (wait_failed e) =
    spawned none (read_capped system child.stdout stdout_cap_bytes)
      (prefix_or_empty (read_capped system child.stderr stderr_cap_bytes) ("wait failed: " ⁀ e))
      false
outcome_of_wait system timeout_secs child elapsed =
    spawned none "" ("timed out after " ⁀ decimal timeout_secs ⁀ "s") true

abbrev pub contains_key : List String → String → Bool
contains_key keys k = any (λ a. a == k) keys

abbrev pub keys_of : Option (List String) → List String
keys_of none = []
keys_of (some keys) = keys

unfoldable pub select_pairs : ExecSystem → Option (List String) → List (String × String)
select_pairs system env_keys = retain (λ v. contains_key (keys_of env_keys) v.0) system.vars

abbrev pub after_spawn : ExecSystem → ℕ → Result String Child → ExecOutcome
after_spawn system timeout_secs (err e) = spawned none "" ("spawn failed: " ⁀ e) false
after_spawn system timeout_secs (ok child) =
    outcome_of_wait system timeout_secs child (child.wait (at_least_one timeout_secs))

unfoldable pub start_program : ExecSystem → ℕ → Spawn → ExecRun
unfolding outcome_of_wait
start_program system timeout_secs command = record {
  spawns = command ∷ [];
  outcome = after_spawn system timeout_secs (system.spawn command);
}

abbrev pub refuse : String → ExecRun
refuse reason = record { spawns = []; outcome = refused reason }

abbrev pub gated : Option String → ExecRun → ExecRun
gated none run = run
gated (some reason) run = refuse reason

unfoldable pub run_checked :
    ExecSystem → Schedule → ℕ → ExecConfig → String → List String → String → ExecRun
unfolding check_gates start_program select_pairs
run_checked system sched timeout_secs cfg program args cwd =
    gated (check_gates system (program ∷ args) cwd cfg) (
      start_program system timeout_secs (record {
        program = program;
        args = args;
        cwd = cwd;
        env = select_pairs system sched.env_keys;
      }))

abbrev pub with_cwd :
    ExecSystem → Schedule → ℕ → ExecConfig → String → List String → Option String → ExecRun
with_cwd system sched timeout_secs cfg program args none =
    refuse "cwd is required for exec schedules"
with_cwd system sched timeout_secs cfg program args (some cwd) =
    if is_empty cwd
    then refuse "cwd is required for exec schedules"
    else run_checked system sched timeout_secs cfg program args cwd

abbrev pub with_command : ExecSystem → Schedule → ℕ → ExecConfig → Option (List String) → ExecRun
with_command system sched timeout_secs cfg none = refuse "command is empty"
with_command system sched timeout_secs cfg (some []) = refuse "command is empty"
with_command system sched timeout_secs cfg (some (program ∷ args)) =
    with_cwd system sched timeout_secs cfg program args sched.cwd

unfoldable pub run_exec_schedule : ExecSystem → Schedule → ℕ → ExecConfig → ExecRun
unfolding run_checked
run_exec_schedule system sched timeout_secs cfg =
    with_command system sched timeout_secs cfg sched.command
