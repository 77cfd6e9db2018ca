-- ===== src/Scheduler/Exec/Laws.antt =====
-- What a scheduled program is started with.
use gctrl.Prelude.{
  ℕ, ◌≡◌, refl, Bool, true, false, List, [], ◌∷◌, Option, none, some, String, arith, All,
  All-retain_self, Bool-cases, inl, inr, find, find-retain, eq_iff, ◌==◌, String_eq, subst, sym,
  ◌↔◌, ◌∙◌,
}
use gctrl.Prelude.Text.{starts_with, is_empty}
use gctrl.Prelude.Result.{Result, ok, err}
use gctrl.Scheduler.{Schedule, ExecOutcome, refused, spawned}
use gctrl.Scheduler.Exec.{
  ExecConfig, Spawn, ExecSystem, ExecRun, check_gates, check_program, is_allowed_program,
  contains_key, keys_of, select_pairs, start_program, run_checked, run_exec_schedule, gated, refuse,
  with_cwd, with_command, Child, Waited, exited, wait_failed, elapsed, after_spawn, outcome_of_wait,
  at_least_one,
}

-- A start that the operator and the schedule allow.
pub record Permitted (system : ExecSystem) (sched : Schedule) (cfg : ExecConfig) (c : Spawn)
    : Type 0 where
  enabled : cfg.exec_enabled ≡ true
  absolute : starts_with c.program "/" ≡ true
  allowed : is_allowed_program cfg c.program ≡ true
  own_command : sched.command ≡ some (c.program ∷ c.args)
  own_cwd : sched.cwd ≡ some c.cwd
  absolute_cwd : starts_with c.cwd "/" ≡ true
  named_env : All (λ v. contains_key (keys_of sched.env_keys) v.0 ≡ true) c.env
  same_env :
      (k : String)
      → contains_key (keys_of sched.env_keys) k ≡ true
      → find (λ v. v.0 == k) c.env ≡ find (λ v. v.0 == k) system.vars

check_program-none :
    (system : ExecSystem) (bin cwd : String) (cfg : ExecConfig)
    → check_program system bin cwd cfg ≡ none
    → (starts_with bin "/" ≡ true)
      × (is_allowed_program cfg bin ≡ true)
      × (starts_with cwd "/" ≡ true)
unfolding check_program
check_program-none system bin cwd cfg h = ground arith

check_gates-none :
    (system : ExecSystem) (bin : String) (args : List String) (cwd : String) (cfg : ExecConfig)
    → check_gates system (bin ∷ args) cwd cfg ≡ none
    → (cfg.exec_enabled ≡ true)
      × (starts_with bin "/" ≡ true)
      × (is_allowed_program cfg bin ≡ true)
      × (starts_with cwd "/" ≡ true)
unfolding check_gates
check_gates-none system bin args cwd cfg h = elim (Bool-cases cfg.exec_enabled) [
  | inl on ↦
      let (absolute, allowed, directory) = check_program-none system bin cwd cfg (rw on at h) in
      (on, absolute, allowed, directory)
  | inr off ↦ cc (rw off at h)
]

abbrev pub is_refused : ExecOutcome → Bool
is_refused (refused reason) = true
is_refused (spawned exit_code stdout stderr timed_out) = false

-- What is shown of a run: its starts are permitted, and it is refused if there is none.
abbrev pub Guarded : ExecSystem → Schedule → ExecConfig → ExecRun → Type 0
Guarded system sched cfg run =
    All (Permitted system sched cfg) run.spawns
    × ((is_refused run.outcome ≡ true) ↔ (run.spawns ≡ []))

refuse-Guarded :
    (system : ExecSystem) (sched : Schedule) (cfg : ExecConfig) (reason : String)
    → Guarded system sched cfg (refuse reason)
refuse-Guarded system sched cfg reason = (tt, (λ _. refl, λ _. refl))

pub after_spawn_ran :
    (system : ExecSystem) (timeout_secs : ℕ) (child : Result String Child)
    → is_refused (after_spawn system timeout_secs child) ≡ false
unfolding outcome_of_wait
after_spawn_ran system timeout_secs (err e) = refl
after_spawn_ran system timeout_secs (ok child) = go (child.wait (at_least_one timeout_secs))
  where
    go : (w : Waited) → is_refused (outcome_of_wait system timeout_secs child w) ≡ false
    go (exited exit_code) = refl
    go (wait_failed e) = refl
    go elapsed = refl

start_program-Guarded :
    (system : ExecSystem) (sched : Schedule) (cfg : ExecConfig) (timeout_secs : ℕ) (c : Spawn)
    → Permitted system sched cfg c
    → Guarded system sched cfg (start_program system timeout_secs c)
unfolding start_program
start_program-Guarded system sched cfg timeout_secs c permitted =
    let ran = after_spawn_ran system timeout_secs (system.spawn c) in
    ((permitted, tt), (λ h. cc (sym ran ∙ h), λ h. cc h))

select_pairs-named :
    (system : ExecSystem) (env_keys : Option (List String))
    → All (λ v. contains_key (keys_of env_keys) v.0 ≡ true) (select_pairs system env_keys)
unfolding select_pairs
select_pairs-named system env_keys =
    All-retain_self (λ v. contains_key (keys_of env_keys) v.0) system.vars

select_pairs-same :
    (system : ExecSystem) (env_keys : Option (List String)) (k : String)
    → contains_key (keys_of env_keys) k ≡ true
    → find (λ v. v.0 == k) (select_pairs system env_keys) ≡ find (λ v. v.0 == k) system.vars
unfolding select_pairs
select_pairs-same system env_keys k named =
    find-retain (λ v. v.0 == k) (λ v. contains_key (keys_of env_keys) v.0) system.vars
      (λ v same.
        subst (λ x. contains_key (keys_of env_keys) x ≡ true) (sym ((eq_iff v.0 k).0 same)) named)

run_checked-Guarded :
    (system : ExecSystem) (sched : Schedule) (timeout_secs : ℕ) (cfg : ExecConfig)
    (program : String) (args : List String) (cwd : String)
    → sched.command ≡ some (program ∷ args)
    → sched.cwd ≡ some cwd
    → Guarded system sched cfg (run_checked system sched timeout_secs cfg program args cwd)
unfolding run_checked
run_checked-Guarded system sched timeout_secs cfg program args cwd command directory =
    go (check_gates system (program ∷ args) cwd cfg) refl
  where
    c : Spawn
    c = record {
      program = program;
      args = args;
      cwd = cwd;
      env = select_pairs system sched.env_keys;
    }

    go :
        (gate : Option String)
        → check_gates system (program ∷ args) cwd cfg ≡ gate
        → Guarded system sched cfg (gated gate (start_program system timeout_secs c))
    go (some reason) e = refuse-Guarded system sched cfg reason
    go none e =
        let (on, absolute, allowed, directory_absolute) =
          check_gates-none system program args cwd cfg e in
        start_program-Guarded system sched cfg timeout_secs c (record {
          enabled = on;
          absolute = absolute;
          allowed = allowed;
          own_command = command;
          own_cwd = directory;
          absolute_cwd = directory_absolute;
          named_env = select_pairs-named system sched.env_keys;
          same_env = select_pairs-same system sched.env_keys;
        })

-- A schedule starts a program only where the operator has enabled this: the program is the first word
-- of the schedule's command, has an absolute path and is on the operator's list; its arguments are the
-- rest of the command; its directory is the schedule's, and absolute; and it sees no variable but those
-- that the schedule names, each with the daemon's value. The run is refused exactly if nothing is
-- started.
pub run_exec_schedule-Guarded :
    (system : ExecSystem) (sched : Schedule) (timeout_secs : ℕ) (cfg : ExecConfig)
    → Guarded system sched cfg (run_exec_schedule system sched timeout_secs cfg)
unfolding run_exec_schedule
run_exec_schedule-Guarded system sched timeout_secs cfg = go sched.command refl
  where
    in_directory :
        (program : String) (args : List String)
        → sched.command ≡ some (program ∷ args)
        → (cwd : Option String) → sched.cwd ≡ cwd
        → Guarded system sched cfg (with_cwd system sched timeout_secs cfg program args cwd)
    in_directory program args command none e =
        refuse-Guarded system sched cfg "cwd is required for exec schedules"
    in_directory program args command (some cwd) e = elim (Bool-cases (is_empty cwd)) [
      | inl missing ↦
          rw missing (refuse-Guarded system sched cfg "cwd is required for exec schedules")
      | inr there ↦
          rw there (run_checked-Guarded system sched timeout_secs cfg program args cwd command e)
    ]

    go :
        (command : Option (List String))
        → sched.command ≡ command
        → Guarded system sched cfg (with_command system sched timeout_secs cfg command)
    go none e = refuse-Guarded system sched cfg "command is empty"
    go (some []) e = refuse-Guarded system sched cfg "command is empty"
    go (some (program ∷ args)) e = in_directory program args e sched.cwd refl
