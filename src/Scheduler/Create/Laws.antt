-- ===== src/Scheduler/Create/Laws.antt =====
-- What the handler lets in, the runner starts.
use gctrl.Prelude.{
  ℕ, ◌≡◌, refl, ap, ◌∙◌, Bool, true, false, List, [], ◌∷◌, Option, none, some, String, ◌==◌,
  String_eq, Bool-cases, inl, inr, any, subst, ◌||◌,
}
use gctrl.Prelude.Result.{Result, ok, err, ok-injective}
use gctrl.Prelude.Text.{is_empty, starts_with}
use gctrl.Scheduler.{Schedule, is_exec, is_some}
use gctrl.Scheduler.Cron.{CronCrate, CronError, next_after}
use gctrl.Scheduler.Exec.{
  ExecConfig, ExecSystem, check_gates, check_program, is_allowed_program, start_program,
  run_checked, run_exec_schedule, has_none, same_path,
}
use gctrl.Scheduler.Exec.Laws.{is_refused, after_spawn_ran}
use gctrl.Scheduler.Create.{
  CreateBody, Stamp, created, new_schedule, http_schedule, exec_schedule, build_http, build_in,
  build_program, build_schedule, create, non_empty, next_if, after_cron, after_build, stored,
  internal_name_prefix,
}

some_allowed :
    (p : String → Bool) (programs : List String) → any p programs ≡ true → has_none programs ≡ false
some_allowed p [] h = cc
some_allowed p (x ∷ xs) h = refl

allowed_some :
    (cfg : ExecConfig) (bin : String)
    → is_allowed_program cfg bin ≡ true
    → has_none cfg.exec_allowed_programs ≡ false
unfolding is_allowed_program
allowed_some cfg bin h = some_allowed (λ p. same_path p bin) cfg.exec_allowed_programs h

rooted_not_empty : (s : String) → starts_with s "/" ≡ true → is_empty s ≡ false
rooted_not_empty String.[] h = cc
rooted_not_empty (String.◌∷◌ c s) h = refl

check_program_passes :
    (system : ExecSystem) (bin cwd : String) (cfg : ExecConfig)
    → starts_with bin "/" ≡ true
    → is_allowed_program cfg bin ≡ true
    → starts_with cwd "/" ≡ true
    → check_program system bin cwd cfg ≡ none
unfolding check_program
check_program_passes system bin cwd cfg absolute allowed directory =
    rw (absolute, allowed_some cfg bin allowed, allowed, directory) refl

-- The runner does not refuse a schedule that passes the gates.
runs :
    (system : ExecSystem) (sched : Schedule) (timeout_secs : ℕ) (cfg : ExecConfig) (bin : String)
    (args : List String) (cwd : String)
    → cfg.exec_enabled ≡ true
    → starts_with bin "/" ≡ true
    → is_allowed_program cfg bin ≡ true
    → starts_with cwd "/" ≡ true
    → sched.command ≡ some (bin ∷ args)
    → sched.cwd ≡ some cwd
    → is_refused (run_exec_schedule system sched timeout_secs cfg).outcome ≡ false
unfolding run_exec_schedule run_checked check_gates start_program
runs system sched timeout_secs cfg bin args cwd on absolute allowed directory command here =
    rw command (
      rw here (
        rw (rooted_not_empty cwd directory) (
          rw on (
            rw (check_program_passes system bin cwd cfg absolute allowed directory)
              (after_spawn_ran system timeout_secs (system.spawn _))))))

-- What `build_schedule` gives for a body.
record Built (cfg : ExecConfig) (body : CreateBody) (next : Option ℕ) (sched : Schedule)
    : Type 0 where
  same_name : sched.name ≡ body.name
  same_cron : sched.cron ≡ body.cron
  planned : sched.next_run_at ≡ next_if sched.enabled next
  runnable :
      is_exec sched ≡ true
      → (system : ExecSystem) (timeout_secs : ℕ)
      → is_refused (run_exec_schedule system sched timeout_secs cfg).outcome ≡ false

build_in-Built :
    (debug : String → String) (body : CreateBody) (next : Option ℕ) (stamp : Stamp)
    (cfg : ExecConfig) (bin : String) (args : List String) (cwd : Option String) (sched : Schedule)
    → cfg.exec_enabled ≡ true
    → starts_with bin "/" ≡ true
    → is_allowed_program cfg bin ≡ true
    → build_in debug body next stamp (bin ∷ args) cwd ≡ ok sched
    → Built cfg body next sched
unfolding build_in exec_schedule new_schedule
build_in-Built debug body next stamp cfg bin args none sched on absolute allowed h = cc
build_in-Built debug body next stamp cfg bin args (some cwd) sched on absolute allowed h =
    elim (Bool-cases (starts_with cwd "/")) [
      | inr relative ↦ cc (rw relative at h)
      | inl directory ↦ elim (Bool-cases (is_some (non_empty body.target_url))) [
        | inl url ↦ cc (rw (directory, url) at h)
        | inr no_url ↦
            subst (Built cfg body next) (ok-injective (rw (directory, no_url) at h)) (record {
              same_name = refl;
              same_cron = refl;
              planned = refl;
              runnable = λ exec system timeout_secs.
                  runs system (exec_schedule body next stamp (bin ∷ args) cwd) timeout_secs cfg bin
                    args cwd on absolute allowed directory refl refl;
            })
      ]
    ]

build_program-Built :
    (debug : String → String) (body : CreateBody) (next : Option ℕ) (stamp : Stamp)
    (cfg : ExecConfig) (command : Option (List String)) (sched : Schedule)
    → cfg.exec_enabled ≡ true
    → build_program debug body next stamp cfg command ≡ ok sched
    → Built cfg body next sched
unfolding build_program
build_program-Built debug body next stamp cfg none sched on h = cc
build_program-Built debug body next stamp cfg (some []) sched on h = cc
build_program-Built debug body next stamp cfg (some (bin ∷ args)) sched on h =
    elim (Bool-cases (starts_with bin "/")) [
      | inr relative ↦ cc (rw relative at h)
      | inl absolute ↦ elim (Bool-cases (has_none cfg.exec_allowed_programs)) [
        | inl no_list ↦ cc (rw (absolute, no_list) at h)
        | inr list ↦ elim (Bool-cases (is_allowed_program cfg bin)) [
          | inr foreign ↦ cc (rw (absolute, list, foreign) at h)
          | inl allowed ↦
              build_in-Built debug body next stamp cfg bin args (non_empty body.cwd) sched on
                absolute allowed (rw (absolute, list, allowed) at h)
        ]
      ]
    ]

build_http-Built :
    (body : CreateBody) (next : Option ℕ) (stamp : Stamp) (cfg : ExecConfig) (url : Option String)
    (sched : Schedule)
    → build_http body next stamp url ≡ ok sched
    → Built cfg body next sched
unfolding build_http http_schedule new_schedule is_exec
build_http-Built body next stamp cfg none sched h = cc
build_http-Built body next stamp cfg (some url) sched h =
    elim (Bool-cases (is_some body.command || is_some body.cwd || is_some body.env_keys)) [
      | inl mixed ↦ cc (rw mixed at h)
      | inr plain ↦ subst (Built cfg body next) (ok-injective (rw plain at h)) (record {
        same_name = refl;
        same_cron = refl;
        planned = refl;
        runnable = λ exec system timeout_secs. cc exec;
      })
    ]

build_schedule-Built :
    (debug : String → String) (body : CreateBody) (next : Option ℕ) (stamp : Stamp)
    (cfg : ExecConfig) (sched : Schedule)
    → build_schedule debug body next stamp cfg ≡ ok sched
    → Built cfg body next sched
unfolding build_schedule is_allowed_program
build_schedule-Built debug body next stamp cfg sched h =
    elim (Bool-cases (body.target_kind == "http")) [
      | inl http ↦
          build_http-Built body next stamp cfg (non_empty body.target_url) sched (rw http at h)
      | inr no_http ↦ elim (Bool-cases (body.target_kind == "exec")) [
        | inr other ↦ cc (rw (no_http, other) at h)
        | inl exec ↦ elim (Bool-cases cfg.exec_enabled) [
          | inr off ↦ cc (rw (no_http, exec, off) at h)
          | inl on ↦
              build_program-Built debug body next stamp cfg body.command sched on
                (rw (no_http, exec, on) at h)
        ]
      ]
    ]

stored_sched :
    (built sched : Schedule) (failure : Option String)
    → stored built failure ≡ created sched
    → built ≡ sched
stored_sched built sched none h = cc
stored_sched built sched (some e) h = cc

stored_built :
    (create_schedule : Schedule → Option String) (built : Result String Schedule) (sched : Schedule)
    → after_build create_schedule built ≡ created sched
    → built ≡ ok sched
stored_built create_schedule (err e) sched h = cc
stored_built create_schedule (ok built) sched h =
    ap ok (stored_sched built sched (create_schedule built) h)

-- A schedule that the handler creates has no reserved name and an expression that can be parsed; it is
-- planned for the next time of this if it is enabled, and for none otherwise; and if it runs a program,
-- the runner under the same configuration does not refuse it, whatever its timeout.
pub create_accepts :
    (crate : CronCrate) (debug : String → String) (body : CreateBody) (stamp : Stamp)
    (cfg : ExecConfig) (create_schedule : Schedule → Option String) (sched : Schedule)
    → create crate debug body stamp cfg create_schedule ≡ created sched
    → (starts_with sched.name internal_name_prefix ≡ false)
      × ((next : Option ℕ) × (next_after crate sched.cron stamp.now ≡ ok next)
          × (sched.next_run_at ≡ next_if sched.enabled next))
      × (is_exec sched ≡ true
          → (system : ExecSystem) (timeout_secs : ℕ)
          → is_refused (run_exec_schedule system sched timeout_secs cfg).outcome ≡ false)
unfolding create
create_accepts crate debug body stamp cfg create_schedule sched h =
    elim (Bool-cases (starts_with body.name internal_name_prefix)) [
      | inl reserved ↦ cc (rw reserved at h)
      | inr free ↦ with_next free (next_after crate body.cron stamp.now) refl (rw free at h)
    ]
  where
    with_next :
        starts_with body.name internal_name_prefix ≡ false
        → (reply : Result CronError (Option ℕ)) → next_after crate body.cron stamp.now ≡ reply
        → after_cron debug body stamp cfg create_schedule (next_after crate body.cron stamp.now)
          ≡ created sched
        → (starts_with sched.name internal_name_prefix ≡ false)
          × ((next : Option ℕ) × (next_after crate sched.cron stamp.now ≡ ok next)
              × (sched.next_run_at ≡ next_if sched.enabled next))
          × (is_exec sched ≡ true
              → (system : ExecSystem) (timeout_secs : ℕ)
              → is_refused (run_exec_schedule system sched timeout_secs cfg).outcome ≡ false)
    with_next free (err e) is_err went = cc (rw is_err at went)
    with_next free (ok next) is_ok went =
        let b = build_schedule-Built debug body next stamp cfg sched (
          stored_built create_schedule (build_schedule debug body next stamp cfg) sched
            (rw is_ok at went)) in
        (
          ap (λ n. starts_with n internal_name_prefix) b.same_name ∙ free,
          (next, ap (λ c. next_after crate c stamp.now) b.same_cron ∙ is_ok, b.planned),
          b.runnable,
        )
