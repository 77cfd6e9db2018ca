-- ===== src/Scheduler/Examples.antt =====
-- Firings of two small schedules.
use gctrl.Prelude.{
  ℕ, ◌+◌, ◌≡◌, refl, ◌↔◌, ◌≤◌, ◌<◌, true, false, [], ◌∷◌, ◌++◌, none, some, String, arith, find,
  if◌then◌else◌, List, Option, ◌⊎◌, map,
}
use gctrl.Scheduler.{
  Schedule, ScheduleRun, green, amber, compute_schedule_health, is_exec, is_schedule, replied,
  spawned, Tables, Firing, with_run, update_of, outcome_of, fire_one, is_due,
  reap_interrupted_schedule_runs,
}
use gctrl.Scheduler.Laws.{fire_one-records, health-http_reply}
use gctrl.Scheduler.Exec.{ExecSystem, ExecConfig, exited, run_exec_schedule, capped_loop}
use gctrl.Scheduler.Exec.Laws.{Guarded, run_exec_schedule-Guarded, is_refused}
use gctrl.Scheduler.Exec.Capped.{capped, content, capped_loop-capped}
use gctrl.Scheduler.Cron.{redact_and_truncate, CronCrate, next_after}
use gctrl.Scheduler.Cron.Laws.{redact_and_truncate_kept}
use gctrl.Scheduler.Create.{CreateBody, Stamp, create, created, internal_name_prefix, next_if}
use gctrl.Scheduler.Create.Laws.{create_accepts}
use gctrl.Scheduler.Rows.{get_schedule, delete_schedule}
use gctrl.Scheduler.Rows.Manual.{run_now}
use gctrl.Scheduler.Rows.Laws.{NoOrphans}
use gctrl.Scheduler.Rows.Reach.{
  ScheduleOp, creates, ticks, runs_now, deletes, perform_all, perform_all-NoOrphans,
}
use Prim.Native.Char.{Char}
use gctrl.Prelude.Text.{utf8_len, byte_len, starts_with}
use gctrl.Prelude.Decimal.{decimal, ◌⁀◌}
use gctrl.Prelude.Result.{ok}

abbrev schedule : String → Schedule
schedule kind = record {
  id = "1";
  name = "tick";
  cron = "* * * * *";
  target_kind = kind;
  target_url = "http://127.0.0.1/tick";
  target_method = "POST";
  body_json = none;
  headers_json = none;
  command = some ("/bin/true" ∷ []);
  cwd = none;
  env_keys = none;
  timeout_secs = 0;
  enabled = true;
  next_run_at = some 5;
  last_run_at = none;
  last_status = none;
  last_response = none;
  last_error = none;
  run_count = 0;
  failure_count = 0;
  app_id = none;
  created_at = 1;
  updated_at = 1;
}

abbrev firing : Firing
firing = record {
  http_reply = replied 503 "down";
  exec_outcome = spawned (some 1) "" "no" false;
  previews = record { response = λ t. t; error = λ t. t };
  next_after = λ c now. some (now + 60);
  uuid = "r1";
  started = 6;
  finished = 8;
  written = 9;
}

abbrev tables : Tables
tables = record { schedules = schedule "exec" ∷ []; runs = [] }

fire_one-records_example :
    let s = schedule "exec" in
    let outcome = outcome_of 30 s firing in
    (s' : Schedule) × (find (is_schedule s.id) (fire_one 30 tables s firing).schedules ≡ some s')
    × (s'.run_count ≡ s.run_count + 1)
    × (s'.failure_count ≡ (if outcome.success then s.failure_count else s.failure_count + 1))
    × (s'.next_run_at ≡ firing.next_after s.cron firing.finished)
    × ((r : ScheduleRun) × ((fire_one 30 tables s firing).runs ≡ tables.runs ++ r ∷ [])
        × (r.schedule_id ≡ s.id)
        × ((r.status ≡ "success")
            ↔ ((outcome.refused ≡ false) × (outcome.timed_out ≡ false) × (outcome.success ≡ true))))
fire_one-records_example = fire_one-records 30 tables (schedule "exec") firing refl

exec_kind : is_exec (schedule "exec") ≡ true
unfolding is_exec
exec_kind = refl

http_kind : is_exec (schedule "http") ≡ false
unfolding is_exec
http_kind = refl

health-http_reply_example :
    (compute_schedule_health (
        with_run
          (update_of (schedule "http") firing (outcome_of 30 (schedule "http") firing))
          9
          (schedule "http"))
      ≡ green)
    × (((outcome_of 30 (schedule "http") firing).success ≡ true) ↔ ((200 ≤ 503) × (503 < 400)))
health-http_reply_example =
    health-http_reply 30 (schedule "http") firing 503 "down" refl http_kind refl

always_later : (c : String) (now next : ℕ) → some (now + 60) ≡ some next → now < next
always_later c now next e = ground arith

abbrev interrupted : Tables
interrupted = record {
  schedules = [];
  runs =
      record {
        id = "r0";
        schedule_id = "1";
        started_at = 1;
        finished_at = none;
        status = "running";
        fire_kind = "manual";
        exit_code = none;
        http_status = none;
        response_preview = none;
        error_preview = none;
        duration_ms = none;
        created_at = 1;
      }
      ∷ [];
}

abbrev os : ExecSystem
os = record {
  spawn = λ c. ok (record {
    stdout = some (104 ∷ 105 ∷ []) ∷ some [] ∷ [];
    stderr = [];
    wait = λ secs. exited (some 0);
  });
  vars = ("HOME", "/root") ∷ ("TOKEN", "t") ∷ [];
  debug = λ s. s;
  lossy = λ bytes. "hi";
}

abbrev exec_config : ExecConfig
exec_config = record { exec_enabled = true; exec_allowed_programs = "/bin//true" ∷ [] }

abbrev runnable : Schedule
runnable = record (schedule "exec") { cwd = some "/tmp"; env_keys = some ("HOME" ∷ []) }

starts_true :
    (run_exec_schedule os runnable 30 exec_config).spawns
    ≡ record { program = "/bin/true"; args = []; cwd = "/tmp"; env = ("HOME", "/root") ∷ [] } ∷ []
unfolding run_exec_schedule
starts_true = refl

run_exec_schedule-Guarded_example :
    Guarded os runnable exec_config (run_exec_schedule os runnable 30 exec_config)
run_exec_schedule-Guarded_example = run_exec_schedule-Guarded os runnable 30 exec_config

capped_loop-capped_example :
    capped_loop 3 [] (some (1 ∷ 2 ∷ []) ∷ some (3 ∷ 4 ∷ []) ∷ [])
    ≡ capped 3 (content (some (1 ∷ 2 ∷ []) ∷ some (3 ∷ 4 ∷ []) ∷ []))
capped_loop-capped_example = capped_loop-capped 3 (some (1 ∷ 2 ∷ []) ∷ some (3 ∷ 4 ∷ []) ∷ [])

redact_and_truncate_kept_example :
    ((byte_len "aé" ≤ 2) × (redact_and_truncate (λ s. s) "aé" 2 ≡ "aé"))
    ⊎ ((2 < byte_len "aé")
        × ((kept : String) × (c : Char) × (rest : String) × ("aé" ≡ kept ⁀ String.◌∷◌ c rest)
            × (byte_len kept ≤ 2)
            × (2 < byte_len kept + utf8_len c)
            × (redact_and_truncate (λ s. s) "aé" 2
                ≡ kept ⁀ "…[truncated " ⁀ decimal (byte_len (String.◌∷◌ c rest)) ⁀ " bytes]")))
redact_and_truncate_kept_example = redact_and_truncate_kept (λ s. s) "aé" 2

abbrev crate : CronCrate
crate = record { Expr = String; from_str = λ s. ok s; after = λ e now. some (now + 60) }

abbrev body : CreateBody
body = record {
  name = "tick";
  cron = "* * * * *";
  target_kind = "exec";
  target_url = none;
  target_method = "POST";
  body_json = none;
  headers_json = none;
  command = some ("/bin/true" ∷ []);
  cwd = some "/tmp";
  env_keys = none;
  timeout_secs = 60;
  enabled = true;
}

abbrev stamp : Stamp
stamp = record { uuid = "u"; now = 7 }

abbrev made : Schedule
made = record (schedule "exec") {
  id = "u";
  cwd = some "/tmp";
  env_keys = some [];
  target_url = "";
  timeout_secs = 60;
  next_run_at = some 67;
  created_at = 7;
  updated_at = 7;
}

creates_made : create crate (λ s. s) body stamp exec_config (λ s. none) ≡ created made
unfolding create gctrl.Scheduler.Exec.is_allowed_program next_after
creates_made = refl

create_accepts_example :
    (starts_with made.name internal_name_prefix ≡ false)
    × ((next : Option ℕ) × (next_after crate made.cron 7 ≡ ok next)
        × (made.next_run_at ≡ next_if made.enabled next))
    × (is_exec made ≡ true
        → (system : ExecSystem) (timeout_secs : ℕ)
        → is_refused (run_exec_schedule system made timeout_secs exec_config).outcome ≡ false)
create_accepts_example =
    create_accepts crate (λ s. s) body stamp exec_config (λ s. none) made creates_made

abbrev some_ops : List ScheduleOp
some_ops =
    creates (schedule "exec")
    ∷ ticks 30 5 9 (λ k t. t) (λ s. firing)
    ∷ runs_now "tick" (λ t. t) firing
    ∷ deletes "tick"
    ∷ []

perform_all-NoOrphans_example :
    NoOrphans (perform_all some_ops (record { schedules = []; runs = [] }))
perform_all-NoOrphans_example =
    perform_all-NoOrphans some_ops (record { schedules = []; runs = [] })
      (tt, (λ k t. (λ h. h, λ id h. h), (λ t. (λ h. h, λ id h. h), (tt, tt)))) tt

abbrev one_schedule : Tables
one_schedule = record { schedules = schedule "http" ∷ []; runs = [] }

-- A deletion while the target runs leaves the run without its schedule.
deleted_in_flight :
    let after = (run_now (λ t. (delete_schedule t "tick").0) one_schedule "tick" firing).0 in
    ◌≡◌ {A = List Schedule × List String}
      (after.schedules, map (λ r. r.schedule_id) after.runs)
      ([], "1" ∷ [])
unfolding run_now get_schedule delete_schedule
deleted_in_flight = refl
