-- ===== src/Scheduler.antt =====
-- The scheduler: kernel/crates/gctrl-core/src/schedule.rs, the firing in
-- kernel/crates/gctrl-scheduler/src/runner.rs and its rows in
-- kernel/crates/gctrl-storage/src/sqlite_store.rs. The reply of the target, the cron expressions, the
-- redaction of previews and the clock are arguments; a time is a number. The duration of a run stops
-- at 0.
pub mod Laws
pub mod Exec
pub mod Cron
pub mod Create
pub mod Rows
mod Examples
use gctrl.Prelude.{
  ℕ, ◌+◌, ◌-◌, Bool, true, false, not, ◌&&◌, List, [], ◌∷◌, ◌++◌, Option, none, some, String, ◌==◌,
  String_eq, nat_eq, ltb, leb, find, retain, take, sort_by, update_where, count_where,
  if◌then◌else◌,
}
use gctrl.Prelude.Decimal.{decimal, ◌⁀◌}
use gctrl.Prelude.Text.{is_empty}

-- `Schedule`, with its JSON columns as texts, and without the derived health.
pub record Schedule : Type 0 where
  pub id : String
  pub name : String
  pub cron : String
  pub target_kind : String
  pub target_url : String
  pub target_method : String
  pub body_json : Option String
  pub headers_json : Option String
  pub command : Option (List String)
  pub cwd : Option String
  pub env_keys : Option (List String)
  pub timeout_secs : ℕ
  pub enabled : Bool
  pub next_run_at : Option ℕ
  pub last_run_at : Option ℕ
  pub last_status : Option ℕ
  pub last_response : Option String
  pub last_error : Option String
  pub run_count : ℕ
  pub failure_count : ℕ
  pub app_id : Option String
  pub created_at : ℕ
  pub updated_at : ℕ

unfoldable pub is_exec : Schedule → Bool
is_exec s = s.target_kind == "exec"

pub record ScheduleRunUpdate : Type 0 where
  pub last_run_at : ℕ
  pub next_run_at : Option ℕ
  pub last_status : Option ℕ
  pub last_response : Option String
  pub last_error : Option String
  pub success : Bool

pub record ScheduleRun : Type 0 where
  pub id : String
  pub schedule_id : String
  pub started_at : ℕ
  pub finished_at : Option ℕ
  pub status : String
  pub fire_kind : String
  pub exit_code : Option ℕ
  pub http_status : Option ℕ
  pub response_preview : Option String
  pub error_preview : Option String
  pub duration_ms : Option ℕ
  pub created_at : ℕ

pub data ScheduleHealth : Type 0 where
  green amber red pending paused : ScheduleHealth

unfoldable pub health_as_str : ScheduleHealth → String
health_as_str green = "green"
health_as_str amber = "amber"
health_as_str red = "red"
health_as_str pending = "pending"
health_as_str paused = "paused"

abbrev pub is_some {ℓ} : {A : Type ℓ} → Option A → Bool
is_some none = false
is_some (some a) = true

unfoldable pub compute_schedule_health : Schedule → ScheduleHealth
compute_schedule_health s =
    if not s.enabled
    then paused
    else if not (is_some s.last_run_at)
    then pending
    else if is_some s.last_error
    then amber
    else green

pub record FireOutcome : Type 0 where
  pub success : Bool
  pub status : Option ℕ
  pub response : Option String
  pub error : Option String
  pub timed_out : Bool
  pub refused : Bool

-- What `req.send()` ends with.
pub data HttpReply : Type 0 where
  replied : (status : ℕ) (body : String) → HttpReply
  failed : (text : String) (is_timeout : Bool) → HttpReply

-- What `run_exec_schedule` returns.
pub data ExecOutcome : Type 0 where
  refused : (reason : String) → ExecOutcome
  spawned : (exit_code : Option ℕ) (stdout stderr : String) (timed_out : Bool) → ExecOutcome

-- The two previews, `redact_and_truncate` with the limit of a response and of an error.
pub record Previews : Type 0 where
  pub response : String → String
  pub error : String → String

unfoldable pub fire_http : Previews → HttpReply → FireOutcome
fire_http previews (replied status body) = record {
  success = leb 200 status && ltb status 400;
  status = some status;
  response = some (previews.response body);
  error = none;
  timed_out = false;
  refused = false;
}
fire_http previews (failed text is_timeout) = record {
  success = false;
  status = none;
  response = none;
  error = some text;
  timed_out = is_timeout;
  refused = false;
}

abbrev pub is_zero_exit : Option ℕ → Bool
is_zero_exit none = false
is_zero_exit (some code) = nat_eq code 0

unfoldable pub fire_exec : Previews → ℕ → ExecOutcome → FireOutcome
fire_exec previews timeout_secs (refused reason) = record {
  success = false;
  status = none;
  response = none;
  error = some (previews.error ("refused: " ⁀ reason));
  timed_out = false;
  refused = true;
}
fire_exec previews timeout_secs (spawned exit_code stdout stderr timed_out) =
    let succeeded = not timed_out && is_zero_exit exit_code in
    record {
      success = succeeded;
      status = exit_code;
      response = if is_empty stdout then none else some (previews.response stdout);
      error =
          if succeeded
          then none
          else if timed_out
          then some (previews.error ("timed out after " ⁀ decimal timeout_secs ⁀ "s"))
          else some (previews.error stderr);
      timed_out = timed_out;
      refused = false;
    }

unfoldable pub run_status : FireOutcome → String
run_status o =
    if o.refused
    then "refused"
    else if o.timed_out
    then "timed_out"
    else if o.success
    then "success"
    else "failure"

unfoldable pub build_run_row :
    String → Schedule → FireOutcome → (started finished : ℕ) → String → ScheduleRun
unfolding run_status is_exec
build_run_row uuid sched outcome started finished fire_kind = record {
  id = uuid;
  schedule_id = sched.id;
  started_at = started;
  finished_at = some finished;
  status = run_status outcome;
  fire_kind = fire_kind;
  exit_code = if is_exec sched then outcome.status else none;
  http_status = if is_exec sched then none else outcome.status;
  response_preview = outcome.response;
  error_preview = outcome.error;
  duration_ms = some (finished - started);
  created_at = finished;
}

-- The tables `schedules` and `scheduler_runs`.
pub record Tables : Type 0 where
  pub schedules : List Schedule
  pub runs : List ScheduleRun

abbrev pub is_schedule : String → Schedule → Bool
is_schedule id s = s.id == id

unfoldable pub with_run : ScheduleRunUpdate → ℕ → Schedule → Schedule
with_run update now s = record s {
  last_run_at = some update.last_run_at;
  next_run_at = update.next_run_at;
  last_status = update.last_status;
  last_response = update.last_response;
  last_error = update.last_error;
  run_count = s.run_count + 1;
  failure_count = s.failure_count + (if update.success then 0 else 1);
  updated_at = now;
}

-- One transaction: the update of the row and the insertion of the run.
unfoldable pub record_schedule_run_v2 :
    Tables → ℕ → String → ScheduleRun → ScheduleRunUpdate → Tables
unfolding with_run
record_schedule_run_v2 t now schedule_id run update = record {
  schedules = update_where (is_schedule schedule_id) (with_run update now) t.schedules;
  runs = t.runs ++ run ∷ [];
}

-- What a firing reads from outside: the reply of the target and the clock; `next_after` gives none
-- for a cron expression that it cannot parse or that has no next time.
pub record Firing : Type 0 where
  pub http_reply : HttpReply
  pub exec_outcome : ExecOutcome
  pub previews : Previews
  pub next_after : String → ℕ → Option ℕ
  pub uuid : String
  pub started : ℕ
  pub finished : ℕ
  pub written : ℕ

unfoldable pub timeout_of : (default_timeout_secs : ℕ) → Schedule → ℕ
timeout_of default_timeout_secs s =
    if ltb 0 s.timeout_secs then s.timeout_secs else default_timeout_secs

unfoldable pub outcome_of : ℕ → Schedule → Firing → FireOutcome
unfolding fire_exec fire_http timeout_of is_exec
outcome_of default_timeout_secs s f =
    if is_exec s
    then fire_exec f.previews (timeout_of default_timeout_secs s) f.exec_outcome
    else fire_http f.previews f.http_reply

unfoldable pub update_of : Schedule → Firing → FireOutcome → ScheduleRunUpdate
update_of s f outcome = record {
  last_run_at = f.finished;
  next_run_at = f.next_after s.cron f.finished;
  last_status = outcome.status;
  last_response = outcome.response;
  last_error = outcome.error;
  success = outcome.success;
}

unfoldable pub fire_one : ℕ → Tables → Schedule → Firing → Tables
unfolding outcome_of build_run_row update_of record_schedule_run_v2
fire_one default_timeout_secs t s f =
    let outcome = outcome_of default_timeout_secs s f in
    record_schedule_run_v2 t f.written s.id
      (build_run_row f.uuid s outcome f.started f.finished "cron") (update_of s f outcome)

abbrev pub due_at : ℕ → Option ℕ → Bool
due_at now none = false
due_at now (some t) = leb t now

abbrev pub is_due : ℕ → Schedule → Bool
is_due now s = s.enabled && due_at now s.next_run_at

abbrev pub time_or_zero : Option ℕ → ℕ
time_or_zero none = 0
time_or_zero (some t) = t

-- `ORDER BY next_run_at LIMIT ?2`: the rows that are listed have a time.
unfoldable pub list_due_schedules : Tables → ℕ → ℕ → List Schedule
list_due_schedules t now limit =
    take limit (sort_by (λ s. time_or_zero s.next_run_at) (retain (is_due now) t.schedules))

abbrev pub is_unfinished : ScheduleRun → Bool
is_unfinished r = not (is_some r.finished_at)

unfoldable pub reap_interrupted_schedule_runs : Tables → ℕ → Tables × ℕ
reap_interrupted_schedule_runs t now = (
  record t {
    runs =
        update_where is_unfinished
          (λ r. record r { status = "interrupted"; finished_at = some now }) t.runs;
  },
  count_where is_unfinished t.runs,
)
