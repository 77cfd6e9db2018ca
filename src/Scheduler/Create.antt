-- ===== src/Scheduler/Create.antt =====
-- The creation of a schedule: create and build_schedule of kernel/crates/gctrl-scheduler/src/http.rs.
-- The clock and the generator of identifiers are arguments.
pub mod Laws
use gctrl.Prelude.{
  ℕ, Bool, true, false, not, ◌&&◌, ◌||◌, List, [], ◌∷◌, Option, none, some, String, ◌==◌, String_eq,
  if◌then◌else◌,
}
use gctrl.Prelude.Decimal.{◌⁀◌}
use gctrl.Prelude.Result.{Result, ok, err, ◌>>=◌}
use gctrl.Prelude.Text.{is_empty, starts_with}
use gctrl.Scheduler.{Schedule, is_some}
use gctrl.Scheduler.Cron.{CronCrate, CronError, next_after, error_text}
use gctrl.Scheduler.Exec.{ExecConfig, is_allowed_program, has_none, keys_of}

pub record CreateBody : Type 0 where
  pub name : String
  pub cron : String
  pub target_kind : String
  pub target_url : Option String
  pub target_method : String
  pub body_json : Option String
  pub headers_json : Option String
  pub command : Option (List String)
  pub cwd : Option String
  pub env_keys : Option (List String)
  pub timeout_secs : ℕ
  pub enabled : Bool

abbrev pub default_target_kind : String
default_target_kind = "http"

abbrev pub default_method : String
default_method = "POST"

abbrev pub default_timeout : ℕ
default_timeout = 60

-- What the server gives to a new row: an identifier and the time.
pub record Stamp : Type 0 where
  pub uuid : String
  pub now : ℕ

-- `filter(|s| !s.is_empty())`.
abbrev pub non_empty : Option String → Option String
non_empty none = none
non_empty (some s) = if is_empty s then none else some s

abbrev pub next_if : Bool → Option ℕ → Option ℕ
next_if enabled next = if enabled then next else none

unfoldable pub new_schedule : CreateBody → Option ℕ → Stamp → Schedule
new_schedule body next stamp = record {
  id = stamp.uuid;
  name = body.name;
  cron = body.cron;
  target_kind = body.target_kind;
  target_url = "";
  target_method = "POST";
  body_json = none;
  headers_json = none;
  command = none;
  cwd = none;
  env_keys = none;
  timeout_secs = body.timeout_secs;
  enabled = body.enabled;
  next_run_at = next_if body.enabled next;
  last_run_at = none;
  last_status = none;
  last_response = none;
  last_error = none;
  run_count = 0;
  failure_count = 0;
  app_id = none;
  created_at = stamp.now;
  updated_at = stamp.now;
}

unfoldable pub http_schedule : CreateBody → Option ℕ → Stamp → String → Schedule
unfolding new_schedule
http_schedule body next stamp url = record (new_schedule body next stamp) {
  target_kind = "http";
  target_url = url;
  target_method = body.target_method;
  body_json = body.body_json;
  headers_json = body.headers_json;
}

unfoldable pub exec_schedule : CreateBody → Option ℕ → Stamp → List String → String → Schedule
unfolding new_schedule
exec_schedule body next stamp command cwd = record (new_schedule body next stamp) {
  target_kind = "exec";
  command = some command;
  cwd = some cwd;
  env_keys = some (keys_of body.env_keys);
}

unfoldable pub build_http : CreateBody → Option ℕ → Stamp → Option String → Result String Schedule
unfolding http_schedule
build_http body next stamp none = err "target_url is required for target_kind=http"
build_http body next stamp (some url) =
    if is_some body.command || is_some body.cwd || is_some body.env_keys
    then err "command/cwd/env_keys MUST NOT be set when target_kind=http"
    else ok (http_schedule body next stamp url)

unfoldable pub build_in :
    (String → String)
    → CreateBody
    → Option ℕ
    → Stamp
    → List String
    → Option String
    → Result String Schedule
unfolding exec_schedule
build_in debug body next stamp command none = err "cwd is required for target_kind=exec"
build_in debug body next stamp command (some cwd) =
    if not (starts_with cwd "/")
    then err ("cwd must be an absolute path (got " ⁀ debug cwd ⁀ ")")
    else if is_some (non_empty body.target_url)
    then err "target_url MUST NOT be set when target_kind=exec"
    else ok (exec_schedule body next stamp command cwd)

unfoldable pub build_program :
    (String → String)
    → CreateBody
    → Option ℕ
    → Stamp
    → ExecConfig
    → Option (List String)
    → Result String Schedule
unfolding build_in
build_program debug body next stamp cfg none = err "command is required for target_kind=exec"
build_program debug body next stamp cfg (some []) = err "command is required for target_kind=exec"
build_program debug body next stamp cfg (some (bin ∷ args)) =
    if not (starts_with bin "/")
    then err (
        "argv[0] must be an absolute path (got "
        ⁀ debug bin
        ⁀ ") — relative paths are rejected to prevent $PATH-injection via cwd")
    else if has_none cfg.exec_allowed_programs
    then err "scheduler.exec_allowed_programs is empty (no programs permitted)"
    else if not (is_allowed_program cfg bin)
    then err ("argv[0]=" ⁀ debug bin ⁀ " not in scheduler.exec_allowed_programs")
    else build_in debug body next stamp (bin ∷ args) (non_empty body.cwd)

-- `build_schedule`.
unfoldable pub build_schedule :
    (String → String) → CreateBody → Option ℕ → Stamp → ExecConfig → Result String Schedule
unfolding build_http build_program
build_schedule debug body next stamp cfg =
    if body.target_kind == "http"
    then build_http body next stamp (non_empty body.target_url)
    else if body.target_kind == "exec"
    then (if not cfg.exec_enabled
        then err "exec target_kind requires scheduler.exec_enabled=true in daemon config"
        else build_program debug body next stamp cfg body.command)
    else err ("unknown target_kind " ⁀ debug body.target_kind ⁀ " (allowed: \"http\", \"exec\")")

-- The response of the handler.
pub data Created : Type 0 where
  forbidden : String → Created
  bad_request : String → Created
  created : Schedule → Created
  failed : String → Created

abbrev pub stored : Schedule → Option String → Created
stored sched none = created sched
stored sched (some e) = failed e

abbrev pub after_build : (Schedule → Option String) → Result String Schedule → Created
after_build create_schedule (err e) = bad_request e
after_build create_schedule (ok sched) = stored sched (create_schedule sched)

abbrev pub after_cron :
    (String → String)
    → CreateBody
    → Stamp
    → ExecConfig
    → (Schedule → Option String)
    → Result CronError (Option ℕ)
    → Created
after_cron debug body stamp cfg create_schedule (err e) =
    bad_request ("invalid cron: " ⁀ error_text e)
after_cron debug body stamp cfg create_schedule (ok next) =
    after_build create_schedule (build_schedule debug body next stamp cfg)

abbrev pub internal_name_prefix : String
internal_name_prefix = "_internal."

-- The handler; `create_schedule` gives the error of the store, if there is one.
unfoldable pub create :
    CronCrate
    → (String → String)
    → CreateBody
    → Stamp
    → ExecConfig
    → (Schedule → Option String)
    → Created
unfolding build_schedule error_text
create crate debug body stamp cfg create_schedule =
    if starts_with body.name internal_name_prefix
    then forbidden (
        "schedule name "
        ⁀ debug internal_name_prefix
        ⁀ " prefix is reserved for daemon-managed rows")
    else after_cron debug body stamp cfg create_schedule (next_after crate body.cron stamp.now)
