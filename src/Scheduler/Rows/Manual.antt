-- ===== src/Scheduler/Rows/Manual.antt =====
-- The manual run of a schedule: run_now of kernel/crates/gctrl-scheduler/src/http.rs. As in the runner,
-- no lock is held while the target runs: `others` is what happens before the run is recorded.
use gctrl.Prelude.{ℕ, true, false, not, ◌&&◌, Option, none, some, String, leb, ltb, if◌then◌else◌}
use gctrl.Prelude.Decimal.{decimal, ◌⁀◌}
use gctrl.Prelude.Text.{is_empty}
use gctrl.Scheduler.{
  Schedule, Tables, Firing, FireOutcome, ExecOutcome, refused, spawned, Previews, is_exec,
  is_zero_exit, HttpReply, replied, failed, build_run_row, update_of, record_schedule_run_v2,
}
use gctrl.Scheduler.Rows.{get_schedule}

-- `sched.timeout_secs.max(1)`.
unfoldable pub manual_timeout : Schedule → ℕ
manual_timeout s = if ltb s.timeout_secs 1 then 1 else s.timeout_secs

-- As the runner's, but that a timeout is reported as it is.
unfoldable pub manual_exec : Previews → ℕ → ExecOutcome → FireOutcome
manual_exec previews timeout_secs (refused reason) = record {
  success = false;
  status = none;
  response = none;
  error = some (previews.error ("refused: " ⁀ reason));
  timed_out = false;
  refused = true;
}
manual_exec previews timeout_secs (spawned exit_code stdout stderr timed_out) =
    let success = not timed_out && is_zero_exit exit_code in
    record {
      success = success;
      status = exit_code;
      response = if is_empty stdout then none else some (previews.response stdout);
      error =
          if success
          then none
          else if timed_out
          then some ("timed out after " ⁀ decimal timeout_secs ⁀ "s")
          else some (previews.error stderr);
      timed_out = timed_out;
      refused = false;
    }

-- The body, which is cut while it is read, is stored as it is.
unfoldable pub manual_http : HttpReply → FireOutcome
manual_http (replied status body) = record {
  success = leb 200 status && ltb status 400;
  status = some status;
  response = some body;
  error = none;
  timed_out = false;
  refused = false;
}
manual_http (failed text is_timeout) = record {
  success = false;
  status = none;
  response = none;
  error = some text;
  timed_out = is_timeout;
  refused = false;
}

unfoldable pub manual_outcome : Schedule → Firing → FireOutcome
unfolding manual_exec manual_timeout manual_http is_exec
manual_outcome s f =
    if is_exec s
    then manual_exec f.previews (manual_timeout s) f.exec_outcome
    else manual_http f.http_reply

-- The tables, and the outcome if there is a schedule of this identifier or name.
unfoldable pub run_now :
    (others : Tables → Tables) → Tables → String → Firing → Tables × Option FireOutcome
unfolding manual_outcome get_schedule build_run_row update_of record_schedule_run_v2
run_now others t id f = elim (get_schedule t id) [
  | none ↦ (t, none)
  | some s ↦
      let outcome = manual_outcome s f in
      (
        record_schedule_run_v2 (others t) f.written s.id
            (build_run_row f.uuid s outcome f.started f.finished "manual") (update_of s f outcome),
        some outcome,
      )
]
