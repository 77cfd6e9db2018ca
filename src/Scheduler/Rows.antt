-- ===== src/Scheduler/Rows.antt =====
-- The statements on `schedules` and `scheduler_runs`: kernel/crates/gctrl-storage/src/sqlite_store.rs;
-- the tick and the start of the runner: kernel/crates/gctrl-scheduler/src/runner.rs. The time that a
-- statement writes is an argument. The rows that a list gives stand in the order of insertion where the
-- code orders them by name.
pub mod Laws
pub mod Reach
pub mod Manual
use gctrl.Prelude.{
  ℕ, ◌+◌, Bool, true, false, not, ◌&&◌, ◌||◌, List, [], ◌∷◌, ◌++◌, Option, none, some, String, ◌==◌,
  String_eq, ltb, nat_eq, any, find, retain, update_where, count_where, length, if◌then◌else◌, suc,
}
use gctrl.Prelude.Result.{Result, ok, err}
use gctrl.Scheduler.{
  Schedule, ScheduleRun, Tables, Firing, is_schedule, is_some, list_due_schedules, fire_one,
  reap_interrupted_schedule_runs,
}

-- `WHERE id = ?1 OR name = ?1`.
abbrev pub is_named : String → Schedule → Bool
is_named id_or_name s = s.id == id_or_name || s.name == id_or_name

abbrev pub is_owned_by : String → Schedule → Bool
is_owned_by app_id s = elim s.app_id [ none ↦ false | some a ↦ a == app_id ]

-- The keys of the table: `id` and `name`. An insertion that violates one is an error.
unfoldable pub create_schedule : Tables → Schedule → Option Tables
create_schedule t sched =
    if any (λ s. s.id == sched.id || s.name == sched.name) t.schedules
    then none
    else some (record t { schedules = t.schedules ++ sched ∷ [] })

unfoldable pub get_schedule : Tables → String → Option Schedule
get_schedule t id_or_name = find (is_named id_or_name) t.schedules

-- A filter that is missing lets all rows pass.
abbrev passes_enabled : Option Bool → Schedule → Bool
passes_enabled none s = true
passes_enabled (some true) s = s.enabled
passes_enabled (some false) s = not s.enabled

unfoldable pub list_enabled : Tables → Option Bool → List Schedule
list_enabled t enabled = retain (passes_enabled enabled) t.schedules

-- `schedule_id IN (SELECT id FROM schedules WHERE p)`.
abbrev pub run_of : (Schedule → Bool) → List Schedule → ScheduleRun → Bool
run_of p schedules r = any (λ s. p s && s.id == r.schedule_id) schedules

-- The deletion of the rows that meet a test, and of their runs before them.
unfoldable pub delete_where : (Schedule → Bool) → Tables → Tables
delete_where p t = record {
  runs = retain (λ r. not (run_of p t.schedules r)) t.runs;
  schedules = retain (λ s. not (p s)) t.schedules;
}

unfoldable pub delete_schedule : Tables → String → Tables × Bool
unfolding delete_where
delete_schedule t id_or_name =
    (delete_where (is_named id_or_name) t, ltb 0 (count_where (is_named id_or_name) t.schedules))

unfoldable pub delete_schedules_by_app : Tables → String → Tables × ℕ
unfolding delete_where
delete_schedules_by_app t app_id =
    (delete_where (is_owned_by app_id) t, count_where (is_owned_by app_id) t.schedules)

abbrev pub with_enabled : Bool → ℕ → Schedule → Schedule
with_enabled enabled now s = record s { enabled = enabled; updated_at = now }

unfoldable pub set_schedule_enabled : Tables → ℕ → String → Bool → Tables × Bool
set_schedule_enabled t now id_or_name enabled = (
  record t {
    schedules = update_where (is_named id_or_name) (with_enabled enabled now) t.schedules;
  },
  ltb 0 (count_where (is_named id_or_name) t.schedules),
)

abbrev pub with_patch : Schedule → ℕ → Schedule → Schedule
with_patch sched now s = record s {
  cron = sched.cron;
  target_url = sched.target_url;
  target_method = sched.target_method;
  body_json = sched.body_json;
  headers_json = sched.headers_json;
  command = sched.command;
  cwd = sched.cwd;
  env_keys = sched.env_keys;
  timeout_secs = sched.timeout_secs;
  enabled = sched.enabled;
  next_run_at = sched.next_run_at;
  updated_at = now;
}

unfoldable pub update_schedule_patch : Tables → ℕ → Schedule → Tables × Bool
update_schedule_patch t now sched = (
  record t { schedules = update_where (is_schedule sched.id) (with_patch sched now) t.schedules },
  ltb 0 (count_where (is_schedule sched.id) t.schedules),
)

abbrev pub with_next : Option ℕ → ℕ → Schedule → Schedule
with_next next_run_at now s = record s { next_run_at = next_run_at; updated_at = now }

unfoldable pub set_schedule_next_run : Tables → ℕ → String → Option ℕ → Tables
set_schedule_next_run t now id next_run_at = record t {
  schedules = update_where (is_schedule id) (with_next next_run_at now) t.schedules;
}

unfoldable pub insert_schedule_run : Tables → ScheduleRun → Tables
insert_schedule_run t run = record t { runs = t.runs ++ run ∷ [] }

abbrev pub started_before : ℕ → ScheduleRun → Bool
started_before before r = ltb r.started_at before

unfoldable pub delete_schedule_runs_before : Tables → ℕ → Tables × ℕ
delete_schedule_runs_before t before = (
  record t { runs = retain (λ r. not (started_before before r)) t.runs },
  count_where (started_before before) t.runs,
)

-- The loop of a tick: each schedule that was due is fired as it was read. No lock is held while a target
-- runs: `others k` is what happens to the tables before the `k`-th run is recorded.
unfoldable pub fire_all :
    ℕ → (others : ℕ → Tables → Tables) → Tables → (Schedule → Firing) → List Schedule → Tables
unfolding fire_one
fire_all default_timeout_secs others t firing [] = t
fire_all default_timeout_secs others t firing (s ∷ due) =
    fire_all default_timeout_secs (λ k. others (suc k))
      (fire_one default_timeout_secs (others 0 t) s (firing s)) firing due

unfoldable pub tick :
    (default_timeout_secs max_per_tick : ℕ)
    → (others : ℕ → Tables → Tables) → Tables
    → ℕ
    → (Schedule → Firing)
    → Tables × ℕ
unfolding fire_all list_due_schedules
tick default_timeout_secs max_per_tick others t now firing =
    let due = list_due_schedules t now max_per_tick in
    (fire_all default_timeout_secs others t firing due, length due)

abbrev pub backfill_one : (String → ℕ → Option ℕ) → ℕ → Schedule → Tables → Tables
backfill_one next_after now s t = elim s.next_run_at [
  | some at ↦ t
  | none ↦ elim (next_after s.cron now) [
    | none ↦ t
    | some at ↦ set_schedule_next_run t now s.id (some at)
  ]
]

-- Each write takes the lock for itself: `others k` is what happens before the `k`-th schedule's.
unfoldable pub backfill_loop :
    (String → ℕ → Option ℕ) → ℕ → (others : ℕ → Tables → Tables) → List Schedule → Tables → Tables
unfolding set_schedule_next_run
backfill_loop next_after now others [] t = t
backfill_loop next_after now others (s ∷ all) t =
    backfill_loop next_after now (λ k. others (suc k)) all
      (backfill_one next_after now s (others 0 t))

-- `next_after` gives none for an expression that cannot be parsed or has no next time.
unfoldable pub backfill_next_run :
    (String → ℕ → Option ℕ) → ℕ → (others : ℕ → Tables → Tables) → Tables → Tables
unfolding backfill_loop list_enabled
backfill_next_run next_after now others t =
    backfill_loop next_after now others (list_enabled t (some true)) t

-- What the runner does before its loop; `others 0` is what happens before the schedules are listed.
unfoldable pub start_runner :
    (String → ℕ → Option ℕ) → ℕ → (others : ℕ → Tables → Tables) → Tables → Tables
unfolding backfill_next_run reap_interrupted_schedule_runs
start_runner next_after now others t =
    backfill_next_run next_after now (λ k. others (suc k))
      (others 0 (reap_interrupted_schedule_runs t now).0)
