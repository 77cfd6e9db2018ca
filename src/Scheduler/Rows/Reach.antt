-- ===== src/Scheduler/Rows/Reach.antt =====
-- No sequence of operations leaves a run without its schedule.
use gctrl.Prelude.{
  ℕ, suc, All, refl, Bool, true, not, ◌||◌, List, [], ◌∷◌, Option, none, some, String, ◌==◌,
  String_eq, any, All-map, All-retain, Bool-cases, inl, inr,
}
use gctrl.Scheduler.{
  Schedule, Tables, Firing, is_schedule, reap_interrupted_schedule_runs, is_unfinished,
}
use gctrl.Scheduler.Rows.{
  create_schedule, delete_schedule, delete_schedules_by_app, set_schedule_enabled,
  update_schedule_patch, set_schedule_next_run, delete_schedule_runs_before, tick,
  backfill_next_run, backfill_loop, backfill_one, is_named, is_owned_by, with_enabled, with_patch,
  with_next, started_before, start_runner,
}
use gctrl.Scheduler.Rows.{list_enabled}
use gctrl.Scheduler.Rows.Manual.{run_now}
use gctrl.Scheduler.Rows.Laws.{
  NoOrphans, Keeps, run_now-NoOrphans, delete-NoOrphans, update-NoOrphans, tick-NoOrphans,
  update_runs, has_schedule-append,
}

-- The operations on the two tables.
pub data ScheduleOp : Type 0 where
  creates : Schedule → ScheduleOp
  deletes : (id_or_name : String) → ScheduleOp
  deletes_app : (app_id : String) → ScheduleOp
  enables : (now : ℕ) (id_or_name : String) (enabled : Bool) → ScheduleOp
  patches : (now : ℕ) → Schedule → ScheduleOp
  ticks :
      (default_timeout_secs max_per_tick now : ℕ)
      → (others : ℕ → Tables → Tables) → (Schedule → Firing)
      → ScheduleOp
  runs_now : (id_or_name : String) → (others : Tables → Tables) → Firing → ScheduleOp
  starts : (String → ℕ → Option ℕ) → ℕ → (others : ℕ → Tables → Tables) → ScheduleOp
  prunes : (before : ℕ) → ScheduleOp

abbrev pub or_same : Tables → Option Tables → Tables
or_same t none = t
or_same t (some t') = t'

unfoldable pub perform : ScheduleOp → Tables → Tables
perform (creates sched) t = or_same t (create_schedule t sched)
perform (deletes id_or_name) t = (delete_schedule t id_or_name).0
perform (deletes_app app_id) t = (delete_schedules_by_app t app_id).0
perform (enables now id_or_name enabled) t = (set_schedule_enabled t now id_or_name enabled).0
perform (patches now sched) t = (update_schedule_patch t now sched).0
perform (ticks d max now others firing) t = (tick d max others t now firing).0
perform (runs_now id_or_name others firing) t = (run_now others t id_or_name firing).0
perform (starts next_after now others) t = start_runner next_after now others t
perform (prunes before) t = (delete_schedule_runs_before t before).0

unfoldable pub perform_all : List ScheduleOp → Tables → Tables
perform_all [] t = t
perform_all (op ∷ ops) t = perform_all ops (perform op t)

-- While a tick, a manual run or a start of the runner is under way, others keep the schedules and leave no
-- run without its schedule.
abbrev pub Undisturbed : ScheduleOp → Type 0
Undisturbed (ticks d max now others firing) = (k : ℕ) → Keeps (others k)
Undisturbed (runs_now id_or_name others firing) = Keeps others
Undisturbed (starts next_after now others) = (k : ℕ) → Keeps (others k)
Undisturbed op = Unit

backfill_one-NoOrphans :
    (next_after : String → ℕ → Option ℕ) (now : ℕ) (s : Schedule) (t : Tables)
    → NoOrphans t
    → NoOrphans (backfill_one next_after now s t)
unfolding set_schedule_next_run
backfill_one-NoOrphans next_after now s t h = go s.next_run_at
  where
    again :
        (next : Option ℕ)
        → NoOrphans (elim next [ none ↦ t | some at ↦ set_schedule_next_run t now s.id (some at) ])
    again none = h
    again (some at) = update-NoOrphans (is_schedule s.id) (with_next (some at) now) t (λ x. refl) h

    go :
        (planned : Option ℕ)
        → NoOrphans (elim planned [
          | some at ↦ t
          | none ↦ elim (next_after s.cron now) [
            | none ↦ t
            | some at ↦ set_schedule_next_run t now s.id (some at)
          ]
        ])
    go (some at) = h
    go none = again (next_after s.cron now)

backfill-NoOrphans :
    (next_after : String → ℕ → Option ℕ) (now : ℕ) (others : ℕ → Tables → Tables)
    (all : List Schedule) (t : Tables)
    → ((k : ℕ) → Keeps (others k))
    → NoOrphans t
    → NoOrphans (backfill_loop next_after now others all t)
unfolding backfill_loop
backfill-NoOrphans next_after now others [] t keeps h = h
backfill-NoOrphans next_after now others (s ∷ all) t keeps h =
    backfill-NoOrphans next_after now (λ k. others (suc k)) all
      (backfill_one next_after now s (others 0 t)) (λ k. keeps (suc k))
      (backfill_one-NoOrphans next_after now s (others 0 t) ((keeps 0 t).0 h))

perform-NoOrphans :
    (op : ScheduleOp) (t : Tables) → Undisturbed op → NoOrphans t → NoOrphans (perform op t)
unfolding perform create_schedule delete_schedule delete_schedules_by_app set_schedule_enabled
    update_schedule_patch start_runner backfill_next_run reap_interrupted_schedule_runs
    delete_schedule_runs_before
perform-NoOrphans (creates sched) t u h =
    elim (Bool-cases (any (λ s. s.id == sched.id || s.name == sched.name) t.schedules)) [
      | inl taken ↦ rw taken h
      | inr free ↦
          rw free
            (All-map _ _ (λ r. has_schedule-append t.schedules (sched ∷ []) r.schedule_id) t.runs h)
    ]
perform-NoOrphans (deletes id_or_name) t u h = delete-NoOrphans (is_named id_or_name) t h
perform-NoOrphans (deletes_app app_id) t u h = delete-NoOrphans (is_owned_by app_id) t h
perform-NoOrphans (enables now id_or_name enabled) t u h =
    update-NoOrphans (is_named id_or_name) (with_enabled enabled now) t (λ s. refl) h
perform-NoOrphans (patches now sched) t u h =
    update-NoOrphans (is_schedule sched.id) (with_patch sched now) t (λ s. refl) h
perform-NoOrphans (ticks d max now others firing) t u h =
    tick-NoOrphans d max others t now firing u h
perform-NoOrphans (runs_now id_or_name others firing) t u h =
    run_now-NoOrphans others t id_or_name firing u h
perform-NoOrphans (starts next_after now others) t u h =
    let t' = others 0 (reap_interrupted_schedule_runs t now).0 in
    backfill-NoOrphans next_after now (λ k. others (suc k)) (list_enabled t' (some true)) t'
      (λ k. u (suc k))
      ((u 0 (reap_interrupted_schedule_runs t now).0).0
        (update_runs t.schedules is_unfinished now t.runs h))
perform-NoOrphans (prunes before) t u h = All-retain _ (λ r. not (started_before before r)) t.runs h

-- From tables without runs of a schedule that is not there, no sequence of creations, deletions, changes,
-- ticks, manual runs, starts of the runner and prunings leads to such a run, if, while a tick, a manual
-- run or a start is under way, others delete no schedule and add no such run.
pub perform_all-NoOrphans :
    (ops : List ScheduleOp) (t : Tables)
    → All Undisturbed ops
    → NoOrphans t
    → NoOrphans (perform_all ops t)
unfolding perform_all
perform_all-NoOrphans [] t us h = h
perform_all-NoOrphans (op ∷ ops) t us h =
    perform_all-NoOrphans ops (perform op t) us.1 (perform-NoOrphans op t us.0 h)
