-- ===== src/Scheduler/Laws.antt =====
-- What a firing records.
use gctrl.Prelude.{
  ℕ, ◌+◌, ◌≡◌, refl, ◌∙◌, ◌↔◌, ◌≤◌, ◌<◌, Bool, true, false, not, ◌&&◌, List, [], ◌∷◌, ◌++◌, Option,
  none, some, String, arith, eq_iff, String_eq, find, find_hit, update_where, count_where,
  find-update_where, count_where-update_where, leb, ltb, if◌then◌else◌,
}
use gctrl.Scheduler.{
  Schedule, ScheduleRun, ScheduleRunUpdate, is_exec, green, amber, compute_schedule_health, is_some,
  FireOutcome, replied, ExecOutcome, refused, spawned, Previews, fire_http, fire_exec, run_status,
  build_run_row, Tables, is_schedule, with_run, record_schedule_run_v2, Firing, timeout_of,
  outcome_of, update_of, fire_one, is_due, due_at, is_unfinished, reap_interrupted_schedule_runs,
}

with_run_keeps :
    (u : ScheduleRunUpdate) (now : ℕ) (id : String) (x : Schedule)
    → is_schedule id (with_run u now x) ≡ is_schedule id x
unfolding with_run
with_run_keeps u now id x = refl

count_failure : (b : Bool) (n : ℕ) → n + (if b then 0 else 1) ≡ (if b then n else n + 1)
count_failure true n = omega arith
count_failure false n = omega arith

run_status_success :
    (o : FireOutcome)
    → (run_status o ≡ "success")
      ↔ ((o.refused ≡ false) × (o.timed_out ≡ false) × (o.success ≡ true))
unfolding run_status
run_status_success o =
    ground
      (arith, eq_iff "refused" "success", eq_iff "timed_out" "success", eq_iff "failure" "success")

-- A program's outcome has an error unless it succeeded.
fire_exec_error :
    (p : Previews) (d : ℕ) (o : ExecOutcome)
    → is_some (fire_exec p d o).error ≡ not (fire_exec p d o).success
unfolding fire_exec
fire_exec_error p d (refused reason) = refl
fire_exec_error p d (spawned code out errors late) = ground arith

health_lem :
    (s : Schedule)
    → s.enabled ≡ true
    → is_some s.last_run_at ≡ true
    → compute_schedule_health s ≡ (if is_some s.last_error then amber else green)
unfolding compute_schedule_health
health_lem s on ran = rw (on, ran) refl

if_not : (b : Bool) → (if not b then amber else green) ≡ (if b then green else amber)
if_not true = refl
if_not false = refl

-- A firing updates the row of its schedule: it counts the run, counts a failure exactly if the
-- outcome is no success, plans the next time from the end of this run, and appends one run to the
-- history, whose status is `success` exactly if the run was neither refused nor timed out and
-- succeeded.
pub fire_one-records :
    (d : ℕ) (t : Tables) (s : Schedule) (f : Firing)
    → find (is_schedule s.id) t.schedules ≡ some s
    → let outcome = outcome_of d s f in
      (s' : Schedule) × (find (is_schedule s.id) (fire_one d t s f).schedules ≡ some s')
      × (s'.run_count ≡ s.run_count + 1)
      × (s'.failure_count ≡ (if outcome.success then s.failure_count else s.failure_count + 1))
      × (s'.next_run_at ≡ f.next_after s.cron f.finished)
      × ((r : ScheduleRun) × ((fire_one d t s f).runs ≡ t.runs ++ r ∷ [])
          × (r.schedule_id ≡ s.id)
          × ((r.status ≡ "success") ↔ (
              (outcome.refused ≡ false) × (outcome.timed_out ≡ false) × (outcome.success ≡ true))))
unfolding fire_one record_schedule_run_v2 with_run update_of build_run_row
fire_one-records d t s f h =
    let outcome = outcome_of d s f in
    let row =
      find-update_where (is_schedule s.id) (is_schedule s.id)
        (with_run (update_of s f outcome) f.written) t.schedules
        (λ x. with_run_keeps (update_of s f outcome) f.written s.id x) s h in
    (
      with_run (update_of s f outcome) f.written s,
      rw (find_hit (is_schedule s.id) t.schedules s h) at row,
      refl,
      count_failure outcome.success s.failure_count,
      refl,
      (
        build_run_row f.uuid s outcome f.started f.finished "cron",
        refl,
        refl,
        run_status_success outcome,
      ),
    )

in_range :
    (status : ℕ) → ((leb 200 status && ltb status 400) ≡ true) ↔ ((200 ≤ status) × (status < 400))
in_range status = ground arith

and_false : (b : Bool) → (b && false) ≡ false
and_false true = refl
and_false false = refl

past : (now next : ℕ) → now < next → leb next now ≡ false
past now next h = ground arith

-- An enabled schedule that runs a program is green after a firing exactly if the program succeeded,
-- and amber otherwise.
pub health-exec :
    (d : ℕ) (s : Schedule) (f : Firing)
    → s.enabled ≡ true
    → is_exec s ≡ true
    → compute_schedule_health (with_run (update_of s f (outcome_of d s f)) f.written s)
      ≡ (if (outcome_of d s f).success then green else amber)
unfolding with_run update_of outcome_of
health-exec d s f on exec =
    health_lem (with_run (update_of s f (outcome_of d s f)) f.written s) on refl
    ∙ rw (exec, fire_exec_error f.previews (timeout_of d s) f.exec_outcome)
        (if_not (fire_exec f.previews (timeout_of d s) f.exec_outcome).success)

-- An enabled schedule that calls a URL is green after a reply with any status, although the run is a
-- failure if the status is not from 200 to 399.
pub health-http_reply :
    (d : ℕ) (s : Schedule) (f : Firing) (status : ℕ) (body : String)
    → s.enabled ≡ true
    → is_exec s ≡ false
    → f.http_reply ≡ replied status body
    → (compute_schedule_health (with_run (update_of s f (outcome_of d s f)) f.written s) ≡ green)
      × (((outcome_of d s f).success ≡ true) ↔ ((200 ≤ status) × (status < 400)))
unfolding with_run update_of outcome_of fire_http
health-http_reply d s f status body on http reply =
    let same : outcome_of d s f ≡ fire_http f.previews (replied status body) =
      rw (http, reply) refl in
    (
      health_lem (with_run (update_of s f (outcome_of d s f)) f.written s) on refl ∙ rw same refl,
      rw same (in_range status),
    )

-- If the next time of a cron expression is always after the time that is asked about, a schedule is
-- not due at the end of its own firing.
pub fire_one-not_due :
    (d : ℕ) (s : Schedule) (f : Firing)
    → ((c : String) (now next : ℕ) → f.next_after c now ≡ some next → now < next)
    → is_due f.finished (with_run (update_of s f (outcome_of d s f)) f.written s) ≡ false
unfolding with_run update_of
fire_one-not_due d s f later = go (f.next_after s.cron f.finished) refl
  where
    go :
        (o : Option ℕ)
        → f.next_after s.cron f.finished ≡ o
        → (s.enabled && due_at f.finished (f.next_after s.cron f.finished)) ≡ false
    go none e = rw e (and_false s.enabled)
    go (some n) e = rw (e, past f.finished n (later s.cron f.finished n e)) (and_false s.enabled)

no_hits :
    (p : ScheduleRun → Bool) (f : ScheduleRun → ScheduleRun) (rs : List ScheduleRun)
    → count_where p rs ≡ 0
    → update_where p f rs ≡ rs
no_hits p f [] h = refl
no_hits p f (r ∷ rs) h = ground (arith, no_hits p f rs)

-- The reaper leaves no run unfinished: a second pass finds none, and changes nothing.
pub reap_again :
    (t : Tables) (now later : ℕ)
    → reap_interrupted_schedule_runs (reap_interrupted_schedule_runs t now).0 later
      ≡ ((reap_interrupted_schedule_runs t now).0, 0)
unfolding reap_interrupted_schedule_runs
reap_again t now later =
    let none_left =
      count_where-update_where is_unfinished
        (λ r. record r { status = "interrupted"; finished_at = some now }) t.runs (λ r hit. refl) in
    rw
      (
        none_left,
        no_hits is_unfinished (λ r. record r { status = "interrupted"; finished_at = some later }) _
            none_left,
      )
      refl
