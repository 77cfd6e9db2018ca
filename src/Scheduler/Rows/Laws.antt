-- ===== src/Scheduler/Rows/Laws.antt =====
-- Every run belongs to a schedule.
use gctrl.Prelude.{
  ℕ, suc, find, All-find, Option-cases, inl, inr, ◌≡◌, refl, ap, ◌∙◌, Bool, true, false, not, List,
  [], ◌∷◌, ◌++◌, some, String, arith, ◌==◌, String_eq, beq_self, any, retain, update_where, All,
  All-append, All-map, All-retain, All-take, sort_by-All,
}
use gctrl.Scheduler.{
  Schedule, ScheduleRun, Tables, Firing, is_schedule, fire_one, record_schedule_run_v2, with_run,
  build_run_row, list_due_schedules, ScheduleRunUpdate, update_of, outcome_of, is_due,
}
use gctrl.Scheduler.Rows.{delete_where, fire_all, tick, run_of, get_schedule, is_named}
use gctrl.Scheduler.Rows.Manual.{run_now, manual_outcome}

-- Whether there is a schedule of an identifier.
abbrev pub has_schedule : List Schedule → String → Bool
has_schedule schedules id = any (λ s. s.id == id) schedules

-- No run is of a schedule that is not there.
abbrev pub NoOrphans : Tables → Type 0
NoOrphans t = All (λ r. has_schedule t.schedules r.schedule_id ≡ true) t.runs

has_schedule-update :
    (p : Schedule → Bool) (f : Schedule → Schedule) (schedules : List Schedule) (id : String)
    → ((s : Schedule) → (f s).id ≡ s.id)
    → has_schedule (update_where p f schedules) id ≡ has_schedule schedules id
has_schedule-update p f [] id keeps = refl
has_schedule-update p f (s ∷ rest) id keeps =
    ground (arith, has_schedule-update p f rest id keeps, keeps s)

pub has_schedule-append :
    (schedules more : List Schedule) (id : String)
    → has_schedule schedules id ≡ true
    → has_schedule (schedules ++ more) id ≡ true
has_schedule-append [] more id h = cc
has_schedule-append (s ∷ rest) more id h = ground (arith, has_schedule-append rest more id)

has_schedule-retain :
    (p : Schedule → Bool) (schedules : List Schedule) (r : ScheduleRun)
    → has_schedule schedules r.schedule_id ≡ true
    → run_of p schedules r ≡ false
    → has_schedule (retain (λ s. not (p s)) schedules) r.schedule_id ≡ true
has_schedule-retain p [] r h apart = cc
has_schedule-retain p (s ∷ rest) r h apart = ground (arith, has_schedule-retain p rest r)

kept_runs :
    (p : Schedule → Bool) (schedules : List Schedule) (runs : List ScheduleRun)
    → All (λ r. has_schedule schedules r.schedule_id ≡ true) runs
    → All
        (λ r. has_schedule (retain (λ s. not (p s)) schedules) r.schedule_id ≡ true)
        (retain (λ r. not (run_of p schedules r)) runs)
kept_runs p schedules [] h = tt
kept_runs p schedules (r ∷ runs) h =
    ground (arith, kept_runs p schedules runs, has_schedule-retain p schedules r)

pub delete-NoOrphans :
    (p : Schedule → Bool) (t : Tables) → NoOrphans t → NoOrphans (delete_where p t)
unfolding delete_where
delete-NoOrphans p t h = kept_runs p t.schedules t.runs h

pub update-NoOrphans :
    (p : Schedule → Bool) (f : Schedule → Schedule) (t : Tables)
    → ((s : Schedule) → (f s).id ≡ s.id)
    → NoOrphans t
    → NoOrphans (record t { schedules = update_where p f t.schedules })
update-NoOrphans p f t keeps h =
    All-map _ _ (λ r there. has_schedule-update p f t.schedules r.schedule_id keeps ∙ there) t.runs
      h

record_run-NoOrphans :
    (t : Tables) (now : ℕ) (id : String) (run : ScheduleRun) (u : ScheduleRunUpdate)
    → has_schedule t.schedules id ≡ true
    → run.schedule_id ≡ id
    → NoOrphans t
    → NoOrphans (record_schedule_run_v2 t now id run u)
unfolding record_schedule_run_v2 with_run
record_run-NoOrphans t now id run u there same h =
    let kept = update-NoOrphans (is_schedule id) (with_run u now) t (λ s. refl) h in
    All-append _ t.runs (run ∷ []) kept (
      (
        has_schedule-update (is_schedule id) (with_run u now) t.schedules run.schedule_id
              (λ s. refl)
            ∙ ap (has_schedule t.schedules) same
            ∙ there,
        tt,
      ))

fire_one-NoOrphans :
    (d : ℕ) (t : Tables) (s : Schedule) (f : Firing)
    → has_schedule t.schedules s.id ≡ true
    → NoOrphans t
    → NoOrphans (fire_one d t s f)
unfolding fire_one build_run_row
fire_one-NoOrphans d t s f there h =
    record_run-NoOrphans t f.written s.id _ (update_of s f (outcome_of d s f)) there refl h

-- A firing keeps the identifiers of the schedules.
fire_one-has :
    (d : ℕ) (t : Tables) (s : Schedule) (f : Firing) (id : String)
    → has_schedule (fire_one d t s f).schedules id ≡ has_schedule t.schedules id
unfolding fire_one record_schedule_run_v2 with_run
fire_one-has d t s f id = has_schedule-update (is_schedule s.id) _ t.schedules id (λ x. refl)

-- Others leave no run without its schedule, and delete no schedule.
abbrev pub Keeps : (Tables → Tables) → Type 0
Keeps others =
    (t : Tables)
    → (NoOrphans t → NoOrphans (others t))
      × ((id : String)
          → has_schedule t.schedules id ≡ true
          → has_schedule (others t).schedules id ≡ true)

fire_all-NoOrphans :
    (d : ℕ) (others : ℕ → Tables → Tables) (t : Tables) (firing : Schedule → Firing)
    (due : List Schedule)
    → ((k : ℕ) → Keeps (others k))
    → All (λ s. has_schedule t.schedules s.id ≡ true) due
    → NoOrphans t
    → NoOrphans (fire_all d others t firing due)
unfolding fire_all
fire_all-NoOrphans d others t firing [] keeps there h = h
fire_all-NoOrphans d others t firing (s ∷ due) keeps there h =
    let (kept, has) = keeps 0 t in
    fire_all-NoOrphans d (λ k. others (suc k)) (fire_one d (others 0 t) s (firing s)) firing due
      (λ k. keeps (suc k))
      (All-map _ _ (λ x e. fire_one-has d (others 0 t) s (firing s) x.id ∙ has x.id e) due there.1)
      (fire_one-NoOrphans d (others 0 t) s (firing s) (has s.id there.0) (kept h))

has_schedule-cons :
    (s : Schedule) (schedules : List Schedule) (id : String)
    → has_schedule schedules id ≡ true
    → has_schedule (s ∷ schedules) id ≡ true
has_schedule-cons s schedules id h = ground arith

own : (schedules : List Schedule) → All (λ s. has_schedule schedules s.id ≡ true) schedules
own [] = tt
own (s ∷ rest) = (
  ground (arith, beq_self s.id),
  All-map _ _ (λ x. has_schedule-cons s rest x.id) rest (own rest),
)

pub tick-NoOrphans :
    (d max : ℕ) (others : ℕ → Tables → Tables) (t : Tables) (now : ℕ) (firing : Schedule → Firing)
    → ((k : ℕ) → Keeps (others k))
    → NoOrphans t
    → NoOrphans (tick d max others t now firing).0
unfolding tick list_due_schedules
tick-NoOrphans d max others t now firing keeps h =
    fire_all-NoOrphans d others t firing _ keeps
      (All-take _ max _
        (sort_by-All _ _ _ (All-retain _ (is_due now) t.schedules (own t.schedules))))
      h

pub run_now-NoOrphans :
    (others : Tables → Tables) (t : Tables) (id : String) (f : Firing)
    → Keeps others
    → NoOrphans t
    → NoOrphans (run_now others t id f).0
unfolding run_now get_schedule build_run_row
run_now-NoOrphans others t id f keeps h = elim (Option-cases (find (is_named id) t.schedules)) [
  | inl missing ↦ rw (missing, run_now) h
  | inr (s, found) ↦
      let (kept, has) = keeps t in
      rw (found, run_now)
        (record_run-NoOrphans (others t) f.written s.id _ (update_of s f (manual_outcome s f))
          (has s.id (All-find _ (is_named id) t.schedules s found (own t.schedules))) refl (kept h))
]

pub update_runs :
    (schedules : List Schedule) (p : ScheduleRun → Bool) (now : ℕ) (runs : List ScheduleRun)
    → All (λ r. has_schedule schedules r.schedule_id ≡ true) runs
    → All
        (λ r. has_schedule schedules r.schedule_id ≡ true)
        (update_where p (λ r. record r { status = "interrupted"; finished_at = some now }) runs)
update_runs schedules p now [] h = tt
update_runs schedules p now (r ∷ runs) h = ground (arith, update_runs schedules p now runs)
