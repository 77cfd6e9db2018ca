-- ===== src/Board/Ops.antt =====
-- Further operations on issues of kernel/crates/gctrl-storage/src/sqlite_store.rs: the move that
-- promotes, the schedule, the assignment, events, comments, sessions and the project's counter. The
-- order of texts is a parameter, and so is what other callers do between the locks of a move.
pub mod Laws
use mathlib.Core.Option
use gctrl.Prelude.{
  ℕ, suc, ◌+◌, Bool, true, false, not, List, [], ◌∷◌, ◌++◌, Option, none, some, String, ◌==◌,
  String_eq, any, find, retain, sort_by, update_where, nat_eq, ltb, if◌then◌else◌,
}
use gctrl.Prelude.Result.{Result, ok, err, ◌>>=◌, ok_or}
use gctrl.Board.Acceptance.{AcceptanceCheck, parse_acceptance_criteria}
use gctrl.Board.Checks.{seed_acceptance_checks}
use gctrl.Board.Model.{
  Actor, Tick, BoardProject, BoardIssue, BoardEvent, EventData, dates, BoardComment, OrchTask,
  Store, StorageError, issue_not_found, dates_out_of_order, integer_out_of_range, no_row,
  update_issue, get_board_issue,
}
use gctrl.Board.Move.{update_board_issue_status}
use gctrl.Board.Tasks.{promote_issue_to_task, i32_limit}

-- `text.and_then(|i| i.acceptance_criteria).map(parse).unwrap_or_default()`.
unfoldable pub checks_of : Option BoardIssue → List AcceptanceCheck
unfolding parse_acceptance_criteria
checks_of none = []
checks_of (some i) = elim i.acceptance_criteria [
  | none ↦ []
  | some text ↦ parse_acceptance_criteria text
]

-- After the move: the promotion, the reading of the issue and the checks, each under its own lock. An error leaves what was
-- written before it.
unfoldable pub promote_and_seed :
    Store
    → ℕ
    → (ℕ → Tick)
    → ℕ
    → String
    → String
    → (others after_read : Store → Store) → Store × Result StorageError (Option OrchTask)
unfolding promote_issue_to_task checks_of seed_acceptance_checks
promote_and_seed s now ticks seeded_at id agent_kind others after_read =
    elim (promote_issue_to_task s now id agent_kind) [
      | err e ↦ (s, err e)
      | ok (s', task) ↦
          let seen = others s' in
          (
            seed_acceptance_checks (after_read seen) seeded_at ticks id
                (checks_of (get_board_issue seen id)),
            ok (some task),
          )
    ]

unfoldable pub update_board_issue_status_and_promote :
    Store
    → (moves seeds : ℕ → Tick) → (promoted_at seeded_at : ℕ) → String
    → String
    → String
    → Actor
    → (after_move after_promotion after_read : Store → Store)
    → Store × Result StorageError (Option OrchTask)
unfolding update_board_issue_status promote_and_seed
update_board_issue_status_and_promote s moves seeds promoted_at seeded_at id status agent_kind actor
      after_move after_promotion after_read =
    elim (update_board_issue_status s moves id status actor) [
      | err e ↦ (s, err e)
      | ok s' ↦
          if not (status == "in_progress")
          then (s', ok none)
          else promote_and_seed (after_move s') promoted_at seeds seeded_at id agent_kind
              after_promotion after_read
    ]

-- `None` leaves a date as it is.
abbrev pub patched : Option (Option String) → Option String → Option String
patched none current = current
patched (some v) current = v

-- `s > d` on two dates that are set.
unfoldable pub out_of_order : (lt : String → String → Bool) → Option String → Option String → Bool
out_of_order lt none due = false
out_of_order lt (some s) none = false
out_of_order lt (some s) (some d) = lt d s

abbrev pub with_dates : Store → Option String → Option String → ℕ → BoardIssue → BoardIssue
with_dates s start due now i = record i {
  start_date = start;
  due_date = due;
  updated_at = now;
  device_id = s.device_id;
  synced = false;
}

abbrev pub scheduled_event :
    Store → Tick → String → Actor → Option String → Option String → BoardEvent
scheduled_event s t id actor start due = record {
  id = t.uuid;
  issue_id = id;
  event_type = "scheduled";
  actor = actor;
  timestamp = t.now;
  payload = dates start due;
  device_id = s.device_id;
  updated_at = t.now;
  synced = false;
}

-- The update and the event.
unfoldable pub write_dates : Store → Tick → String → Option String → Option String → Actor → Store
write_dates s t id start due actor =
    let s' = update_issue s id (with_dates s start due t.now) in
    record s' { events = s'.events ++ scheduled_event s t id actor start due ∷ [] }

-- The dates of the row that is there.
unfoldable pub schedule_row :
    (String → String → Bool)
    → Store
    → Tick
    → String
    → Option (Option String)
    → Option (Option String)
    → Actor
    → Option BoardIssue
    → Result StorageError Store
unfolding out_of_order write_dates
schedule_row lt s t id start_patch due_patch actor none = err (issue_not_found id)
schedule_row lt s t id start_patch due_patch actor (some i) =
    let next_start = patched start_patch i.start_date in
    let next_due = patched due_patch i.due_date in
    if out_of_order lt next_start next_due
    then err dates_out_of_order
    else ok (write_dates s t id next_start next_due actor)

unfoldable pub schedule_board_issue :
    (String → String → Bool)
    → Store
    → Tick
    → String
    → Option (Option String)
    → Option (Option String)
    → Actor
    → Result StorageError Store
unfolding schedule_row
schedule_board_issue lt s t id start_patch due_patch actor =
    schedule_row lt s t id start_patch due_patch actor (get_board_issue s id)

-- A value that is smaller than the least so far, or the first.
abbrev pub least : (String → String → Bool) → Option String → Option String → Option String
least lt best none = best
least lt none (some v) = some v
least lt (some m) (some v) = if lt v m then some v else some m

abbrev pub greatest : (String → String → Bool) → Option String → Option String → Option String
greatest lt best none = best
greatest lt none (some v) = some v
greatest lt (some m) (some v) = if lt m v then some v else some m

-- The loop over the issues, with the bounds so far.
unfoldable pub range_loop :
    (String → String → Bool)
    → Option String
    → Option String
    → List BoardIssue
    → Option String × Option String
range_loop lt min max [] = (min, max)
range_loop lt min max (i ∷ issues) =
    range_loop lt (least lt (least lt min i.start_date) i.due_date)
      (greatest lt (greatest lt max i.start_date) i.due_date) issues

abbrev pub with_assignee : Store → String → String → String → ℕ → BoardIssue → BoardIssue
with_assignee s assignee_id assignee_name assignee_type now i = record i {
  assignee_id = some assignee_id;
  assignee_name = some assignee_name;
  assignee_type = some assignee_type;
  updated_at = now;
  device_id = s.device_id;
  synced = false;
}

unfoldable pub assign_board_issue : Store → ℕ → String → String → String → String → Store
assign_board_issue s now id assignee_id assignee_name assignee_type =
    update_issue s id (with_assignee s assignee_id assignee_name assignee_type now)

unfoldable pub insert_board_event : Store → BoardEvent → Store
insert_board_event s event = record s {
  events =
      s.events
      ++ record event { device_id = s.device_id; updated_at = event.timestamp; synced = false }
        ∷ [];
}

unfoldable pub list_board_events : Store → String → List BoardEvent
list_board_events s issue_id =
    sort_by (λ e. e.timestamp) (retain (λ e. e.issue_id == issue_id) s.events)

-- The columns of a comment for the synchronisation are not part of its record.
unfoldable pub insert_board_comment : Store → BoardComment → Store
insert_board_comment s comment = record s { comments = s.comments ++ comment ∷ [] }

unfoldable pub list_board_comments : Store → String → List BoardComment
list_board_comments s issue_id =
    sort_by (λ c. c.created_at) (retain (λ c. c.issue_id == issue_id) s.comments)

-- The session is added once; its cost and tokens are added each time.
abbrev pub with_session : Store → String → ℕ → ℕ → ℕ → BoardIssue → BoardIssue
with_session s session_id cost tokens now i = record i {
  session_ids =
      if any (λ x. x == session_id) i.session_ids
      then i.session_ids
      else i.session_ids ++ session_id ∷ [];
  total_cost_usd = i.total_cost_usd + cost;
  total_tokens = i.total_tokens + tokens;
  updated_at = now;
  device_id = s.device_id;
  synced = false;
}

unfoldable pub link_session_to_issue :
    Store → ℕ → String → String → ℕ → ℕ → Result StorageError Store
link_session_to_issue s now issue_id session_id cost tokens = elim (get_board_issue s issue_id) [
  | none ↦ err (no_row issue_id)
  | some i ↦ ok (update_issue s issue_id (with_session s session_id cost tokens now))
]

abbrev pub is_project : String → BoardProject → Bool
is_project id p = p.id == id

abbrev pub with_next_counter : BoardProject → BoardProject
with_next_counter p = record p { counter = p.counter + 1 }

-- The counter is read back after the update, as an `i32`.
unfoldable pub read_counter : Option BoardProject → String → Result StorageError ℕ
read_counter none project_id = err (no_row project_id)
read_counter (some p) project_id =
    if ltb p.counter i32_limit then ok p.counter else err integer_out_of_range

unfoldable pub increment_project_counter : Store → String → Store × Result StorageError ℕ
unfolding read_counter
increment_project_counter s project_id =
    let s' : Store = record s {
      projects = update_where (is_project project_id) with_next_counter s.projects;
    } in
    (s', read_counter (find (is_project project_id) s'.projects) project_id)
