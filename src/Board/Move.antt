-- ===== src/Board/Move.antt =====
-- `update_board_issue_status` of kernel/crates/gctrl-storage/src/sqlite_store.rs.
pub mod Laws
use mathlib.Core.Option
use gctrl.Prelude.{
  ℕ, suc, ◌≡◌, refl, ap, ◌≢◌, Bool, true, false, List, [], ◌∷◌, ◌++◌, Option, none, some, String,
  arith, if◌then◌else◌,
}
use gctrl.Prelude.Result.{Result, ok, err, ◌>>=◌, ok_or}
use gctrl.Board.Status.{IssueStatus, backlog, from_str, as_str, transition_path}
use gctrl.Board.Model.{
  Actor, Tick, BoardIssue, BoardEvent, EventData, status_change, Store, StorageError,
  invalid_status, issue_not_found, invalid_transition, update_issue, get_board_issue,
}

-- `SELECT status FROM board_issues WHERE id = ?1`.
unfoldable pub status_of : Store → String → Option String
status_of s id = Option.map (λ i. i.status) (get_board_issue s id)

abbrev pub with_status : Store → String → ℕ → BoardIssue → BoardIssue
with_status s status now i = record i {
  status = status;
  updated_at = now;
  device_id = s.device_id;
  synced = false;
}

-- `UPDATE board_issues SET status = ?1, updated_at = ?2, device_id = ?3, synced = 0 WHERE id = ?4`.
unfoldable pub set_status : Store → String → String → ℕ → Store
set_status s id status now = update_issue s id (with_status s status now)

-- The event that a round adds.
abbrev pub step_event : Store → Tick → String → Actor → String → String → BoardEvent
step_event s t id actor prev step = record {
  id = t.uuid;
  issue_id = id;
  event_type = "status_changed";
  actor = actor;
  timestamp = t.now;
  payload = status_change prev step;
  device_id = s.device_id;
  updated_at = t.now;
  synced = false;
}

-- One round of the loop: the step from `prev` to `step` is stored, and an event is added.
unfoldable pub apply_step : Store → Tick → String → Actor → String → String → Store
apply_step s t id actor prev step =
    let s' = set_status s id step t.now in
    record s' { events = s'.events ++ step_event s t id actor prev step ∷ [] }

-- The loop over the path; round `k` reads `ticks k`.
unfoldable pub apply_path :
    Store → (ℕ → Tick) → ℕ → String → Actor → String → List IssueStatus → Store
apply_path s ticks k id actor prev [] = s
apply_path s ticks k id actor prev (step ∷ rest) =
    apply_path (apply_step s (ticks k) id actor prev (as_str step)) ticks (suc k) id actor
      (as_str step) rest

-- `unwrap_or(IssueStatus::Backlog)`.
unfoldable pub read_status : String → IssueStatus
read_status text = elim (from_str text) [ none ↦ backlog | some s ↦ s ]

unfoldable pub update_board_issue_status :
    Store → (ℕ → Tick) → String → String → Actor → Result StorageError Store
update_board_issue_status s ticks id status actor = do
  target ← ok_or (from_str status) (invalid_status status)
  current_str ← ok_or (status_of s id) (issue_not_found id)
  path ←
      ok_or (transition_path (read_status current_str) target)
        (invalid_transition (as_str (read_status current_str)) (as_str target))
  ok (apply_path s ticks 0 id actor current_str path)
