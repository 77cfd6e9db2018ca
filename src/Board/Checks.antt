-- ===== src/Board/Checks.antt =====
-- The table of acceptance checks in kernel/crates/gctrl-storage/src/sqlite_store.rs. The key
-- (`issue_id`, `check_idx`) is unique, and a generated `id` is taken to be new.
pub mod Laws
pub mod Rollup
use gctrl.Prelude.{
  ℕ, suc, ◌+◌, Bool, true, false, not, ◌&&◌, List, [], ◌∷◌, ◌++◌, Option, none, some, String, ◌==◌,
  String_eq, nat_eq, leb, ltb, length, find, retain, update_where, count_where, sort_by,
  if◌then◌else◌,
}
use gctrl.Prelude.Decimal.{◌⁀◌}
use gctrl.Board.Acceptance.{
  AcceptanceKind, AcceptanceStatus, pending, running, pass, fail, AcceptanceCheck, kind_as_str,
  parse_acceptance_criteria,
}
use gctrl.Board.Model.{AcceptanceCheckRow, Store, Tick}

abbrev pub at_key : String → ℕ → AcceptanceCheckRow → Bool
at_key issue_id i r = r.issue_id == issue_id && nat_eq r.check_idx i

abbrev pub is_unchanged : AcceptanceCheck → AcceptanceCheckRow → Bool
is_unchanged check r = kind_as_str r.kind == kind_as_str check.kind && r.command == check.command

-- The row of a check whose content changed.
unfoldable pub reset_row : AcceptanceCheck → ℕ → AcceptanceCheckRow → AcceptanceCheckRow
reset_row check now r = record r {
  kind = check.kind;
  command = check.command;
  status = pending;
  output = none;
  last_session_id = none;
  last_run_at = none;
  updated_at = now;
}

unfoldable pub new_row : String → AcceptanceCheck → Tick → ℕ → AcceptanceCheckRow
new_row issue_id check t now = record {
  id = "acc-" ⁀ t.uuid;
  issue_id = issue_id;
  check_idx = check.idx;
  kind = check.kind;
  command = check.command;
  status = pending;
  last_session_id = none;
  last_run_at = none;
  output = none;
  created_at = now;
  updated_at = now;
}

-- The `match` on the row that is there.
unfoldable pub seed_row :
    ℕ
    → String
    → Tick
    → AcceptanceCheck
    → List AcceptanceCheckRow
    → Option AcceptanceCheckRow
    → List AcceptanceCheckRow
seed_row now issue_id t check rows none = rows ++ new_row issue_id check t now ∷ []
seed_row now issue_id t check rows (some r) =
    if is_unchanged check r
    then rows
    else update_where (at_key issue_id check.idx) (reset_row check now) rows

-- The body of the loop; `now` is read once, before it.
unfoldable pub seed_check :
    ℕ → String → Tick → AcceptanceCheck → List AcceptanceCheckRow → List AcceptanceCheckRow
unfolding seed_row reset_row new_row
seed_check now issue_id t check rows =
    seed_row now issue_id t check rows (find (at_key issue_id check.idx) rows)

unfoldable pub seed_loop :
    ℕ
    → String
    → (ℕ → Tick)
    → ℕ
    → List AcceptanceCheck
    → List AcceptanceCheckRow
    → List AcceptanceCheckRow
seed_loop now issue_id ticks k [] rows = rows
seed_loop now issue_id ticks k (check ∷ rest) rows =
    seed_loop now issue_id ticks (suc k) rest (seed_check now issue_id (ticks k) check rows)

-- `WHERE issue_id = ?1 AND check_idx >= ?2`.
abbrev pub is_beyond : String → ℕ → AcceptanceCheckRow → Bool
is_beyond issue_id n r = r.issue_id == issue_id && leb n r.check_idx

unfoldable pub seed_acceptance_checks :
    Store → ℕ → (ℕ → Tick) → String → List AcceptanceCheck → Store
seed_acceptance_checks s now ticks issue_id checks = record s {
  checks =
      retain (λ r. not (is_beyond issue_id (length checks) r))
        (seed_loop now issue_id ticks 0 checks s.checks);
}

-- The store, and whether the row existed.
unfoldable pub upsert_acceptance_result :
    Store → ℕ → String → ℕ → AcceptanceStatus → Option String → Option String → Store × Bool
upsert_acceptance_result s now issue_id check_idx status output session_id = (
  record s {
    checks =
        update_where (at_key issue_id check_idx)
          (λ r. record r {
            status = status;
            output = output;
            last_session_id = session_id;
            last_run_at = some now;
            updated_at = now;
          })
          s.checks;
  },
  ltb 0 (count_where (at_key issue_id check_idx) s.checks),
)

unfoldable pub list_acceptance_checks : Store → String → List AcceptanceCheckRow
list_acceptance_checks s issue_id =
    sort_by (λ r. r.check_idx) (retain (λ r. r.issue_id == issue_id) s.checks)

pub record AcceptanceRollup : Type 0 where
  pub total : ℕ
  pub passed : ℕ
  pub failed : ℕ
  pub pending_count : ℕ
  pub running_count : ℕ
  pub checks : List AcceptanceCheckRow

-- The body of the counting loop.
unfoldable pub count_status : AcceptanceStatus → AcceptanceRollup → AcceptanceRollup
count_status pass r = record r { passed = r.passed + 1 }
count_status fail r = record r { failed = r.failed + 1 }
count_status pending r = record r { pending_count = r.pending_count + 1 }
count_status running r = record r { running_count = r.running_count + 1 }

unfoldable pub count_loop : List AcceptanceCheckRow → AcceptanceRollup → AcceptanceRollup
unfolding count_status
count_loop [] r = r
count_loop (c ∷ cs) r = count_loop cs (count_status c.status r)

unfoldable pub acceptance_rollup : Store → String → AcceptanceRollup
unfolding list_acceptance_checks count_loop
acceptance_rollup s issue_id =
    let checks = list_acceptance_checks s issue_id in
    let counted = count_loop checks (record {
      total = length checks;
      passed = 0;
      failed = 0;
      pending_count = 0;
      running_count = 0;
      checks = [];
    }) in
    record counted { checks = checks }
