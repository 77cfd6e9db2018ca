-- ===== src/Board/Checks/Rollup.antt =====
-- What the roll-up of the acceptance checks counts.
use gctrl.Prelude.{
  ℕ, ◌+◌, ◌≡◌, refl, ◌∙◌, Bool, true, false, ◌&&◌, List, [], ◌∷◌, String, arith, ◌==◌, String_eq,
  length, retain, count_where, count_where-sort_by, count_where-retain,
}
use gctrl.Board.Acceptance.{AcceptanceStatus, pending, running, pass, fail}
use gctrl.Board.Model.{AcceptanceCheckRow, Store}
use gctrl.Board.Checks.{
  AcceptanceRollup, count_status, count_loop, acceptance_rollup, list_acceptance_checks,
}

abbrev pub is_status : AcceptanceStatus → AcceptanceCheckRow → Bool
is_status st r = same r.status st
  where
    same : AcceptanceStatus → AcceptanceStatus → Bool
    same pass pass = true
    same fail fail = true
    same pending pending = true
    same running running = true
    same _ _ = false

-- What the counters become over a list of rows.
count_loop_counts :
    (cs : List AcceptanceCheckRow) (r : AcceptanceRollup)
    → let r' = count_loop cs r in
      (r'.passed ≡ r.passed + count_where (is_status pass) cs)
      × (r'.failed ≡ r.failed + count_where (is_status fail) cs)
      × (r'.pending_count ≡ r.pending_count + count_where (is_status pending) cs)
      × (r'.running_count ≡ r.running_count + count_where (is_status running) cs)
      × (r'.total ≡ r.total)
unfolding count_loop
count_loop_counts [] r = omega arith
count_loop_counts (c ∷ cs) r = ground (arith, count_loop_counts cs (count_status c.status r))

statuses_cover :
    (cs : List AcceptanceCheckRow)
    → count_where (is_status pass) cs
        + count_where (is_status fail) cs
        + count_where (is_status pending) cs
        + count_where (is_status running) cs
      ≡ length cs
statuses_cover [] = refl
statuses_cover (c ∷ cs) = ground (arith, statuses_cover cs)

-- The number of rows of the issue in the table that have the status.
abbrev pub rows_with : Store → String → AcceptanceStatus → ℕ
rows_with s issue_id st = count_where (λ r. r.issue_id == issue_id && is_status st r) s.checks

rows_with-list :
    (s : Store) (issue_id : String) (st : AcceptanceStatus)
    → count_where (is_status st) (list_acceptance_checks s issue_id) ≡ rows_with s issue_id st
unfolding list_acceptance_checks
rows_with-list s issue_id st =
    count_where-sort_by (λ r. r.check_idx) (is_status st)
      (retain (λ r. r.issue_id == issue_id) s.checks)
    ∙ count_where-retain (is_status st) (λ r. r.issue_id == issue_id) s.checks

-- Each count of the roll-up is the number of the issue's rows in the table with that status, and
-- the four add up to the total.
pub acceptance_rollup_counts :
    (s : Store) (issue_id : String)
    → let r = acceptance_rollup s issue_id in
      (r.passed ≡ rows_with s issue_id pass)
      × (r.failed ≡ rows_with s issue_id fail)
      × (r.pending_count ≡ rows_with s issue_id pending)
      × (r.running_count ≡ rows_with s issue_id running)
      × (r.passed + r.failed + r.pending_count + r.running_count ≡ r.total)
unfolding acceptance_rollup
acceptance_rollup_counts s issue_id = omega (
  arith,
  count_loop_counts (list_acceptance_checks s issue_id),
  rows_with-list s issue_id,
  statuses_cover (list_acceptance_checks s issue_id),
)
