-- ===== src/Board/Examples.antt =====
-- The board on a small store: one project, one issue, and what its operations do there.
use gctrl.Prelude.{
  ℕ, ◌≡◌, ◌≢◌, refl, ◌⊎◌, ◌≤◌, Bool, true, false, List, [], ◌∷◌, ◌++◌, Option, none, some, String,
  arith, ◌==◌, String_eq, find, length, map, All, retain, ◌+◌, ◌&&◌, Sorted, sort_by,
}
use gctrl.Prelude.Result.{Result, ok}
use gctrl.Prelude.Text.{lines}
use gctrl.Board.Acceptance.{
  AcceptanceCheck, shell, test, pass, fail, pending, running, parse_acceptance_criteria, parse_line,
}
use gctrl.Board.Acceptance.Laws.{Numbered, parse_acceptance_criteria-Numbered, content}
use gctrl.Board.Checks.{seed_acceptance_checks, acceptance_rollup, at_key}
use gctrl.Board.Checks.Laws.{seed_acceptance_checks-Seeded, After}
use gctrl.Board.Checks.Rollup.{acceptance_rollup_counts, rows_with}
use gctrl.Board.Model.{
  Actor, Tick, BoardProject, BoardIssue, BoardEvent, OrchTask, Store, get_board_issue, StorageError,
  update_issue,
}
use gctrl.Board.Move.{
  update_board_issue_status, status_of, read_status, apply_step, apply_path, set_status,
}
use gctrl.Board.Move.Laws.{move-Linked, move_reopens, Linked, Cancelled}
use gctrl.Board.Ops.{update_board_issue_status_and_promote}
use gctrl.Board.Ops.Laws.{start-InProgressWith, InProgressWith}
use gctrl.Board.Status.{
  IssueStatus, todo, in_progress, done, from_str, as_str, is_terminal, transition_path,
  can_transition_to, in_review, forward_path_to,
}
use gctrl.Board.Tasks.{
  promote_issue_to_task, try_transition_claim, list_dispatchable_tasks, new_task,
  find_nonterminal_task_for_issue, is_dispatchable, project_key_of, next_ordinal, by_created_at,
  insert_task, violates_key,
}
use gctrl.Board.Tasks.Laws.{
  try_transition_claim_once, promote_again, TaskReach, OneLive, TaskReach-OneLive, start, next,
  promotes,
}
use gctrl.Board.Tasks.Dispatch.{list_dispatchable_tasks-Eligible, Eligible}
use mathlib.Core.List.{Perm, filter_map}
use gctrl.Board.Tasks.Refines.{ClaimOp, swaps, writes, store_run, claims_run, claims_of}
use gctrl.Board.Tasks.Refines.Laws.{Shows, claims_refine}

abbrev alice : Actor
alice = record { actor_id = "u1"; actor_name = "Alice"; actor_type = "human" }

abbrev project : BoardProject
project = record { id = "p1"; name = "Core"; key = "CORE"; counter = 1; github_repo = none }

abbrev issue : String → String → BoardIssue
issue id status = record {
  id = id;
  project_id = "p1";
  title = "Fix";
  description = none;
  status = status;
  priority = "none";
  assignee_id = some "a1";
  assignee_name = some "Agent";
  assignee_type = some "agent";
  labels = [];
  parent_id = none;
  created_at = 1;
  updated_at = 1;
  created_by_id = "u1";
  created_by_name = "Alice";
  created_by_type = "human";
  blocked_by = [];
  blocking = [];
  session_ids = [];
  total_cost_usd = 0;
  total_tokens = 0;
  pr_numbers = [];
  content_hash = none;
  source_path = none;
  github_issue_number = none;
  github_url = none;
  start_date = none;
  due_date = none;
  acceptance_criteria = none;
  device_id = "d1";
  synced = true;
}

abbrev store_with : String → List OrchTask → Store
store_with status tasks = record {
  device_id = "d1";
  projects = project ∷ [];
  issues = issue "CORE-1" status ∷ [];
  events = [];
  comments = [];
  tasks = tasks;
  checks = [];
}

abbrev tick : ℕ → Tick
tick k = record { now = k; uuid = "e" }

abbrev unclaimed_task : OrchTask
unclaimed_task = record {
  id = "CORE-1.T1";
  issue_id = some "CORE-1";
  project_key = "CORE";
  attempt_ordinal = 1;
  agent_kind = "claude";
  orchestrator_claim = "Unclaimed";
  attempt = 0;
  created_at = 5;
  updated_at = 5;
}

abbrev waiting : Store
waiting = store_with "in_progress" (unclaimed_task ∷ [])

try_transition_claim_once_example :
    (try_transition_claim
      (try_transition_claim waiting 6 "CORE-1.T1" "Unclaimed" "Claimed").0
      7
      "CORE-1.T1"
      "Unclaimed"
      "Claimed").1
    ≡ false
try_transition_claim_once_example =
    try_transition_claim_once waiting 6 7 "CORE-1.T1" "Unclaimed" "Claimed" (λ e. cc e)

claimed_once : try_transition_claim waiting 6 "CORE-1.T1" "Unclaimed" "Claimed" ≡ (
  store_with "in_progress"
      (record unclaimed_task { orchestrator_claim = "Claimed"; updated_at = 6 } ∷ []),
  true,
)
unfolding try_transition_claim
claimed_once = refl

abbrev idle : Store
idle = store_with "in_progress" []

abbrev first_task : OrchTask
first_task = new_task "CORE-1" "CORE" "claude" 1 5

first_promotion :
    promote_issue_to_task idle 5 "CORE-1" "claude"
    ≡ ok (store_with "in_progress" (first_task ∷ []), first_task)
unfolding promote_issue_to_task find_nonterminal_task_for_issue project_key_of get_board_issue
    next_ordinal insert_task new_task violates_key sort_by
first_promotion = refl

promote_again_example :
    promote_issue_to_task (store_with "in_progress" (first_task ∷ [])) 9 "CORE-1" "codex"
    ≡ ok (store_with "in_progress" (first_task ∷ []), first_task)
promote_again_example =
    promote_again idle 5 9 "CORE-1" "claude" "codex" (store_with "in_progress" (first_task ∷ []))
      first_task first_promotion

one_reach : TaskReach idle (store_with "in_progress" (first_task ∷ []))
one_reach = next start (promotes 5 "CORE-1" "claude" first_task first_promotion)

none_live : OneLive idle
none_live issue_id = omega arith

TaskReach-OneLive_example : OneLive (store_with "in_progress" (first_task ∷ []))
TaskReach-OneLive_example = TaskReach-OneLive one_reach none_live

list_dispatchable_tasks-Eligible_example :
    let listed = list_dispatchable_tasks waiting 5 in
    All (Eligible waiting) listed
    × (length listed ≤ 5)
    × ((rest : List OrchTask) × Perm
          (listed ++ rest)
          (retain (is_dispatchable waiting) waiting.tasks)
        × Sorted by_created_at (listed ++ rest)
        × ((rest ≡ []) ⊎ (length listed ≡ 5)))
list_dispatchable_tasks-Eligible_example = list_dispatchable_tasks-Eligible waiting 5

abbrev planned : Store
planned = store_with "todo" []

abbrev moved_state : Store
moved_state = apply_path planned tick 0 "CORE-1" alice "todo" (in_progress ∷ in_review ∷ done ∷ [])

moved_to_done : update_board_issue_status planned tick "CORE-1" "done" alice ≡ ok moved_state
unfolding update_board_issue_status from_str status_of get_board_issue read_status transition_path
    can_transition_to forward_path_to
moved_to_done = refl

planned_status : status_of planned "CORE-1" ≡ some "todo"
unfolding status_of get_board_issue
planned_status = refl

todo_live : is_terminal (read_status "todo") ≡ false
unfolding is_terminal read_status from_str
todo_live = refl

move-Linked_example :
    (t : IssueStatus) × (es : List BoardEvent) × ("done" ≡ as_str t)
    × (moved_state.events ≡ planned.events ++ es)
    × Linked "CORE-1" "todo" es t
move-Linked_example =
    move-Linked planned tick "CORE-1" "done" alice moved_state moved_to_done "todo" planned_status
      todo_live

abbrev finished : Store
finished = store_with "done" []

finished_status : status_of finished "CORE-1" ≡ some "done"
unfolding status_of get_board_issue
finished_status = refl

done_terminal : is_terminal (read_status "done") ≡ true
unfolding is_terminal read_status from_str
done_terminal = refl

move_reopens_example :
    (s' : Store) × (update_board_issue_status finished tick "CORE-1" "cancelled" alice ≡ ok s')
    × Cancelled finished s' "CORE-1" "done" alice
move_reopens_example =
    move_reopens finished tick "CORE-1" "done" alice finished_status done_terminal

path_to_done : transition_path todo done ≡ some (in_progress ∷ in_review ∷ done ∷ [])
unfolding transition_path can_transition_to forward_path_to
path_to_done = refl

abbrev two_checks : List AcceptanceCheck
two_checks =
    record { idx = 0; kind = shell; command = "make" }
    ∷ record { idx = 1; kind = test; command = "unit" }
    ∷ []

seed_acceptance_checks-Seeded_example :
    let s' = seed_acceptance_checks waiting 6 tick "CORE-1" two_checks in
    All (After 6 "CORE-1" tick waiting.checks s'.checks) two_checks
    × ((i : ℕ) → length two_checks ≤ i → find (at_key "CORE-1" i) s'.checks ≡ none)
    × ((j : String) (i : ℕ)
        → j ≢ "CORE-1"
        → find (at_key j i) s'.checks ≡ find (at_key j i) waiting.checks)
seed_acceptance_checks-Seeded_example =
    seed_acceptance_checks-Seeded waiting 6 tick "CORE-1" two_checks (refl, (refl, tt))

abbrev seeded : Store
seeded = seed_acceptance_checks waiting 6 tick "CORE-1" two_checks

acceptance_rollup_counts_example :
    let r = acceptance_rollup seeded "CORE-1" in
    (r.passed ≡ rows_with seeded "CORE-1" pass)
    × (r.failed ≡ rows_with seeded "CORE-1" fail)
    × (r.pending_count ≡ rows_with seeded "CORE-1" pending)
    × (r.running_count ≡ rows_with seeded "CORE-1" running)
    × (r.passed + r.failed + r.pending_count + r.running_count ≡ r.total)
acceptance_rollup_counts_example = acceptance_rollup_counts seeded "CORE-1"

abbrev criteria : String
criteria = "Checks:\n- [ ] shell: make\n- [x] test: unit\n"

parse_acceptance_criteria-Numbered_example :
    Numbered 0 (parse_acceptance_criteria criteria)
    × (map content (parse_acceptance_criteria criteria) ≡ filter_map parse_line (lines criteria))
parse_acceptance_criteria-Numbered_example = parse_acceptance_criteria-Numbered criteria

criteria_parsed : parse_acceptance_criteria criteria ≡ two_checks
unfolding parse_acceptance_criteria
criteria_parsed = refl

abbrev started : Store × Result StorageError (Option OrchTask)
started =
    update_board_issue_status_and_promote planned tick tick 5 6 "CORE-1" "in_progress" "claude"
      alice (λ x. x) (λ x. x) (λ x. x)

started_ok : started ≡ (started.0, ok (some first_task))
unfolding update_board_issue_status_and_promote from_str status_of get_board_issue transition_path
    can_transition_to read_status find_nonterminal_task_for_issue sort_by apply_path apply_step
    set_status update_issue project_key_of next_ordinal insert_task
started_ok = refl

start-InProgressWith_example : InProgressWith started.0 "CORE-1" first_task
start-InProgressWith_example =
    start-InProgressWith planned tick tick 5 6 "CORE-1" "claude" alice started.0 first_task
      started_ok

planned_issue : get_board_issue planned "CORE-1" ≡ some (issue "CORE-1" "todo")
unfolding get_board_issue
planned_issue = refl

abbrev earlier : String → String → Bool
earlier a b = a == "2026-01-01" && b == "2026-02-01"

-- A worker wins the claim, another loses it, and a third one writes to a task that is not there.
abbrev three_ops : List ClaimOp
three_ops =
    swaps 6 "CORE-1.T1" "Unclaimed" "Claimed"
    ∷ swaps 7 "CORE-1.T1" "Unclaimed" "Claimed"
    ∷ writes 8 "CORE-9.T1" "Released"
    ∷ []

three_results : (store_run waiting three_ops).1 ≡ true ∷ false ∷ false ∷ []
unfolding store_run gctrl.Board.Tasks.update_task_claim try_transition_claim
three_results = refl

claims_refine_example :
    ((store_run waiting three_ops).1 ≡ (claims_run (claims_of waiting.tasks) three_ops).1)
    × Shows (store_run waiting three_ops).0 (claims_run (claims_of waiting.tasks) three_ops).0
claims_refine_example =
    claims_refine three_ops waiting (claims_of waiting.tasks) (tt, tt) (λ j. refl)
