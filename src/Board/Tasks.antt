-- ===== src/Board/Tasks.antt =====
-- The orchestrator's tasks: `promote_issue_to_task` and the claim operations of
-- kernel/crates/gctrl-storage/src/sqlite_store.rs. Rows with equal sort keys keep the table's order.
pub mod Laws
pub mod Dispatch
pub mod Refines
use mathlib.Core.Option
use gctrl.Prelude.{
  ℕ, suc, ◌+◌, ◌≡◌, refl, Bool, true, false, ◌&&◌, ◌||◌, List, [], ◌∷◌, ◌++◌, Option, none, some,
  String, ◌==◌, String_eq, nat_eq, ltb, any, find, retain, take, sort_by, update_where, count_where,
  if◌then◌else◌, map,
}
use gctrl.Prelude.Decimal.{decimal, ◌⁀◌}
use gctrl.Prelude.Result.{Result, ok, err, ◌>>=◌, ok_or}
use gctrl.Board.Claim
use gctrl.Board.Model.{
  BoardIssue, BoardProject, OrchTask, Store, StorageError, issue_not_found, task_not_found,
  constraint_failed, integer_out_of_range, get_board_issue,
}

unfoldable pub is_nonterminal_claim : String → Bool
is_nonterminal_claim claim =
    claim == Claim.unclaimed
    || claim == Claim.claimed
    || claim == Claim.running
    || claim == Claim.retry_queued

-- `issue_id = ?1`: a row whose column is NULL does not match.
abbrev pub is_task_of : String → OrchTask → Bool
is_task_of issue_id t = elim t.issue_id [ none ↦ false | some i ↦ i == issue_id ]

abbrev pub ordinal : OrchTask → ℕ
ordinal t = t.attempt_ordinal

unfoldable pub list_tasks_for_issue : Store → String → List OrchTask
list_tasks_for_issue s issue_id = sort_by ordinal (retain (is_task_of issue_id) s.tasks)

abbrev pub is_live : OrchTask → Bool
is_live t = is_nonterminal_claim t.orchestrator_claim

unfoldable pub find_nonterminal_task_for_issue : Store → String → Option OrchTask
unfolding list_tasks_for_issue
find_nonterminal_task_for_issue s issue_id = find is_live (list_tasks_for_issue s issue_id)

-- `SELECT COALESCE(MAX(attempt_ordinal), 0) + 1 FROM tasks WHERE issue_id = ?1`.
unfoldable pub max_ordinal : List OrchTask → ℕ
max_ordinal [] = 0
max_ordinal (t ∷ ts) = let m = max_ordinal ts in if ltb m (ordinal t) then ordinal t else m

unfoldable pub next_ordinal : Store → String → ℕ
unfolding max_ordinal
next_ordinal s issue_id = max_ordinal (retain (is_task_of issue_id) s.tasks) + 1

-- The key of the project that the issue's row names.
unfoldable pub project_key_of : Store → String → Option String
project_key_of s issue_id = elim (get_board_issue s issue_id) [
  | none ↦ none
  | some i ↦ Option.map (λ p. p.key) (find (λ p. p.id == i.project_id) s.projects)
]

abbrev pub i32_limit : ℕ
i32_limit = 2147483648

-- The row that a promotion inserts.
unfoldable pub new_task : String → String → String → ℕ → ℕ → OrchTask
new_task issue_id project_key agent_kind ord now = record {
  id = issue_id ⁀ ".T" ⁀ decimal ord;
  issue_id = some issue_id;
  project_key = project_key;
  attempt_ordinal = ord;
  agent_kind = agent_kind;
  orchestrator_claim = Claim.unclaimed;
  attempt = 0;
  created_at = now;
  updated_at = now;
}

-- The keys of the table: `id`, and `issue_id` with `attempt_ordinal`.
unfoldable pub violates_key : OrchTask → OrchTask → Bool
violates_key new t =
    t.id == new.id
    || (elim new.issue_id [ none ↦ false | some i ↦ is_task_of i t ]
        && nat_eq (ordinal t) (ordinal new))

unfoldable pub insert_task : Store → OrchTask → Result StorageError Store
unfolding violates_key
insert_task s t =
    if any (violates_key t) s.tasks
    then err (constraint_failed t.id)
    else ok (record s { tasks = s.tasks ++ t ∷ [] })

-- `promote_issue_to_task`.
unfoldable pub promote_issue_to_task :
    Store → ℕ → String → String → Result StorageError (Store × OrchTask)
promote_issue_to_task s now issue_id agent_kind =
    elim (find_nonterminal_task_for_issue s issue_id) [
      | some task ↦ ok (s, task)
      | none ↦ do
        project_key ← ok_or (project_key_of s issue_id) (issue_not_found issue_id)
        let ord = next_ordinal s issue_id
        if ltb ord i32_limit
            then (do
              s' ← insert_task s (new_task issue_id project_key agent_kind ord now)
              ok (s', new_task issue_id project_key agent_kind ord now))
            else err integer_out_of_range
    ]

abbrev pub with_claim : String → ℕ → OrchTask → OrchTask
with_claim claim now t = record t { orchestrator_claim = claim; updated_at = now }

abbrev pub has_id : String → OrchTask → Bool
has_id id t = t.id == id

unfoldable pub update_task_claim : Store → ℕ → String → String → Result StorageError Store
update_task_claim s now task_id claim =
    if nat_eq (count_where (has_id task_id) s.tasks) 0
    then err (task_not_found task_id)
    else ok (record s { tasks = update_where (has_id task_id) (with_claim claim now) s.tasks })

-- `WHERE id = ?3 AND orchestrator_claim = ?4`.
abbrev pub in_claim : String → String → OrchTask → Bool
in_claim task_id from t = t.id == task_id && t.orchestrator_claim == from

-- The store after the compare-and-swap, and whether one row was updated.
unfoldable pub try_transition_claim : Store → ℕ → String → String → String → Store × Bool
try_transition_claim s now task_id from to = (
  record s { tasks = update_where (in_claim task_id from) (with_claim to now) s.tasks },
  nat_eq (count_where (in_claim task_id from) s.tasks) 1,
)

-- The issue that the task's row is joined with.
unfoldable pub issue_of : Store → OrchTask → Option BoardIssue
issue_of s t = Option.bind t.issue_id (get_board_issue s)

abbrev pub is_agent : Option String → Bool
is_agent none = false
is_agent (some a) = a == "agent"

-- The `WHERE` clause on the joined row.
unfoldable pub is_eligible_row : OrchTask → Option BoardIssue → Bool
is_eligible_row t none = false
is_eligible_row t (some i) =
    t.orchestrator_claim == Claim.unclaimed && i.status == "in_progress" && is_agent i.assignee_type

unfoldable pub is_dispatchable : Store → OrchTask → Bool
unfolding issue_of is_eligible_row
is_dispatchable s t = is_eligible_row t (issue_of s t)

abbrev pub by_created_at : OrchTask → ℕ
by_created_at t = t.created_at

unfoldable pub list_dispatchable_tasks : Store → ℕ → List OrchTask
unfolding is_dispatchable
list_dispatchable_tasks s limit =
    take limit (sort_by by_created_at (retain (is_dispatchable s) s.tasks))
