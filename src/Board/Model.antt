-- ===== src/Board/Model.antt =====
-- The rows of the board tables. A time is its position in the order of UTC instants, and money a
-- number of its smallest unit. A column that holds JSON is the decoded value.
use gctrl.Prelude.{
  ℕ, ◌≡◌, Bool, List, Option, some, String, ◌==◌, String_eq, find, true, false, ◌∙◌, ◌≢◌, arith,
  eq_iff, update_where, find-update_where, find-update_where_ne, find_hit,
}
use gctrl.Board.Acceptance.{AcceptanceKind, AcceptanceStatus}

-- Who acts: the arguments `actor_id`, `actor_name` and `actor_type` of the operations.
pub record Actor : Type 0 where
  pub actor_id : String
  pub actor_name : String
  pub actor_type : String

-- What one round of an operation reads from the clock and the generator of identifiers.
pub record Tick : Type 0 where
  pub now : ℕ
  pub uuid : String

pub record BoardProject : Type 0 where
  pub id : String
  pub name : String
  pub key : String
  pub counter : ℕ
  pub github_repo : Option String

-- `BoardIssue` as its row, with the columns `device_id` and `synced`; `status` is the stored text.
pub record BoardIssue : Type 0 where
  pub id : String
  pub project_id : String
  pub title : String
  pub description : Option String
  pub status : String
  pub priority : String
  pub assignee_id : Option String
  pub assignee_name : Option String
  pub assignee_type : Option String
  pub labels : List String
  pub parent_id : Option String
  pub created_at : ℕ
  pub updated_at : ℕ
  pub created_by_id : String
  pub created_by_name : String
  pub created_by_type : String
  pub blocked_by : List String
  pub blocking : List String
  pub session_ids : List String
  pub total_cost_usd : ℕ
  pub total_tokens : ℕ
  pub pr_numbers : List ℕ
  pub content_hash : Option String
  pub source_path : Option String
  pub github_issue_number : Option ℕ
  pub github_url : Option String
  pub start_date : Option String
  pub due_date : Option String
  pub acceptance_criteria : Option String
  pub device_id : String
  pub synced : Bool

-- The JSON objects that the operations write to an event.
pub data EventData : Type 0 where
  status_change : (from to : String) → EventData
  dates : (start_date due_date : Option String) → EventData

pub record BoardEvent : Type 0 where
  pub id : String
  pub issue_id : String
  pub event_type : String
  pub actor : Actor
  pub timestamp : ℕ
  pub payload : EventData
  pub device_id : String
  pub updated_at : ℕ
  pub synced : Bool

pub record OrchTask : Type 0 where
  pub id : String
  pub issue_id : Option String
  pub project_key : String
  pub attempt_ordinal : ℕ
  pub agent_kind : String
  pub orchestrator_claim : String
  pub attempt : ℕ
  pub created_at : ℕ
  pub updated_at : ℕ

pub record BoardComment : Type 0 where
  pub id : String
  pub issue_id : String
  pub author_id : String
  pub author_name : String
  pub author_type : String
  pub body : String
  pub created_at : ℕ
  pub session_id : Option String

-- A row of `board_acceptance_checks`; `kind` and `status` are the decoded texts.
pub record AcceptanceCheckRow : Type 0 where
  pub id : String
  pub issue_id : String
  pub check_idx : ℕ
  pub kind : AcceptanceKind
  pub command : String
  pub status : AcceptanceStatus
  pub last_session_id : Option String
  pub last_run_at : Option ℕ
  pub output : Option String
  pub created_at : ℕ
  pub updated_at : ℕ

-- `SqliteStore`: the tables that the board operations read and write, and the device.
pub record Store : Type 0 where
  pub device_id : String
  pub projects : List BoardProject
  pub issues : List BoardIssue
  pub events : List BoardEvent
  pub comments : List BoardComment
  pub tasks : List OrchTask
  pub checks : List AcceptanceCheckRow

-- The `GctlError::Storage` values of the operations, by the message that they carry.
pub data StorageError : Type 0 where
  invalid_status issue_not_found task_not_found constraint_failed no_row : String → StorageError
  invalid_transition : (from to : String) → StorageError
  dates_out_of_order integer_out_of_range : StorageError

abbrev pub is_issue : String → BoardIssue → Bool
is_issue id i = i.id == id

-- `UPDATE board_issues SET f WHERE id = ?`.
unfoldable pub update_issue : Store → String → (BoardIssue → BoardIssue) → Store
update_issue s id f = record s { issues = update_where (is_issue id) f s.issues }

-- `get_board_issue`: the issue's row.
unfoldable pub get_board_issue : Store → String → Option BoardIssue
get_board_issue s id = find (is_issue id) s.issues

-- The updates keep the key.
abbrev pub KeepsId : (BoardIssue → BoardIssue) → Type 0
KeepsId f = (i : BoardIssue) → (f i).id ≡ i.id

-- The row that an update leaves under its key.
pub get-update_issue :
    (s : Store) (id : String) (f : BoardIssue → BoardIssue) (i : BoardIssue)
    → KeepsId f
    → get_board_issue s id ≡ some i
    → get_board_issue (update_issue s id f) id ≡ some (f i)
unfolding get_board_issue update_issue
get-update_issue s id f i keep h =
    find-update_where (is_issue id) (is_issue id) f s.issues (λ x. rw (keep x)) i h
    ∙ rw (find_hit (is_issue id) s.issues i h)

-- No other row changes.
pub get-update_issue_ne :
    (s : Store) (id j : String) (f : BoardIssue → BoardIssue)
    → KeepsId f
    → j ≢ id
    → get_board_issue (update_issue s id f) j ≡ get_board_issue s j
unfolding get_board_issue update_issue
get-update_issue_ne s id j f keep ne =
    find-update_where_ne (is_issue j) (is_issue id) f s.issues λ x hit. other x hit
  where
    other :
        (x : BoardIssue)
        → is_issue id x ≡ true
        → (is_issue j x ≡ false) × (is_issue j (f x) ≡ false)
    other x hit = rw (keep x) (ground (arith, eq_iff x.id id, eq_iff x.id j))
