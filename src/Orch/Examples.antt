-- ===== src/Orch/Examples.antt =====
-- A dispatch on a small store, with an agent that answers at once.
use gctrl.Prelude.{
  ◌≡◌, ◌⊎◌, true, false, [], ◌∷◌, none, some, String, All, find, ◌==◌, String_eq, ◌++◌,
}
use gctrl.Prelude.Result.{ok}
use gctrl.Board.Model.{OrchTask, Store, BoardIssue}
use gctrl.Orch.Agent.{System, exited}
use gctrl.Orch.Env.{base_env_keys, contains_key, resolve_env, resolve_env-allowed}
use gctrl.Orch.Worker.{OrchConfig, Outside, dispatch_one}
use gctrl.Orch.Worker.Spawns.{MaySpawn, dispatch_one-MaySpawn}
use gctrl.Board.Tasks.{try_transition_claim}
use gctrl.Board.Claim

abbrev system : System
system = record {
  Child = Unit {0};
  spawn = λ program args dir env. ok tt;
  write_all = λ child prompt. none;
  shutdown = λ child. none;
  wait = λ child limit. exited (some 0) "## done" "";
  show_duration = λ d. "1s";
  vars = ("PATH", "/bin") ∷ ("TOKEN", "secret") ∷ [];
}

abbrev outside : Outside
outside = record { ticks = λ k. record { now = k; uuid = "u" }; others = λ k s. s }

abbrev config : OrchConfig
config = record {
  agent_cmd = "claude" ∷ [];
  working_dir = "/repo";
  env_passthrough = "ANTHROPIC_API_KEY" ∷ [];
  poll_interval = 5;
  max_per_pass = 3;
  task_timeout = 600;
  dry_run = false;
  kernel_base_url = "http://127.0.0.1:4318";
}

abbrev task : String → OrchTask
task claim = record {
  id = "CORE-1.T1";
  issue_id = some "CORE-1";
  project_key = "CORE";
  attempt_ordinal = 1;
  agent_kind = "claude";
  orchestrator_claim = claim;
  attempt = 0;
  created_at = 5;
  updated_at = 5;
}

abbrev issue : BoardIssue
issue = record {
  id = "CORE-1";
  project_id = "p1";
  title = "Fix";
  description = none;
  status = "in_progress";
  priority = "none";
  assignee_id = some "a1";
  assignee_name = some "Agent";
  assignee_type = some "agent";
  labels = [];
  parent_id = none;
  created_at = 1;
  updated_at = 1;
  created_by_id = "u1";
  created_by_name = "Alice";
  created_by_type = "human";
  blocked_by = [];
  blocking = [];
  session_ids = [];
  total_cost_usd = 0;
  total_tokens = 0;
  pr_numbers = [];
  content_hash = none;
  source_path = none;
  github_issue_number = none;
  github_url = none;
  start_date = none;
  due_date = none;
  acceptance_criteria = none;
  device_id = "d1";
  synced = true;
}

abbrev store : String → Store
store claim = record {
  device_id = "d1";
  projects = [];
  issues = issue ∷ [];
  events = [];
  comments = [];
  tasks = task claim ∷ [];
  checks = [];
}

dispatch_one-MaySpawn_example :
    MaySpawn system outside config
      (store "Running")
      (task "Unclaimed")
      (try_transition_claim
        (store "Running")
        (outside.ticks 0).now
        "CORE-1.T1"
        Claim.unclaimed
        Claim.claimed).1
      (dispatch_one system outside config (store "Running") (task "Unclaimed"))
dispatch_one-MaySpawn_example =
    dispatch_one-MaySpawn system outside config (store "Running") (task "Unclaimed")

resolve_env-allowed_example :
    All
      (λ v.
        (contains_key base_env_keys v.0 ≡ true)
        ⊎ (contains_key ("ANTHROPIC_API_KEY" ∷ []) v.0 ≡ true))
      (resolve_env system.vars ("ANTHROPIC_API_KEY" ∷ []))
    × ((k : String)
        → contains_key (base_env_keys ++ "ANTHROPIC_API_KEY" ∷ []) k ≡ true
        → find (λ v. v.0 == k) (resolve_env system.vars ("ANTHROPIC_API_KEY" ∷ []))
          ≡ find (λ v. v.0 == k) system.vars)
resolve_env-allowed_example = resolve_env-allowed system.vars ("ANTHROPIC_API_KEY" ∷ [])
