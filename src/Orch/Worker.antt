-- ===== src/Orch/Worker.antt =====
-- The worker of kernel/crates/gctrl-orch/src/worker.rs. Each operation on the store locks it for
-- itself: `others k` is what other tasks do before the `k`-th one, and `ticks k` what it reads from
-- the clock and the generator of identifiers. An operation of the store that fails for a reason of
-- the database is not modelled. A dispatch gives the calls of `spawn_agent` that it makes.
pub mod Laws
pub mod Ends
pub mod Spawns
use gctrl.Prelude.{
  ℕ, suc, ◌+◌, Bool, true, false, not, List, [], ◌∷◌, ◌++◌, Option, none, some, String,
  if◌then◌else◌,
}
use gctrl.Prelude.Decimal.{◌⁀◌}
use gctrl.Prelude.Result.{Result, ok, err}
use gctrl.Board.Acceptance.{AcceptanceCheck}
use gctrl.Board.Claim
use gctrl.Board.Model.{Tick, BoardIssue, OrchTask, Store, get_board_issue}
use gctrl.Board.Ops.{checks_of, insert_board_comment, list_board_comments}
use gctrl.Board.Tasks.{try_transition_claim, list_dispatchable_tasks}
use gctrl.Orch.Agent.{System, SpawnError, AgentRun, spawn_agent, await_agent, error_text}
use gctrl.Orch.Comment.{completion_comment}
use gctrl.Orch.Env.{resolve_env}
use gctrl.Orch.Prompt.{build_prompt}

-- `OrchConfig`, with durations as numbers.
pub record OrchConfig : Type 0 where
  pub agent_cmd : List String
  pub working_dir : String
  pub env_passthrough : List String
  pub poll_interval : ℕ
  pub max_per_pass : ℕ
  pub task_timeout : ℕ
  pub dry_run : Bool
  pub kernel_base_url : String

pub data DispatchOutcome : Type 0 where
  released retried lost_race dry_run : (task_id : String) → DispatchOutcome

pub data OrchError : Type 0 where
  no_issue_id issue_disappeared : String → OrchError
  cas_failed : (task_id from to : String) → OrchError

-- What happens outside of a dispatch.
pub record Outside : Type 0 where
  pub ticks : ℕ → Tick
  pub others : ℕ → Store → Store

abbrev pub Outcome : Type 0
Outcome = Store × Result OrchError DispatchOutcome

-- What `spawn_agent` is called with.
pub record Launch : Type 0 where
  pub agent_cmd : List String
  pub working_dir : String
  pub prompt : String
  pub env : List (String × String)

-- The outcome of a dispatch, and its calls of `spawn_agent`.
pub record Dispatched : Type 0 where
  pub spawned : List Launch
  pub outcome : Outcome

abbrev pub unspawned : Outcome → Dispatched
unspawned outcome = record { spawned = []; outcome = outcome }

unfoldable pub strict_transition :
    Store → ℕ → String → String → String → (Store → Outcome) → Outcome
unfolding try_transition_claim
strict_transition s now task_id from to next =
    let tried = try_transition_claim s now task_id from to in
    if tried.1 then next tried.0 else (tried.0, err (cas_failed task_id from to))

unfoldable pub post_completion_comment : Store → Tick → String → String → Bool → Store
unfolding completion_comment insert_board_comment
post_completion_comment s t issue_id body succeeded =
    insert_board_comment s (completion_comment t issue_id body succeeded)

module _ (system : System) (outside : Outside) where
  abbrev pub at : ℕ → ℕ
  at k = (outside.ticks k).now

  -- A comment, then a transition, then the outcome.
  unfoldable pub close :
      ℕ → Store → String → String → String → Bool → (from to : String) → DispatchOutcome → Outcome
  unfolding strict_transition post_completion_comment
  close k s task_id issue_id body succeeded from to outcome =
      let posted =
        post_completion_comment (outside.others k s) (outside.ticks k) issue_id body succeeded in
      strict_transition (outside.others (k + 1) posted) (at (k + 1)) task_id from to
        (λ u. (u, ok outcome))

  -- The agent has ended.
  unfoldable pub after_run : Store → String → String → Result SpawnError AgentRun → Outcome
  unfolding close
  after_run s task_id issue_id (ok run) =
      close 4 s task_id issue_id run.stdout true Claim.running Claim.released (released task_id)
  after_run s task_id issue_id (err e) =
      close 4 s task_id issue_id ("## Agent run failed\n\n" ⁀ error_text system e) false
        Claim.running Claim.retry_queued (retried task_id)

  -- The agent was started, or not.
  unfoldable pub after_spawn :
      OrchConfig → Store → String → String → Result SpawnError system.Child → Outcome
  unfolding close after_run strict_transition
  after_spawn config s task_id issue_id (err e) =
      close 3 s task_id issue_id ("## Agent run failed (spawn)\n\n" ⁀ error_text system e) false
        Claim.claimed Claim.released (retried task_id)
  after_spawn config s task_id issue_id (ok child) =
      strict_transition (outside.others 3 s) (at 3) task_id Claim.claimed Claim.running
        (λ u. after_run u task_id issue_id (await_agent system child config.task_timeout))

  abbrev pub spawn : Launch → Result SpawnError system.Child
  spawn launch = spawn_agent system launch.agent_cmd launch.working_dir launch.prompt launch.env

  -- The issue was read; its comments are read, and the agent is started.
  unfoldable pub with_issue : OrchConfig → Store → String → String → BoardIssue → Dispatched
  unfolding after_spawn strict_transition
  with_issue config s task_id issue_id issue =
      let read = outside.others 2 s in
      let prompt =
        build_prompt issue (list_board_comments read issue_id) (checks_of (some issue))
          config.kernel_base_url in
      let launch : Launch = record {
        agent_cmd = config.agent_cmd;
        working_dir = config.working_dir;
        prompt = prompt;
        env = resolve_env system.vars config.env_passthrough;
      } in
      if config.dry_run
      then unspawned (
          strict_transition (outside.others 3 read) (at 3) task_id Claim.claimed Claim.unclaimed
            (λ u. (u, ok (dry_run task_id))))
      else record {
        spawned = launch ∷ [];
        outcome = after_spawn config read task_id issue_id (spawn launch);
      }

  -- The claim is won.
  unfoldable pub after_claim : OrchConfig → Store → String → Option String → Dispatched
  unfolding with_issue
  after_claim config s task_id none = unspawned (s, err (no_issue_id task_id))
  after_claim config s task_id (some issue_id) =
      let read = outside.others 1 s in
      elim (get_board_issue read issue_id) [
        | none ↦ unspawned (read, err (issue_disappeared issue_id))
        | some issue ↦ with_issue config read task_id issue_id issue
      ]

  unfoldable pub dispatch_one : OrchConfig → Store → OrchTask → Dispatched
  unfolding try_transition_claim after_claim
  dispatch_one config s task =
      let tried =
        try_transition_claim (outside.others 0 s) (at 0) task.id Claim.unclaimed Claim.claimed in
      if tried.1
      then after_claim config tried.0 task.id task.issue_id
      else unspawned (tried.0, ok (lost_race task.id))

-- The outcomes of the tasks in their order; an error ends the pass. Dispatch `k` has its own outside.
unfoldable pub run_tasks :
    System
    → (ℕ → Outside)
    → ℕ
    → OrchConfig
    → Store
    → List OrchTask
    → Store × Result OrchError (List DispatchOutcome)
unfolding dispatch_one
run_tasks system outside k config s [] = (s, ok [])
run_tasks system outside k config s (task ∷ tasks) =
    let done = (dispatch_one system (outside k) config s task).outcome in
    let rest = run_tasks system outside (suc k) config done.0 tasks in
    elim done.1 [
      | err e ↦ (done.0, err e)
      | ok outcome ↦ elim rest.1 [
        | err e ↦ (rest.0, err e)
        | ok outcomes ↦ (rest.0, ok (outcome ∷ outcomes))
      ]
    ]

-- One drain pass.
unfoldable pub run_once :
    System → (ℕ → Outside) → OrchConfig → Store → Store × Result OrchError (List DispatchOutcome)
unfolding run_tasks list_dispatchable_tasks
run_once system outside config s =
    run_tasks system outside 0 config s (list_dispatchable_tasks s config.max_per_pass)
