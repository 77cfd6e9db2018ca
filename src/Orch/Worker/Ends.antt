-- ===== src/Orch/Worker/Ends.antt =====
-- How a dispatch ends, and what it starts.
use gctrl.Prelude.{◌≡◌, ◌⊎◌, true, false, [], ◌∷◌, none, some, String, String_eq}
use gctrl.Prelude.Result.{Result, ok, err}
use gctrl.Board.Claim
use gctrl.Board.Model.{BoardIssue, OrchTask, Store, get_board_issue}
use gctrl.Board.Ops.{list_board_comments, checks_of}
use gctrl.Board.Tasks.{try_transition_claim}
use gctrl.Orch.Agent.{System, SpawnError, AgentRun, await_agent}
use gctrl.Orch.Worker.{
  OrchConfig, released, retried, dry_run, no_issue_id, issue_disappeared, Outside, Outcome, at,
  Launch, Dispatched, resolve_env, spawn, build_prompt,
}
use gctrl.Orch.Worker.Laws.{Ended, Respects}

module _ (system : System) (outside : Outside) where
  -- How a dispatch ends that started an agent, or tried to.
  abbrev pub RanOut : OrchConfig → String → Launch → Outcome → Type 0
  RanOut config id launch o =
      ((e : SpawnError) × (spawn system outside launch ≡ err e)
        × Ended o id (ok (retried id)) "Released")
      ⊎ ((child : system.Child) × (spawn system outside launch ≡ ok child)
          × (((e : SpawnError) × (await_agent system child config.task_timeout ≡ err e)
                × Ended o id (ok (retried id)) "RetryQueued")
              ⊎ ((run : AgentRun) × (await_agent system child config.task_timeout ≡ ok run)
                  × Ended o id (ok (released id)) "Released")))

  -- What an agent is started with for an issue.
  abbrev pub LaunchFor : OrchConfig → Store → String → BoardIssue → Launch → Type 0
  LaunchFor config read i issue launch =
      (launch.agent_cmd ≡ config.agent_cmd)
      × (launch.working_dir ≡ config.working_dir)
      × (launch.env ≡ resolve_env system.vars config.env_passthrough)
      × (launch.prompt
          ≡ build_prompt issue (list_board_comments (outside.others 2 read) i)
              (checks_of (some issue)) config.kernel_base_url)

  -- The store after the claim, when the issue is read.
  abbrev pub claimed_store : Store → OrchTask → Store
  claimed_store s task =
      (try_transition_claim (outside.others 0 s) (at system outside 0) task.id Claim.unclaimed
        Claim.claimed).0

  abbrev pub issue_read : Store → OrchTask → Store
  issue_read s task = outside.others 1 (claimed_store s task)

  -- How a dispatch that won the claim of a task ends, by the issue that it reads.
  abbrev pub Final : OrchConfig → Store → OrchTask → Dispatched → Type 0
  Final config read task d =
      ((task.issue_id ≡ none)
        × (d.spawned ≡ [])
        × Ended d.outcome task.id (err (no_issue_id task.id)) "Claimed")
      ⊎ ((i : String) × (task.issue_id ≡ some i)
          × (((get_board_issue read i ≡ none)
                × (d.spawned ≡ [])
                × Ended d.outcome task.id (err (issue_disappeared i)) "Claimed")
              ⊎ ((issue : BoardIssue) × (get_board_issue read i ≡ some issue)
                  × (((config.dry_run ≡ true)
                        × (d.spawned ≡ [])
                        × Ended d.outcome task.id (ok (dry_run task.id)) "Unclaimed")
                      ⊎ ((launch : Launch) × (config.dry_run ≡ false)
                          × (d.spawned ≡ launch ∷ [])
                          × LaunchFor config read i issue launch
                          × RanOut config task.id launch d.outcome)))))

module _ (system : System) (outside : Outside) (id : String) (kept : Respects outside id) where
  -- An agent that was started has ended.
  abbrev Awaited : Result SpawnError AgentRun → Outcome → Type 0
  Awaited r o =
      ((e : SpawnError) × (r ≡ err e) × Ended o id (ok (retried id)) "RetryQueued")
      ⊎ ((run : AgentRun) × (r ≡ ok run) × Ended o id (ok (released id)) "Released")

  -- How a dispatch ends of which the issue is read.
  abbrev WithIssue : OrchConfig → Store → String → BoardIssue → Dispatched → Type 0
  WithIssue config read i issue d =
      ((config.dry_run ≡ true)
        × (d.spawned ≡ [])
        × Ended d.outcome id (ok (dry_run id)) "Unclaimed")
      ⊎ ((launch : Launch) × (config.dry_run ≡ false)
          × (d.spawned ≡ launch ∷ [])
          × LaunchFor system outside config read i issue launch
          × RanOut system outside config id launch d.outcome)
