-- ===== src/Orch/Worker/Spawns.antt =====
-- What a dispatch launches.
use gctrl.Prelude.{
  ◌≡◌, refl, ◌⊎◌, inl, inr, Bool, true, false, [], ◌∷◌, Option, none, some, String, String_eq,
  Option-cases, Bool-cases,
}
use gctrl.Prelude.Result.{ok}
use gctrl.Board.Claim
use gctrl.Board.Model.{BoardIssue, OrchTask, Store, get_board_issue}
use gctrl.Board.Tasks.{try_transition_claim}
use gctrl.Orch.Agent.{System}
use gctrl.Orch.Worker.{
  OrchConfig, lost_race, Outside, with_issue, after_claim, dispatch_one, at, Launch, Dispatched,
}
use gctrl.Orch.Worker.Ends.{LaunchFor, claimed_store, issue_read}

-- What a dispatch that won the claim may start.
abbrev pub WonSpawn : System → Outside → OrchConfig → Store → OrchTask → Dispatched → Type 0
WonSpawn system outside config read task d =
    (d.spawned ≡ [])
    ⊎ ((i : String) × (issue : BoardIssue) × (launch : Launch) × (config.dry_run ≡ false)
        × (task.issue_id ≡ some i)
        × (get_board_issue read i ≡ some issue)
        × (d.spawned ≡ launch ∷ [])
        × LaunchFor system outside config read i issue launch)

after_claim-WonSpawn :
    (system : System) (outside : Outside) (config : OrchConfig) (s : Store) (task : OrchTask)
    (issue_id : Option String)
    → task.issue_id ≡ issue_id
    → WonSpawn system outside config
        (outside.others 1 s)
        task
        (after_claim system outside config s task.id issue_id)
unfolding after_claim with_issue
after_claim-WonSpawn system outside config s task none same = inl refl
after_claim-WonSpawn system outside config s task (some i) same =
    elim (Option-cases (get_board_issue (outside.others 1 s) i)) [
      | inl gone ↦ rw (gone, after_claim) (inl refl)
      | inr (issue, there) ↦ elim (Bool-cases config.dry_run) [
        | inl dry ↦ rw (there, after_claim) (rw (dry, with_issue) (inl refl))
        | inr live ↦
            rw (there, after_claim)
              (rw (live, with_issue)
                (inr (i, issue, _, refl, same, there, refl, (refl, refl, refl, refl))))
      ]
    ]

-- What a dispatch may start: nothing if it loses the claim, which it then reports, and after a win at
-- most one agent, for the issue that it reads, and not in a dry run.
abbrev pub MaySpawn :
    System → Outside → OrchConfig → Store → OrchTask → (won : Bool) → Dispatched → Type 0
MaySpawn system outside config s task won d =
    ((won ≡ false)
      × (d.spawned ≡ [])
      × (d.outcome ≡ (claimed_store system outside s task, ok (lost_race task.id))))
    ⊎ ((won ≡ true) × WonSpawn system outside config (issue_read system outside s task) task d)

-- In any store, and whatever others do, a dispatch that loses the compare-and-swap of the claim launches
-- no agent and reports a lost race, and one that wins it launches none, or one agent for the issue of
-- the task that it then reads, and this only if it is no dry run.
pub dispatch_one-MaySpawn :
    (system : System) (outside : Outside) (config : OrchConfig) (s : Store) (task : OrchTask)
    → MaySpawn system outside config s task
        (try_transition_claim
          (outside.others 0 s)
          (at system outside 0)
          task.id
          Claim.unclaimed
          Claim.claimed).1
        (dispatch_one system outside config s task)
unfolding dispatch_one
dispatch_one-MaySpawn system outside config s task =
    elim (Bool-cases
      (try_transition_claim (outside.others 0 s) (at system outside 0) task.id Claim.unclaimed
        Claim.claimed).1) [
          | inl won ↦
              rw (won, MaySpawn)
                (inr (
                  refl,
                  after_claim-WonSpawn system outside config (claimed_store system outside s task)
                      task task.issue_id refl,
                ))
          | inr lost ↦ rw (lost, MaySpawn) (inl (refl, refl, refl))
        ]
