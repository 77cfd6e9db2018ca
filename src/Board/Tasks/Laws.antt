-- ===== src/Board/Tasks/Laws.antt =====
-- What the claim operations guarantee: one worker wins a claim, and an issue has one live task.
use gctrl.Prelude.{
  ℕ, ◌+◌, ◌≤◌, ◌≡◌, refl, subst, ◌≢◌, inl, inr, Bool, true, false, ◌&&◌, List, [], ◌∷◌, ◌++◌, none,
  some, String, arith, eq_iff, ◌==◌, String_eq, find, retain, count_where, Option-cases, Bool-cases,
  find-sort_by-append, find-none-sort_by, retain-append_hit, count_where-update_where,
  count_where-update_where-le, count_where-append,
}
use gctrl.Prelude.Result.{ok}
use gctrl.Board.Claim
use gctrl.Board.Model.{OrchTask, Store}
use gctrl.Board.Tasks.{
  is_nonterminal_claim, is_task_of, ordinal, is_live, find_nonterminal_task_for_issue, new_task,
  insert_task, promote_issue_to_task, with_claim, in_claim, try_transition_claim,
}

in_claim_leaves :
    (task_id from to : String) (now : ℕ) (t : OrchTask)
    → from ≢ to
    → in_claim task_id from (with_claim to now t) ≡ false
in_claim_leaves task_id from to now t ne = ground (arith, eq_iff to from)

-- Of two workers that try the same transition between two different claims one after the other,
-- whatever the first one's result, the second one loses.
pub try_transition_claim_once :
    (s : Store) (now later : ℕ) (task_id from to : String)
    → from ≢ to
    → (try_transition_claim (try_transition_claim s now task_id from to).0 later task_id from to).1
      ≡ false
unfolding try_transition_claim
try_transition_claim_once s now later task_id from to ne = rw (
    count_where-update_where (in_claim task_id from) (with_claim to now) s.tasks
      (λ t _. in_claim_leaves task_id from to now t ne))

-- The live tasks of an issue.
abbrev pub is_live_of : String → OrchTask → Bool
is_live_of issue_id t = is_task_of issue_id t && is_live t

abbrev pub live_count : Store → String → ℕ
live_count s issue_id = count_where (is_live_of issue_id) s.tasks

-- A transition out of a live claim never raises the number of live tasks of an issue.
pub try_transition_claim-live_count :
    (s : Store) (now : ℕ) (task_id from to issue_id : String)
    → is_nonterminal_claim from ≡ true
    → live_count (try_transition_claim s now task_id from to).0 issue_id ≤ live_count s issue_id
unfolding try_transition_claim
try_transition_claim-live_count s now task_id from to issue_id live =
    count_where-update_where-le (is_live_of issue_id) (in_claim task_id from) (with_claim to now)
      s.tasks still
  where
    still :
        (t : OrchTask)
        → in_claim task_id from t ≡ true
        → is_live_of issue_id (with_claim to now t) ≡ true
        → is_live_of issue_id t ≡ true
    still t hit l = ground (arith, eq_iff t.orchestrator_claim from)

find-none-count :
    (issue_id : String) (ts : List OrchTask)
    → find is_live (retain (is_task_of issue_id) ts) ≡ none
    → count_where (is_live_of issue_id) ts ≡ 0
find-none-count issue_id [] h = refl
find-none-count issue_id (t ∷ ts) h = ground (arith, find-none-count issue_id ts)

-- A promotion finds the live task of the issue, or adds one.
data Promoted (s : Store) (issue_id : String) (s' : Store) (t : OrchTask) : Type 0 where
  reused : find_nonterminal_task_for_issue s issue_id ≡ some t → s' ≡ s → Promoted s issue_id s' t
  added :
      find_nonterminal_task_for_issue s issue_id ≡ none
      → s' ≡ record s { tasks = s.tasks ++ t ∷ [] }
      → t.issue_id ≡ some issue_id
      → t.orchestrator_claim ≡ Claim.unclaimed
      → Promoted s issue_id s' t

promote-Promoted :
    (s : Store) (now : ℕ) (issue_id agent_kind : String) (s' : Store) (t : OrchTask)
    → promote_issue_to_task s now issue_id agent_kind ≡ ok (s', t)
    → Promoted s issue_id s' t
unfolding promote_issue_to_task insert_task new_task
promote-Promoted s now issue_id agent_kind s' t h =
    elim (Option-cases (find_nonterminal_task_for_issue s issue_id)) [
      | inl e ↦ added e (ground arith) (ground arith) (ground arith)
      | inr (u, e) ↦ reused (ground (arith, e)) (ground (arith, e))
    ]

is_task_of_owner :
    (issue_id : String) (t : OrchTask) → t.issue_id ≡ some issue_id → is_task_of issue_id t ≡ true
is_task_of_owner issue_id t owner = ground (arith, eq_iff issue_id issue_id)

is_live-unclaimed : (t : OrchTask) → t.orchestrator_claim ≡ Claim.unclaimed → is_live t ≡ true
unfolding is_nonterminal_claim
is_live-unclaimed t fresh = simp fresh

find-added :
    (s : Store) (issue_id : String) (t : OrchTask)
    → find_nonterminal_task_for_issue s issue_id ≡ none
    → t.issue_id ≡ some issue_id
    → t.orchestrator_claim ≡ Claim.unclaimed
    → find_nonterminal_task_for_issue (record s { tasks = s.tasks ++ t ∷ [] }) issue_id ≡ some t
unfolding find_nonterminal_task_for_issue
find-added s issue_id t none_live owner fresh =
    rw (retain-append_hit (is_task_of issue_id) s.tasks t (is_task_of_owner issue_id t owner)) (
      find-sort_by-append ordinal is_live (retain (is_task_of issue_id) s.tasks) t none_live
        (is_live-unclaimed t fresh))

-- What a promotion that succeeds returns is the live task of its issue, and no issue changes.
pub promote-find :
    (s : Store) (now : ℕ) (issue_id agent_kind : String) (s' : Store) (t : OrchTask)
    → promote_issue_to_task s now issue_id agent_kind ≡ ok (s', t)
    → (find_nonterminal_task_for_issue s' issue_id ≡ some t) × (s'.issues ≡ s.issues)
promote-find s now issue_id agent_kind s' t h =
    go (promote-Promoted s now issue_id agent_kind s' t h)
  where
    go :
        Promoted s issue_id s' t
        → (find_nonterminal_task_for_issue s' issue_id ≡ some t) × (s'.issues ≡ s.issues)
    go (reused e same) = (rw same e, rw same refl)
    go (added e same owner fresh) = (rw same (find-added s issue_id t e owner fresh), rw same refl)

-- A promotion that succeeds is idempotent: whenever and for whatever agent it is repeated in the
-- store that it leaves, it returns the same task and changes nothing.
pub promote_again :
    (s : Store) (now later : ℕ) (issue_id agent_kind other_kind : String) (s' : Store)
    (t : OrchTask)
    → promote_issue_to_task s now issue_id agent_kind ≡ ok (s', t)
    → promote_issue_to_task s' later issue_id other_kind ≡ ok (s', t)
unfolding promote_issue_to_task
promote_again s now later issue_id agent_kind other_kind s' t h =
    go (promote-Promoted s now issue_id agent_kind s' t h)
  where
    go : Promoted s issue_id s' t → promote_issue_to_task s' later issue_id other_kind ≡ ok (s', t)
    go (reused e same) = rw (same) (rw (e, promote_issue_to_task))
    go (added e same owner fresh) =
        rw same (rw (find-added s issue_id t e owner fresh, promote_issue_to_task))

-- No issue has two live tasks.
abbrev pub OneLive : Store → Type 0
OneLive s = (issue_id : String) → live_count s issue_id ≤ 1

none_live_of :
    (s : Store) (issue_id : String)
    → find_nonterminal_task_for_issue s issue_id ≡ none
    → live_count s issue_id ≡ 0
unfolding find_nonterminal_task_for_issue
none_live_of s issue_id e =
    find-none-count issue_id s.tasks
      (find-none-sort_by ordinal is_live (retain (is_task_of issue_id) s.tasks) e)

at_most_one : (p : OrchTask → Bool) (t : OrchTask) → count_where p (t ∷ []) ≤ 1
at_most_one p t = ground arith

not_of_other :
    (issue_id j : String) (t : OrchTask)
    → t.issue_id ≡ some issue_id
    → (issue_id == j) ≡ false
    → count_where (is_live_of j) (t ∷ []) ≡ 0
not_of_other issue_id j t owner other = ground arith

one_more :
    (s : Store) (issue_id j : String) (t : OrchTask)
    → t.issue_id ≡ some issue_id
    → live_count s j ≤ 1
    → live_count s issue_id ≡ 0
    → live_count s j + count_where (is_live_of j) (t ∷ []) ≤ 1
one_more s issue_id j t owner one none_live = elim (Bool-cases (issue_id == j)) [
  | inl same ↦
      let none_here = subst (λ k. live_count s k ≡ 0) ((eq_iff issue_id j).0 same) none_live in
      omega (arith, none_here, at_most_one (is_live_of j) t)
  | inr other ↦ omega (arith, one, not_of_other issue_id j t owner other)
]

promote-OneLive :
    (s : Store) (now : ℕ) (issue_id agent_kind : String) (s' : Store) (t : OrchTask)
    → promote_issue_to_task s now issue_id agent_kind ≡ ok (s', t)
    → OneLive s
    → OneLive s'
promote-OneLive s now issue_id agent_kind s' t h one j =
    go (promote-Promoted s now issue_id agent_kind s' t h)
  where
    go : Promoted s issue_id s' t → live_count s' j ≤ 1
    go (reused e same) = rw same (one j)
    go (added e same owner fresh) =
        rw (same, count_where-append (is_live_of j) s.tasks (t ∷ []))
          (one_more s issue_id j t owner (one j) (none_live_of s issue_id e))

-- The operations on the tasks that the board, the orchestrator and its workers make.
pub data TaskStep (s : Store) : Store → Type 0 where
  promotes :
      (now : ℕ) (issue_id agent_kind : String) (t : OrchTask) {s' : Store}
      → promote_issue_to_task s now issue_id agent_kind ≡ ok (s', t)
      → TaskStep s s'
  transitions :
      (now : ℕ) (task_id from to : String)
      → is_nonterminal_claim from ≡ true
      → TaskStep s (try_transition_claim s now task_id from to).0
  elsewhere : {s' : Store} → s'.tasks ≡ s.tasks → TaskStep s s'

pub data TaskReach (s : Store) : Store → Type 0 where
  start : TaskReach s s
  next : {t u : Store} → TaskReach s t → TaskStep t u → TaskReach s u

TaskStep-OneLive : {s s' : Store} → TaskStep s s' → OneLive s → OneLive s'
TaskStep-OneLive {s} {s'} (promotes now issue_id agent_kind t h) one j =
    promote-OneLive s now issue_id agent_kind s' t h one j
TaskStep-OneLive {s} (transitions now task_id from to live) one j =
    omega (arith, one j, try_transition_claim-live_count s now task_id from to j live)
TaskStep-OneLive (elsewhere same) one j = rw same (one j)

-- From a store in which no issue has two live tasks, no sequence of promotions, of transitions out
-- of live claims by any number of workers, and of writes to other tables leads to a store in which
-- an issue has two.
pub TaskReach-OneLive : {s s' : Store} → TaskReach s s' → OneLive s → OneLive s'
TaskReach-OneLive start one = one
TaskReach-OneLive (next r st) one = TaskStep-OneLive st (TaskReach-OneLive r one)
