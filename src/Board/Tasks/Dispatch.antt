-- ===== src/Board/Tasks/Dispatch.antt =====
-- What `list_dispatchable_tasks` lists, and what it leaves out.
use mathlib.Core.List.{Perm}
use gctrl.Prelude.{
  ℕ, ◌≤◌, ◌≡◌, refl, ap, subst, ◌⊎◌, true, List, [], ◌∷◌, ◌++◌, Option, none, some, String, arith,
  eq_iff, String_eq, retain, length, sort_by, Sorted, sort_by-Sorted, sort_by-All, take-append-drop,
  take_full, length-take-le, drop, All-map, All-retain_self, sort_by-perm, All, All-take,
}
use gctrl.Board.Model.{BoardIssue, OrchTask, Store}
use gctrl.Board.Tasks.{
  is_dispatchable, issue_of, is_agent, is_eligible_row, by_created_at, list_dispatchable_tasks,
}

-- What makes a task eligible for dispatch: it is unclaimed, and its issue is in progress and
-- assigned to an agent.
abbrev pub Eligible : Store → OrchTask → Type 0
Eligible s t =
    (i : BoardIssue) × (issue_of s t ≡ some i)
    × (t.orchestrator_claim ≡ "Unclaimed")
    × (i.status ≡ "in_progress")
    × (i.assignee_type ≡ some "agent")

agent_only : (a : Option String) → is_agent a ≡ true → a ≡ some "agent"
agent_only none h = cc
agent_only (some a) h = ap some ((eq_iff a "agent").0 h)

eligible_parts :
    (t : OrchTask) (i : BoardIssue)
    → is_eligible_row t (some i) ≡ true
    → (t.orchestrator_claim ≡ "Unclaimed")
      × (i.status ≡ "in_progress")
      × (i.assignee_type ≡ some "agent")
unfolding is_eligible_row
eligible_parts t i h = ground (
  arith,
  eq_iff t.orchestrator_claim "Unclaimed",
  eq_iff i.status "in_progress",
  agent_only i.assignee_type,
)

is_dispatchable-Eligible : (s : Store) (t : OrchTask) → is_dispatchable s t ≡ true → Eligible s t
unfolding is_dispatchable
is_dispatchable-Eligible s t h = go (issue_of s t) refl
  where
    go : (o : Option BoardIssue) → issue_of s t ≡ o → Eligible s t
    go none e = cc (h, rw e at h)
    go (some i) e =
        let (a, b, c) = eligible_parts t i (subst (λ o. is_eligible_row t o ≡ true) e h) in
        (i, e, a, b, c)

Sorted-append_left :
    (xs ys : List OrchTask) → Sorted by_created_at (xs ++ ys) → Sorted by_created_at xs
Sorted-append_left [] ys h = tt
Sorted-append_left (x ∷ []) ys h = tt
Sorted-append_left (x ∷ y ∷ xs) ys h = (h.0, Sorted-append_left (y ∷ xs) ys h.1)

-- Every listed task is eligible, at most `limit` are listed, and what is left out comes after what
-- is listed: the list and the rest together are the rows that meet the query, sorted by creation,
-- and nothing is left out unless the list is full.
pub list_dispatchable_tasks-Eligible :
    (s : Store) (limit : ℕ)
    → let listed = list_dispatchable_tasks s limit in
      All (Eligible s) listed
      × (length listed ≤ limit)
      × ((rest : List OrchTask) × Perm (listed ++ rest) (retain (is_dispatchable s) s.tasks)
          × Sorted by_created_at (listed ++ rest)
          × ((rest ≡ []) ⊎ (length listed ≡ limit)))
unfolding list_dispatchable_tasks
list_dispatchable_tasks-Eligible s limit =
    let rows = sort_by by_created_at (retain (is_dispatchable s) s.tasks) in
    let whole = take-append-drop limit rows in
    (
      All-take (Eligible s) limit rows (
          sort_by-All by_created_at (Eligible s) _ (
            All-map (Eligible s) (λ t. is_dispatchable s t ≡ true) (is_dispatchable-Eligible s) _
              (All-retain_self (is_dispatchable s) s.tasks))),
      length-take-le limit rows,
      (
        drop limit rows,
        rw whole (sort_by-perm by_created_at _),
        rw whole (sort_by-Sorted by_created_at _),
        take_full limit rows,
      ),
    )
