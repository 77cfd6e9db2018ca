-- ===== src/Board/Tasks/Refines/Laws.antt =====
-- The refinement of the map of claims by the table of tasks.
use gctrl.Prelude.{
  ◌≡◌, refl, ap, ◌∙◌, true, false, List, [], ◌∷◌, some, String, ◌==◌, String_eq, nat_eq,
  count_where, Bool-cases, inl, inr, if◌then◌else◌, not,
}
use gctrl.Board.Model.{Store}
use gctrl.Board.Tasks.{has_id, in_claim, try_transition_claim, update_task_claim}
use gctrl.Board.Tasks.Refines.{
  Claims, claims_of, holds_claim, is_there, ClaimOp, swaps, writes, claims_step, store_step,
  claims_run, store_run, UniqueIds,
}
use gctrl.Board.Tasks.Refines.Rows.{
  count-claim, count-there, claims-swap, claims-write, unique_kept,
}

-- A map and a store that show the same claims.
abbrev pub Shows : Store → Claims → Type 0
Shows s m = (j : String) → claims_of s.tasks j ≡ m j

step-Shows :
    (s : Store) (m : Claims) (op : ClaimOp)
    → UniqueIds s.tasks
    → Shows s m
    → ((store_step s op).1 ≡ (claims_step m op).1)
      × Shows (store_step s op).0 (claims_step m op).0
      × UniqueIds (store_step s op).0.tasks
unfolding store_step claims_step try_transition_claim update_task_claim
step-Shows s m (swaps now id from to) unique shows = elim (Bool-cases (holds_claim from (m id))) [
  | inl wins ↦
      let here : holds_claim from (claims_of s.tasks id) ≡ true =
        ap (holds_claim from) (shows id) ∙ wins in
      (
        count-claim id from s.tasks unique ∙ here ∙ rw wins refl,
        λ j.
            claims-swap id from to now s.tasks j
            ∙ rw (here, wins) (ap (λ c. if id == j then some to else c) (shows j)),
        unique_kept (in_claim id from) to now s.tasks unique,
      )
  | inr loses ↦
      let here : holds_claim from (claims_of s.tasks id) ≡ false =
        ap (holds_claim from) (shows id) ∙ loses in
      (
        count-claim id from s.tasks unique ∙ here ∙ rw loses refl,
        λ j. claims-swap id from to now s.tasks j ∙ rw (here, loses) (shows j),
        unique_kept (in_claim id from) to now s.tasks unique,
      )
]
step-Shows s m (writes now id claim) unique shows = elim (Bool-cases (is_there (m id))) [
  | inl wins ↦
      let here : is_there (claims_of s.tasks id) ≡ true = ap is_there (shows id) ∙ wins in
      let found : nat_eq (count_where (has_id id) s.tasks) 0 ≡ false =
        count-there id s.tasks ∙ ap not here in
      rw (found, wins)
        (
          refl,
          λ j.
              claims-write id claim now s.tasks j here
              ∙ ap (λ c. if id == j then some claim else c) (shows j),
          unique_kept (has_id id) claim now s.tasks unique,
        )
  | inr loses ↦
      let here : is_there (claims_of s.tasks id) ≡ false = ap is_there (shows id) ∙ loses in
      let found : nat_eq (count_where (has_id id) s.tasks) 0 ≡ true =
        count-there id s.tasks ∙ ap not here in
      rw (found, loses) (refl, shows, unique)
]

-- The claims of the tasks behave as a map from identifiers with an atomic compare-and-swap: whatever
-- sequence of compare-and-swaps and writes is run, of which no two tasks have the same identifier, the
-- code reports for each operation what the map reports, and afterwards the rows show the claims that
-- the map has. A compare-and-swap of the map succeeds exactly if the task has the claim that it names,
-- and a write exactly if the task is there.
pub claims_refine :
    (ops : List ClaimOp) (s : Store) (m : Claims)
    → UniqueIds s.tasks
    → Shows s m
    → ((store_run s ops).1 ≡ (claims_run m ops).1) × Shows (store_run s ops).0 (claims_run m ops).0
unfolding store_run claims_run
claims_refine [] s m unique shows = (refl, shows)
claims_refine (op ∷ ops) s m unique shows =
    let (same, shows', unique') = step-Shows s m op unique shows in
    let (rest, last) = claims_refine ops (store_step s op).0 (claims_step m op).0 unique' shows' in
    (cc, last)
