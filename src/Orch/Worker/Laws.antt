-- ===== src/Orch/Worker/Laws.antt =====
-- How the claim of a task stands under the steps of a dispatch.
use gctrl.Prelude.{
  ℕ, ◌≡◌, refl, ◌∙◌, Bool, true, List, [], ◌∷◌, some, String, arith, eq_iff, String_eq, find,
  find_hit, count_where, update_where, find-update_where,
}
use gctrl.Prelude.Result.{Result}
use gctrl.Board.Model.{Tick, OrchTask, Store}
use gctrl.Board.Ops.{insert_board_comment}
use gctrl.Board.Tasks.{has_id, in_claim, with_claim, try_transition_claim}
use gctrl.Orch.Worker.{
  DispatchOutcome, Outside, Outcome, strict_transition, post_completion_comment, OrchError,
}

-- The one row with this key has this claim.
abbrev pub AtClaim : Store → String → String → Type 0
AtClaim s id claim =
    (count_where (has_id id) s.tasks ≡ 1)
    × ((t : OrchTask) × (find (has_id id) s.tasks ≡ some t) × (t.orchestrator_claim ≡ claim))

count_none :
    (id from : String) (ts : List OrchTask)
    → count_where (has_id id) ts ≡ 0
    → count_where (in_claim id from) ts ≡ 0
count_none id from [] h = refl
count_none id from (t ∷ ts) h = ground (arith, count_none id from ts)

count_claimed :
    (id from : String) (ts : List OrchTask) (t : OrchTask)
    → count_where (has_id id) ts ≡ 1
    → find (has_id id) ts ≡ some t
    → t.orchestrator_claim ≡ from
    → count_where (in_claim id from) ts ≡ 1
count_claimed id from [] t one e same = cc one
count_claimed id from (u ∷ ts) t one e same =
    ground
      (arith, count_claimed id from ts t, count_none id from ts, eq_iff u.orchestrator_claim from)

count-keep :
    (id from to : String) (now : ℕ) (ts : List OrchTask)
    → count_where (has_id id) (update_where (in_claim id from) (with_claim to now) ts)
      ≡ count_where (has_id id) ts
count-keep id from to now [] = refl
count-keep id from to now (t ∷ ts) = ground (arith, count-keep id from to now ts)

-- A transition from the claim that the row has succeeds.
pub cas-AtClaim :
    (s : Store) (now : ℕ) (id from to : String)
    → AtClaim s id from
    → ((try_transition_claim s now id from to).1 ≡ true)
      × AtClaim (try_transition_claim s now id from to).0 id to
unfolding try_transition_claim
cas-AtClaim s now id from to (one, (t, e, same)) =
    let row =
      find-update_where (has_id id) (in_claim id from) (with_claim to now) s.tasks (λ x. refl) t
        e in
    let here : in_claim id from t ≡ true =
      ground (arith, find_hit (has_id id) s.tasks t e, eq_iff t.orchestrator_claim from) in
    (
      rw (count_claimed id from s.tasks t one e same) refl,
      (count-keep id from to now s.tasks ∙ one, (with_claim to now t, rw here at row, refl)),
    )

-- The result of a dispatch and the claim that it leaves.
abbrev pub Ended : Outcome → String → Result OrchError DispatchOutcome → String → Type 0
Ended o id result claim = (o.1 ≡ result) × AtClaim o.0 id claim

-- Other tasks keep the row of this one and its claim.
abbrev pub Respects : Outside → String → Type 0
Respects outside id =
    (k : ℕ) (s : Store) (claim : String)
    → AtClaim s id claim
    → AtClaim (outside.others k s) id claim

pub strict_then :
    (P : Outcome → Type 0) (s : Store) (now : ℕ) (id from to : String) (next : Store → Outcome)
    → AtClaim s id from
    → ((u : Store) → AtClaim u id to → P (next u))
    → P (strict_transition s now id from to next)
unfolding strict_transition
strict_then P s now id from to next h then_ =
    let (won, there) = cas-AtClaim s now id from to h in
    rw won (then_ (try_transition_claim s now id from to).0 there)

pub post-AtClaim :
    (s : Store) (t : Tick) (issue_id body : String) (b : Bool) (id claim : String)
    → AtClaim s id claim
    → AtClaim (post_completion_comment s t issue_id body b) id claim
unfolding post_completion_comment insert_board_comment
post-AtClaim s t issue_id body b id claim h = h
