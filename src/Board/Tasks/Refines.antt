-- ===== src/Board/Tasks/Refines.antt =====
-- The claims of the tasks as a map from identifiers, with an atomic compare-and-swap.
pub mod Rows
pub mod Laws
use mathlib.Core.Option
use gctrl.Prelude.{
  ℕ, suc, ◌≡◌, refl, sym, ap, ◌∙◌, Bool, true, false, ◌&&◌, List, [], ◌∷◌, Option, none, some,
  String, arith, eq_iff, ◌==◌, String_eq, nat_eq, find, count_where, update_where, All,
  Option-cases, Bool-cases, inl, inr, if◌then◌else◌, map, find-update_where, not, subst, find_hit,
  beq_self,
}
use gctrl.Prelude.Result.{Result, ok, err}
use gctrl.Board.Model.{OrchTask, Store, StorageError}
use gctrl.Board.Tasks.{has_id, in_claim, with_claim, try_transition_claim, update_task_claim}

-- The abstract state: the claim of each task that is there.
abbrev pub Claims : Type 0
Claims = String → Option String

abbrev pub claims_of : List OrchTask → Claims
claims_of ts id = Option.map (λ t. t.orchestrator_claim) (find (has_id id) ts)

abbrev pub put : Claims → String → String → Claims
put m id claim j = if id == j then some claim else m j

abbrev pub holds_claim : String → Option String → Bool
holds_claim from none = false
holds_claim from (some c) = c == from

abbrev pub is_there : Option String → Bool
is_there none = false
is_there (some c) = true

-- The operations on claims: a compare-and-swap, and a write.
pub data ClaimOp : Type 0 where
  swaps : (now : ℕ) (id from to : String) → ClaimOp
  writes : (now : ℕ) (id claim : String) → ClaimOp

-- What an operation does to the map, and whether it succeeds.
unfoldable pub claims_step : Claims → ClaimOp → Claims × Bool
claims_step m (swaps now id from to) =
    if holds_claim from (m id) then (put m id to, true) else (m, false)
claims_step m (writes now id claim) = if is_there (m id) then (put m id claim, true) else (m, false)

abbrev pub written : Store → Result StorageError Store → Store × Bool
written s (ok s') = (s', true)
written s (err e) = (s, false)

-- What the code does.
unfoldable pub store_step : Store → ClaimOp → Store × Bool
store_step s (swaps now id from to) = try_transition_claim s now id from to
store_step s (writes now id claim) = written s (update_task_claim s now id claim)

unfoldable pub claims_run : Claims → List ClaimOp → Claims × List Bool
unfolding claims_step
claims_run m [] = (m, [])
claims_run m (op ∷ ops) =
    let (m', done) = claims_step m op in let (last, rest) = claims_run m' ops in (last, done ∷ rest)

unfoldable pub store_run : Store → List ClaimOp → Store × List Bool
unfolding store_step
store_run s [] = (s, [])
store_run s (op ∷ ops) =
    let (s', done) = store_step s op in let (last, rest) = store_run s' ops in (last, done ∷ rest)

-- No two tasks have one identifier: it is the primary key.
abbrev pub UniqueIds : List OrchTask → Type 0
UniqueIds [] = Unit
UniqueIds (t ∷ ts) = All (λ u. (u.id == t.id) ≡ false) ts × UniqueIds ts
