-- ===== src/Board/Tasks/Refines/Rows.antt =====
-- What the statements on the table of tasks do to the claims that the rows show.
use gctrl.Prelude.{
  ℕ, ◌≡◌, refl, sym, ap, ◌∙◌, Bool, true, false, List, [], ◌∷◌, Option, none, some, String, arith,
  eq_iff, ◌==◌, String_eq, nat_eq, find, count_where, update_where, All, Option-cases, Bool-cases,
  inl, inr, if◌then◌else◌, find-update_where, not, subst, find_hit, beq_self,
}
use gctrl.Board.Model.{OrchTask}
use gctrl.Board.Tasks.{has_id, in_claim, with_claim}
use gctrl.Board.Tasks.Refines.{claims_of, put, holds_claim, is_there, UniqueIds}

none_with :
    (id from : String) (t : OrchTask) (ts : List OrchTask)
    → (t.id == id) ≡ true
    → All (λ u. (u.id == t.id) ≡ false) ts
    → (count_where (in_claim id from) ts ≡ 0) × (count_where (has_id id) ts ≡ 0)
none_with id from t [] here apart = (refl, refl)
none_with id from t (u ∷ ts) here apart = ground (
  arith,
  none_with id from t ts here apart.1,
  eq_iff t.id id,
  eq_iff u.id id,
  eq_iff u.id t.id,
  apart.0,
)

-- A row that is counted is the row that the identifier finds.
pub count-claim :
    (id from : String) (ts : List OrchTask)
    → UniqueIds ts
    → nat_eq (count_where (in_claim id from) ts) 1 ≡ holds_claim from (claims_of ts id)
count-claim id from [] unique = refl
count-claim id from (t ∷ ts) unique = elim (Bool-cases (t.id == id)) [
  | inl here ↦ ground (arith, here, none_with id from t ts here unique.0)
  | inr there ↦ rw there (count-claim id from ts unique.1)
]

pub count-there :
    (id : String) (ts : List OrchTask)
    → nat_eq (count_where (has_id id) ts) 0 ≡ not (is_there (claims_of ts id))
count-there id [] = refl
count-there id (t ∷ ts) = ground (arith, count-there id ts)

find-none-update :
    (p : OrchTask → Bool) (claim : String) (now : ℕ) (ts : List OrchTask) (j : String)
    → find (has_id j) ts ≡ none
    → find (has_id j) (update_where p (with_claim claim now) ts) ≡ none
find-none-update p claim now [] j e = refl
find-none-update p claim now (t ∷ ts) j e = ground (arith, find-none-update p claim now ts j)

-- The claim that an identifier shows after an update, from the row that it finds before.
abbrev claim_after : (OrchTask → Bool) → String → Option OrchTask → Option String
claim_after p claim none = none
claim_after p claim (some t) = some (if p t then claim else t.orchestrator_claim)

claim_if :
    (b : Bool) (claim : String) (now : ℕ) (t : OrchTask)
    → (if b then with_claim claim now t else t).orchestrator_claim
      ≡ (if b then claim else t.orchestrator_claim)
claim_if true claim now t = refl
claim_if false claim now t = refl

id_if :
    (b : Bool) (claim : String) (now : ℕ) (t : OrchTask)
    → (if b then with_claim claim now t else t).id ≡ t.id
id_if true claim now t = refl
id_if false claim now t = refl

claims-update :
    (p : OrchTask → Bool) (claim : String) (now : ℕ) (ts : List OrchTask) (j : String)
    → claims_of (update_where p (with_claim claim now) ts) j
      ≡ claim_after p claim (find (has_id j) ts)
claims-update p claim now ts j = elim (Option-cases (find (has_id j) ts)) [
  | inl e ↦ rw (e, find-none-update p claim now ts j e) refl
  | inr (t, e) ↦
      rw (e, find-update_where (has_id j) p (with_claim claim now) ts (λ x. refl) t e)
        (ap some (claim_if (p t) claim now t))
]

some_if : (b : Bool) (x y : String) → some (if b then x else y) ≡ (if b then some x else some y)
some_if true x y = refl
some_if false x y = refl

same_if : (b : Bool) (x : Option String) → x ≡ (if b then x else x)
same_if true x = refl
same_if false x = refl

not_ours :
    (id j : String) (t : OrchTask) → (t.id == j) ≡ true → (id == j) ≡ false → (t.id == id) ≡ false
not_ours id j t hit other = ground (arith, eq_iff t.id j, eq_iff id j, eq_iff t.id id)

-- The claims after an update of one task's claim.
pub claims-swap :
    (id from to : String) (now : ℕ) (ts : List OrchTask) (j : String)
    → claims_of (update_where (in_claim id from) (with_claim to now) ts) j
      ≡ (if holds_claim from (claims_of ts id) then put (claims_of ts) id to j else claims_of ts j)
claims-swap id from to now ts j =
    claims-update (in_claim id from) to now ts j ∙ elim (Bool-cases (id == j)) [
      | inl same ↦
          subst
            (λ k. claim_after (in_claim id from) to (find (has_id k) ts) ≡ (
              if holds_claim from (claims_of ts id)
              then put (claims_of ts) id to k
              else claims_of ts k))
            ((eq_iff id j).0 same) (here (find (has_id id) ts) refl)
      | inr other ↦ rw other (there (find (has_id j) ts) refl other)
    ]
  where
    here :
        (o : Option OrchTask)
        → find (has_id id) ts ≡ o
        → claim_after (in_claim id from) to (find (has_id id) ts) ≡ (
            if holds_claim from (claims_of ts id)
            then put (claims_of ts) id to id
            else claims_of ts id)
    here none e = rw e refl
    here (some t) e =
        rw (e, beq_self id, find_hit (has_id id) ts t e)
          (some_if (t.orchestrator_claim == from) to t.orchestrator_claim)

    there :
        (o : Option OrchTask)
        → find (has_id j) ts ≡ o
        → (id == j) ≡ false
        → claim_after (in_claim id from) to (find (has_id j) ts)
          ≡ (if holds_claim from (claims_of ts id) then claims_of ts j else claims_of ts j)
    there none e other = rw e (same_if (holds_claim from (claims_of ts id)) none)
    there (some t) e other =
        rw (e, not_ours id j t (find_hit (has_id j) ts t e) other)
          (same_if (holds_claim from (claims_of ts id)) (some t.orchestrator_claim))

apart_kept :
    (p : OrchTask → Bool) (claim : String) (now : ℕ) (id : String) (ts : List OrchTask)
    → All (λ u. (u.id == id) ≡ false) ts
    → All (λ u. (u.id == id) ≡ false) (update_where p (with_claim claim now) ts)
apart_kept p claim now id [] apart = tt
apart_kept p claim now id (t ∷ ts) apart = ground (arith, apart_kept p claim now id ts)

pub unique_kept :
    (p : OrchTask → Bool) (claim : String) (now : ℕ) (ts : List OrchTask)
    → UniqueIds ts
    → UniqueIds (update_where p (with_claim claim now) ts)
unique_kept p claim now [] unique = tt
unique_kept p claim now (t ∷ ts) unique = (
  subst (λ k. All (λ u. (u.id == k) ≡ false) (update_where p (with_claim claim now) ts))
      (sym (id_if (p t) claim now t)) (apart_kept p claim now t.id ts unique.0),
  unique_kept p claim now ts unique.1,
)

pub claims-write :
    (id claim : String) (now : ℕ) (ts : List OrchTask) (j : String)
    → is_there (claims_of ts id) ≡ true
    → claims_of (update_where (has_id id) (with_claim claim now) ts) j
      ≡ put (claims_of ts) id claim j
claims-write id claim now ts j there =
    claims-update (has_id id) claim now ts j ∙ elim (Bool-cases (id == j)) [
      | inl same ↦
          subst
            (λ k.
              claim_after (has_id id) claim (find (has_id k) ts) ≡ put (claims_of ts) id claim k)
            ((eq_iff id j).0 same) (here (find (has_id id) ts) refl)
      | inr other ↦ rw other (elsewhere (find (has_id j) ts) refl other)
    ]
  where
    here :
        (o : Option OrchTask)
        → find (has_id id) ts ≡ o
        → claim_after (has_id id) claim (find (has_id id) ts) ≡ put (claims_of ts) id claim id
    here none e = cc (rw e at there)
    here (some t) e = rw (e, beq_self id, find_hit (has_id id) ts t e) refl

    elsewhere :
        (o : Option OrchTask)
        → find (has_id j) ts ≡ o
        → (id == j) ≡ false
        → claim_after (has_id id) claim (find (has_id j) ts) ≡ claims_of ts j
    elsewhere none e other = rw e refl
    elsewhere (some t) e other = rw (e, not_ours id j t (find_hit (has_id j) ts t e) other) refl
