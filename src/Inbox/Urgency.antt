-- ===== src/Inbox/Urgency.antt =====
-- The urgency that a thread shows: the loop of recalc_thread_counts_with_conn in
-- kernel/crates/gctrl-storage/src/sqlite_store.rs.
use gctrl.Prelude.{
  ℕ, zero, suc, ◌≤◌, ◌<◌, ◌≡◌, ◌∙◌, sym, subst, ◌⊎◌, refl, Bool, true, not, List, [], ◌∷◌, map,
  String, ◌==◌, String_eq, eq_iff, any, retain, ltb, nat_eq, All, if◌then◌else◌, arith, Bool-cases,
  inl, inr, ◌⊎◌,
}
use gctrl.Inbox.{
  InboxMessage, urgency_order, urgency_position, nth_or, best_urgency, distinct, latest_urgency_of,
}

position-le : (u : String) → urgency_position u ≤ 4
unfolding urgency_position
position-le u = ground arith

position-nth : (best : String) (n : ℕ) → n < 4 → urgency_position (nth_or best n urgency_order) ≡ n
unfolding urgency_position
position-nth best zero h = refl
position-nth best (suc zero) h = refl
position-nth best (suc (suc zero)) h = refl
position-nth best (suc (suc (suc zero))) h = refl
position-nth best (suc (suc (suc (suc n)))) h = absurd (omega (arith, h))

-- The urgency that a round keeps.
abbrev kept : String → String → String
kept best u =
    if ltb (urgency_position u) (urgency_position best)
    then nth_or best (urgency_position u) urgency_order
    else best

kept-le :
    (best u : String)
    → (urgency_position (kept best u) ≤ urgency_position best)
      × (urgency_position (kept best u) ≤ urgency_position u)
      × ((urgency_position (kept best u) ≡ urgency_position best)
          ⊎ (urgency_position (kept best u) ≡ urgency_position u))
kept-le best u = ground (arith, position-nth best (urgency_position u), position-le best)

abbrev pub has_position : ℕ → String → Bool
has_position n u = nat_eq (urgency_position u) n

-- None of the urgencies stands before the best, which is the start's or one of them.
abbrev pub Best : String → String → List String → Type 0
Best start best us =
    (urgency_position best ≤ urgency_position start)
    × All (λ u. urgency_position best ≤ urgency_position u) us
    × ((urgency_position best ≡ urgency_position start)
        ⊎ (any (has_position (urgency_position best)) us ≡ true))

Best-step :
    (start u best : String) (us : List String)
    → Best (kept start u) best us
    → Best start best (u ∷ us)
Best-step start u best us (low, lows, one) = ground (arith, kept-le start u)

best_urgency-Best : (start : String) (us : List String) → Best start (best_urgency start us) us
unfolding best_urgency
best_urgency-Best start [] = ground arith
best_urgency-Best start (u ∷ us) =
    Best-step start u (best_urgency (kept start u) us) us (best_urgency-Best (kept start u) us)

All-others {κ} :
    (P : String → Type κ) (u : String) (xs : List String)
    → P u
    → All P (retain (λ x. not (x == u)) xs)
    → All P xs
All-others P u [] h hs = tt
All-others P u (x ∷ xs) h hs = elim (Bool-cases (x == u)) [
  | inl same ↦ ground (arith, eq_iff x u, All-others P u xs h)
  | inr other ↦ ground (arith, All-others P u xs h)
]

All-distinct {κ} : (P : String → Type κ) (us : List String) → All P (distinct us) → All P us
unfolding distinct
All-distinct P [] h = tt
All-distinct P (u ∷ us) (h, hs) = (h, All-distinct P us (All-others P u (distinct us) h hs))

any-distinct : (p : String → Bool) (us : List String) → any p (distinct us) ≡ true → any p us ≡ true
unfolding distinct
any-distinct p [] h = h
any-distinct p (u ∷ us) h = ground (arith, any-others u (distinct us), any-distinct p us)
  where
    any-others :
        (u : String) (xs : List String)
        → any p (retain (λ x. not (x == u)) xs) ≡ true
        → any p xs ≡ true
    any-others u [] h = h
    any-others u (x ∷ xs) h = ground (arith, any-others u xs)

-- No pending message is more urgent than the thread shows, and one is as urgent, or what is shown is
-- the least urgency.
abbrev pub Shows : String → List InboxMessage → Type 0
Shows latest pending =
    All (λ u. urgency_position latest ≤ urgency_position u) (map (λ m. m.urgency) pending)
    × ((urgency_position latest ≡ 4)
        ⊎ (any (has_position (urgency_position latest)) (map (λ m. m.urgency) pending) ≡ true))

info-last : urgency_position "info" ≡ 4
unfolding urgency_position
info-last = refl

latest-cons :
    (m : InboxMessage) (ms : List InboxMessage)
    → latest_urgency_of (m ∷ ms) ≡ best_urgency "info" (distinct (map (λ x. x.urgency) (m ∷ ms)))
unfolding latest_urgency_of
latest-cons m ms = ground arith

-- The urgency computed for a thread from its pending messages is the highest: no message stands before
-- it in the order critical, high, medium, low, info (an unknown one counts as info), and it is as
-- urgent as one of them, or is the last of the order.
pub latest_urgency_of-Shows :
    (pending : List InboxMessage) → Shows (latest_urgency_of pending) pending
unfolding latest_urgency_of
latest_urgency_of-Shows [] = (tt, inl info-last)
latest_urgency_of-Shows (m ∷ ms) =
    let us = map (λ (x : InboxMessage). x.urgency) (m ∷ ms) in
    let (low, lows, one) = best_urgency-Best "info" (distinct us) in
    subst (λ u. Shows u (m ∷ ms)) (sym (latest-cons m ms))
      (
        All-distinct _ us lows,
        elim one [
          | inl last ↦ inl (last ∙ info-last)
          | inr found ↦ inr (
              any-distinct (has_position (urgency_position (best_urgency "info" (distinct us)))) us
                found)
        ],
      )
