-- ===== src/Browser/Pool/Warmest.antt =====
-- What `find_warmest` of kernel/crates/gctrl-browser/src/pool.rs chooses.
use gctrl.Prelude.{
  ℕ, suc, ◌+◌, ◌≤◌, ◌≡◌, refl, inl, inr, Bool, true, false, ◌&&◌, List, [], ◌∷◌, Option, none, some,
  arith, length, All, Bool-cases,
}
use gctrl.Browser.Config.{BrowserConfig}
use gctrl.Browser.Pool.{Chromium, has_room, beats, warmest_loop, find_warmest, get_elem?}

-- The best key so far is not above the final one.
BestLe : Option (ℕ × ℕ) → ℕ → Type 0
BestLe none key = Unit {0}
BestLe (some (idx, best)) key = best ≤ key

abbrev Keyed : BrowserConfig → ℕ → Chromium → Type 0
Keyed config key c = has_room config c ≡ true → length c.sessions ≤ key

-- Index `j` is the best so far, or an entry of the rest with room.
data From (config : BrowserConfig) (i : ℕ) (best : Option (ℕ × ℕ)) (cs : List Chromium) (j key : ℕ)
    : Type 0 where
  earlier : best ≡ some (j, key) → From config i best cs j key
  later :
      (k : ℕ) (c : Chromium)
      → j ≡ i + k
      → get_elem? cs k ≡ some c
      → has_room config c ≡ true
      → length c.sessions ≡ key
      → From config i best cs j key

abbrev Spec : BrowserConfig → ℕ → Option (ℕ × ℕ) → List Chromium → ℕ → Type 0
Spec config i best cs j =
    (key : ℕ) × From config i best cs j key × BestLe best key × All (Keyed config key) cs

From-take :
    (config : BrowserConfig) (i j key : ℕ) (best : Option (ℕ × ℕ)) (c : Chromium)
    (cs : List Chromium)
    → has_room config c ≡ true
    → From config (suc i) (some (i, length c.sessions)) cs j key
    → From config i best (c ∷ cs) j key
From-take config i j key best c cs room (earlier e) =
    later 0 c (ground (arith, e)) refl room (ground (arith, e))
From-take config i j key best c cs room (later k d at got open_ len) =
    later (suc k) d (omega (arith, at)) got open_ len

From-skip :
    (config : BrowserConfig) (i j key : ℕ) (best : Option (ℕ × ℕ)) (c : Chromium)
    (cs : List Chromium)
    → From config (suc i) best cs j key
    → From config i best (c ∷ cs) j key
From-skip config i j key best c cs (earlier e) = earlier e
From-skip config i j key best c cs (later k d at got open_ len) =
    later (suc k) d (omega (arith, at)) got open_ len

BestLe-beats :
    (best : Option (ℕ × ℕ)) (len key : ℕ) → beats len best ≡ true → len ≤ key → BestLe best key
unfolding BestLe
BestLe-beats none len key h le = tt
BestLe-beats (some (idx, m)) len key h le = ground arith

skip_keyed :
    (best : Option (ℕ × ℕ)) (room : Bool) (len key : ℕ)
    → (room && beats len best) ≡ false
    → BestLe best key
    → room ≡ true
    → len ≤ key
unfolding BestLe
skip_keyed none room len key h le open_ = ground arith
skip_keyed (some (idx, m)) room len key h le open_ = ground arith

and_left : (a b : Bool) → (a && b) ≡ true → (a ≡ true) × (b ≡ true)
and_left a b h = ground arith

warmest_loop-Spec :
    (config : BrowserConfig) (i : ℕ) (best : Option (ℕ × ℕ)) (cs : List Chromium) (j : ℕ)
    → warmest_loop config i best cs ≡ some j
    → Spec config i best cs j
unfolding warmest_loop BestLe
warmest_loop-Spec config i none [] j h = cc h
warmest_loop-Spec config i (some (idx, m)) [] j h =
    (m, earlier (ground (arith, h)), omega arith, tt)
warmest_loop-Spec config i best (c ∷ cs) j h =
    elim (Bool-cases (has_room config c && beats (length c.sessions) best)) [
      | inl e ↦
          let (room, better) = and_left _ _ e in
          let (key, from, le, all_le) =
            warmest_loop-Spec config (suc i) (some (i, length c.sessions)) cs j (rw e at h) in
          (
            key,
            From-take config i j key best c cs room from,
            BestLe-beats best (length c.sessions) key better le,
            (λ open_. le, all_le),
          )
      | inr e ↦
          let (key, from, le, all_le) = warmest_loop-Spec config (suc i) best cs j (rw e at h) in
          (
            key,
            From-skip config i j key best c cs from,
            le,
            (skip_keyed best (has_room config c) (length c.sessions) key e le, all_le),
          )
    ]

no_room :
    (best : Option (ℕ × ℕ)) (room : Bool) (len : ℕ)
    → best ≡ none
    → (room && beats len best) ≡ false
    → room ≡ false
no_room none room len same e = ground arith
no_room (some b) room len same e = cc same

warmest_loop-none :
    (config : BrowserConfig) (i : ℕ) (best : Option (ℕ × ℕ)) (cs : List Chromium)
    → warmest_loop config i best cs ≡ none
    → (best ≡ none) × All (λ c. has_room config c ≡ false) cs
unfolding warmest_loop
warmest_loop-none config i none [] h = (refl, tt)
warmest_loop-none config i (some b) [] h = cc h
warmest_loop-none config i best (c ∷ cs) h =
    elim (Bool-cases (has_room config c && beats (length c.sessions) best)) [
      | inl e ↦
          let (same, rest) =
            warmest_loop-none config (suc i) (some (i, length c.sessions)) cs (rw e at h) in
          cc same
      | inr e ↦
          let (same, rest) = warmest_loop-none config (suc i) best cs (rw e at h) in
          (same, (no_room best (has_room config c) (length c.sessions) same e, rest))
    ]

chosen :
    (config : BrowserConfig) (cs : List Chromium) (j key : ℕ)
    → From config 0 none cs j key
    → All (Keyed config key) cs
    → (c : Chromium) × (get_elem? cs j ≡ some c)
      × (has_room config c ≡ true)
      × All (λ d. has_room config d ≡ true → length d.sessions ≤ length c.sessions) cs
chosen config cs j key (earlier e) all_le = cc e
chosen config cs j key (later k c at got room len) all_le =
    let at' : j ≡ k = omega (arith, at) in (c, rw at' got, room, rw len all_le)

-- If `find_warmest` points at an index, it is that of a chromium that is active and has room for a
-- session, and no chromium with room has more sessions.
pub find_warmest-some :
    (config : BrowserConfig) (cs : List Chromium) (j : ℕ)
    → find_warmest cs config ≡ some j
    → (c : Chromium) × (get_elem? cs j ≡ some c)
      × (has_room config c ≡ true)
      × All (λ d. has_room config d ≡ true → length d.sessions ≤ length c.sessions) cs
unfolding find_warmest
find_warmest-some config cs j h =
    let (key, from, le, all_le) = warmest_loop-Spec config 0 none cs j h in
    chosen config cs j key from all_le

-- If it points at none, no chromium has room.
pub find_warmest-none :
    (config : BrowserConfig) (cs : List Chromium)
    → find_warmest cs config ≡ none
    → All (λ c. has_room config c ≡ false) cs
unfolding find_warmest
find_warmest-none config cs h = (warmest_loop-none config 0 none cs h).1
