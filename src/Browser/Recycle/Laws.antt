-- ===== src/Browser/Recycle/Laws.antt =====
-- What the recycle policy plans.
use gctrl.Prelude.{
  ℕ, ◌≡◌, ◌≤◌, ◌<◌, ◌⊎◌, inl, inr, Bool, true, false, List, [], ◌∷◌, ◌++◌, String, arith, All,
  All-append, All-map, any, beq_self, ◌==◌, String_eq,
}
use gctrl.Browser.Recycle.{
  active, draining, ChromiumSnapshot, RecyclePlan, drain, kill, RecycleConfig, idle, max_age,
  seconds_since, plan_for, decide,
}

-- Why a chromium may be drained or killed.
abbrev pub Allowed : RecycleConfig → ℕ → ChromiumSnapshot → RecyclePlan → Type 0
Allowed cfg now c (drain id reason) =
    (id ≡ c.id)
    × (reason ≡ max_age)
    × (c.state ≡ active)
    × (0 < c.active_sessions)
    × (cfg.recycle_max_age_seconds ≤ seconds_since now c.created_at)
Allowed cfg now c (kill id max_age) =
    (id ≡ c.id)
    × (c.active_sessions ≡ 0)
    × ((c.state ≡ draining) ⊎ (cfg.recycle_max_age_seconds ≤ seconds_since now c.created_at))
Allowed cfg now c (kill id idle) =
    (id ≡ c.id)
    × (c.active_sessions ≡ 0)
    × (c.state ≡ active)
    × (seconds_since now c.created_at < cfg.recycle_max_age_seconds)
    × (cfg.recycle_idle_seconds ≤ seconds_since now c.last_active_at)

-- Some chromium of the list justifies the plan.
abbrev pub AllowedBy : RecycleConfig → ℕ → List ChromiumSnapshot → RecyclePlan → Type 0
AllowedBy cfg now [] p = ⊥
AllowedBy cfg now (c ∷ cs) p = Allowed cfg now c p ⊎ AllowedBy cfg now cs p

plan_for-Allowed :
    (cfg : RecycleConfig) (now : ℕ) (c : ChromiumSnapshot)
    → All (Allowed cfg now c) (plan_for cfg now c)
unfolding plan_for
plan_for-Allowed cfg now c = ground arith

-- Every plan is justified by a chromium of the snapshot with its identifier: one is drained only
-- if it is active, has sessions and has reached the maximal age; one is killed only if it has no
-- session, and for its age only if it drains or has reached the maximal age, for idleness only if
-- it is active, younger than that, and idle for long enough.
pub decide-Allowed :
    (chromiums : List ChromiumSnapshot) (cfg : RecycleConfig) (now : ℕ)
    → All (AllowedBy cfg now chromiums) (decide chromiums cfg now)
unfolding decide
decide-Allowed [] cfg now = tt
decide-Allowed (c ∷ cs) cfg now =
    All-append (AllowedBy cfg now (c ∷ cs)) (plan_for cfg now c) (decide cs cfg now)
      (All-map (AllowedBy cfg now (c ∷ cs)) (Allowed cfg now c) (λ p h. inl h) _
        (plan_for-Allowed cfg now c))
      (All-map (AllowedBy cfg now (c ∷ cs)) (AllowedBy cfg now cs) (λ p h. inr h) _
        (decide-Allowed cs cfg now))

-- A chromium that has to go.
abbrev pub Due : RecycleConfig → ℕ → ChromiumSnapshot → Type 0
Due cfg now c =
    (c.active_sessions ≡ 0)
    × ((c.state ≡ draining)
        ⊎ (cfg.recycle_max_age_seconds ≤ seconds_since now c.created_at)
        ⊎ (cfg.recycle_idle_seconds ≤ seconds_since now c.last_active_at))

abbrev pub is_kill_of : String → RecyclePlan → Bool
is_kill_of id (drain i reason) = false
is_kill_of id (kill i reason) = i == id

any-append_left :
    (p : RecyclePlan → Bool) (xs ys : List RecyclePlan) → any p xs ≡ true → any p (xs ++ ys) ≡ true
any-append_left p [] ys h = cc h
any-append_left p (x ∷ xs) ys h = ground (arith, any-append_left p xs ys)

any-append_right :
    (p : RecyclePlan → Bool) (xs ys : List RecyclePlan) → any p ys ≡ true → any p (xs ++ ys) ≡ true
any-append_right p [] ys h = h
any-append_right p (x ∷ xs) ys h = ground (arith, any-append_right p xs ys h)

plan_for-kills :
    (cfg : RecycleConfig) (now : ℕ) (c : ChromiumSnapshot)
    → Due cfg now c
    → any (is_kill_of c.id) (plan_for cfg now c) ≡ true
unfolding plan_for
plan_for-kills cfg now c due = ground (arith, beq_self c.id)

-- Every chromium of the snapshot that has no session and drains, has reached the maximal age or has
-- been idle for long enough is planned to be killed.
pub decide-kills :
    (chromiums : List ChromiumSnapshot) (cfg : RecycleConfig) (now : ℕ)
    → All (λ c. Due cfg now c → any (is_kill_of c.id) (decide chromiums cfg now) ≡ true) chromiums
unfolding decide
decide-kills [] cfg now = tt
decide-kills (c ∷ cs) cfg now = (
  λ due.
      any-append_left (is_kill_of c.id) (plan_for cfg now c) (decide cs cfg now)
        (plan_for-kills cfg now c due),
  All-map _ _
      (λ d h due.
        any-append_right (is_kill_of d.id) (plan_for cfg now c) (decide cs cfg now) (h due))
      cs (decide-kills cs cfg now),
)
