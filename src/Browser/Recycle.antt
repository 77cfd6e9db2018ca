-- ===== src/Browser/Recycle.antt =====
-- The recycle policy of kernel/crates/gctrl-browser/src/recycle.rs. A time is a number of
-- nanoseconds.
pub mod Laws
use gctrl.Prelude.{
  ℕ, ◌-◌, ◌/◌, Bool, true, false, ◌&&◌, List, [], ◌∷◌, ◌++◌, String, nat_eq, leb, if◌then◌else◌,
}

pub data ChromiumState : Type 0 where
  active draining : ChromiumState

abbrev pub is_active : ChromiumState → Bool
is_active active = true
is_active draining = false

abbrev pub is_draining : ChromiumState → Bool
is_draining active = false
is_draining draining = true

pub record ChromiumSnapshot : Type 0 where
  pub id : String
  pub state : ChromiumState
  pub created_at : ℕ
  pub last_active_at : ℕ
  pub active_sessions : ℕ

pub data RecycleReason : Type 0 where
  idle max_age : RecycleReason

unfoldable pub reason_as_str : RecycleReason → String
reason_as_str idle = "idle"
reason_as_str max_age = "max_age"

pub data RecyclePlan : Type 0 where
  drain kill : (id : String) (reason : RecycleReason) → RecyclePlan

pub record RecycleConfig : Type 0 where
  pub recycle_idle_seconds : ℕ
  pub recycle_max_age_seconds : ℕ

-- `(now - then).num_seconds().max(0)`.
abbrev pub seconds_since : (now then_ : ℕ) → ℕ
seconds_since now then_ = (now - then_) / 1000000000

-- What one round of the loop adds to the plans.
unfoldable pub plan_for : RecycleConfig → ℕ → ChromiumSnapshot → List RecyclePlan
plan_for cfg now c =
    if is_draining c.state && nat_eq c.active_sessions 0
    then kill c.id max_age ∷ []
    else if leb cfg.recycle_max_age_seconds (seconds_since now c.created_at) && is_active c.state
    then (if nat_eq c.active_sessions 0 then kill c.id max_age ∷ [] else drain c.id max_age ∷ [])
    else if is_active c.state
        && nat_eq c.active_sessions 0
        && leb cfg.recycle_idle_seconds (seconds_since now c.last_active_at)
    then kill c.id idle ∷ []
    else []

unfoldable pub decide : List ChromiumSnapshot → RecycleConfig → ℕ → List RecyclePlan
unfolding plan_for
decide [] cfg now = []
decide (c ∷ cs) cfg now = plan_for cfg now c ++ decide cs cfg now
