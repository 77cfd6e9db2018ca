-- ===== src/Browser/Pool/Sweep.antt =====
-- `sweep` of kernel/crates/gctrl-browser/src/pool.rs: the expiry under one lock, the snapshot under
-- another, and a lock for each plan. What other tasks do between them is an argument.
pub mod Laws
use gctrl.Prelude.{
  ℕ, suc, ◌+◌, List, [], ◌∷◌, none, some, String, leb, retain, map, length, if◌then◌else◌, any,
}
use gctrl.Browser.Config.{BrowserConfig}
use gctrl.Browser.Recycle
use gctrl.Browser.Recycle.{
  ChromiumState, ChromiumSnapshot, RecyclePlan, drain, kill, RecycleConfig, decide,
}
use gctrl.Browser.Pool.{
  PoolState, SessionRecord, Chromium, is_chromium, as_u32, update_first, take_session, drop_session,
}

pub record SweepReport : Type 0 where
  pub expired_sessions : ℕ
  pub drained : ℕ
  pub killed : ℕ

-- The identifiers of the sessions that are past their time.
unfoldable pub expired_ids : ℕ → List SessionRecord → List String
expired_ids now ss = map (λ r. r.info.id) (retain (λ r. leb r.info.expires_at now) ss)

-- The loop over the expired identifiers: each takes its first session out.
unfoldable pub expire_one : PoolState → ℕ → String → PoolState
unfolding take_session drop_session
expire_one s now id = elim (take_session id s.sessions) [
  | none ↦ s
  | some (removed, others) ↦ drop_session s id now removed others
]

unfoldable pub expire_loop : PoolState → ℕ → List String → PoolState
unfolding expire_one
expire_loop s now [] = s
expire_loop s now (id ∷ ids) = expire_loop (expire_one s now id) now ids

unfoldable pub snapshot : Chromium → ChromiumSnapshot
snapshot c = record {
  id = c.chromium.id;
  state = c.state;
  created_at = c.created_at;
  last_active_at = c.last_active_at;
  active_sessions = as_u32 (length c.sessions);
}

unfoldable pub recycle_config : BrowserConfig → RecycleConfig
recycle_config config = record {
  recycle_idle_seconds = config.recycle_idle_seconds;
  recycle_max_age_seconds = config.recycle_max_age_seconds;
}

-- `position` and `remove` on the chromiums.
unfoldable pub remove_first : String → List Chromium → List Chromium
remove_first id [] = []
remove_first id (c ∷ cs) = if is_chromium id c then cs else c ∷ remove_first id cs

abbrev pub start_draining : Chromium → Chromium
start_draining c = record c { state = Recycle.draining }

-- A plan that finds its chromium is carried out and counted.
unfoldable pub apply_plan : PoolState × SweepReport → RecyclePlan → PoolState × SweepReport
unfolding update_first remove_first
apply_plan (s, report) (drain id reason) =
    if any (is_chromium id) s.chromiums
    then (
      record s { chromiums = update_first (is_chromium id) start_draining s.chromiums },
      record report { drained = report.drained + 1 },
    )
    else (s, report)
apply_plan (s, report) (kill id reason) =
    if any (is_chromium id) s.chromiums
    then (
      record s { chromiums = remove_first id s.chromiums },
      record report { killed = report.killed + 1 },
    )
    else (s, report)

-- The loop over the plans; `others k` is what other tasks do before plan `k`.
unfoldable pub apply_plans :
    (ℕ → PoolState → PoolState)
    → ℕ
    → PoolState × SweepReport
    → List RecyclePlan
    → PoolState × SweepReport
unfolding apply_plan
apply_plans others k (s, report) [] = (s, report)
apply_plans others k (s, report) (plan ∷ plans) =
    apply_plans others (suc k) (apply_plan (others k s, report) plan) plans

-- `now` is read at the start, `released_at` at the release of the expired sessions.
unfoldable pub sweep :
    BrowserConfig
    → PoolState
    → (now released_at : ℕ) → (before_snapshot : PoolState → PoolState)
    → (ℕ → PoolState → PoolState)
    → PoolState × SweepReport
unfolding expired_ids expire_loop snapshot recycle_config decide apply_plans
sweep config s now released_at before_snapshot others =
    let expired = expired_ids now s.sessions in
    let seen = before_snapshot (expire_loop s released_at expired) in
    let report : SweepReport = record {
      expired_sessions = length expired;
      drained = 0;
      killed = 0;
    } in
    apply_plans others 0 (seen, report)
      (decide (map snapshot seen.chromiums) (recycle_config config) now)
