-- ===== src/Browser/Config.antt =====
-- The configuration of kernel/crates/gctrl-browser/src/config.rs. The environment and the parser of
-- numbers (`str::parse`) are parameters.
use gctrl.Prelude.{ℕ, Bool, false, Option, none, some, String, if◌then◌else◌}
use gctrl.Prelude.Options.{◌>>=◌}
use gctrl.Prelude.Text.{is_empty}

pub record BrowserConfig : Type 0 where
  pub pool_max : ℕ
  pub contexts_per_chromium_max : ℕ
  pub recycle_idle_seconds : ℕ
  pub recycle_max_age_seconds : ℕ
  pub default_ttl_seconds : ℕ
  pub default_recording_max_bytes : ℕ
  pub chromium_path : Option String
  pub headed_default : Bool

abbrev pub default_config : BrowserConfig
default_config = record {
  pool_max = 4;
  contexts_per_chromium_max = 8;
  recycle_idle_seconds = 1800;
  recycle_max_age_seconds = 28800;
  default_ttl_seconds = 600;
  default_recording_max_bytes = 52428800;
  chromium_path = none;
  headed_default = false;
}

abbrev unwrap_or : Option ℕ → ℕ → ℕ
unwrap_or none d = d
unwrap_or (some n) d = n

-- The path that a variable gives; an empty one is passed over.
abbrev path_or : Option String → Option String → Option String
path_or none d = d
path_or (some v) d = if is_empty v then d else some v

unfoldable pub with_env_overrides :
    (String → Option String) → (u32 u64 : String → Option ℕ) → BrowserConfig → BrowserConfig
with_env_overrides var u32 u64 c = record c {
  pool_max = unwrap_or (var "GCTRL_BROWSER_POOL_MAX" >>= u32) c.pool_max;
  recycle_idle_seconds =
      unwrap_or (var "GCTRL_BROWSER_RECYCLE_IDLE_SECS" >>= u64) c.recycle_idle_seconds;
  recycle_max_age_seconds =
      unwrap_or (var "GCTRL_BROWSER_RECYCLE_MAX_AGE_SECS" >>= u64) c.recycle_max_age_seconds;
  default_ttl_seconds =
      unwrap_or (var "GCTRL_BROWSER_DEFAULT_TTL_SECS" >>= u32) c.default_ttl_seconds;
  chromium_path = path_or (var "GCTRL_BROWSER_CHROMIUM_PATH") c.chromium_path;
}
