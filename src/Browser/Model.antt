-- ===== src/Browser/Model.antt =====
-- The sessions of kernel/crates/gctrl-browser/src/model.rs, and the errors of error.rs. A time is a
-- number of nanoseconds.
use gctrl.Prelude.{ℕ, Bool, true, false, Option, none, String}

pub record Viewport : Type 0 where
  pub width : ℕ
  pub height : ℕ

unfoldable pub default_viewport : Viewport
default_viewport = record { width = 1280; height = 720 }

pub record RecordingOptions : Type 0 where
  pub network : Bool
  pub console : Bool
  pub performance : Bool
  pub screenshots : Bool
  pub full : Bool
  pub max_bytes : ℕ

abbrev pub default_recording : RecordingOptions
default_recording = record {
  network = true;
  console = true;
  performance = true;
  screenshots = false;
  full = false;
  max_bytes = 52428800;
}

pub record SessionOptions : Type 0 where
  pub viewport : Option Viewport
  pub headed : Bool
  pub recording : RecordingOptions
  pub ttl_seconds : ℕ

abbrev pub default_ttl : ℕ
default_ttl = 600

abbrev pub default_options : SessionOptions
default_options = record {
  viewport = none;
  headed = false;
  recording = default_recording;
  ttl_seconds = default_ttl;
}

pub data SessionStatus : Type 0 where
  active releasing expired : SessionStatus

pub record SessionInfo : Type 0 where
  pub id : String
  pub created_at : ℕ
  pub expires_at : ℕ
  pub browser_version : String
  pub status : SessionStatus
  pub recording : RecordingOptions
  pub cdp_endpoint : String
  pub token : String
  pub dropped_frames : ℕ

pub data BrowserError : Type 0 where
  pool_exhausted : (max : ℕ) → BrowserError
  session_not_found session_expired invalid_token : String → BrowserError
  recording_disabled : BrowserError
  launch cdp invalid_request : String → BrowserError

unfoldable pub error_kind : BrowserError → String
error_kind (pool_exhausted max) = "pool_exhausted"
error_kind (session_not_found id) = "session_not_found"
error_kind (session_expired id) = "session_expired"
error_kind (invalid_token id) = "invalid_token"
error_kind recording_disabled = "recording_disabled"
error_kind (launch m) = "launch_failed"
error_kind (cdp m) = "cdp_error"
error_kind (invalid_request m) = "invalid_request"
