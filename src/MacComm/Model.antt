-- ===== src/MacComm/Model.antt =====
-- Requests, responses and errors: model.rs and error.rs of kernel/crates/gctrl-mac-comm/src.
use gctrl.Prelude.{ℕ, Bool, true, false, Option, none, some, String}
use gctrl.Prelude.Integers.{ℤ}

pub data TerminalApp : Type 0 where
  iterm2 terminal ghostty vscode warp unknown : TerminalApp

unfoldable pub label : TerminalApp → String
label iterm2 = "iTerm2"
label terminal = "Terminal"
label ghostty = "Ghostty"
label vscode = "VS Code"
label warp = "Warp"
label unknown = "unknown"

-- `{:?}`.
unfoldable pub debug_name : TerminalApp → String
debug_name iterm2 = "Iterm2"
debug_name terminal = "Terminal"
debug_name ghostty = "Ghostty"
debug_name vscode = "Vscode"
debug_name warp = "Warp"
debug_name unknown = "Unknown"

pub record TerminalContext : Type 0 where
  pub app : TerminalApp
  pub bundle_id : Option String
  pub session_id : Option String
  pub window_id : Option String
  pub tab_id : Option String
  pub tty : Option String
  pub pid : Option ℕ
  pub ppid : Option ℕ
  pub cwd : Option String
  pub term_program : Option String
  pub term_program_version : Option String
  pub captured_at : Option String

pub record FocusRequest : Type 0 where
  pub target : TerminalApp
  pub session_id : Option String
  pub window_id : Option String
  pub tab_id : Option String
  pub cwd : Option String
  pub origin_remote : Bool

pub record FocusResponse : Type 0 where
  pub focused : Bool
  pub reason : Option String
  pub deduped : Bool

abbrev pub focused_ok : FocusResponse
focused_ok = record { focused = true; reason = none; deduped = false }

unfoldable pub skipped : String → FocusResponse
skipped reason = record { focused = false; reason = some reason; deduped = false }

pub data CommError : Type 0 where
  not_supported : CommError
  validation : (field pattern : String) → CommError
  unknown_target : String → CommError
  session_not_found : (target session_id : String) → CommError
  target_not_running : (target : String) → CommError
  automation_denied : (target : String) → CommError
  osascript_timeout : (target : String) (ms : ℕ) → CommError
  osascript_failed : (exit_code : ℤ) (stderr : String) → CommError
  rate_limited : String → CommError
  io : String → CommError
