-- ===== src/MacComm/Focus.antt =====
-- The focus of a terminal: focus/mod.rs, focus/iterm2.rs and focus/terminal.rs of
-- kernel/crates/gctrl-mac-comm/src, and handle_focus of kernel/crates/gctrl-otel/src/comm_routes.rs.
-- `osascript`, the platform and the rate limiter are arguments, and what `osascript` is run with is
-- kept.
pub mod Laws
pub mod Runs
use gctrl.Prelude.{
  Bool, true, false, ◌||◌, List, [], ◌∷◌, Option, none, some, String, ◌==◌, String_eq, ℕ,
  if◌then◌else◌,
}
use gctrl.Prelude.Decimal.{◌⁀◌}
use gctrl.Prelude.Integers.{ℤ, pos, is_zero}
use gctrl.Prelude.Text.{trim, contains}
use gctrl.Prelude.Result.{Result, ok, err}
use gctrl.MacComm.Model.{
  TerminalApp, iterm2, terminal, ghostty, vscode, warp, unknown, debug_name, FocusRequest,
  FocusResponse, focused_ok, skipped, CommError, not_supported, validation, unknown_target,
  session_not_found, target_not_running, automation_denied, osascript_timeout, osascript_failed,
  rate_limited, io,
}
use gctrl.MacComm.Validate
use gctrl.MacComm.Validate.{Checked}

pub record OsascriptOutput : Type 0 where
  pub exit_code : ℤ
  pub stdout : String
  pub stderr : String

-- `Osascript::run`, with the label of the target.
abbrev pub Osascript : Type 0
Osascript = String → List String → Result CommError OsascriptOutput

-- The reply, and the fragments that each run was given.
pub record Focused : Type 0 where
  pub ran : List (List String)
  pub reply : Result CommError FocusResponse

abbrev refused : CommError → Focused
refused e = record { ran = []; reply = err e }

abbrev pub iterm2_script : String
iterm2_script =
    "\non focus_iterm2_session(target_id)\n  tell application \"iTerm2\"\n    activate\n    repeat with w in windows\n      repeat with t in tabs of w\n        repeat with s in sessions of t\n          if unique ID of s is target_id then\n            select s\n            return \"ok\"\n          end if\n        end repeat\n      end repeat\n    end repeat\n  end tell\n  return \"not_found\"\nend focus_iterm2_session\n"

abbrev pub terminal_script : String
terminal_script =
    "\non focus_terminal_tab(window_idx, tab_idx)\n  tell application \"Terminal\"\n    activate\n    try\n      set selected of tab tab_idx of window window_idx to true\n      return \"ok\"\n    on error errMsg number errNum\n      if errNum is -1719 then\n        return \"not_found\"\n      else\n        error errMsg number errNum\n      end if\n    end try\n  end tell\nend focus_terminal_tab\n"

unfoldable pub classify_error : ℤ → String → String → Result CommError FocusResponse
unfolding contains
classify_error exit_code stderr target =
    if contains stderr "-1743" || contains stderr "not allowed assistive access"
    then err (automation_denied target)
    else if contains stderr "-600" || contains stderr "isn't running"
    then err (target_not_running target)
    else err (osascript_failed exit_code stderr)

-- What a run's output means, with the name of the session that it was to find.
unfoldable pub read_output :
    String → String → Result CommError OsascriptOutput → Result CommError FocusResponse
unfolding classify_error trim
read_output target session_id (err e) = err e
read_output target session_id (ok out) =
    if is_zero out.exit_code
    then (if trim out.stdout == "ok"
        then ok focused_ok
        else if trim out.stdout == "not_found"
        then err (session_not_found target session_id)
        else err (osascript_failed (pos 0) ("unexpected handler output: " ⁀ trim out.stdout)))
    else classify_error out.exit_code out.stderr target

unfoldable pub run_script : Osascript → String → String → List String → Focused
unfolding read_output
run_script run target session_id fragments = record {
  ran = fragments ∷ [];
  reply = read_output target session_id (run target fragments);
}

unfoldable pub iterm2_call : String → String
iterm2_call sid = "focus_iterm2_session(\"" ⁀ sid ⁀ "\")"

unfoldable pub terminal_call : String → String → String
terminal_call window tab = "focus_terminal_tab(" ⁀ window ⁀ ", " ⁀ tab ⁀ ")"

unfoldable pub focus_iterm2 : Osascript → Option String → Focused
unfolding run_script iterm2_call
focus_iterm2 run none = refused (validation "session_id" "required for target=iterm2")
focus_iterm2 run (some sid) = run_script run "iTerm2" sid (iterm2_script ∷ iterm2_call sid ∷ [])

unfoldable pub focus_terminal : Osascript → Option String → Option String → Focused
unfolding run_script terminal_call
focus_terminal run none tab_id = refused (validation "window_id" "required for target=terminal")
focus_terminal run (some window) none = refused (validation "tab_id" "required for target=terminal")
focus_terminal run (some window) (some tab) =
    run_script run "Terminal" ("window=" ⁀ window ⁀ " tab=" ⁀ tab)
      (terminal_script ∷ terminal_call window tab ∷ [])

unfoldable pub focus_target : Osascript → FocusRequest → TerminalApp → Focused
unfolding focus_iterm2 focus_terminal debug_name
focus_target run req iterm2 = focus_iterm2 run req.session_id
focus_target run req terminal = focus_terminal run req.window_id req.tab_id
focus_target run req unknown = refused (unknown_target "unknown")
focus_target run req target =
    refused (unknown_target (debug_name target ⁀ " adapter not implemented in M0"))

unfoldable pub focus : (macos : Bool) → Osascript → FocusRequest → Focused
unfolding focus_target skipped
focus macos run req =
    if req.origin_remote
    then record { ran = []; reply = ok (skipped "remote_session") }
    else if macos
    then focus_target run req req.target
    else refused not_supported

unfoldable pub status_of : CommError → ℕ
status_of not_supported = 501
status_of (validation field pattern) = 400
status_of (unknown_target t) = 400
status_of (session_not_found t s) = 404
status_of (target_not_running t) = 503
status_of (automation_denied t) = 403
status_of (osascript_timeout t ms) = 504
status_of (osascript_failed c s) = 502
status_of (rate_limited k) = 429
status_of (io e) = 500

abbrev or_dash : Option String → String
or_dash none = "-"
or_dash (some s) = s

unfoldable pub bucket_key : FocusRequest → String
unfolding debug_name
bucket_key req = elim req.session_id [
  | some sid ↦ sid
  | none ↦ debug_name req.target ⁀ ":" ⁀ or_dash req.window_id ⁀ ":" ⁀ or_dash req.tab_id
]

abbrev pub limited :
    (macos : Bool) → Osascript → (acquires : String → Bool) → FocusRequest → Focused
limited macos run acquires req =
    if acquires (bucket_key req)
    then focus macos run req
    else refused (rate_limited (bucket_key req))

abbrev pub validated :
    (macos : Bool) → Osascript → (acquires : String → Bool) → FocusRequest → Checked → Focused
validated macos run acquires req (err e) = refused e
validated macos run acquires req (ok u) = limited macos run acquires req

-- The handler, up to the response that it makes of the reply.
unfoldable pub handle_focus :
    (macos : Bool) → Osascript → (acquires : String → Bool) → FocusRequest → Focused
unfolding focus bucket_key
handle_focus macos run acquires body =
    let req = record body { origin_remote = false } in
    validated macos run acquires req (Validate.focus_request req)

abbrev status : Result CommError FocusResponse → ℕ
status (ok resp) = 200
status (err e) = status_of e

-- The status of the response.
unfoldable pub response_status : Focused → ℕ
unfolding status_of
response_status f = status f.reply
