-- ===== src/MacComm/Examples.antt =====
-- A request for a session of iTerm2.
use gctrl.Prelude.{◌≡◌, refl, true, none, some, All}
use gctrl.Prelude.Integers.{pos}
use gctrl.Prelude.Result.{ok}
use gctrl.MacComm.Model.{FocusRequest, iterm2}
use gctrl.MacComm.Validate
use gctrl.MacComm.Focus.{Osascript, handle_focus, response_status}
use gctrl.MacComm.Focus.Laws.{Accepted, focus_request-Accepted}
use gctrl.MacComm.Focus.Runs.{SafeRun, handle_focus-SafeRun}

abbrev request : FocusRequest
request = record {
  target = iterm2;
  session_id = some "w0t0p0:6F3D8E7C-1234-4ABC-9876-FEDCBA098765";
  window_id = none;
  tab_id = some "12";
  cwd = some "/Users/v/code";
  origin_remote = true;
}

abbrev osascript : Osascript
osascript target fragments = ok (record { exit_code = pos 0; stdout = "ok\n"; stderr = "" })

passes : Validate.focus_request request ≡ ok tt
unfolding Validate.focus_request
passes = refl

focus_request-Accepted_example : Accepted request
focus_request-Accepted_example = focus_request-Accepted request passes

focuses : response_status (handle_focus true osascript (λ key. true) request) ≡ 200
unfolding handle_focus response_status Validate.focus_request
focuses = refl

handle_focus-SafeRun_example : All SafeRun (handle_focus true osascript (λ key. true) request).ran
handle_focus-SafeRun_example = handle_focus-SafeRun true osascript (λ key. true) request
