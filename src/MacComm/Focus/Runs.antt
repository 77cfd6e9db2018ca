-- ===== src/MacComm/Focus/Runs.antt =====
-- What a request can have `osascript` run with.
use gctrl.Prelude.{
  ◌≡◌, refl, Bool, true, false, List, [], ◌∷◌, Option, none, some, String, arith, All, Bool-cases,
  inl, inr,
}
use gctrl.Prelude.Result.{ok, err}
use gctrl.MacComm.Model.{
  TerminalApp, iterm2, terminal, ghostty, vscode, warp, unknown, FocusRequest,
}
use gctrl.MacComm.Pattern.{is_match}
use gctrl.MacComm.Validate
use gctrl.MacComm.Validate.{
  Checked, if_some, is_unknown, re_iterm2_session, re_generic_session, re_index, re_cwd,
  re_bundle_id, re_term_program, re_tty, re_pty,
}
use gctrl.MacComm.Focus.{
  Osascript, focus, focus_target, handle_focus, iterm2_script, terminal_script, iterm2_call,
  terminal_call, focus_iterm2, focus_terminal, run_script, bucket_key, limited, validated,
}
use gctrl.MacComm.Focus.Laws.{Harmless, iterm2-Match, session-Harmless, then-ok}

-- The two forms of what `osascript` is given: the handler's script, and a call of the handler with a
-- session's identifier or with two numbers.
pub data SafeRun : List String → Type 0 where
  selects_session :
      (sid : String)
      → is_match re_iterm2_session sid ≡ true
      → Harmless 64 sid
      → SafeRun (iterm2_script ∷ iterm2_call sid ∷ [])
  selects_tab :
      (window tab : String)
      → is_match re_index window ≡ true
      → is_match re_index tab ≡ true
      → SafeRun (terminal_script ∷ terminal_call window tab ∷ [])

index-Match :
    (field s : String) → Validate.window_or_tab_index field s ≡ ok tt → is_match re_index s ≡ true
unfolding Validate.window_or_tab_index
index-Match field s h = ground (arith, h)

focus_iterm2-SafeRun :
    (run : Osascript) (session : Option String)
    → if_some (Validate.session_id iterm2) session ≡ ok tt
    → All SafeRun (focus_iterm2 run session).ran
unfolding focus_iterm2 run_script
focus_iterm2-SafeRun run none h = tt
focus_iterm2-SafeRun run (some sid) h =
    (selects_session sid (iterm2-Match sid h) (session-Harmless iterm2 sid h), tt)

focus_terminal-SafeRun :
    (run : Osascript) (window tab : Option String)
    → if_some (Validate.window_or_tab_index "window_id") window ≡ ok tt
    → if_some (Validate.window_or_tab_index "tab_id") tab ≡ ok tt
    → All SafeRun (focus_terminal run window tab).ran
unfolding focus_terminal run_script
focus_terminal-SafeRun run none tab hw ht = tt
focus_terminal-SafeRun run (some window) none hw ht = tt
focus_terminal-SafeRun run (some window) (some tab) hw ht =
    (selects_tab window tab (index-Match "window_id" window hw) (index-Match "tab_id" tab ht), tt)

focus_target-SafeRun :
    (run : Osascript) (req : FocusRequest) (target : TerminalApp)
    → if_some (Validate.session_id target) req.session_id ≡ ok tt
    → if_some (Validate.window_or_tab_index "window_id") req.window_id ≡ ok tt
    → if_some (Validate.window_or_tab_index "tab_id") req.tab_id ≡ ok tt
    → All SafeRun (focus_target run req target).ran
unfolding focus_target
focus_target-SafeRun run req iterm2 hs hw ht = focus_iterm2-SafeRun run req.session_id hs
focus_target-SafeRun run req terminal hs hw ht =
    focus_terminal-SafeRun run req.window_id req.tab_id hw ht
focus_target-SafeRun run req ghostty hs hw ht = tt
focus_target-SafeRun run req vscode hs hw ht = tt
focus_target-SafeRun run req warp hs hw ht = tt
focus_target-SafeRun run req unknown hs hw ht = tt

focus-SafeRun :
    (macos : Bool) (run : Osascript) (req : FocusRequest)
    → Validate.focus_request req ≡ ok tt
    → All SafeRun (focus macos run req).ran
unfolding focus Validate.focus_request
focus-SafeRun macos run req h = elim (Bool-cases (is_unknown req.target)) [
  | inl bad ↦ cc (rw bad at h)
  | inr known ↦
      let (session, h1) =
        then-ok (if_some (Validate.session_id req.target) req.session_id) _ (rw known at h) in
      let (window, h2) =
        then-ok (if_some (Validate.window_or_tab_index "window_id") req.window_id) _ h1 in
      let (tab, h3) = then-ok (if_some (Validate.window_or_tab_index "tab_id") req.tab_id) _ h2 in
      elim (Bool-cases req.origin_remote) [
        | inl remote ↦ rw remote tt
        | inr here ↦ elim (Bool-cases macos) [
          | inl mac ↦ rw (here, mac) (focus_target-SafeRun run req req.target session window tab)
          | inr else_where ↦ rw (here, else_where) tt
        ]
      ]
]

limited-SafeRun :
    (macos : Bool) (run : Osascript) (acquires : String → Bool) (req : FocusRequest)
    → All SafeRun (focus macos run req).ran
    → All SafeRun (limited macos run acquires req).ran
limited-SafeRun macos run acquires req safe = elim (Bool-cases (acquires (bucket_key req))) [
  | inl free ↦ rw free safe
  | inr spent ↦ rw spent tt
]

-- Whatever a request holds, the handler of the route runs `osascript` only with one of its two
-- scripts and a call of the script's handler, in which stands a session's identifier of iTerm2's form,
-- without any character that could end a literal, or two numbers of at most four digits.
pub handle_focus-SafeRun :
    (macos : Bool) (run : Osascript) (acquires : String → Bool) (body : FocusRequest)
    → All SafeRun (handle_focus macos run acquires body).ran
unfolding handle_focus
handle_focus-SafeRun macos run acquires body =
    let req : FocusRequest = record body { origin_remote = false } in
    go req (Validate.focus_request req) refl
  where
    go :
        (req : FocusRequest) (checked : Checked)
        → Validate.focus_request req ≡ checked
        → All SafeRun (validated macos run acquires req checked).ran
    go req (err e) h = tt
    go req (ok u) h = limited-SafeRun macos run acquires req (focus-SafeRun macos run req h)
