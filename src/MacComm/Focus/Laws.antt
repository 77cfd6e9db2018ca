-- ===== src/MacComm/Focus/Laws.antt =====
-- What a request holds that passes the validation.
use gctrl.Prelude.{
  ℕ, ◌≤◌, ◌≡◌, refl, true, false, Option, none, some, String, arith, Bool-cases, inl, inr,
}
use gctrl.Prelude.Result.{ok, err, ◌>>◌}
use gctrl.MacComm.Model.{
  TerminalApp, iterm2, terminal, ghostty, vscode, warp, unknown, FocusRequest,
}
use gctrl.MacComm.Pattern.{is_match}
use gctrl.MacComm.Validate
use gctrl.MacComm.Validate.{
  Checked, if_some, is_unknown, re_iterm2_session, re_generic_session, re_index, re_cwd,
  re_bundle_id, re_term_program, re_tty, re_pty,
}
use gctrl.MacComm.Validate.Safe.{AllSafe, chars, is_match-Safe}

-- A short text without characters that could end a literal.
abbrev pub Harmless : ℕ → String → Type 0
Harmless limit s = AllSafe s × (chars s ≤ limit)

abbrev pub IfSome : (String → Type 0) → Option String → Type 0
IfSome P none = Unit
IfSome P (some s) = P s

index-Harmless : (field s : String) → Validate.window_or_tab_index field s ≡ ok tt → Harmless 4 s
unfolding Validate.window_or_tab_index
index-Harmless field s h = is_match-Safe re_index s refl (ground (arith, h))

cwd-Harmless : (s : String) → Validate.cwd s ≡ ok tt → Harmless 513 s
unfolding Validate.cwd
cwd-Harmless s h = is_match-Safe re_cwd s refl (ground (arith, h))

pub iterm2-Match :
    (s : String) → Validate.session_id iterm2 s ≡ ok tt → is_match re_iterm2_session s ≡ true
unfolding Validate.session_id
iterm2-Match s h = ground (arith, h)

more : (s : String) (n m : ℕ) → Harmless n s → n ≤ m → Harmless m s
more s n m (a, b) le = (a, omega (arith, b, le))

generic-Harmless : (s : String) → is_match re_generic_session s ≡ true → Harmless 64 s
generic-Harmless s h = is_match-Safe re_generic_session s refl h

pub session-Harmless :
    (target : TerminalApp) (s : String) → Validate.session_id target s ≡ ok tt → Harmless 64 s
unfolding Validate.session_id
session-Harmless iterm2 s h =
    more s 52 64 (is_match-Safe re_iterm2_session s refl (iterm2-Match s h)) (omega arith)
session-Harmless unknown s h = cc
session-Harmless terminal s h = generic-Harmless s (ground (arith, h))
session-Harmless ghostty s h = generic-Harmless s (ground (arith, h))
session-Harmless vscode s h = generic-Harmless s (ground (arith, h))
session-Harmless warp s h = generic-Harmless s (ground (arith, h))

if_some-IfSome :
    (P : String → Type 0) (check : String → Checked)
    → ((s : String) → check s ≡ ok tt → P s)
    → (o : Option String) → if_some check o ≡ ok tt
    → IfSome P o
if_some-IfSome P check sound none h = tt
if_some-IfSome P check sound (some s) h = sound s h

-- The first of two checks, and the second, when both pass.
pub then-ok :
    (first second : Checked) → (first >> second) ≡ ok tt → (first ≡ ok tt) × (second ≡ ok tt)
then-ok (ok tt) second h = (refl, h)
then-ok (err e) second h = cc

-- The form of a session's identifier: iTerm2's own, or the looser one of the other terminals.
abbrev pub SessionForm : TerminalApp → String → Type 0
SessionForm iterm2 s = is_match re_iterm2_session s ≡ true
SessionForm unknown s = ⊥
SessionForm target s = is_match re_generic_session s ≡ true

session-Form :
    (target : TerminalApp) (s : String)
    → Validate.session_id target s ≡ ok tt
    → SessionForm target s
unfolding Validate.session_id
session-Form iterm2 s h = ground (arith, h)
session-Form unknown s h = cc
session-Form terminal s h = ground (arith, h)
session-Form ghostty s h = ground (arith, h)
session-Form vscode s h = ground (arith, h)
session-Form warp s h = ground (arith, h)

-- What a request that passes has in each of its fields.
abbrev pub Accepted : FocusRequest → Type 0
Accepted req =
    (is_unknown req.target ≡ false)
    × IfSome (SessionForm req.target) req.session_id
    × IfSome (Harmless 64) req.session_id
    × IfSome (Harmless 4) req.window_id
    × IfSome (Harmless 4) req.tab_id
    × IfSome (Harmless 513) req.cwd

-- A request that passes the validation names a terminal that is known, and each of its fields is
-- missing or a text of at most 64 (the session), 4 (the window and the tab) or 513 characters (the
-- directory) without quotes, backslashes, semicolons, dollar signs, backticks, asterisks, question
-- marks, control characters or anything that is not ASCII; the session of iTerm2 matches iTerm2's own
-- pattern, and that of another terminal the generic one.
pub focus_request-Accepted :
    (req : FocusRequest) → Validate.focus_request req ≡ ok tt → Accepted req
unfolding Validate.focus_request
focus_request-Accepted req h = elim (Bool-cases (is_unknown req.target)) [
  | inl bad ↦ cc (rw bad at h)
  | inr known ↦
      let (session, h1) =
        then-ok (if_some (Validate.session_id req.target) req.session_id) _ (rw known at h) in
      let (window, h2) =
        then-ok (if_some (Validate.window_or_tab_index "window_id") req.window_id) _ h1 in
      let (tab, h3) = then-ok (if_some (Validate.window_or_tab_index "tab_id") req.tab_id) _ h2 in
      let (directory, h4) = then-ok (if_some Validate.cwd req.cwd) _ h3 in
      (
        known,
        if_some-IfSome (SessionForm req.target) _ (session-Form req.target) req.session_id session,
        if_some-IfSome (Harmless 64) _ (session-Harmless req.target) req.session_id session,
        if_some-IfSome (Harmless 4) _ (index-Harmless "window_id") req.window_id window,
        if_some-IfSome (Harmless 4) _ (index-Harmless "tab_id") req.tab_id tab,
        if_some-IfSome (Harmless 513) _ cwd-Harmless req.cwd directory,
      )
]
