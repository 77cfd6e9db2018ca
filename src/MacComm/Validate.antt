-- ===== src/MacComm/Validate.antt =====
-- The validators: kernel/crates/gctrl-mac-comm/src/validate.rs.
pub mod Safe
use gctrl.Prelude.{
  ℕ, Bool, true, false, ◌||◌, List, [], ◌∷◌, ◌++◌, Option, none, some, String, if◌then◌else◌,
}
use gctrl.Prelude.Result.{Result, ok, err, ◌>>◌}
use gctrl.MacComm.Model.{
  TerminalApp, iterm2, terminal, ghostty, vscode, warp, unknown, TerminalContext, FocusRequest,
  CommError, validation, unknown_target,
}
use gctrl.MacComm.Pattern.{Piece, Class, is_match, digits, letters, hex_digits, letter, piece}

-- `w[0-9]{1,4}t[0-9]{1,4}p[0-9]{1,4}:` and the five groups of the identifier.
abbrev pub re_iterm2_session : List Piece
re_iterm2_session =
    letter 119
    ∷ piece digits 1 4
    ∷ letter 116
    ∷ piece digits 1 4
    ∷ letter 112
    ∷ piece digits 1 4
    ∷ letter 58
    ∷ piece hex_digits 8 8
    ∷ letter 45
    ∷ piece hex_digits 4 4
    ∷ letter 45
    ∷ piece hex_digits 4 4
    ∷ letter 45
    ∷ piece hex_digits 4 4
    ∷ letter 45
    ∷ piece hex_digits 12 12
    ∷ []

-- `[A-Za-z0-9_:.-]{1,64}`.
abbrev pub re_generic_session : List Piece
re_generic_session = piece (letters ++ digits ++ (95, 95) ∷ (58, 58) ∷ (45, 46) ∷ []) 1 64 ∷ []

abbrev pub re_index : List Piece
re_index = piece digits 1 4 ∷ []

abbrev dev : List Piece
dev = letter 47 ∷ letter 100 ∷ letter 101 ∷ letter 118 ∷ letter 47 ∷ []

-- `[a-z0-9]{1,8}`.
abbrev tty_name : Piece
tty_name = piece ((97, 122) ∷ (48, 57) ∷ []) 1 8

-- The two alternatives of `/dev/(tty|pty)[a-z0-9]{1,8}`.
abbrev pub re_tty : List Piece
re_tty = dev ++ letter 116 ∷ letter 116 ∷ letter 121 ∷ tty_name ∷ []

abbrev pub re_pty : List Piece
re_pty = dev ++ letter 112 ∷ letter 116 ∷ letter 121 ∷ tty_name ∷ []

-- `/[A-Za-z0-9._/() \[\]+,&@!~=#:-]{0,512}`.
abbrev pub re_cwd : List Piece
re_cwd =
    letter 47
    ∷ piece
        (letters
          ++ digits
          ++ (46, 46)
            ∷ (95, 95)
            ∷ (47, 47)
            ∷ (40, 41)
            ∷ (32, 32)
            ∷ (91, 91)
            ∷ (93, 93)
            ∷ (43, 44)
            ∷ (38, 38)
            ∷ (64, 64)
            ∷ (33, 33)
            ∷ (126, 126)
            ∷ (61, 61)
            ∷ (35, 35)
            ∷ (58, 58)
            ∷ (45, 45)
            ∷ [])
        0 512
    ∷ []

-- `[a-z][a-zA-Z0-9.-]{2,63}`.
abbrev pub re_bundle_id : List Piece
re_bundle_id = piece ((97, 122) ∷ []) 1 1 ∷ piece (letters ++ digits ++ (45, 46) ∷ []) 2 63 ∷ []

-- `[A-Za-z0-9 ._-]{1,64}`.
abbrev pub re_term_program : List Piece
re_term_program =
    piece (letters ++ digits ++ (32, 32) ∷ (46, 46) ∷ (95, 95) ∷ (45, 45) ∷ []) 1 64 ∷ []

-- `Result<(), CommError>`.
abbrev pub Checked : Type 0
Checked = Result {0, 0} CommError Unit

abbrev accept : Bool → (field pattern : String) → Checked
accept true field pattern = ok tt
accept false field pattern = err (validation field pattern)

unfoldable pub session_id : TerminalApp → String → Checked
unfolding is_match
session_id iterm2 value =
    accept (is_match re_iterm2_session value) "session_id" "w[0-9]+t[0-9]+p[0-9]+:<UUIDv4>"
session_id unknown value = err (validation "session_id" "(no validator for unknown target)")
session_id target value =
    accept (is_match re_generic_session value) "session_id" "[A-Za-z0-9_:.-]{1,64}"

unfoldable pub window_or_tab_index : String → String → Checked
unfolding is_match
window_or_tab_index field value = accept (is_match re_index value) field "[0-9]{1,4}"

unfoldable pub tty : String → Checked
unfolding is_match
tty value =
    accept (is_match re_tty value || is_match re_pty value) "tty" "/dev/(tty|pty)[a-z0-9]{1,8}"

unfoldable pub cwd : String → Checked
unfolding is_match
cwd value = accept (is_match re_cwd value) "cwd" "/[A-Za-z0-9._/() \\[\\]+,&@!~=#:-]{0,512}"

unfoldable pub bundle_id : String → Checked
unfolding is_match
bundle_id value = accept (is_match re_bundle_id value) "bundle_id" "[a-z][a-zA-Z0-9.-]{2,63}"

unfoldable pub term_program : String → String → Checked
unfolding is_match
term_program field value = accept (is_match re_term_program value) field "[A-Za-z0-9 ._-]{1,64}"

-- `if let Some(v) = field { check(v)?; }`.
abbrev pub if_some : (String → Checked) → Option String → Checked
if_some check none = ok tt
if_some check (some v) = check v

abbrev pub is_unknown : TerminalApp → Bool
is_unknown unknown = true
is_unknown target = false

unfoldable pub focus_request : FocusRequest → Checked
unfolding session_id window_or_tab_index cwd
focus_request req = if is_unknown req.target then err (unknown_target "unknown") else (do
  if_some (session_id req.target) req.session_id
  if_some (window_or_tab_index "window_id") req.window_id
  if_some (window_or_tab_index "tab_id") req.tab_id
  if_some cwd req.cwd
  ok tt)

unfoldable pub terminal_context : TerminalContext → Checked
unfolding bundle_id session_id window_or_tab_index tty cwd term_program
terminal_context ctx = do
  if_some bundle_id ctx.bundle_id
  if_some (session_id ctx.app) ctx.session_id
  if_some (window_or_tab_index "window_id") ctx.window_id
  if_some (window_or_tab_index "tab_id") ctx.tab_id
  if_some tty ctx.tty
  if_some cwd ctx.cwd
  if_some (term_program "term_program") ctx.term_program
  if_some (term_program "term_program_version") ctx.term_program_version
  ok tt
