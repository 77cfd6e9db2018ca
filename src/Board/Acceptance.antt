-- ===== src/Board/Acceptance.antt =====
-- The acceptance checks of kernel/crates/gctrl-core/src/acceptance.rs, and their rows in
-- kernel/crates/gctrl-storage/src/sqlite_store.rs.
pub mod Laws
use gctrl.Prelude.{
  ℕ, suc, ◌+◌, ◌≡◌, refl, ◌↔◌, Bool, true, false, not, ◌&&◌, ◌||◌, List, [], ◌∷◌, ◌++◌, Option,
  none, some, String, arith, Eq, ◌==◌, String_eq, ℕ_eq, nat_eq, leb, ltb, length, find, retain,
  update_where, count_where, sort_by, if◌then◌else◌,
}
use gctrl.Prelude.Options.{◌>>=◌}
use gctrl.Prelude.Text.{trim_start, trim, strip_char, split_once, lines, is_empty}

pub data AcceptanceKind : Type 0 where
  shell test http : AcceptanceKind

unfoldable pub kind_as_str : AcceptanceKind → String
kind_as_str shell = "shell"
kind_as_str test = "test"
kind_as_str http = "http"

unfoldable pub kind_from_str : String → Option AcceptanceKind
kind_from_str s =
    if s == "shell"
    then some shell
    else if s == "test"
    then some test
    else if s == "http"
    then some http
    else none

pub data AcceptanceStatus : Type 0 where
  pending running pass fail : AcceptanceStatus

pub record AcceptanceCheck : Type 0 where
  pub idx : ℕ
  pub kind : AcceptanceKind
  pub command : String

abbrev pub or_else {ℓ} : {A : Type ℓ} → Option A → Option A → Option A
or_else none b = b
or_else (some a) b = some a

abbrev is_marker : String → Bool
is_marker m = m == " " || m == "x" || m == "X"

-- The first character as a text, and the rest.
abbrev next_char : String → Option (String × String)
next_char String.[] = none
next_char (String.◌∷◌ c s) = some (String.◌∷◌ c String.[], s)

unfoldable pub strip_checkbox_prefix : String → Option String
unfolding trim_start
strip_checkbox_prefix s = do
  rest ← or_else (or_else (strip_char b'-' s) (strip_char b'*' s)) (strip_char b'+' s)
  rest ← strip_char b'[' (trim_start rest)
  (marker, rest) ← next_char rest
  if is_marker marker then (do rest ← strip_char b']' rest; some (trim_start rest)) else none

-- The body of the loop, less the count: `none` is `continue`.
unfoldable pub parse_line : String → Option (AcceptanceKind × String)
unfolding strip_checkbox_prefix trim_start trim split_once kind_from_str
parse_line line = do
  after_box ← strip_checkbox_prefix (trim_start line)
  (kind_str, command) ← split_once b':' after_box
  kind ← kind_from_str (trim kind_str)
  if is_empty (trim command) then none else some (kind, trim command)

-- What a line adds to the checks: its number is how many there are so far.
unfoldable pub add_check :
    ℕ → Option (AcceptanceKind × String) → (ℕ → List AcceptanceCheck) → List AcceptanceCheck
add_check n none rest = rest n
add_check n (some (kind, command)) rest =
    record { idx = n; kind = kind; command = command } ∷ rest (suc n)

-- The loop, with the number of checks that are found so far.
unfoldable pub parse_lines : ℕ → List String → List AcceptanceCheck
unfolding parse_line add_check
parse_lines n [] = []
parse_lines n (line ∷ rest) = add_check n (parse_line line) (λ m. parse_lines m rest)

unfoldable pub parse_acceptance_criteria : String → List AcceptanceCheck
unfolding parse_lines lines
parse_acceptance_criteria input = parse_lines 0 (lines input)
