-- ===== src/Prelude/Text.antt =====
-- The methods of Rust's `str` that the program uses, on texts as lists of characters.
use Prim.Native.Nat.{ℕ, ◌+◌}
use Prim.Native.Char.{Char, code}
use Prim.Native.String.{String, [], ◌∷◌}
use mathlib.Core.Bool.{Bool, true, false, ◌&&◌, ◌||◌}
use mathlib.Core.Option.{Option, none, some}
use mathlib.Core.List.{List}
use text.Mathlib.Text.{◌==◌ as str_eq}
use gctrl.Prelude.Tests.{ltb, leb, nat_eq, if◌then◌else◌}

-- `char::is_whitespace`: the code points with the property White_Space.
unfoldable pub is_whitespace : Char → Bool
is_whitespace c =
    (leb 9 (code c) && leb (code c) 13)
    || nat_eq (code c) 32
    || nat_eq (code c) 133
    || nat_eq (code c) 160
    || nat_eq (code c) 5760
    || (leb 8192 (code c) && leb (code c) 8202)
    || nat_eq (code c) 8232
    || nat_eq (code c) 8233
    || nat_eq (code c) 8239
    || nat_eq (code c) 8287
    || nat_eq (code c) 12288

abbrev pub is_empty : String → Bool
is_empty [] = true
is_empty (c ∷ s) = false

unfoldable pub trim_start : String → String
unfolding is_whitespace
trim_start [] = []
trim_start (c ∷ s) = let rest = trim_start s in if is_whitespace c then rest else c ∷ s

unfoldable pub trim_end : String → String
unfolding is_whitespace
trim_end [] = []
trim_end (c ∷ s) =
    let rest = trim_end s in if is_whitespace c && is_empty rest then [] else c ∷ rest

unfoldable pub trim : String → String
unfolding trim_start trim_end
trim s = trim_end (trim_start s)

-- `strip_prefix` with a character.
abbrev pub strip_char : ℕ → String → Option String
strip_char k [] = none
strip_char k (c ∷ s) = if nat_eq (code c) k then some s else none

abbrev pub strip_text : String → String → Option String
strip_text [] s = some s
strip_text (p ∷ ps) [] = none
strip_text (p ∷ ps) (c ∷ s) =
    let rest = strip_text ps s in if nat_eq (code c) (code p) then rest else none

-- `starts_with`.
abbrev pub starts_with : String → String → Bool
starts_with s p = elim (strip_text p s) [ none ↦ false | some _ ↦ true ]

-- `contains`.
unfoldable pub contains : String → String → Bool
contains [] p = starts_with [] p
contains (c ∷ s) p = let rest = contains s p in starts_with (c ∷ s) p || rest

-- `split_once` with a character: what stands before its first occurrence, and after it.
unfoldable pub split_once : ℕ → String → Option (String × String)
split_once k [] = none
split_once k (c ∷ s) =
    let rest = split_once k s in
    if nat_eq (code c) k
    then some ([], s)
    else elim rest [ none ↦ none | some (a, b) ↦ some (c ∷ a, b) ]

abbrev push_char : Char → List String → List String
push_char c List.[] = List.◌∷◌ (c ∷ []) List.[]
push_char c (List.◌∷◌ l ls) = List.◌∷◌ (c ∷ l) ls

abbrev at_newline : String → Bool
at_newline [] = false
at_newline (c ∷ s) = nat_eq (code c) 10

-- `lines`: the line feeds end the lines, each with a carriage return before it taken off.
unfoldable pub lines : String → List String
lines [] = List.[]
lines (c ∷ s) =
    let rest = lines s in
    if nat_eq (code c) 10
    then List.◌∷◌ [] rest
    else if nat_eq (code c) 13 && at_newline s
    then rest
    else push_char c rest

-- `trim_end_matches` with a character.
unfoldable pub trim_end_matches : ℕ → String → String
trim_end_matches k [] = []
trim_end_matches k (c ∷ s) =
    let rest = trim_end_matches k s in if nat_eq (code c) k && is_empty rest then [] else c ∷ rest

-- `ends_with`.
unfoldable pub ends_with : String → String → Bool
ends_with [] p = is_empty p
ends_with (c ∷ s) p = let rest = ends_with s p in str_eq (c ∷ s) p || rest

-- The bytes of a character in UTF-8.
unfoldable pub utf8_len : Char → ℕ
utf8_len c =
    if ltb (code c) 128
    then 1
    else if ltb (code c) 2048
    then 2
    else if ltb (code c) 65536
    then 3
    else 4

unfoldable pub byte_len : String → ℕ
unfolding utf8_len
byte_len [] = 0
byte_len (c ∷ s) = utf8_len c + byte_len s

abbrev in_word : Bool → ℕ
in_word true = 0
in_word false = 1

-- The words of a text, where a word has begun before it or not.
unfoldable words_from : Bool → String → ℕ
unfolding is_whitespace
words_from within [] = 0
words_from within (c ∷ s) = elim (is_whitespace c) [
  | true ↦ words_from false s
  | false ↦ in_word within + words_from true s
]

-- `split_whitespace().count()`.
unfoldable pub word_count : String → ℕ
unfolding words_from
word_count s = words_from false s

-- What stands before the first occurrence of a character, or the whole.
unfoldable pub until : ℕ → String → String
until k [] = []
until k (c ∷ s) = let rest = until k s in if nat_eq (code c) k then [] else c ∷ rest

-- `String::pop`.
unfoldable pub pop : String → String
pop [] = []
pop (c ∷ s) = let rest = pop s in if is_empty s then [] else c ∷ rest
