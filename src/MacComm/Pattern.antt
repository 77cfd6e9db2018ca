-- ===== src/MacComm/Pattern.antt =====
-- The regular expressions of kernel/crates/gctrl-mac-comm/src/validate.rs, which are all anchored and
-- made of classes of characters with bounds on their repetition; a letter of the pattern is a class of
-- one. The meaning of such an expression is the documented one of the crate `regex`.
use Prim.Native.Char.{Char, code}
use gctrl.Prelude.{
  ℕ, ◌-◌, Bool, true, false, ◌&&◌, ◌||◌, List, [], ◌∷◌, String, ltb, leb, nat_eq, any,
}

-- A class is a list of ranges of code points, both ends included.
abbrev pub Class : Type 0
Class = List (ℕ × ℕ)

abbrev pub in_range : Char → ℕ × ℕ → Bool
in_range c (lo, hi) = leb lo (code c) && leb (code c) hi

abbrev pub in_class : Class → Char → Bool
in_class ranges c = any (in_range c) ranges

-- `[...]{least,most}`.
pub record Piece : Type 0 where
  pub class : Class
  pub least : ℕ
  pub most : ℕ

-- A class repeated from `least` to `most` times, and then what `rest` accepts.
unfoldable pub repeats : Class → ℕ → ℕ → (String → Bool) → String → Bool
repeats class least most rest String.[] = nat_eq least 0 && rest String.[]
repeats class least most rest (String.◌∷◌ c s) =
    let further = repeats class (least - 1) (most - 1) rest s in
    (nat_eq least 0 && rest (String.◌∷◌ c s)) || (ltb 0 most && in_class class c && further)

abbrev pub at_end : String → Bool
at_end String.[] = true
at_end (String.◌∷◌ c s) = false

unfoldable pub is_match : List Piece → String → Bool
unfolding repeats
is_match [] s = at_end s
is_match (p ∷ ps) s = repeats p.class p.least p.most (is_match ps) s

abbrev pub digits : Class
digits = (48, 57) ∷ []

abbrev pub letters : Class
letters = (65, 90) ∷ (97, 122) ∷ []

abbrev pub hex_digits : Class
hex_digits = (48, 57) ∷ (97, 102) ∷ (65, 70) ∷ []

abbrev pub letter : ℕ → Piece
letter k = record { class = (k, k) ∷ []; least = 1; most = 1 }

abbrev pub piece : Class → ℕ → ℕ → Piece
piece class least most = record { class = class; least = least; most = most }
