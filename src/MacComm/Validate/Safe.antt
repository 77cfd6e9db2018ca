-- ===== src/MacComm/Validate/Safe.antt =====
-- What a text that a validator accepts can hold.
use Prim.Native.Char.{Char, code}
use gctrl.Prelude.{
  ℕ, suc, ◌+◌, ◌-◌, ◌≤◌, ◌≡◌, Bool, true, false, ◌&&◌, ◌||◌, List, [], ◌∷◌, String, arith, ltb, leb,
  nat_eq, any, all, Bool-cases, inl, inr, ◌⊎◌,
}
use gctrl.MacComm.Pattern.{Class, Piece, in_range, in_class, repeats, is_match}

-- Quotes, the backslash, the semicolon, the dollar sign, the backtick, the asterisk and the question
-- mark.
abbrev meta_codes : List ℕ
meta_codes = 34 ∷ 39 ∷ 92 ∷ 59 ∷ 36 ∷ 96 ∷ 42 ∷ 63 ∷ []

-- A character that could end a literal or a line, or is not printable ASCII.
abbrev pub is_unsafe : Char → Bool
is_unsafe c = any (nat_eq (code c)) meta_codes || ltb (code c) 32 || ltb 126 (code c)

abbrev pub AllSafe : String → Type 0
AllSafe String.[] = Unit
AllSafe (String.◌∷◌ c s) = (is_unsafe c ≡ false) × AllSafe s

unfoldable pub chars : String → ℕ
chars String.[] = 0
chars (String.◌∷◌ c s) = suc (chars s)

-- A range of code points that has no such character.
abbrev is_safe_range : ℕ × ℕ → Bool
is_safe_range (lo, hi) = all (λ k. ltb k lo || ltb hi k) meta_codes && leb 32 lo && leb hi 126

abbrev pub safe_pieces : List Piece → Bool
safe_pieces ps = all (λ p. all is_safe_range p.class) ps

abbrev pub most_chars : List Piece → ℕ
most_chars [] = 0
most_chars (p ∷ ps) = p.most + most_chars ps

safe_range :
    (r : ℕ × ℕ) (c : Char) → is_safe_range r ≡ true → in_range c r ≡ true → is_unsafe c ≡ false
safe_range (lo, hi) c safe inside = ground arith

safe_class :
    (class : Class) (c : Char)
    → all is_safe_range class ≡ true
    → in_class class c ≡ true
    → is_unsafe c ≡ false
safe_class [] c safe inside = cc
safe_class (r ∷ rs) c safe inside = elim (Bool-cases (in_range c r)) [
  | inl here ↦ safe_range r c (ground (arith, safe)) here
  | inr there ↦ safe_class rs c (ground (arith, safe)) (ground (arith, inside, there))
]

goes_on :
    (done rest room inside further : Bool)
    → rest ≡ false
    → ((done && rest) || (room && inside && further)) ≡ true
    → (room ≡ true) × (inside ≡ true) × (further ≡ true)
goes_on done rest room inside further later h = ground arith

longer : (most bound n : ℕ) → ltb 0 most ≡ true → n ≤ (most - 1) + bound → suc n ≤ most + bound
longer most bound n room h = ground arith

both : (a b : Bool) → (a && b) ≡ true → (a ≡ true) × (b ≡ true)
both a b h = ground arith

-- What a repetition of a class without such characters accepts has none, if the rest has none.
repeats-Safe :
    (class : Class) (least most : ℕ) (rest : String → Bool) (bound : ℕ)
    → all is_safe_range class ≡ true
    → ((s : String) → rest s ≡ true → AllSafe s × (chars s ≤ bound))
    → (s : String) → repeats class least most rest s ≡ true
    → AllSafe s × (chars s ≤ most + bound)
unfolding repeats chars
repeats-Safe class least most rest bound safe after String.[] h = (tt, omega arith)
repeats-Safe class least most rest bound safe after (String.◌∷◌ c s) h =
    go (Bool-cases (rest (String.◌∷◌ c s)))
      (λ further. repeats-Safe class (least - 1) (most - 1) rest bound safe after s further)
  where
    go :
        (rest (String.◌∷◌ c s) ≡ true) ⊎ (rest (String.◌∷◌ c s) ≡ false)
        → (repeats class (least - 1) (most - 1) rest s ≡ true
            → AllSafe s × (chars s ≤ (most - 1) + bound))
        → AllSafe (String.◌∷◌ c s) × (suc (chars s) ≤ most + bound)
    go (inl now) next = let (a, b) = after (String.◌∷◌ c s) now in (a, omega (arith, b))
    go (inr later) next =
        let (room, inside, further) =
          goes_on (nat_eq least 0) (rest (String.◌∷◌ c s)) (ltb 0 most) (in_class class c)
            (repeats class (least - 1) (most - 1) rest s) later h in
        let (a, b) = next further in
        ((safe_class class c safe inside, a), longer most bound (chars s) room b)

pub is_match-Safe :
    (ps : List Piece) (s : String)
    → safe_pieces ps ≡ true
    → is_match ps s ≡ true
    → AllSafe s × (chars s ≤ most_chars ps)
unfolding is_match chars
is_match-Safe [] String.[] safe h = (tt, omega arith)
is_match-Safe [] (String.◌∷◌ c s) safe h = cc
is_match-Safe (p ∷ ps) s safe h =
    let (here, later) = both (all is_safe_range p.class) (safe_pieces ps) safe in
    repeats-Safe p.class p.least p.most (is_match ps) (most_chars ps) here
      (λ t. is_match-Safe ps t later) s h
