-- ===== src/Browser/Token.antt =====
-- The comparison of tokens in kernel/crates/gctrl-browser/src/token.rs. A text is the list
-- of its bytes; `xor` and `or` are taken bit by bit.
pub mod Laws
use gctrl.Prelude.{
  ℕ, zero, suc, ◌+◌, ◌*◌, ◌/◌, ◌%◌, Bool, true, false, not, ◌&&◌, ◌||◌, List, [], ◌∷◌, nat_eq,
  length, if◌then◌else◌,
}

-- A word as its bits, the lowest first.
abbrev pub Bits : ℕ → Type 0
Bits zero = Unit {0}
Bits (suc n) = Bool × Bits n

abbrev pub Byte : Type 0
Byte = Bits 8

abbrev pub xor : Bool → Bool → Bool
xor true b = not b
xor false b = b

abbrev pub zero_bits : (n : ℕ) → Bits n
zero_bits zero = tt
zero_bits (suc n) = (false, zero_bits n)

-- `diff | (a ^ b)`.
abbrev pub mark : (n : ℕ) → Bits n → Bits n → Bits n → Bits n
mark zero d a b = tt
mark (suc n) (d, ds) (a, zs) (b, bs) = (d || xor a b, mark n ds zs bs)

abbrev pub is_zero : (n : ℕ) → Bits n → Bool
is_zero zero d = true
is_zero (suc n) (d, ds) = not d && is_zero n ds

-- The loop over the zipped bytes.
unfoldable pub diff_loop : Byte → List Byte → List Byte → Byte
diff_loop diff [] expected = diff
diff_loop diff (a ∷ actual) [] = diff
diff_loop diff (a ∷ actual) (b ∷ expected) = diff_loop (mark 8 diff a b) actual expected

unfoldable pub verify : List Byte → List Byte → Bool
unfolding diff_loop
verify actual expected =
    if nat_eq (length actual) (length expected)
    then is_zero 8 (diff_loop (zero_bits 8) actual expected)
    else false
