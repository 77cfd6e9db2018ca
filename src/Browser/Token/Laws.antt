-- ===== src/Browser/Token/Laws.antt =====
-- What the comparison of tokens decides.
use gctrl.Prelude.{
  ℕ, zero, suc, ◌≡◌, refl, ◌↔◌, Bool, true, not, ◌&&◌, ◌||◌, List, [], ◌∷◌, arith, nat_eq, length,
  ap, nat_eq_iff, Bool-cases, inl, inr,
}
use gctrl.Browser.Token.{Bits, Byte, xor, mark, is_zero, zero_bits, diff_loop, verify}

is_zero-zero_bits : (n : ℕ) → is_zero n (zero_bits n) ≡ true
is_zero-zero_bits zero = refl
is_zero-zero_bits (suc n) = is_zero-zero_bits n

bit_clear :
    (d a b rest : Bool)
    → ((not (d || xor a b) && rest) ≡ true) ↔ ((not d ≡ true) × (a ≡ b) × (rest ≡ true))
bit_clear d a b rest = ground arith

and_true : (a b : Bool) → ((a && b) ≡ true) ↔ ((a ≡ true) × (b ≡ true))
and_true a b = ground arith

-- The marks are clear if they were, and the words agree.
is_zero-mark :
    (n : ℕ) (d a b : Bits n) → (is_zero n (mark n d a b) ≡ true) ↔ ((is_zero n d ≡ true) × (a ≡ b))
is_zero-mark zero d a b = (λ h. (refl, refl), λ h. refl)
is_zero-mark (suc n) (d, ds) (a, zs) (b, bs) =
    let (there, back) = bit_clear d a b (is_zero n (mark n ds zs bs)) in
    let (split, join) = and_true (not d) (is_zero n ds) in
    let (rest_there, rest_back) = is_zero-mark n ds zs bs in
    (
      λ h.
          let (x, same, y) = there h in
          let (z, sames) = rest_there y in (join (x, z), λ i. (same i, sames i)),
      λ (h, e). let (x, y) = split h in back (x, ap (λ p. p.0) e, rest_back (y, ap (λ p. p.1) e)),
    )

diff_loop_iff :
    (d : Byte) (xs ys : List Byte)
    → length xs ≡ length ys
    → (is_zero 8 (diff_loop d xs ys) ≡ true) ↔ ((is_zero 8 d ≡ true) × (xs ≡ ys))
unfolding diff_loop
diff_loop_iff d [] [] e = (λ h. (h, refl), λ h. h.0)
diff_loop_iff d [] (y ∷ ys) e = ground arith
diff_loop_iff d (x ∷ xs) [] e = ground arith
diff_loop_iff d (x ∷ xs) (y ∷ ys) e =
    let (there, back) = diff_loop_iff (mark 8 d x y) xs ys (omega (arith, e)) in
    let (split, join) = is_zero-mark 8 d x y in
    (
      λ h. let (m, rest) = there h in let (z, same) = split m in (z, cc (same, rest)),
      λ (z, same). back (join (z, cc same), cc same),
    )

-- The comparison of two tokens accepts exactly the equal ones.
pub verify_iff :
    (actual expected : List Byte) → (verify actual expected ≡ true) ↔ (actual ≡ expected)
unfolding verify
verify_iff actual expected = elim (Bool-cases (nat_eq (length actual) (length expected))) [
  | inl e ↦
      let same_length = (nat_eq_iff (length actual) (length expected)).0 e in
      let (there, back) = diff_loop_iff (zero_bits 8) actual expected same_length in
      rw e (λ h. (there h).1, λ same. back (is_zero-zero_bits 8, same))
  | inr e ↦
      rw e (
        λ h. cc h,
        λ same. cc (e, (nat_eq_iff (length actual) (length expected)).1 (ap length same)),
      )
]
