-- ===== src/Scheduler/Exec/Capped.antt =====
-- What is kept of a program's output.
use gctrl.Prelude.{
  ℕ, zero, suc, ◌-◌, ◌≤◌, ◌≡◌, refl, sym, ap, ◌∙◌, Bool, true, false, List, [], ◌∷◌, ◌++◌, none,
  some, arith, ltb, nat_eq, take, length, length-append, Bool-cases, inl, inr,
}
use gctrl.Scheduler.Exec.{Read, capped_loop}

-- All that a stream gives before its end.
abbrev pub content : List Read → List ℕ
content [] = []
content (none ∷ reads) = []
content (some [] ∷ reads) = []
content (some (b ∷ bytes) ∷ reads) = (b ∷ bytes) ++ content reads

take-append_all :
    (xs ys : List ℕ) (n : ℕ) → length xs ≤ n → take n (xs ++ ys) ≡ xs ++ take (n - length xs) ys
take-append_all [] ys n le = ap (λ k. take k ys) (omega arith)
take-append_all (x ∷ xs) ys zero le = absurd (omega (arith, le))
take-append_all (x ∷ xs) ys (suc n) le =
    ap (◌∷◌ x)
      (take-append_all xs ys n (omega (arith, le)) ∙ ap (λ k. xs ++ take k ys) (omega arith))

take_whole : (xs : List ℕ) (n : ℕ) → length xs ≤ n → take n xs ≡ xs
take_whole [] zero le = refl
take_whole [] (suc n) le = refl
take_whole (x ∷ xs) zero le = absurd (omega (arith, le))
take_whole (x ∷ xs) (suc n) le = ap (◌∷◌ x) (take_whole xs n (omega (arith, le)))

take_part : (xs ys : List ℕ) (n : ℕ) → n ≤ length xs → take n (xs ++ ys) ≡ take n xs
take_part xs ys zero le = refl
take_part [] ys (suc n) le = absurd (omega (arith, le))
take_part (x ∷ xs) ys (suc n) le = ap (◌∷◌ x) (take_part xs ys n (omega (arith, le)))

append-nil : (xs : List ℕ) → xs ++ [] ≡ xs
append-nil [] = refl
append-nil (x ∷ xs) = ap (◌∷◌ x) (append-nil xs)

append_assoc : (xs ys zs : List ℕ) → (xs ++ ys) ++ zs ≡ xs ++ (ys ++ zs)
append_assoc [] ys zs = refl
append_assoc (x ∷ xs) ys zs = ap (◌∷◌ x) (append_assoc xs ys zs)

-- The capped prefix, and whether there is more.
abbrev pub capped : ℕ → List ℕ → List ℕ × Bool
capped cap bytes = (take cap bytes, ltb cap (length bytes))

both : {xs ys : List ℕ} {a b : Bool} → xs ≡ ys → a ≡ b → ◌≡◌ {A = List ℕ × Bool} (xs, a) (ys, b)
both p q = cc

past : (cap n : ℕ) → suc cap ≤ n → true ≡ ltb cap n
past cap n le = ground arith

within : (cap n : ℕ) → n ≤ cap → false ≡ ltb cap n
within cap n le = ground arith

-- A buffer that is not longer than the cap, when no more is read.
stopped : (cap : ℕ) (buf : List ℕ) → length buf ≤ cap → (buf, false) ≡ capped cap (buf ++ [])
stopped cap buf le =
    rw (append-nil buf) (both (sym (take_whole buf cap le)) (within cap (length buf) le))

full :
    (cap : ℕ) (buf chunk rest : List ℕ)
    → length buf ≤ cap
    → cap - length buf ≡ 0
    → suc 0 ≤ length chunk
    → (buf, true) ≡ capped cap (buf ++ (chunk ++ rest))
full cap buf chunk rest le spent some_more =
    both
      (sym (
        take-append_all buf (chunk ++ rest) cap le
        ∙ ap (λ k. buf ++ take k (chunk ++ rest)) spent
        ∙ append-nil buf))
      (past cap (length (buf ++ (chunk ++ rest))) (
        omega (
          arith,
          length-append buf (chunk ++ rest),
          length-append chunk rest,
          spent,
          some_more,
          le,
        )))

cut :
    (cap : ℕ) (buf chunk rest : List ℕ)
    → length buf ≤ cap
    → suc (cap - length buf) ≤ length chunk
    → (buf ++ take (cap - length buf) chunk, true) ≡ capped cap (buf ++ (chunk ++ rest))
cut cap buf chunk rest le over =
    both
      (sym (
        take-append_all buf (chunk ++ rest) cap le
        ∙ ap (λ xs. buf ++ xs) (take_part chunk rest (cap - length buf) (omega (arith, over)))))
      (past cap (length (buf ++ (chunk ++ rest)))
        (omega (arith, length-append buf (chunk ++ rest), length-append chunk rest, over, le)))

-- The reader keeps as many of the bytes that follow the buffer as the cap has room for, and tells
-- whether there were more.
capped_loop-content :
    (cap : ℕ) (buf : List ℕ) (reads : List Read)
    → length buf ≤ cap
    → capped_loop cap buf reads ≡ capped cap (buf ++ content reads)
unfolding capped_loop
capped_loop-content cap buf [] le = stopped cap buf le
capped_loop-content cap buf (none ∷ reads) le = stopped cap buf le
capped_loop-content cap buf (some [] ∷ reads) le = stopped cap buf le
capped_loop-content cap buf (some (b ∷ bytes) ∷ reads) le =
    elim (Bool-cases (nat_eq (cap - length buf) 0)) [
      | inl spent ↦
          rw spent
            (full cap buf (b ∷ bytes) (content reads) le (ground (arith, spent)) (omega arith))
      | inr room ↦ elim (Bool-cases (ltb (cap - length buf) (length (b ∷ bytes)))) [
        | inl over ↦
            rw (room, over) (cut cap buf (b ∷ bytes) (content reads) le (ground (arith, over)))
        | inr fits ↦
            rw (room, fits)
              (capped_loop-content cap (buf ++ b ∷ bytes) reads
                  (ground (arith, fits, room, le, length-append buf (b ∷ bytes)))
                ∙ ap (capped cap) (append_assoc buf (b ∷ bytes) (content reads)))
      ]
    ]

-- What is kept of a program's output is the first bytes of it, as many as the cap allows, and the
-- mark of an overflow stands exactly if there are more, however the output comes in pieces.
pub capped_loop-capped :
    (cap : ℕ) (reads : List Read) → capped_loop cap [] reads ≡ capped cap (content reads)
capped_loop-capped cap reads = capped_loop-content cap [] reads (omega arith)
