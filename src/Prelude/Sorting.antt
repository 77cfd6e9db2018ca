-- ===== src/Prelude/Sorting.antt =====
-- `ORDER BY key`: a stable sort by a numeric key.
use gctrl.Prelude.Tests.{leb, if◌then◌else◌}
use gctrl.Prelude.Lists.{length, find, All}
use gctrl.Prelude.Tables.{count_where}
use Prim.Native.Nat.{ℕ, suc, ◌≤◌}
use mathlib.Core.Path.{◌≡◌, refl, ◌∙◌}
use mathlib.Core.Bool.{Bool, true, false}
use mathlib.Core.List.{List, [], ◌∷◌, ◌++◌, Perm}
use mathlib.Core.List.Perm
use mathlib.Core.Option.{none, some}
use native.Mathlib.Omega.{arith}

module _ {ℓ} {A : Type ℓ} (key : A → ℕ) where
  unfoldable pub insert_by : A → List A → List A
  insert_by x [] = x ∷ []
  insert_by x (y ∷ ys) = if leb (key x) (key y) then x ∷ y ∷ ys else y ∷ insert_by x ys

  unfoldable pub sort_by : List A → List A
  unfolding insert_by
  sort_by [] = []
  sort_by (x ∷ xs) = insert_by x (sort_by xs)

  -- Each entry's key is at most that of the next.
  abbrev pub Sorted : List A → Type 0
  Sorted [] = Unit {0}
  Sorted (x ∷ []) = Unit {0}
  Sorted (x ∷ y ∷ ys) = (key x ≤ key y) × Sorted (y ∷ ys)

  insert_by-Sorted : (x : A) (ys : List A) → Sorted ys → Sorted (insert_by x ys)
  unfolding insert_by
  insert_by-Sorted x [] h = tt
  insert_by-Sorted x (y ∷ []) h = ground arith
  insert_by-Sorted x (y ∷ z ∷ ys) h = ground (arith, insert_by-Sorted x (z ∷ ys))

  pub sort_by-Sorted : (xs : List A) → Sorted (sort_by xs)
  unfolding sort_by
  sort_by-Sorted [] = tt
  sort_by-Sorted (x ∷ xs) = insert_by-Sorted x (sort_by xs) (sort_by-Sorted xs)

  insert_by-perm : (x : A) (ys : List A) → Perm (insert_by x ys) (x ∷ ys)
  unfolding insert_by
  insert_by-perm x [] = Perm.refl _
  insert_by-perm x (y ∷ ys) =
      let rest = Perm.trans (Perm.cons y (insert_by-perm x ys)) (Perm.swap x y ys) in
      ground (arith, rest, Perm.refl (x ∷ y ∷ ys))

  pub sort_by-perm : (xs : List A) → Perm (sort_by xs) xs
  unfolding sort_by
  sort_by-perm [] = Perm.refl _
  sort_by-perm (x ∷ xs) = Perm.trans (insert_by-perm x (sort_by xs)) (Perm.cons x (sort_by-perm xs))

  module _ {κ} (P : A → Type κ) where
    insert_by-All : (x : A) (ys : List A) → P x → All P ys → All P (insert_by x ys)
    unfolding insert_by
    insert_by-All x [] h hs = (h, tt)
    insert_by-All x (y ∷ ys) h hs = ground (arith, insert_by-All x ys h hs.1)

    pub sort_by-All : (xs : List A) → All P xs → All P (sort_by xs)
    unfolding sort_by
    sort_by-All [] h = tt
    sort_by-All (x ∷ xs) h = insert_by-All x (sort_by xs) h.0 (sort_by-All xs h.1)

  insert_by_miss :
      (p : A → Bool) (x : A) (ys : List A) → p x ≡ false → find p (insert_by x ys) ≡ find p ys
  unfolding insert_by
  insert_by_miss p x [] h = ground arith
  insert_by_miss p x (y ∷ ys) h = ground (arith, insert_by_miss p x ys h)

  pub length-sort_by : (xs : List A) → length (sort_by xs) ≡ length xs
  unfolding sort_by
  length-sort_by [] = refl
  length-sort_by (x ∷ xs) = omega (arith, length-insert_by x (sort_by xs), length-sort_by xs)
    where
      length-insert_by : (x : A) (ys : List A) → length (insert_by x ys) ≡ suc (length ys)
      length-insert_by x [] = refl
      length-insert_by x (y ∷ ys) = ground (arith, length-insert_by x ys)

  insert_by-none :
      (p : A → Bool) (x : A) (ys : List A)
      → find p (insert_by x ys) ≡ none
      → (p x ≡ false) × (find p ys ≡ none)
  unfolding insert_by
  insert_by-none p x [] h = ground arith
  insert_by-none p x (y ∷ ys) h = ground (arith, insert_by-none p x ys)

  -- A search in the sorted rows that finds nothing finds the one new row that meets the test.
  pub find-sort_by-append :
      (p : A → Bool) (xs : List A) (n : A)
      → find p (sort_by xs) ≡ none
      → p n ≡ true
      → find p (sort_by (xs ++ n ∷ [])) ≡ some n
  unfolding sort_by insert_by
  find-sort_by-append p [] n h hit = ground arith
  find-sort_by-append p (x ∷ xs) n h hit =
      let (miss, rest) = insert_by-none p x (sort_by xs) h in
      insert_by_miss p x (sort_by (xs ++ n ∷ [])) miss ∙ find-sort_by-append p xs n rest hit

  pub find-none-sort_by :
      (p : A → Bool) (xs : List A) → find p (sort_by xs) ≡ none → find p xs ≡ none
  unfolding sort_by
  find-none-sort_by p [] h = refl
  find-none-sort_by p (x ∷ xs) h =
      let (miss, rest) = insert_by-none p x (sort_by xs) h in
      ground (arith, miss, find-none-sort_by p xs rest)

  insert_by-count_where :
      (p : A → Bool) (x : A) (ys : List A) → count_where p (insert_by x ys) ≡ count_where p (x ∷ ys)
  unfolding insert_by
  insert_by-count_where p x [] = refl
  insert_by-count_where p x (y ∷ ys) = ground (arith, insert_by-count_where p x ys)

  pub count_where-sort_by :
      (p : A → Bool) (xs : List A) → count_where p (sort_by xs) ≡ count_where p xs
  unfolding sort_by
  count_where-sort_by p [] = refl
  count_where-sort_by p (x ∷ xs) =
      ground (arith, insert_by-count_where p x (sort_by xs), count_where-sort_by p xs)
