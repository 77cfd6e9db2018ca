-- ===== src/Prelude/Tables.antt =====
-- SQL statements on a table, which is the list of its rows in the order of insertion:
-- `UPDATE t SET f WHERE p` is `update_where p f t`, and its affected rows are counted by `count_where`.
use Prim.Native.Nat.{ℕ, suc, ◌+◌, ◌≤◌}
use mathlib.Core.Path.{◌≡◌, refl}
use mathlib.Core.Bool.{Bool, true, false, ◌&&◌}
use mathlib.Core.List.{List, [], ◌∷◌, ◌++◌, map}
use mathlib.Core.Option.{some}
use native.Mathlib.Omega.{arith}
use gctrl.Prelude.Tests.{if◌then◌else◌}
use gctrl.Prelude.Lists.{find, length, retain}

module _ {ℓ} {A : Type ℓ} where
  abbrev pub update_where : (A → Bool) → (A → A) → List A → List A
  update_where p f [] = []
  update_where p f (x ∷ xs) = (if p x then f x else x) ∷ update_where p f xs

  abbrev pub count_where : (A → Bool) → List A → ℕ
  count_where p [] = 0
  count_where p (x ∷ xs) = let rest = count_where p xs in if p x then suc rest else rest

  pub length-update_where :
      (p : A → Bool) (f : A → A) (xs : List A) → length (update_where p f xs) ≡ length xs
  length-update_where p f [] = refl
  length-update_where p f (x ∷ xs) = omega (arith, length-update_where p f xs)

  -- An update that keeps what a column shows keeps the column.
  pub map-update_where {κ} :
      {B : Type κ} (g : A → B) (p : A → Bool) (f : A → A) (xs : List A)
      → ((x : A) → g (f x) ≡ g x)
      → map g (update_where p f xs) ≡ map g xs
  map-update_where g p f [] h = refl
  map-update_where g p f (x ∷ xs) h = ground (arith, map-update_where g p f xs h, h x)

  -- The row that a key finds after an update that keeps the key's test.
  pub find-update_where :
      (q p : A → Bool) (f : A → A) (xs : List A)
      → ((x : A) → q (f x) ≡ q x)
      → (a : A) → find q xs ≡ some a
      → find q (update_where p f xs) ≡ some (if p a then f a else a)
  find-update_where q p f [] h a e = cc
  find-update_where q p f (x ∷ xs) h a e = ground (arith, h x, find-update_where q p f xs h a)

  -- An update of other rows leaves alone what a key finds.
  pub find-update_where_ne :
      (q p : A → Bool) (f : A → A) (xs : List A)
      → ((x : A) → p x ≡ true → (q x ≡ false) × (q (f x) ≡ false))
      → find q (update_where p f xs) ≡ find q xs
  find-update_where_ne q p f [] h = refl
  find-update_where_ne q p f (x ∷ xs) h = ground (arith, h x, find-update_where_ne q p f xs h)

  -- No row meets a test that the update itself made false.
  pub count_where-update_where :
      (p : A → Bool) (f : A → A) (xs : List A)
      → ((x : A) → p x ≡ true → p (f x) ≡ false)
      → count_where p (update_where p f xs) ≡ 0
  count_where-update_where p f [] h = refl
  count_where-update_where p f (x ∷ xs) h = ground (arith, h x, count_where-update_where p f xs h)

  -- An update under which no row comes to meet a test does not raise the number that meet it.
  pub count_where-update_where-le :
      (q p : A → Bool) (f : A → A) (xs : List A)
      → ((x : A) → p x ≡ true → q (f x) ≡ true → q x ≡ true)
      → count_where q (update_where p f xs) ≤ count_where q xs
  count_where-update_where-le q p f [] h = omega arith
  count_where-update_where-le q p f (x ∷ xs) h =
      ground (arith, h x, count_where-update_where-le q p f xs h)

  pub count_where-append :
      (p : A → Bool) (xs ys : List A)
      → count_where p (xs ++ ys) ≡ count_where p xs + count_where p ys
  count_where-append p [] ys = omega arith
  count_where-append p (x ∷ xs) ys = ground (arith, count_where-append p xs ys)

  pub count_where-retain :
      (p q : A → Bool) (xs : List A)
      → count_where p (retain q xs) ≡ count_where (λ x. q x && p x) xs
  count_where-retain p q [] = refl
  count_where-retain p q (x ∷ xs) = ground (arith, count_where-retain p q xs)
