-- ===== src/Prelude/Result.antt =====
-- Rust's `Result`, with the error type first, and the `?` operator as `>>=`.
use mathlib.Core.Path.{◌≡◌, refl}
use mathlib.Core.Option.{Option, none, some}

pub data Result {ℓ κ} (E : Type κ) (A : Type ℓ) : Type (ℓ ⊔ κ) where
  ok : A → Result E A
  err : E → Result E A

-- `e?` leaves with an error at once, and else goes on with the value.
abbrev pub ◌>>=◌ {μ ε ν} :
    {X : Type μ} {Y : Type ν} {E : Type ε} → Result E X → (X → Result E Y) → Result E Y
◌>>=◌ (err failure) go_on = err failure
◌>>=◌ (ok value) go_on = go_on value

infixl 5 ◌>>=◌
-- `e?;`, for a result whose value is not used.
abbrev pub ◌>>◌ {μ ε ν} :
    {X : Type μ} {Y : Type ν} {E : Type ε} → Result E X → Result E Y → Result E Y
◌>>◌ (err failure) next = err failure
◌>>◌ (ok value) next = next

infixl 5 ◌>>◌
-- `Option::ok_or`.
abbrev pub ok_or {ℓ κ} : {E : Type κ} {A : Type ℓ} → Option A → E → Result E A
ok_or none e = err e
ok_or (some a) e = ok a

-- If `o.ok_or(e)?` goes on and all succeeds, the option had a value.
pub ok_or-eq-ok {μ ε ν} :
    {X : Type μ} {Y : Type ν} {E : Type ε} (o : Option X) (failure : E) (go_on : X → Result E Y)
    {result : Y}
    → (ok_or o failure >>= go_on) ≡ ok result
    → (value : X) × (o ≡ some value) × (go_on value ≡ ok result)
ok_or-eq-ok (some value) failure go_on went = (value, refl, went)
ok_or-eq-ok none failure go_on went = cc

pub ok-injective {ℓ κ} :
    {E : Type κ} {A : Type ℓ} {a b : A} → ◌≡◌ {A = Result E A} (ok a) (ok b) → a ≡ b
ok-injective h = cc

-- If `r?` goes on and all succeeds, `r` had a value.
pub bind-eq-ok {μ ε ν} :
    {X : Type μ} {Y : Type ν} {E : Type ε} (r : Result E X) (go_on : X → Result E Y) {result : Y}
    → (r >>= go_on) ≡ ok result
    → (value : X) × (r ≡ ok value) × (go_on value ≡ ok result)
bind-eq-ok (ok value) go_on went = (value, refl, went)
bind-eq-ok (err failure) go_on went = cc
