-- ===== src/Prelude/Results.antt =====
-- `Result`, with the bind that `?` stands for.
use mathlib.Core.Path.{◌≡◌, refl}
use mathlib.Core.Option.{Option, none, some}

pub data Result {ℓ κ} (E : Type ℓ) (A : Type κ) : Type (ℓ ⊔ κ) where
  ok : A → Result E A
  err : E → Result E A

module _ {ℓ κ μ} {E : Type ℓ} {A : Type κ} {B : Type μ} where
  infixl 5 ◌>>=◌
  abbrev pub ◌>>=◌ : Result E A → (A → Result E B) → Result E B
  err e >>= _ = err e
  ok value >>= next = next value

infixl 5 ◌>>◌
abbrev pub ◌>>◌ {ℓ μ} : {E : Type ℓ} {B : Type μ} → Result E (Unit {0}) → Result E B → Result E B
done >> next = done >>= λ _. next

-- What holds of the value, if there is one.
abbrev pub OkAll {ℓ κ μ} : {E : Type ℓ} {A : Type κ} → (A → Type μ) → Result E A → Type μ
OkAll P (ok value) = P value
OkAll P (err e) = Unit

-- It holds after a bind, if it holds of what each value leads to.
pub OkAll-bind {ℓ κ μ ν} :
    {E : Type ℓ} {A : Type κ} {B : Type μ} (Q : B → Type ν) (r : Result E A) (next : A → Result E B)
    → ((a : A) → r ≡ ok a → OkAll Q (next a))
    → OkAll Q (r >>= next)
OkAll-bind Q (ok value) next f = f value refl
OkAll-bind Q (err e) next f = tt

-- `.ok()`.
abbrev pub value_of {ℓ κ} : {E : Type ℓ} {A : Type κ} → Result E A → Option A
value_of (ok value) = some value
value_of (err e) = none
