-- ===== src/Prelude/Result.antt =====
-- Python code that may raise: the value, or the exception.
use mathlib.Core.Path.{◌≡◌, refl}

pub data Result {ℓ κ} (E : Type κ) (A : Type ℓ) : Type (ℓ ⊔ κ) where
  ok : A → Result E A
  err : E → Result E A

infixl 5 ◌>>=◌
abbrev pub ◌>>=◌ {ℓ κ μ} :
    {E : Type μ} {A : Type ℓ} {B : Type κ} → Result E A → (A → Result E B) → Result E B
ok a >>= f = f a
err e >>= f = err e

pub >>=-eq-ok {ℓ κ μ} :
    {E : Type μ} {A : Type ℓ} {B : Type κ} (first : Result E A) (next : A → Result E B) {y : B}
    → (first >>= next) ≡ ok y
    → (x : A) × (first ≡ ok x) × (next x ≡ ok y)
>>=-eq-ok (err e) next returns = absurd (cc)
>>=-eq-ok (ok x) next returns = (x, refl, returns)

module _ {ℓ κ} {E : Type κ} {A : Type ℓ} where
  pub ok_injective : (q : Result E A) (x y : A) → q ≡ ok x → q ≡ ok y → x ≡ y
  ok_injective q x y h k = cc

  pub err_injective : (q : Result E A) (x y : E) → q ≡ err x → q ≡ err y → x ≡ y
  err_injective q x y h k = cc
