-- ===== src/Prelude/Results.antt =====
-- Code that may fail: Rust's `Result`, and a panic, which a component's failure type holds too.
use mathlib.Core.Path.{◌≡◌, refl}
use mathlib.Core.Logic.{◌≢◌}
use mathlib.Core.Bool.{Bool, true, false}

pub data Result {ℓ κ} (E : Type ℓ) (A : Type κ) : Type (ℓ ⊔ κ) where
  ok : A → Result E A
  err : E → Result E A

infixl 5 ◌>>=◌ ◌>>◌
abbrev pub ◌>>=◌ {ℓ κ μ} :
    {E : Type ℓ} {A : Type κ} {B : Type μ} → Result E A → (A → Result E B) → Result E B
ok a >>= f = f a
err e >>= f = err e

abbrev pub ◌>>◌ {ℓ κ} : {E : Type ℓ} {B : Type κ} → Result E (Unit {0}) → Result E B → Result E B
m >> k = m >>= λ _. k

-- `if !test { return Err(e) }`
abbrev pub guard {ℓ} : {E : Type ℓ} → Bool → E → Result E (Unit {0})
guard true e = ok tt
guard false e = err e

-- What a chain has that ends well: its first step ended well, and so did the rest.
pub >>=-eq-ok {ℓ κ μ} :
    {E : Type ℓ} {A : Type κ} {B : Type μ} (first : Result E A) (rest : A → Result E B) {last : B}
    → (first >>= rest) ≡ ok last
    → (middle : A) × (first ≡ ok middle) × (rest middle ≡ ok last)
>>=-eq-ok (err e) rest failed = cc
>>=-eq-ok (ok middle) rest ended = (middle, refl, ended)

module _ {ℓ κ} {E : Type ℓ} {A : Type κ} where
  pub ok-injective : {a b : A} → ◌≡◌ {A = Result E A} (ok a) (ok b) → a ≡ b
  ok-injective h = cc

  pub err-ne-ok : {e : E} {a : A} → ◌≢◌ {A = Result E A} (err e) (ok a)
  err-ne-ok h = cc
