-- ===== src/Packfile/Ensures.antt =====
-- A postcondition of code that may fail: a value has it, and a failure is one of the code's own.
use near_git_storage.Prelude.{
  ◌≡◌, refl, ◌≢◌, ok, err, ◌>>=◌, guard, Bool, true, false, ◌⊎◌, inl, inr,
}
use near_git_storage.Packfile.{Failure, Outcome, out_of_fuel}

pub data Ensures {ℓ κ} {A : Type ℓ} (P : A → Type κ) : Outcome A → Type (ℓ ⊔ κ) where
  returned : {a : A} → P a → Ensures P (ok a)
  failed : {e : Failure} → e ≢ out_of_fuel → Ensures P (err e)

module _ {ℓ κ λ' μ} {A : Type ℓ} {B : Type κ} {P : A → Type λ'} {Q : B → Type μ} where
  pub Ensures-bind :
      (m : Outcome A) (f : A → Outcome B)
      → Ensures P m
      → ((a : A) → P a → Ensures Q (f a))
      → Ensures Q (m >>= f)
  Ensures-bind _ f (returned {a = a} p) next = next a p
  Ensures-bind _ f (failed ne) next = failed ne

module _ {ℓ κ} {A : Type ℓ} {P : A → Type κ} where
  -- A value of a computation is the one that it has.
  pub Ensures-self : {r : Outcome A} → Ensures P r → Ensures (λ a. r ≡ ok a) r
  Ensures-self (returned p) = returned refl
  Ensures-self (failed ne) = failed ne

  pub Ensures-both : {r : Outcome A} → Ensures P r → Ensures (λ a. (r ≡ ok a) × P a) r
  Ensures-both (returned p) = returned (refl, p)
  Ensures-both (failed ne) = failed ne

  pub Ensures-cases :
      {r : Outcome A}
      → Ensures P r
      → ((a : A) × (r ≡ ok a) × P a) ⊎ ((e : Failure) × (r ≡ err e) × (e ≢ out_of_fuel))
  Ensures-cases (returned {a = a} p) = inl (a, refl, p)
  Ensures-cases (failed {e = e} ne) = inr (e, refl, ne)

pub guard-Ensures :
    (test : Bool) (e : Failure)
    → e ≢ out_of_fuel
    → Ensures (λ (u : Unit {0}). test ≡ true) (guard test e)
guard-Ensures true e ne = returned refl
guard-Ensures false e ne = failed ne

pub Ensures-weaken {ℓ κ μ} :
    {A : Type ℓ} {P : A → Type κ} {Q : A → Type μ} (r : Outcome A)
    → Ensures P r
    → ((a : A) → P a → Q a)
    → Ensures Q r
Ensures-weaken _ (returned {a = a} p) f = returned (f a p)
Ensures-weaken _ (failed ne) f = failed ne
