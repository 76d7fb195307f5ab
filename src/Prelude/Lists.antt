-- ===== src/Prelude/Lists.antt =====
-- Lists measured and cut by native numbers, under the library's names.
use Prim.Native.Nat.{ℕ, zero, suc, ◌+◌, ◌-◌, ◌≤◌, min}
use mathlib.Core.Path.{◌≡◌, refl, sym, ap, ◌∙◌}
use mathlib.Core.List.{List, [], ◌∷◌, ◌++◌}
use mathlib.Core.Option.{Option, none, some}
use native.Mathlib.Omega.{arith}

module _ {ℓ} {A : Type ℓ} where
  abbrev pub length : List A → ℕ
  length [] = 0
  length (x ∷ xs) = suc (length xs)

  abbrev pub get_elem? : List A → ℕ → Option A
  get_elem? [] i = none
  get_elem? (x ∷ xs) zero = some x
  get_elem? (x ∷ xs) (suc i) = get_elem? xs i

  abbrev pub take : ℕ → List A → List A
  take zero xs = []
  take (suc n) [] = []
  take (suc n) (x ∷ xs) = x ∷ take n xs

  abbrev pub drop : ℕ → List A → List A
  drop zero xs = xs
  drop (suc n) [] = []
  drop (suc n) (x ∷ xs) = drop n xs

  abbrev pub replicate : ℕ → A → List A
  replicate zero a = []
  replicate (suc n) a = a ∷ replicate n a

  abbrev pub All {κ} : (A → Type κ) → List A → Type κ
  All P [] = Unit {κ}
  All P (x ∷ xs) = P x × All P xs

module _ {ℓ} {A : Type ℓ} where
  pub length-append : (xs ys : List A) → length (xs ++ ys) ≡ length xs + length ys
  length-append [] ys = omega arith
  length-append (x ∷ xs) ys = omega (arith, length-append xs ys)

  pub take-append-drop : (n : ℕ) (xs : List A) → take n xs ++ drop n xs ≡ xs
  take-append-drop zero xs = refl
  take-append-drop (suc n) [] = refl
  take-append-drop (suc n) (x ∷ xs) = ap (λ t. x ∷ t) (take-append-drop n xs)

  pub length-take : (n : ℕ) (xs : List A) → length (take n xs) ≡ min n (length xs)
  length-take zero xs = omega arith
  length-take (suc n) [] = omega arith
  length-take (suc n) (x ∷ xs) = omega (arith, length-take n xs)

  pub length-drop : (n : ℕ) (xs : List A) → length (drop n xs) ≡ length xs - n
  length-drop zero xs = omega arith
  length-drop (suc n) [] = omega arith
  length-drop (suc n) (x ∷ xs) = omega (arith, length-drop n xs)

  pub take-append_left : (xs ys : List A) (n : ℕ) → n ≡ length xs → take n (xs ++ ys) ≡ xs
  take-append_left [] ys zero e = refl
  take-append_left [] ys (suc n) e = absurd (omega arith)
  take-append_left (x ∷ xs) ys zero e = absurd (omega arith)
  take-append_left (x ∷ xs) ys (suc n) e = ap (λ t. x ∷ t) (take-append_left xs ys n (omega arith))

  pub drop-append_left : (xs ys : List A) (n : ℕ) → n ≡ length xs → drop n (xs ++ ys) ≡ ys
  drop-append_left [] ys zero e = refl
  drop-append_left [] ys (suc n) e = absurd (omega arith)
  drop-append_left (x ∷ xs) ys zero e = absurd (omega arith)
  drop-append_left (x ∷ xs) ys (suc n) e = drop-append_left xs ys n (omega arith)

  drop-nil : (n : ℕ) → ◌≡◌ {A = List A} (drop n []) []
  drop-nil zero = refl
  drop-nil (suc n) = refl

  take-nil : (n : ℕ) → ◌≡◌ {A = List A} (take n []) []
  take-nil zero = refl
  take-nil (suc n) = refl

  pub drop-drop : (n m : ℕ) (xs : List A) → drop n (drop m xs) ≡ drop (m + n) xs
  drop-drop n zero xs = ap (λ (k : ℕ). drop k xs) {x = n} {y = 0 + n} (omega arith)
  drop-drop n (suc m) [] = drop-nil n ∙ sym (drop-nil (suc m + n))
  drop-drop n (suc m) (x ∷ xs) =
      drop-drop n m xs
      ∙ ap (λ (k : ℕ). drop k (x ∷ xs)) {x = suc (m + n)} {y = suc m + n} (omega arith)

  pub take-split :
      (n k : ℕ) (xs : List A) → n ≤ k → take k xs ≡ take n xs ++ take (k - n) (drop n xs)
  take-split zero k xs h = ap (λ (m : ℕ). take m xs) {x = k} {y = k - 0} (omega arith)
  take-split (suc n) zero xs h = absurd (omega arith)
  take-split (suc n) (suc k) [] h = sym (take-nil (suc k - suc n))
  take-split (suc n) (suc k) (x ∷ xs) h =
      ap (λ t. x ∷ t)
        (take-split n k xs (omega arith)
          ∙ ap (λ (m : ℕ). take n xs ++ take m (drop n xs)) {x = k - n} {y = suc k - suc n}
              (omega arith))

module _ {ℓ κ} {A : Type ℓ} (P : A → Type κ) where
  pub All-append : (xs ys : List A) → All P xs → All P ys → All P (xs ++ ys)
  All-append [] ys hx hy = hy
  All-append (x ∷ xs) ys (p, hx) hy = (p, All-append xs ys hx hy)

-- A member, by the place where it stands.
pub data Among {ℓ} {A : Type ℓ} (x : A) : List A → Type ℓ where
  here : {xs : List A} → Among x (x ∷ xs)
  there : {y : A} {xs : List A} → Among x xs → Among x (y ∷ xs)

module _ {ℓ} {A : Type ℓ} where
  pub Among-append_left : {a : A} (xs ys : List A) → Among a xs → Among a (xs ++ ys)
  Among-append_left [] ys m = elim m [ ]
  Among-append_left (x ∷ xs) ys here = here
  Among-append_left (x ∷ xs) ys (there m) = there (Among-append_left xs ys m)

  pub Among-append_right : {a : A} (xs ys : List A) → Among a ys → Among a (xs ++ ys)
  Among-append_right [] ys m = m
  Among-append_right (x ∷ xs) ys m = there (Among-append_right xs ys m)

  pub All-map {κ μ} :
      {P : A → Type κ} {Q : A → Type μ} (xs : List A) → ((a : A) → P a → Q a) → All P xs → All Q xs
  All-map [] f h = tt
  All-map (x ∷ xs) f (p, h) = (f x p, All-map xs f h)

  pub Among-All {κ} : (P : A → Type κ) {a : A} (xs : List A) → Among a xs → All P xs → P a
  Among-All P [] m h = elim m [ ]
  Among-All P (x ∷ xs) here (p, h) = p
  Among-All P (x ∷ xs) (there m) (p, h) = Among-All P xs m h

  pub All-Among {κ} : {P : A → Type κ} (xs : List A) → ((a : A) → Among a xs → P a) → All P xs
  All-Among [] f = tt
  All-Among (x ∷ xs) f = (f x here, All-Among xs (λ a m. f a (there m)))
