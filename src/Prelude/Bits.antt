-- ===== src/Prelude/Bits.antt =====
-- Masks and joined bit fields as arithmetic. The libraries define the native operations by a
-- recursion on digits with fuel; here that becomes one equation for the lowest digit.
use Prim.Native.Nat.{ℕ, zero, suc, ◌+◌, ◌-◌, ◌*◌, ◌/◌, ◌%◌, ◌^◌, ◌≤◌, ◌<◌, min, max}
use Prim.Native.Nat.{bit_and, bit_or, digits, bit_and-bitwise, bit_or-bitwise}
use mathlib.Core.Path.{◌≡◌, refl, ap, ◌∙◌}
use mathlib.Core.Bool.{Bool, true, ◌&&◌}
use native.Mathlib.Nat.{pow-suc}
use native.Mathlib.Omega.{arith}
use near_git_storage.Prelude.Tests.{◌==◌, ==_iff}

module _ (z : ℕ → ℕ) (f : ℕ → ℕ → ℕ) where
  -- One more unit of fuel than the number needs changes nothing.
  digits_grow : (n a b : ℕ) → a ≤ n → digits z f (suc n) a b ≡ digits z f n a b
  digits_grow n zero b h = elim n as (λ m. digits z f (suc m) 0 b ≡ digits z f m 0 b) [
    | zero ↦ refl
    | suc m ↦ refl
  ]
  digits_grow zero (suc a) b h = absurd (omega arith)
  digits_grow (suc n) (suc a) b h = omega (arith, digits_grow n (suc a / 2) (b / 2) (omega arith))

  digits_enough : (k n a b : ℕ) → n ≡ k + a → digits z f n a b ≡ digits z f a a b
  digits_enough zero n a b e = ap (λ (m : ℕ). digits z f m a b) {x = n} {y = a} (omega arith)
  digits_enough (suc k) zero a b e = absurd (omega arith)
  digits_enough (suc k) (suc n) a b e =
      digits_grow n a b (omega arith) ∙ digits_enough k n a b (omega arith)

  digits_low :
      (a b : ℕ)
      → digits z f (suc a) (suc a) b
        ≡ digits z f (suc a / 2) (suc a / 2) (b / 2) * 2 + f (suc a % 2) (b % 2)
  digits_low a b = omega (arith, digits_enough (a - suc a / 2) a (suc a / 2) (b / 2) (omega arith))

or_low : (a b : ℕ) → bit_or a b ≡ bit_or (a / 2) (b / 2) * 2 + max (a % 2) (b % 2)
or_low zero b = omega (arith, bit_or-bitwise 0 b, bit_or-bitwise 0 (b / 2))
or_low (suc a) b = omega (
  arith,
  bit_or-bitwise (suc a) b,
  bit_or-bitwise (suc a / 2) (b / 2),
  digits_low (λ y. y) max a b,
)

and_low : (a b : ℕ) → bit_and a b ≡ bit_and (a / 2) (b / 2) * 2 + min (a % 2) (b % 2)
and_low zero b = omega (arith, bit_and-bitwise 0 b, bit_and-bitwise 0 (b / 2))
and_low (suc a) b = omega (
  arith,
  bit_and-bitwise (suc a) b,
  bit_and-bitwise (suc a / 2) (b / 2),
  digits_low (λ y. 0) min a b,
)

-- The fuel `n` bounds the number.
or_nothing : (n a : ℕ) → a ≤ n → bit_or a 0 ≡ a
or_nothing n zero h = refl
or_nothing zero (suc a) h = absurd (omega arith)
or_nothing (suc n) (suc a) h =
    omega (arith, or_low (suc a) 0, or_nothing n (suc a / 2) (omega arith))

pub bit_or-zero : (a : ℕ) → bit_or a 0 ≡ a
bit_or-zero a = or_nothing a a (omega arith)

pub zero-bit_or : (a : ℕ) → bit_or 0 a ≡ a
zero-bit_or a = omega (arith, bit_or-bitwise 0 a)

and_nothing : (n a : ℕ) → a ≤ n → bit_and a 0 ≡ 0
and_nothing n zero h = refl
and_nothing zero (suc a) h = absurd (omega arith)
and_nothing (suc n) (suc a) h =
    omega (arith, and_low (suc a) 0, and_nothing n (suc a / 2) (omega arith))

and_odd : (a m : ℕ) → bit_and a (2 * m + 1) ≡ bit_and (a / 2) m * 2 + a % 2
and_odd a m = ground (arith, and_low a (2 * m + 1))

mask_1 : (a : ℕ) → bit_and a 0x01 ≡ a % 2
mask_1 a = omega (arith, and_odd a 0, and_nothing (a / 2) (a / 2) (omega arith))

mask_2 : (a : ℕ) → bit_and a 0x03 ≡ a % 4
mask_2 a = omega (arith, and_odd a 0x01, mask_1 (a / 2))

pub mask_3 : (a : ℕ) → bit_and a 0x07 ≡ a % 8
mask_3 a = omega (arith, and_odd a 0x03, mask_2 (a / 2))

pub mask_4 : (a : ℕ) → bit_and a 0x0f ≡ a % 16
mask_4 a = omega (arith, and_odd a 0x07, mask_3 (a / 2))

mask_5 : (a : ℕ) → bit_and a 0x1f ≡ a % 32
mask_5 a = omega (arith, and_odd a 0x0f, mask_4 (a / 2))

mask_6 : (a : ℕ) → bit_and a 0x3f ≡ a % 64
mask_6 a = omega (arith, and_odd a 0x1f, mask_5 (a / 2))

pub mask_7 : (a : ℕ) → bit_and a 0x7f ≡ a % 128
mask_7 a = omega (arith, and_odd a 0x3f, mask_6 (a / 2))

pub mask_8 : (a : ℕ) → bit_and a 0xff ≡ a % 256
mask_8 a = omega (arith, and_odd a 0x7f, mask_7 (a / 2))

-- `q` shifted left by `k`, digit by digit.
shifted : ℕ → ℕ → ℕ
shifted zero q = q
shifted (suc k) q = 2 * shifted k q

shifted_lem : (k q : ℕ) → shifted k q ≡ q * 2 ^ k
unfolding shifted
shifted_lem zero q = omega arith
shifted_lem (suc k) q = omega (arith, shifted_lem k q, ap (λ (t : ℕ). q * t) (pow-suc 2 k))

or-shifted : (k q r : ℕ) → r < 2 ^ k → bit_or r (shifted k q) ≡ r + shifted k q
unfolding shifted
or-shifted zero q r h = ground (arith, zero-bit_or q)
or-shifted (suc k) q r h =
    ground (arith, or_low r (2 * shifted k q), pow-suc 2 k, or-shifted k q (r / 2) (omega arith))

shifted-or : (k q r : ℕ) → r < 2 ^ k → bit_or (shifted k q) r ≡ shifted k q + r
unfolding shifted
shifted-or zero q r h = ground (arith, bit_or-zero q)
shifted-or (suc k) q r h =
    ground (arith, or_low (2 * shifted k q) r, pow-suc 2 k, shifted-or k q (r / 2) (omega arith))

-- `r | (q << k)` is a sum when `r` fits `k` bits.
pub bit_or_shl : (k q r : ℕ) → r < 2 ^ k → bit_or r (q * 2 ^ k) ≡ r + q * 2 ^ k
bit_or_shl k q r h = rw (← shifted_lem k q) (or-shifted k q r h)

-- `(q << k) | r` likewise.
pub shl_bit_or : (k q r : ℕ) → r < 2 ^ k → bit_or (q * 2 ^ k) r ≡ q * 2 ^ k + r
shl_bit_or k q r h = rw (← shifted_lem k q) (shifted-or k q r h)

-- A law about bytes, checked at each of them.
pub bytes_agree : (ℕ → Bool) → ℕ → Bool
bytes_agree p zero = true
bytes_agree p (suc n) = p n && bytes_agree p n

bytes_agree_lem : (p : ℕ → Bool) (n x : ℕ) → bytes_agree p n ≡ true → x < n → p x ≡ true
unfolding bytes_agree
bytes_agree_lem p zero x h lt = absurd (omega arith)
bytes_agree_lem p (suc n) x h lt = ground (arith, bytes_agree_lem p n x)

top_bit_table : bytes_agree (λ x. bit_and x 0x80 == x / 128 * 128) 256 ≡ true
unfolding bytes_agree
top_bit_table = refl

-- `b & 0x80` on a byte.
pub top_bit : (x : ℕ) → x < 256 → bit_and x 0x80 ≡ x / 128 * 128
top_bit x h = (==_iff _ _).0 (bytes_agree_lem _ 256 x top_bit_table h)

set_top_bit_table : bytes_agree (λ x. bit_or x 0x80 == x + 128) 128 ≡ true
unfolding bytes_agree
set_top_bit_table = refl

-- `b | 0x80` on seven bits.
pub set_top_bit : (x : ℕ) → x < 128 → bit_or x 0x80 ≡ x + 128
set_top_bit x h = (==_iff _ _).0 (bytes_agree_lem _ 128 x set_top_bit_table h)
