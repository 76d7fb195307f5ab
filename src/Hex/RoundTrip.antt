-- ===== src/Hex/RoundTrip.antt =====
-- Hexadecimal digits are read back as they were written.
use near_git_storage.Prelude.{
  ℕ, zero, suc, ◌+◌, ◌-◌, ◌*◌, ◌/◌, ◌%◌, ◌≤◌, ◌<◌, ◌≡◌, refl, ap, ◌∙◌, arith, replicate, ◌^◌,
  le→ltb_false, [], ◌∷◌, ◌++◌, some, length, ◌==◌, false,
}
use native.Mathlib.Nat.{pow-suc}
use native.Mathlib.Decide.{dec_lt}
use near_git_storage.Hex.{
  Bytes, hex_digit, digits_loop, format_hex, to_digit, parse_loop, from_str_radix,
}

pub to_digit-hex_digit : (d : ℕ) → d < 16 → to_digit (hex_digit d) ≡ some d
unfolding to_digit hex_digit
to_digit-hex_digit d h = ground arith

pub hex_digit-ne-plus : (d : ℕ) → d < 16 → (hex_digit d == b'+') ≡ false
unfolding hex_digit
hex_digit-ne-plus d h = ground arith

-- Exactly `k` digits of `n` before `acc`.
abbrev fixed : ℕ → ℕ → Bytes → Bytes
fixed zero n acc = acc
fixed (suc k) n acc = fixed k (n / 16) (hex_digit (n % 16) ∷ acc)

replicate-cons : (k c : ℕ) (acc : Bytes) → replicate k c ++ (c ∷ acc) ≡ c ∷ (replicate k c ++ acc)
replicate-cons zero c acc = refl
replicate-cons (suc k) c acc = ap (λ t. c ∷ t) (replicate-cons k c acc)

fixed-zero : (k : ℕ) (acc : Bytes) → fixed k 0 acc ≡ replicate k b'0' ++ acc
unfolding hex_digit
fixed-zero zero acc = refl
fixed-zero (suc k) acc = fixed-zero k (b'0' ∷ acc) ∙ replicate-cons k b'0' acc

digits_last :
    (r n : ℕ) (acc : Bytes) → n < 16 → digits_loop (suc r) n acc ≡ hex_digit (n % 16) ∷ acc
unfolding digits_loop
digits_last r n acc h = ground arith

digits_more :
    (r n : ℕ) (acc : Bytes)
    → 16 ≤ n
    → digits_loop (suc r) n acc ≡ digits_loop r (n / 16) (hex_digit (n % 16) ∷ acc)
unfolding digits_loop
digits_more r n acc h = ground arith

abbrev padded : ℕ → Bytes → Bytes
padded width digits = replicate (width - length digits) b'0' ++ digits

div_zero : (n : ℕ) → n < 16 → n / 16 ≡ 0
div_zero n h = omega arith

padded_last :
    (k r n : ℕ) (acc : Bytes)
    → n < 16
    → padded (suc k + length acc) (digits_loop (suc r) n acc) ≡ fixed (suc k) n acc
padded_last k r n acc h =
    rw (digits_last r n acc h, div_zero n h, fixed-zero k (hex_digit (n % 16) ∷ acc))
      (ap (λ (m : ℕ). replicate m b'0' ++ (hex_digit (n % 16) ∷ acc))
        {x = suc k + length acc - suc (length acc)} {y = k} (omega arith))

-- The padding makes up for the leading zeros.
padded-digits_loop :
    (k r n : ℕ) (acc : Bytes)
    → k ≤ r
    → n < 16 ^ suc k
    → padded (suc k + length acc) (digits_loop (suc r) n acc) ≡ fixed (suc k) n acc
padded-digits_loop zero r n acc h small = padded_last zero r n acc (omega arith)
padded-digits_loop (suc k) zero n acc h small = absurd (omega arith)
padded-digits_loop (suc k) (suc r) n acc h small = elim (dec_lt n 16) [
  | yes last ↦ padded_last (suc k) (suc r) n acc last
  | no more ↦ rw (digits_more (suc r) n acc (omega arith)) (
      ap (λ (w : ℕ). padded w (digits_loop (suc r) (n / 16) (hex_digit (n % 16) ∷ acc)))
        {x = suc (suc k) + length acc} {y = suc k + suc (length acc)} (omega arith)
      ∙ padded-digits_loop k r (n / 16) (hex_digit (n % 16) ∷ acc) (omega arith)
          (omega (arith, pow-suc 16 (suc k))))
]

-- `{:0wx}` of a number that has at most `w` digits is those digits, `w` of them.
format_hex-fixed : (k n : ℕ) → k ≤ 15 → n < 16 ^ suc k → format_hex (suc k) n ≡ fixed (suc k) n []
unfolding format_hex
format_hex-fixed k n h small =
    ap (λ (w : ℕ). padded w (digits_loop 16 n [])) {x = suc k} {y = suc k + 0} (omega arith)
    ∙ padded-digits_loop k 15 n [] h small

-- Two digits of a byte.
pub format_hex_two :
    (b : ℕ) → b < 256 → format_hex 2 b ≡ hex_digit (b / 16 % 16) ∷ hex_digit (b % 16) ∷ []
format_hex_two b h = format_hex-fixed 1 b (omega arith) (omega arith)

-- Four digits of a number below 2 ^ 16.
pub format_hex_four :
    (n : ℕ)
    → n < 0x10000
    → format_hex 4 n
      ≡ hex_digit (n / 16 / 16 / 16 % 16)
        ∷ hex_digit (n / 16 / 16 % 16)
        ∷ hex_digit (n / 16 % 16)
        ∷ hex_digit (n % 16)
        ∷ []
format_hex_four n h = format_hex-fixed 3 n (omega arith) (omega arith)

-- Digits are read one at a time.
pub parse_loop-hex_digit :
    (max acc d : ℕ) (cs : Bytes)
    → d < 16
    → acc * 16 + d ≤ max
    → parse_loop max acc (hex_digit d ∷ cs) ≡ parse_loop max (acc * 16 + d) cs
unfolding parse_loop
parse_loop-hex_digit max acc d cs h fits = rw (to_digit-hex_digit d h, le→ltb_false _ _ fits)

-- Two digits of a byte are read back.
pub from_str_radix-format_two : (b : ℕ) → b < 256 → from_str_radix 255 (format_hex 2 b) ≡ some b
unfolding from_str_radix
from_str_radix-format_two b h =
    rw
      (
        format_hex_two b h,
        hex_digit-ne-plus (b / 16 % 16) (omega arith),
        parse_loop-hex_digit 255 0 (b / 16 % 16) (hex_digit (b % 16) ∷ []) (omega arith)
            (omega arith),
        parse_loop-hex_digit 255 (0 * 16 + b / 16 % 16) (b % 16) [] (omega arith) (omega arith),
      )
      (unfold parse_loop in ap some (omega arith))

-- Four digits of a length are read back by `usize::from_str_radix`.
pub from_str_radix-format_four :
    (max n : ℕ) → n < 0x10000 → n ≤ max → from_str_radix max (format_hex 4 n) ≡ some n
unfolding from_str_radix
from_str_radix-format_four max n h le =
    let a = n / 16 / 16 / 16 % 16 in
    let b = n / 16 / 16 % 16 in
    let c = n / 16 % 16 in
    let d = n % 16 in
    rw
      (
        format_hex_four n h,
        hex_digit-ne-plus a (omega arith),
        parse_loop-hex_digit max 0 a (hex_digit b ∷ hex_digit c ∷ hex_digit d ∷ []) (omega arith)
            (omega arith),
        parse_loop-hex_digit max (0 * 16 + a) b (hex_digit c ∷ hex_digit d ∷ []) (omega arith)
            (omega arith),
        parse_loop-hex_digit max ((0 * 16 + a) * 16 + b) c (hex_digit d ∷ []) (omega arith)
            (omega arith),
        parse_loop-hex_digit max (((0 * 16 + a) * 16 + b) * 16 + c) d [] (omega arith)
            (omega arith),
      )
      (unfold parse_loop in ap some (omega arith))

pub length-format_four : (n : ℕ) → n < 0x10000 → length (format_hex 4 n) ≡ 4
length-format_four n h = rw (format_hex_four n h)
