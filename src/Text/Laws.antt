-- ===== src/Text/Laws.antt =====
-- Laws of the texts.
use near_git_storage.Prelude.{
  ℕ, ◌+◌, ◌≤◌, ◌≡◌, refl, arith, [], ◌∷◌, ◌++◌, none, some, true, false, ◌==◌, All, some-injective,
  none-ne-some, ◌*◌, ◌-◌,
}
use near_git_storage.Hex.{Bytes}
use near_git_storage.Text.{
  ascii, text_eq, strip_prefix, trim, split_once, format_decimal, parse_digits, parse_decimal,
}

test_ascii : ascii "PACK" ≡ b'P' ∷ b'A' ∷ b'C' ∷ b'K' ∷ []
test_ascii = refl

test_decimal : format_decimal 1024 ≡ ascii "1024"
test_decimal = refl

-- An ideographic space is trimmed, and the same bytes between the words are not.
test_trim_wide :
    trim (0xe3 ∷ 0x80 ∷ 0x80 ∷ b'a' ∷ 0xe3 ∷ 0x80 ∷ 0x80 ∷ b'b' ∷ 0xc2 ∷ 0xa0 ∷ [])
    ≡ b'a' ∷ 0xe3 ∷ 0x80 ∷ 0x80 ∷ b'b' ∷ []
test_trim_wide = refl

test_trim : trim (ascii "  ab c ") ≡ ascii "ab c"
test_trim = refl

pub text_eq_refl : (xs : Bytes) → text_eq xs xs ≡ true
text_eq_refl [] = refl
text_eq_refl (x ∷ xs) = ground (arith, text_eq_refl xs)

pub text_eq→≡ : (xs ys : Bytes) → text_eq xs ys ≡ true → xs ≡ ys
text_eq→≡ [] [] e = refl
text_eq→≡ (x ∷ xs) (y ∷ ys) e = ground (arith, text_eq→≡ xs ys)
text_eq→≡ [] (y ∷ ys) e = absurd cc
text_eq→≡ (x ∷ xs) [] e = absurd cc

-- A prefix is taken off where it stands.
pub strip_prefix-append : (p text : Bytes) → strip_prefix p (p ++ text) ≡ some text
strip_prefix-append [] text = refl
strip_prefix-append (c ∷ p) text = ground (arith, strip_prefix-append p text)

-- A separator that the front does not have splits there.
pub split_once-append :
    (sep : ℕ) (front back : Bytes)
    → All (λ c. (c == sep) ≡ false) front
    → split_once sep (front ++ (sep ∷ back)) ≡ (front, some back)
split_once-append sep [] back h = ground arith
split_once-append sep (c ∷ front) back (h, hs) = rw (h, split_once-append sep front back hs)

pub split_once-none :
    (sep : ℕ) (text : Bytes)
    → All (λ c. (c == sep) ≡ false) text
    → split_once sep text ≡ (text, none)
split_once-none sep [] h = refl
split_once-none sep (c ∷ text) (h, hs) = rw (h, split_once-none sep text hs)

parse_digits-bound :
    (max acc : ℕ) (text : Bytes) (n : ℕ) → acc ≤ max → parse_digits max acc text ≡ some n → n ≤ max
parse_digits-bound max acc [] n h e = omega (arith, some-injective e)
parse_digits-bound max acc (c ∷ cs) n h e =
    ground (arith, parse_digits-bound max (acc * 10 + (c - b'0')) cs n)

-- A number that is read is within the bound.
pub parse_decimal-bound :
    (max : ℕ) (text : Bytes) (n : ℕ) → parse_decimal max text ≡ some n → n ≤ max
parse_decimal-bound max [] n e = absurd (none-ne-some e)
parse_decimal-bound max (c ∷ []) n e = parse_digits-bound max 0 (c ∷ []) n (omega arith) e
parse_decimal-bound max (c ∷ d ∷ cs) n e =
    let signed = parse_digits-bound max 0 (d ∷ cs) n (omega arith) in
    let unsigned = parse_digits-bound max 0 (c ∷ d ∷ cs) n (omega arith) in
    ground (arith, signed, unsigned)
