-- ===== src/Wasm/Borsh/Laws.antt =====
-- What is written in borsh is read back, and a text that is cut off is refused.
use near_git_storage.Prelude.{
  ℕ, zero, suc, ◌+◌, ◌/◌, ◌^◌, ◌≤◌, ◌<◌, ◌≡◌, refl, sym, ap, ◌∙◌, arith, ◌∷◌, ◌++◌, true,
  le→ltb_false, lt→ltb, ok, length, drop, length-append, take-append_left, drop-append_left,
  drop-drop,
}
use native.Mathlib.Nat.{pow-suc}
use near_git_storage.Hex.{Bytes}
use near_git_storage.Text.{is_utf8}
use near_git_storage.Wasm.Borsh.{
  to_le_bytes, from_le_bytes, write_bytes, first_byte, read_u8, read_u32, read_bytes, read_string,
}

pub length-to_le_bytes : (width n : ℕ) → length (to_le_bytes width n) ≡ width
length-to_le_bytes zero n = refl
length-to_le_bytes (suc width) n = ap suc (length-to_le_bytes width (n / 256))

pub from_le_bytes-to_le_bytes :
    (width n : ℕ) → n < 256 ^ width → from_le_bytes (to_le_bytes width n) ≡ n
from_le_bytes-to_le_bytes zero n h = omega arith
from_le_bytes-to_le_bytes (suc width) n h =
    omega (arith, from_le_bytes-to_le_bytes width (n / 256) (omega (arith, pow-suc 256 width)))

-- What stands in the data from a position to its end.
abbrev pub Stands : Bytes → ℕ → Bytes → Type 0
Stands bytes pos rest = (drop pos bytes ≡ rest) × (pos + length rest ≡ length bytes)

pub Stands-append :
    (bytes front rest : Bytes) (pos next : ℕ)
    → next ≡ pos + length front
    → Stands bytes pos (front ++ rest)
    → Stands bytes next rest
Stands-append bytes front rest pos next e (at, size) = (
  ap (λ (k : ℕ). drop k bytes) e
      ∙ sym (drop-drop (length front) pos bytes)
      ∙ ap (drop (length front)) at
      ∙ drop-append_left front rest (length front) refl,
  omega (arith, e, size, length-append front rest),
)

pub read_u8-Stands :
    (bytes rest : Bytes) (pos b : ℕ)
    → Stands bytes pos (b ∷ rest)
    → read_u8 bytes pos ≡ ok (b, pos + 1)
unfolding read_u8
read_u8-Stands bytes rest pos b (at, size) = ap (λ r. first_byte r pos) at

pub read_u32-Stands :
    (bytes rest : Bytes) (pos n : ℕ)
    → n < 2 ^ 32
    → Stands bytes pos (to_le_bytes 4 n ++ rest)
    → read_u32 bytes pos ≡ ok (n, pos + 4)
unfolding read_u32
read_u32-Stands bytes rest pos n h (at, size) =
    let long : (pos + 4 ≤ length bytes) = omega (arith, size) in
    rw (le→ltb_false (length bytes) (pos + 4) long, at)
      (ap (λ (k : ℕ). ok (k, pos + 4)) (from_le_bytes-to_le_bytes 4 n (omega arith)))

-- Where a length is read and as many bytes stand behind it, these are what is read.
read_bytes-behind :
    (bytes content rest : Bytes) (pos pos' : ℕ)
    → read_u32 bytes pos ≡ ok (length content, pos')
    → Stands bytes pos' (content ++ rest)
    → length bytes < 2 ^ 32
    → read_bytes bytes pos ≡ ok (content, pos' + length content)
unfolding read_bytes
read_bytes-behind bytes content rest pos pos' e (at, size) h =
    let long : (pos' + length content ≤ length bytes) =
      omega (arith, size, length-append content rest) in
    rw (
      e,
      lt→ltb (pos' + length content) (2 ^ 32) (omega arith),
      le→ltb_false (length bytes) (pos' + length content) long,
      at,
      take-append_left content rest (length content) refl,
    )

-- The place behind bytes that were written with their length.
abbrev pub behind : ℕ → Bytes → ℕ
behind pos content = pos + 4 + length content

pub length-write_bytes : (content : Bytes) → length (write_bytes content) ≡ 4 + length content
unfolding write_bytes
length-write_bytes content = length-append (to_le_bytes 4 (length content)) content

pub read_bytes-Stands :
    (bytes content rest : Bytes) (pos : ℕ)
    → length bytes < 2 ^ 32
    → Stands bytes pos (write_bytes content ++ rest)
    → read_bytes bytes pos ≡ ok (content, behind pos content)
unfolding write_bytes
read_bytes-Stands bytes content rest pos h (at, size) =
    let stands : Stands bytes pos (to_le_bytes 4 (length content) ++ (content ++ rest)) =
      (at, size) in
    let long : (length content < 2 ^ 32) = omega (arith, stands.1, length-append content rest) in
    read_bytes-behind bytes content rest pos (pos + 4)
      (read_u32-Stands bytes (content ++ rest) pos (length content) long stands)
      (Stands-append bytes (to_le_bytes 4 (length content)) (content ++ rest) pos (pos + 4) refl
        stands)
      h

pub Stands-write_bytes :
    (bytes content rest : Bytes) (pos : ℕ)
    → Stands bytes pos (write_bytes content ++ rest)
    → Stands bytes (behind pos content) rest
Stands-write_bytes bytes content rest pos stands =
    Stands-append bytes (write_bytes content) rest pos (behind pos content)
      (omega (arith, length-write_bytes content)) stands

pub read_string-Stands :
    (bytes s rest : Bytes) (pos : ℕ)
    → length bytes < 2 ^ 32
    → is_utf8 s ≡ true
    → Stands bytes pos (write_bytes s ++ rest)
    → read_string bytes pos ≡ ok (s, behind pos s)
unfolding read_string
read_string-Stands bytes s rest pos h u stands = rw (read_bytes-Stands bytes s rest pos h stands, u)
