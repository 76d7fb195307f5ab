-- ===== src/Hex.antt =====
-- The hexadecimal formatting and parsing of Rust's standard library that pktline.rs, packfile.rs and
-- the factory use: `format!("{:0wx}", n)` and `from_str_radix(text, 16)`. A text is its bytes.
pub mod RoundTrip
use near_git_storage.Prelude.{
  ℕ, zero, suc, ◌+◌, ◌-◌, ◌*◌, ◌/◌, ◌%◌, List, [], ◌∷◌, ◌++◌, Option, none, some, ltb, leb, ◌==◌,
  ◌&&◌, if◌then◌else◌, length, replicate,
}

abbrev pub Bytes : Type 0
Bytes = List ℕ

unfoldable pub hex_digit : ℕ → ℕ
hex_digit d = if ltb d 10 then b'0' + d else b'a' + (d - 10)

-- The digits of `n` before `acc`, the lowest last; sixteen of them take 64 bits.
unfoldable pub digits_loop : ℕ → ℕ → Bytes → Bytes
digits_loop zero n acc = acc
digits_loop (suc rounds) n acc =
    let acc' = hex_digit (n % 16) ∷ acc in
    let more = digits_loop rounds (n / 16) acc' in if n / 16 == 0 then acc' else more

unfoldable pub format_hex : ℕ → ℕ → Bytes
format_hex width n =
    let digits = digits_loop 16 n [] in replicate (width - length digits) b'0' ++ digits

-- `char::to_digit(16)`
unfoldable pub to_digit : ℕ → Option ℕ
to_digit c =
    if leb b'0' c && leb c b'9'
    then some (c - b'0')
    else if leb b'a' c && leb c b'f'
    then some (c - b'a' + 10)
    else if leb b'A' c && leb c b'F'
    then some (c - b'A' + 10)
    else none

abbrev pub and_then : Option ℕ → (ℕ → Option ℕ) → Option ℕ
and_then none f = none
and_then (some d) f = f d

-- Above `max`, the largest number of the type, the parse fails.
unfoldable pub parse_loop : ℕ → ℕ → Bytes → Option ℕ
parse_loop max acc [] = some acc
parse_loop max acc (c ∷ cs) = and_then (to_digit c) λ d.
    let next = parse_loop max (acc * 16 + d) cs in if ltb max (acc * 16 + d) then none else next

-- A sign `+` is accepted before at least one digit; `-` is no digit of an unsigned number.
unfoldable pub from_str_radix : ℕ → Bytes → Option ℕ
from_str_radix max [] = none
from_str_radix max (c ∷ []) = parse_loop max 0 (c ∷ [])
from_str_radix max (c ∷ d ∷ cs) =
    if c == b'+' then parse_loop max 0 (d ∷ cs) else parse_loop max 0 (c ∷ d ∷ cs)
