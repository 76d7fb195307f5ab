-- ===== src/PktLine.antt =====
-- git-core/src/pktline.rs. A byte slice is a list of numbers, and `&data[pos..]` is the list that has
-- not been read.
pub mod Laws
pub mod Sections
mod Runs
use near_git_storage.Prelude.{
  ℕ, zero, suc, ◌+◌, ◌-◌, ◌^◌, List, [], ◌∷◌, ◌++◌, Option, none, some, ltb, ◌==◌, ◌||◌,
  if◌then◌else◌, length, take, drop,
}
use near_git_storage.Hex.{Bytes, format_hex, from_str_radix}

pub encode : Bytes → Bytes
encode payload = format_hex 4 (length payload + 4) ++ payload

abbrev pub flush : Bytes
flush = b'0' ∷ b'0' ∷ b'0' ∷ b'0' ∷ []

abbrev pub or_zero : Option ℕ → ℕ
or_zero none = 0
or_zero (some n) = n

-- A prefix that is no UTF-8 text reads as "0000", and one that is no number as 0: either way 0. Bytes
-- beyond ASCII are no digits, so the parse alone decides.
pub prefix_length : Bytes → ℕ
prefix_length data_bytes = or_zero (from_str_radix (2 ^ 64 - 1) (take 4 data_bytes))

-- `while pos + 4 <= data.len()`. Each round that goes on reads four bytes at least.
pub read_loop : ℕ → List Bytes → Bytes → List Bytes × Bytes
read_loop zero lines rest = (lines, rest)
read_loop (suc fuel) lines rest =
    let len = prefix_length rest in
    let more = read_loop fuel (lines ++ (take (len - 4) (drop 4 rest) ∷ [])) (drop len rest) in
    if ltb (length rest) 4
    then (lines, rest)
    else if len == 0
    then (lines, drop 4 rest)
    else if ltb len 4 || ltb (length rest) len
    then (lines, rest)
    else more

pub read_until_flush : Bytes → List Bytes × Bytes
read_until_flush data_bytes = read_loop (length data_bytes) [] data_bytes
