-- ===== src/Packfile/Delta.antt =====
-- `apply_delta` and `read_delta_size` of git-core/src/packfile.rs. Positions into the delta are
-- suffixes: `&delta[pos..]` is the list that has not been read.
pub mod Operands
pub mod Run
pub mod Groups
pub mod Apply
pub mod Instructions
mod Runs
use near_git_storage.Prelude.{
  ℕ, zero, suc, ◌+◌, ◌*◌, ◌%◌, ◌^◌, List, [], ◌∷◌, ◌++◌, bit_and, bit_or, ltb, leb, ◌==◌, not,
  if◌then◌else◌, Result, ok, err, ◌>>=◌, ◌>>◌, guard, length, take, drop,
}
use near_git_storage.Packfile.{
  Bytes, Outcome, panic, out_of_fuel, index_out_of_range, shift_overflow, capacity_overflow,
  end_in_delta_size, delta_copy_out_of_bounds, delta_insert_out_of_bounds, reserved_instruction,
  target_size_mismatch,
}

-- `size |= ((byte & 0x7f) as u64) << shift`: bits beyond the 64th are lost.
abbrev pub join_group : ℕ → ℕ → ℕ → ℕ
join_group size byte shift = bit_or size (bit_and byte 0x7f * 2 ^ shift % 2 ^ 64)

-- The loop over the bytes from `pos` on; `count` of them have been read. A shift by 64 or more is an
-- overflow, on which the build panics.
unfoldable pub size_loop : Bytes → ℕ → ℕ → ℕ → Outcome (ℕ × ℕ)
size_loop [] size shift count = err end_in_delta_size
size_loop (byte ∷ rest) size shift count =
    let size' = join_group size byte shift in
    let more = size_loop rest size' (shift + 7) (count + 1) in
    if leb 64 shift
    then err (panic shift_overflow)
    else if bit_and byte 0x80 == 0
    then ok (size', count + 1)
    else more

-- The size, and the number of bytes that it takes.
unfoldable pub read_delta_size : Bytes → ℕ → Outcome (ℕ × ℕ)
read_delta_size data_bytes start = size_loop (drop start data_bytes) 0 0 0

-- `if instruction & mask != 0 { acc |= (delta[pos] as u32) << shift; pos += 1; }`
unfoldable pub read_operand : ℕ → ℕ → ℕ → ℕ → Bytes → Outcome (ℕ × Bytes)
read_operand instruction mask shift acc [] =
    if bit_and instruction mask == 0 then ok (acc, []) else err (panic index_out_of_range)
read_operand instruction mask shift acc (b ∷ rest) =
    if bit_and instruction mask == 0
    then ok (acc, b ∷ rest)
    else ok (bit_or acc (b * 2 ^ shift), rest)

-- The offset and the size of a copy instruction, and what follows them.
unfoldable pub copy_operands : ℕ → Bytes → Outcome (ℕ × ℕ × Bytes)
copy_operands instruction r₀ = do
  (o₁, r₁) ← read_operand instruction 0x01 0 0 r₀
  (o₂, r₂) ← read_operand instruction 0x02 8 o₁ r₁
  (o₃, r₃) ← read_operand instruction 0x04 16 o₂ r₂
  (o₄, r₄) ← read_operand instruction 0x08 24 o₃ r₃
  (s₁, r₅) ← read_operand instruction 0x10 0 0 r₄
  (s₂, r₆) ← read_operand instruction 0x20 8 s₁ r₅
  (s₃, r₇) ← read_operand instruction 0x40 16 s₂ r₆
  ok (o₄, (if s₃ == 0 then 0x10000 else s₃), r₇)

-- `target.extend_from_slice(&source[start..end])` behind its bounds check.
unfoldable pub copy_source : Bytes → Bytes → ℕ × ℕ × Bytes → Outcome (Bytes × Bytes)
copy_source source target (offset, size, rest) =
    if ltb (length source) (offset + size)
    then err (delta_copy_out_of_bounds offset size (length source))
    else ok (target ++ take size (drop offset source), rest)

unfoldable pub insert_literal : ℕ → Bytes → Bytes → Outcome (Bytes × Bytes)
insert_literal size rest target =
    if ltb (length rest) size
    then err delta_insert_out_of_bounds
    else ok (target ++ take size rest, drop size rest)

-- One round of the loop: the target so far and the unread bytes, after the instruction.
unfoldable pub instruction_step : Bytes → ℕ → Bytes → Bytes → Outcome (Bytes × Bytes)
instruction_step source instruction rest target =
    if not (bit_and instruction 0x80 == 0)
    then copy_operands instruction rest >>= copy_source source target
    else if not (instruction == 0)
    then insert_literal instruction rest target
    else err reserved_instruction

-- `while pos < delta.len()`. Each round reads a byte at least.
unfoldable pub run : ℕ → Bytes → Bytes → Bytes → Outcome Bytes
run fuel source [] target = ok target
run zero source (i ∷ rest) target = err out_of_fuel
run (suc fuel) source (i ∷ rest) target = do
  (target', rest') ← instruction_step source i rest target
  run fuel source rest' target'

-- `Vec::with_capacity` panics beyond `isize::MAX` bytes.
unfoldable pub apply_delta : Bytes → Bytes → Outcome Bytes
apply_delta source delta = do
  (_, n₁) ← read_delta_size delta 0
  (target_size, n₂) ← read_delta_size delta n₁
  guard (ltb target_size (2 ^ 63)) (panic capacity_overflow)
  target ← run (length delta) source (drop (n₁ + n₂) delta) []
  guard (length target == target_size) (target_size_mismatch target_size (length target))
  ok target
