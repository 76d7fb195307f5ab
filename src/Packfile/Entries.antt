-- ===== src/Packfile/Entries.antt =====
-- The head of an entry of a packfile, as `parse` reads it and `build_with_bases` writes it
-- (git-core/src/packfile.rs). Unread bytes are a suffix.
pub mod Heads
pub mod Offsets
use near_git_storage.Prelude.{
  ℕ, zero, suc, ◌+◌, ◌-◌, ◌*◌, ◌/◌, ◌%◌, ◌^◌, List, [], ◌∷◌, bit_and, bit_or, ltb, leb, ◌==◌,
  if◌then◌else◌, Result, ok, err, ◌>>=◌,
}
use near_git_storage.Packfile.{
  Bytes, Outcome, panic, index_out_of_range, shift_overflow, add_overflow, end_of_packfile,
  end_in_size,
}
use near_git_storage.Packfile.Delta.{join_group}

-- `while remaining > 0`. Seven bits a round: nine rounds take the 60 bits of `size >> 4`.
unfoldable pub pack_size_loop : ℕ → ℕ → Bytes
pack_size_loop zero remaining = []
pack_size_loop (suc rounds) remaining =
    let byte = bit_and remaining 0x7f in
    let rest = pack_size_loop rounds (remaining / 128) in
    if ltb 0 remaining
    then (if ltb 0 (remaining / 128) then bit_or byte 0x80 else byte) ∷ rest
    else []

-- `type_bits << 4` of a byte.
unfoldable pub encode_pack_header : ℕ → ℕ → Bytes
encode_pack_header type_bits size =
    let first_byte = bit_or (type_bits * 2 ^ 4 % 2 ^ 8) (bit_and size 0x0f) in
    let remaining = size / 16 in
    (if ltb 0 remaining then bit_or first_byte 0x80 else first_byte) ∷ pack_size_loop 9 remaining

-- `while off > 0`, on the bytes in their final order: a push at the end of `bytes` is one in front.
unfoldable pub ofs_loop : ℕ → ℕ → Bytes → Bytes
ofs_loop zero off acc = acc
ofs_loop (suc rounds) off acc =
    let off' = off - 1 in
    let more = ofs_loop rounds (off' / 128) (bit_or (bit_and off' 0x7f) 0x80 ∷ acc) in
    if ltb 0 off then more else acc

unfoldable pub encode_ofs_offset : ℕ → Bytes
encode_ofs_offset offset = ofs_loop 9 (offset / 128) (bit_and offset 0x7f ∷ [])

-- `while prev_byte & 0x80 != 0`, from where the last byte had the bit set.
unfoldable pub entry_size_loop : Bytes → ℕ → ℕ → Outcome (ℕ × Bytes)
entry_size_loop [] size shift = err end_in_size
entry_size_loop (prev_byte ∷ rest) size shift =
    let size' = join_group size prev_byte shift in
    let more = entry_size_loop rest size' (shift + 7) in
    if leb 64 shift
    then err (panic shift_overflow)
    else if bit_and prev_byte 0x80 == 0
    then ok (size', rest)
    else more

-- The type bits and the size.
unfoldable pub read_entry_header : Bytes → Outcome (ℕ × ℕ × Bytes)
read_entry_header [] = err end_of_packfile
read_entry_header (first_byte ∷ rest) =
    let type_bits = bit_and (first_byte / 16) 0x07 in
    let size = bit_and first_byte 0x0f in
    if bit_and first_byte 0x80 == 0
    then ok (type_bits, size, rest)
    else entry_size_loop rest size 4 >>= λ (size', rest'). ok (type_bits, size', rest')

-- `while byte & 0x80 != 0`. The shift loses what stands beyond 64 bits; the addition panics there.
unfoldable pub ofs_offset_loop : Bytes → ℕ → ℕ → Outcome (ℕ × Bytes)
ofs_offset_loop [] byte offset =
    if bit_and byte 0x80 == 0 then ok (offset, []) else err (panic index_out_of_range)
ofs_offset_loop (b ∷ rest) byte offset =
    let more = ofs_offset_loop rest b (bit_or ((offset + 1) * 2 ^ 7 % 2 ^ 64) (bit_and b 0x7f)) in
    if bit_and byte 0x80 == 0
    then ok (offset, b ∷ rest)
    else if leb (2 ^ 64) (offset + 1)
    then err (panic add_overflow)
    else more

unfoldable pub read_ofs_offset : Bytes → Outcome (ℕ × Bytes)
read_ofs_offset [] = err (panic index_out_of_range)
read_ofs_offset (byte ∷ rest) = ofs_offset_loop rest byte (bit_and byte 0x7f)
