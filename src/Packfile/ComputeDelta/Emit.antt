-- ===== src/Packfile/ComputeDelta/Emit.antt =====
-- What `compute_delta` emits runs in `apply_delta` as it means to: a copy appends a slice of the
-- base, a flush the pending bytes.
use near_git_storage.Prelude.{
  ℕ, zero, suc, ◌+◌, ◌-◌, ◌*◌, ◌/◌, ◌%◌, ◌^◌, ◌≤◌, ◌<◌, ◌≡◌, subst, arith, [], ◌∷◌, ◌++◌, bit_or,
  ◌==◌, if◌then◌else◌, length, length-take, length-drop, take, drop, take-append-drop, take-split,
  drop-drop, append_assoc, append-nil, min,
}
use near_git_storage.Prelude.Bits.{mask_8, bit_or_shl, bit_or-zero, zero-bit_or}
use near_git_storage.Packfile.{Bytes}
use near_git_storage.Packfile.Delta.Operands.{operand_bytes}
use near_git_storage.Packfile.Delta.Run.{Emits, Emits-nil, Emits-append}
use near_git_storage.Packfile.Delta.Instructions.{
  operands, offset_of, size_of, IsCommand, copy-Emits, insert-Emits,
}
use near_git_storage.Packfile.ComputeDelta.{
  put_operand, byte_at, copy_fields, emit_copy, flush_loop, flush_inserts, emit_copies,
}
use near_git_storage.Packfile.ComputeDelta.Flags.{
  set_flag, command, flag_0, flag_1, flag_2, flag_3, flag_4, flag_5, flag_6, flag_copy,
}

put_operand_lem :
    (flag byte : ℕ) (p : ℕ × Bytes)
    → put_operand flag byte p ≡ (set_flag flag (byte == 0) p.0, p.1 ++ operand_bytes byte)
unfolding put_operand
put_operand_lem flag byte p = ground (arith, append-nil p.1)

module _ (b₀ b₁ b₂ b₃ b₄ b₅ b₆ : ℕ) where
  abbrev command_of : ℕ
  command_of = command (b₀ == 0) (b₁ == 0) (b₂ == 0) (b₃ == 0) (b₄ == 0) (b₅ == 0) (b₆ == 0)

  command_of-IsCommand : IsCommand b₀ b₁ b₂ b₃ b₄ b₅ b₆ command_of
  command_of-IsCommand = record {
    flag₀ = flag_0 (b₀ == 0) (b₁ == 0) (b₂ == 0) (b₃ == 0) (b₄ == 0) (b₅ == 0) (b₆ == 0);
    flag₁ = flag_1 (b₀ == 0) (b₁ == 0) (b₂ == 0) (b₃ == 0) (b₄ == 0) (b₅ == 0) (b₆ == 0);
    flag₂ = flag_2 (b₀ == 0) (b₁ == 0) (b₂ == 0) (b₃ == 0) (b₄ == 0) (b₅ == 0) (b₆ == 0);
    flag₃ = flag_3 (b₀ == 0) (b₁ == 0) (b₂ == 0) (b₃ == 0) (b₄ == 0) (b₅ == 0) (b₆ == 0);
    flag₄ = flag_4 (b₀ == 0) (b₁ == 0) (b₂ == 0) (b₃ == 0) (b₄ == 0) (b₅ == 0) (b₆ == 0);
    flag₅ = flag_5 (b₀ == 0) (b₁ == 0) (b₂ == 0) (b₃ == 0) (b₄ == 0) (b₅ == 0) (b₆ == 0);
    flag₆ = flag_6 (b₀ == 0) (b₁ == 0) (b₂ == 0) (b₃ == 0) (b₄ == 0) (b₅ == 0) (b₆ == 0);
    is_copy = flag_copy (b₀ == 0) (b₁ == 0) (b₂ == 0) (b₃ == 0) (b₄ == 0) (b₅ == 0) (b₆ == 0);
  }

copy_fields_lem :
    (offset size : ℕ)
    → let o = byte_at offset in
      let s = byte_at size in
      copy_fields offset size ≡ (
        command_of (o 0) (o 1) (o 2) (o 3) (s 0) (s 1) (s 2),
        operands (o 0) (o 1) (o 2) (o 3) (s 0) (s 1) (s 2),
      )
unfolding copy_fields
copy_fields_lem offset size = simp (put_operand_lem, append_assoc)

-- Bytes joined by shifts and `|` are the number that they spell.
joined_bytes :
    (b₀ b₁ b₂ b₃ : ℕ)
    → b₀ < 256
    → b₁ < 256
    → b₂ < 256
    → bit_or (bit_or (bit_or (bit_or 0 (b₀ * 2 ^ 0)) (b₁ * 2 ^ 8)) (b₂ * 2 ^ 16)) (b₃ * 2 ^ 24)
      ≡ b₀ + b₁ * 2 ^ 8 + b₂ * 2 ^ 16 + b₃ * 2 ^ 24
joined_bytes b₀ b₁ b₂ b₃ h₀ h₁ h₂ =
    rw
      (
        zero-bit_or,
        bit_or_shl 8 b₁ (b₀ * 2 ^ 0) (omega arith),
        bit_or_shl 16 b₂ (b₀ * 2 ^ 0 + b₁ * 2 ^ 8) (omega arith),
        bit_or_shl 24 b₃ (b₀ * 2 ^ 0 + b₁ * 2 ^ 8 + b₂ * 2 ^ 16) (omega arith),
      )
      (omega arith)

byte_at-lt : (n i : ℕ) → byte_at n i < 256
byte_at-lt n i = omega (arith, mask_8 (n / 2 ^ (i * 8)))

spelled : (n : ℕ) (i : ℕ) → byte_at n i ≡ n / 2 ^ (i * 8) % 256
spelled n i = mask_8 (n / 2 ^ (i * 8))

offset_of-bytes :
    (n : ℕ)
    → n < 2 ^ 32
    → (s₀ s₁ s₂ : ℕ)
    → offset_of (byte_at n 0) (byte_at n 1) (byte_at n 2) (byte_at n 3) s₀ s₁ s₂ ≡ n
offset_of-bytes n h s₀ s₁ s₂ = omega (
  arith,
  joined_bytes (byte_at n 0) (byte_at n 1) (byte_at n 2) (byte_at n 3) (byte_at-lt n 0)
      (byte_at-lt n 1) (byte_at-lt n 2),
  spelled n 0,
  spelled n 1,
  spelled n 2,
  spelled n 3,
)

size_of-bytes :
    (n : ℕ)
    → n < 2 ^ 24
    → (o₀ o₁ o₂ o₃ : ℕ) → size_of o₀ o₁ o₂ o₃ (byte_at n 0) (byte_at n 1) (byte_at n 2) ≡ n
size_of-bytes n h o₀ o₁ o₂ o₃ = ground (
  arith,
  joined_bytes (byte_at n 0) (byte_at n 1) (byte_at n 2) 0 (byte_at-lt n 0) (byte_at-lt n 1)
      (byte_at-lt n 2),
  bit_or-zero (size_of o₀ o₁ o₂ o₃ (byte_at n 0) (byte_at n 1) (byte_at n 2)),
  spelled n 0,
  spelled n 1,
  spelled n 2,
)

-- A size of 2 ^ 16 is written as no size at all.
abbrev written_size : ℕ → ℕ
written_size size = if size == 0x10000 then 0 else size

written_size-lt : (size : ℕ) → size ≤ 0x10000 → written_size size < 2 ^ 24
written_size-lt size h = ground arith

read-written_size :
    (size : ℕ) → 1 ≤ size → (if written_size size == 0 then 0x10000 else written_size size) ≡ size
read-written_size size h = ground arith

-- A copy of 1 to 2 ^ 16 bytes from below 4 GiB.
pub emit_copy-Emits :
    (base : Bytes) (offset size : ℕ)
    → 1 ≤ size
    → size ≤ 0x10000
    → offset < 2 ^ 32
    → offset + size ≤ length base
    → Emits base (emit_copy offset size) (take size (drop offset base))
unfolding emit_copy
emit_copy-Emits base offset size lo hi below fits =
    let o = byte_at offset in
    let s = byte_at (written_size size) in
    rw (copy_fields_lem offset (written_size size)) (
      copy-Emits (o 0) (o 1) (o 2) (o 3) (s 0) (s 1) (s 2) _
        (command_of-IsCommand (o 0) (o 1) (o 2) (o 3) (s 0) (s 1) (s 2)) base offset size
        (offset_of-bytes offset below (s 0) (s 1) (s 2))
        (rw (size_of-bytes (written_size size) (written_size-lt size hi) (o 0) (o 1) (o 2) (o 3))
          (read-written_size size lo))
        fits)

flush_loop-Emits :
    (base : Bytes) (fuel : ℕ) (pending : Bytes)
    → length pending ≤ fuel
    → Emits base (flush_loop fuel pending) pending
unfolding flush_loop
flush_loop-Emits base fuel [] h = Emits-nil base
flush_loop-Emits base zero (b ∷ bs) h = absurd (omega arith)
flush_loop-Emits base (suc fuel) (b ∷ bs) h =
    let count = min (length (b ∷ bs)) 127 in
    let chunk = take count (b ∷ bs) in
    let rest = drop count (b ∷ bs) in
    subst (Emits base (count ∷ (chunk ++ flush_loop fuel rest))) (take-append-drop count (b ∷ bs)) (
      Emits-append
        (insert-Emits base chunk count (omega (arith, length-take count (b ∷ bs))) (omega arith)
          (omega arith))
        (flush_loop-Emits base fuel rest (omega (arith, length-drop count (b ∷ bs)))))

pub flush_inserts-Emits : (base pending : Bytes) → Emits base (flush_inserts pending) pending
unfolding flush_inserts
flush_inserts-Emits base pending = flush_loop-Emits base _ pending (omega arith)

emit_copies-suc :
    (fuel offset left : ℕ)
    → let chunk = min (suc left) 0x10000 in
      emit_copies (suc fuel) offset (suc left)
      ≡ emit_copy offset chunk ++ emit_copies fuel (offset + chunk) (suc left - chunk)
unfolding emit_copies
emit_copies-suc fuel offset left = ground arith

-- Where the slice lies in a base of at most 4 GiB and the fuel covers its length, the copies that are
-- emitted append exactly that slice, however many chunks it takes.
pub emit_copies-Emits :
    (base : Bytes) (fuel offset left : ℕ)
    → left ≤ fuel
    → offset + left ≤ length base
    → length base ≤ 2 ^ 32
    → Emits base (emit_copies fuel offset left) (take left (drop offset base))
unfolding emit_copies
emit_copies-Emits base zero offset zero h fits small = Emits-nil base
emit_copies-Emits base zero offset (suc left) h fits small = absurd (omega arith)
emit_copies-Emits base (suc fuel) offset zero h fits small = Emits-nil base
emit_copies-Emits base (suc fuel) offset (suc left) h fits small =
    let chunk = min (suc left) 0x10000 in
    rw
      (
        emit_copies-suc fuel offset left,
        take-split chunk (suc left) (drop offset base) (omega arith),
        drop-drop chunk offset base,
      )
      (Emits-append
        (emit_copy-Emits base offset chunk (omega arith) (omega arith) (omega arith) (omega arith))
        (emit_copies-Emits base fuel (offset + chunk) (suc left - chunk) (omega arith) (omega arith)
          small))
