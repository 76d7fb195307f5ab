-- ===== src/Packfile/Delta/Instructions.antt =====
-- The two instructions of a delta, run on the bytes that stand for them.
use near_git_storage.Prelude.{
  ℕ, ◌+◌, ◌*◌, ◌^◌, ◌≤◌, ◌≡◌, arith, ◌∷◌, ◌++◌, bit_and, bit_or, ◌==◌, false, if◌then◌else◌, ok,
  length, length-append, take, drop, append_assoc, take-append_left, drop-append_left, le→ltb_false,
}
use near_git_storage.Prelude.Bits.{top_bit}
use near_git_storage.Packfile.{Bytes}
use near_git_storage.Packfile.Delta.{copy_operands, copy_source, insert_literal, instruction_step}
use near_git_storage.Packfile.Delta.Operands.{operand_bytes, read_operand-bytes}
use near_git_storage.Packfile.Delta.Run.{Emits, Emits-step}

-- The operand bytes of a copy: four of the offset, three of the size, each left out if it is zero.
module _ (b₀ b₁ b₂ b₃ b₄ b₅ b₆ : ℕ) where
  abbrev pub operands : Bytes
  operands =
      operand_bytes b₀
      ++ (operand_bytes b₁
          ++ (operand_bytes b₂
              ++ (operand_bytes b₃
                  ++ (operand_bytes b₄ ++ (operand_bytes b₅ ++ operand_bytes b₆)))))

  abbrev pub offset_of : ℕ
  offset_of =
      bit_or (bit_or (bit_or (bit_or 0 (b₀ * 2 ^ 0)) (b₁ * 2 ^ 8)) (b₂ * 2 ^ 16)) (b₃ * 2 ^ 24)

  abbrev pub size_of : ℕ
  size_of = bit_or (bit_or (bit_or 0 (b₄ * 2 ^ 0)) (b₅ * 2 ^ 8)) (b₆ * 2 ^ 16)

  -- The command byte has a flag for each operand that is there.
  pub record IsCommand (i : ℕ) : Type 0 where
    pub flag₀ : (bit_and i 0x01 == 0) ≡ (b₀ == 0)
    pub flag₁ : (bit_and i 0x02 == 0) ≡ (b₁ == 0)
    pub flag₂ : (bit_and i 0x04 == 0) ≡ (b₂ == 0)
    pub flag₃ : (bit_and i 0x08 == 0) ≡ (b₃ == 0)
    pub flag₄ : (bit_and i 0x10 == 0) ≡ (b₄ == 0)
    pub flag₅ : (bit_and i 0x20 == 0) ≡ (b₅ == 0)
    pub flag₆ : (bit_and i 0x40 == 0) ≡ (b₆ == 0)
    pub is_copy : (bit_and i 0x80 == 0) ≡ false

  module _ (i : ℕ) (c : IsCommand i) where
    copy_operands-command :
        (rest : Bytes)
        → copy_operands i (operands ++ rest)
          ≡ ok (offset_of, (if size_of == 0 then 0x10000 else size_of), rest)
    unfolding copy_operands
    copy_operands-command rest = simp append_assoc (
        rw (
          read_operand-bytes i 0x01 0 0 b₀ _ c.flag₀,
          read_operand-bytes i 0x02 8 _ b₁ _ c.flag₁,
          read_operand-bytes i 0x04 16 _ b₂ _ c.flag₂,
          read_operand-bytes i 0x08 24 _ b₃ _ c.flag₃,
          read_operand-bytes i 0x10 0 0 b₄ _ c.flag₄,
          read_operand-bytes i 0x20 8 _ b₅ _ c.flag₅,
          read_operand-bytes i 0x40 16 _ b₆ _ c.flag₆,
        ))

    -- A copy of a slice that the source has.
    pub copy-Emits :
        (source : Bytes) (offset size : ℕ)
        → offset_of ≡ offset
        → (if size_of == 0 then 0x10000 else size_of) ≡ size
        → offset + size ≤ length source
        → Emits source (i ∷ operands) (take size (drop offset source))
    unfolding instruction_step copy_source
    copy-Emits source offset size eo es fits =
        Emits-step i operands _
          λ rest target. rw (c.is_copy, copy_operands-command rest, eo, es, le→ltb_false _ _ fits)

-- An insertion of 1 to 127 bytes.
pub insert-Emits :
    (source chunk : Bytes) (n : ℕ)
    → n ≡ length chunk
    → 1 ≤ n
    → n ≤ 127
    → Emits source (n ∷ chunk) chunk
unfolding instruction_step insert_literal
insert-Emits source chunk n e lo hi = Emits-step n chunk chunk λ rest target. ground (
  arith,
  top_bit n,
  length-append chunk rest,
  take-append_left chunk rest n e,
  drop-append_left chunk rest n e,
)
