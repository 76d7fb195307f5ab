-- ===== src/Packfile/Delta/Operands.antt =====
-- What the operands of a copy instruction read, and that reading never gives bytes back.
use near_git_storage.Prelude.{
  ℕ, ◌+◌, ◌*◌, ◌^◌, ◌≤◌, ◌≡◌, arith, [], ◌∷◌, ◌++◌, bit_and, bit_or, ◌==◌, if◌then◌else◌, ok, err,
  length, length-drop, ltb, drop, take, Bool-cases, inl, inr, true, false,
}
use near_git_storage.Prelude.Bits.{bit_or-zero}
use near_git_storage.Packfile.{
  Bytes, panic, index_out_of_range, delta_copy_out_of_bounds, delta_insert_out_of_bounds,
}
use near_git_storage.Packfile.Ensures.{Ensures, returned, failed, Ensures-bind}
use near_git_storage.Packfile.Delta.{
  read_operand, copy_operands, copy_source, insert_literal, instruction_step,
}

-- The bytes that an operand takes in the delta: none if it is zero.
abbrev pub operand_bytes : ℕ → Bytes
operand_bytes b = if b == 0 then [] else b ∷ []

-- Where the mask is set exactly for an operand that is not zero, the operand is read back.
pub read_operand-bytes :
    (instruction mask shift acc b : ℕ) (rest : Bytes)
    → (bit_and instruction mask == 0) ≡ (b == 0)
    → read_operand instruction mask shift acc (operand_bytes b ++ rest)
      ≡ ok (bit_or acc (b * 2 ^ shift), rest)
unfolding read_operand
read_operand-bytes instruction mask shift acc b [] e = ground (arith, bit_or-zero acc)
read_operand-bytes instruction mask shift acc b (c ∷ rest) e = ground (arith, bit_or-zero acc)

-- The unread bytes are no more than `n`.
abbrev pub Leaves {ℓ} : {A : Type ℓ} → ℕ → A × Bytes → Type 0
Leaves n p = length p.1 ≤ n

read_operand-Ensures :
    (n instruction mask shift acc : ℕ) (data_bytes : Bytes)
    → length data_bytes ≤ n
    → Ensures (Leaves n) (read_operand instruction mask shift acc data_bytes)
unfolding read_operand
read_operand-Ensures n instruction mask shift acc [] h =
    elim (bit_and instruction mask == 0)
      as (λ b. Ensures (Leaves n) (if b then ok (acc, []) else err (panic index_out_of_range))) [
        | true ↦ returned h
        | false ↦ failed (λ e. cc)
      ]
read_operand-Ensures n instruction mask shift acc (b ∷ bs) h =
    elim (bit_and instruction mask == 0)
      as (λ t.
        Ensures (Leaves n) (if t then ok (acc, b ∷ bs) else ok (bit_or acc (b * 2 ^ shift), bs))) [
          | true ↦ returned h
          | false ↦ returned (omega arith)
        ]

copy_operands-Ensures :
    (n instruction : ℕ) (r₀ : Bytes)
    → length r₀ ≤ n
    → Ensures (λ p. length p.2 ≤ n) (copy_operands instruction r₀)
unfolding copy_operands
copy_operands-Ensures n i r₀ h =
    Ensures-bind _ _ (read_operand-Ensures n i 0x01 0 0 r₀ h) λ (o₁, r₁) h₁.
      Ensures-bind _ _ (read_operand-Ensures n i 0x02 8 o₁ r₁ h₁) λ (o₂, r₂) h₂.
        Ensures-bind _ _ (read_operand-Ensures n i 0x04 16 o₂ r₂ h₂) λ (o₃, r₃) h₃.
          Ensures-bind _ _ (read_operand-Ensures n i 0x08 24 o₃ r₃ h₃) λ (o₄, r₄) h₄.
            Ensures-bind _ _ (read_operand-Ensures n i 0x10 0 0 r₄ h₄) λ (s₁, r₅) h₅.
              Ensures-bind _ _ (read_operand-Ensures n i 0x20 8 s₁ r₅ h₅) λ (s₂, r₆) h₆.
                Ensures-bind _ _ (read_operand-Ensures n i 0x40 16 s₂ r₆ h₆)
                  λ (s₃, r₇) h₇. returned h₇

copy_source-Ensures :
    (n : ℕ) (source target : Bytes) (p : ℕ × ℕ × Bytes)
    → length p.2 ≤ n
    → Ensures (Leaves n) (copy_source source target p)
unfolding copy_source
copy_source-Ensures n source target (offset, size, rest) h =
    elim (ltb (length source) (offset + size))
      as (λ t. Ensures (Leaves n) (
        if t
        then err (delta_copy_out_of_bounds offset size (length source))
        else ok (target ++ take size (drop offset source), rest))) [
          | true ↦ failed (λ e. cc)
          | false ↦ returned h
        ]

insert_literal-Ensures :
    (n size : ℕ) (rest target : Bytes)
    → length rest ≤ n
    → Ensures (Leaves n) (insert_literal size rest target)
unfolding insert_literal
insert_literal-Ensures n size rest target h =
    elim (ltb (length rest) size)
      as (λ t. Ensures (Leaves n) (
        if t
        then err delta_insert_out_of_bounds
        else ok (target ++ take size rest, drop size rest))) [
          | true ↦ failed (λ e. cc)
          | false ↦ returned (omega (arith, length-drop size rest))
        ]

-- A round leaves no more bytes than it found behind its instruction.
pub instruction_step-Ensures :
    (n : ℕ) (source : Bytes) (instruction : ℕ) (rest target : Bytes)
    → length rest ≤ n
    → Ensures (Leaves n) (instruction_step source instruction rest target)
unfolding instruction_step
instruction_step-Ensures n source instruction rest target h =
    elim (Bool-cases (bit_and instruction 0x80 == 0)) [
      | inl e ↦ elim (Bool-cases (instruction == 0)) [
        | inl z ↦ rw (e, z) (failed (λ e. cc))
        | inr z ↦ rw (e, z) (insert_literal-Ensures n instruction rest target h)
      ]
      | inr e ↦ rw e (
          Ensures-bind _ _ (copy_operands-Ensures n instruction rest h)
            (copy_source-Ensures n source target))
    ]
