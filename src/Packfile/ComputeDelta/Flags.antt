-- ===== src/Packfile/ComputeDelta/Flags.antt =====
-- The command byte of a copy instruction: bit `i` is set exactly if operand `i` is not zero. The
-- law is about seven booleans, so a table of 128 rows for each bit decides it.
use near_git_storage.Prelude.{
  ℕ, ◌≡◌, refl, Bool, true, false, ◌&&◌, bit_and, bit_or, ◌==◌, if◌then◌else◌, arith,
}

-- `z` says that the operand is zero.
abbrev pub set_flag : ℕ → Bool → ℕ → ℕ
set_flag flag z cmd = if z then cmd else bit_or cmd flag

abbrev pub command : Bool → Bool → Bool → Bool → Bool → Bool → Bool → ℕ
command z₀ z₁ z₂ z₃ z₄ z₅ z₆ = set_flag 0x40 z₆ (
    set_flag 0x20 z₅ (
      set_flag 0x10 z₄
        (set_flag 0x08 z₃ (set_flag 0x04 z₂ (set_flag 0x02 z₁ (set_flag 0x01 z₀ 0x80))))))

same : Bool → Bool → Bool
same true b = b
same false true = false
same false false = true

same→eq : (a b : Bool) → same a b ≡ true → a ≡ b
unfolding same
same→eq true b h = ground arith
same→eq false true h = ground arith
same→eq false false h = refl

always : (Bool → Bool) → Bool
always p = p true && p false

always_lem : (p : Bool → Bool) → always p ≡ true → (b : Bool) → p b ≡ true
unfolding always
always_lem p h true = ground arith
always_lem p h false = ground arith

abbrev Pick : Type 0
Pick = Bool → Bool → Bool → Bool → Bool → Bool → Bool → Bool

flag_table : ℕ → Pick → Bool
flag_table mask pick = always λ z₀. always λ z₁. always λ z₂. always λ z₃. always λ z₄. always λ z₅.
    always λ z₆. same (bit_and (command z₀ z₁ z₂ z₃ z₄ z₅ z₆) mask == 0) (pick z₀ z₁ z₂ z₃ z₄ z₅ z₆)

flag_table_lem :
    (mask : ℕ) (pick : Pick)
    → flag_table mask pick ≡ true
    → (z₀ z₁ z₂ z₃ z₄ z₅ z₆ : Bool)
    → (bit_and (command z₀ z₁ z₂ z₃ z₄ z₅ z₆) mask == 0) ≡ pick z₀ z₁ z₂ z₃ z₄ z₅ z₆
unfolding flag_table
flag_table_lem mask pick h z₀ z₁ z₂ z₃ z₄ z₅ z₆ = same→eq _ _ (
    always_lem _
      (always_lem _
        (always_lem _ (always_lem _ (always_lem _ (always_lem _ (always_lem _ h z₀) z₁) z₂) z₃) z₄)
        z₅)
      z₆)

module _ (z₀ z₁ z₂ z₃ z₄ z₅ z₆ : Bool) where
  abbrev cmd : ℕ
  cmd = command z₀ z₁ z₂ z₃ z₄ z₅ z₆

  pub flag_0 : (bit_and cmd 0x01 == 0) ≡ z₀
  unfolding flag_table always same
  flag_0 = flag_table_lem 0x01 (λ a b c d e f g. a) refl z₀ z₁ z₂ z₃ z₄ z₅ z₆

  pub flag_1 : (bit_and cmd 0x02 == 0) ≡ z₁
  unfolding flag_table always same
  flag_1 = flag_table_lem 0x02 (λ a b c d e f g. b) refl z₀ z₁ z₂ z₃ z₄ z₅ z₆

  pub flag_2 : (bit_and cmd 0x04 == 0) ≡ z₂
  unfolding flag_table always same
  flag_2 = flag_table_lem 0x04 (λ a b c d e f g. c) refl z₀ z₁ z₂ z₃ z₄ z₅ z₆

  pub flag_3 : (bit_and cmd 0x08 == 0) ≡ z₃
  unfolding flag_table always same
  flag_3 = flag_table_lem 0x08 (λ a b c d e f g. d) refl z₀ z₁ z₂ z₃ z₄ z₅ z₆

  pub flag_4 : (bit_and cmd 0x10 == 0) ≡ z₄
  unfolding flag_table always same
  flag_4 = flag_table_lem 0x10 (λ a b c d e f g. e) refl z₀ z₁ z₂ z₃ z₄ z₅ z₆

  pub flag_5 : (bit_and cmd 0x20 == 0) ≡ z₅
  unfolding flag_table always same
  flag_5 = flag_table_lem 0x20 (λ a b c d e f g. f) refl z₀ z₁ z₂ z₃ z₄ z₅ z₆

  pub flag_6 : (bit_and cmd 0x40 == 0) ≡ z₆
  unfolding flag_table always same
  flag_6 = flag_table_lem 0x40 (λ a b c d e f g. g) refl z₀ z₁ z₂ z₃ z₄ z₅ z₆

  pub flag_copy : (bit_and cmd 0x80 == 0) ≡ false
  unfolding flag_table always same
  flag_copy = flag_table_lem 0x80 (λ a b c d e f g. false) refl z₀ z₁ z₂ z₃ z₄ z₅ z₆
