-- ===== src/Packfile/Entries/Offsets.antt =====
-- What `encode_ofs_offset` writes is read back.
use near_git_storage.Prelude.{
  ℕ, zero, suc, ◌+◌, ◌-◌, ◌*◌, ◌/◌, ◌%◌, ◌^◌, ◌≤◌, ◌<◌, ◌≡◌, refl, ap, ◌∙◌, arith, [], ◌∷◌, ◌++◌,
  bit_and, bit_or, ltb, Bool-cases, inl, inr, ok,
}
use native.Mathlib.Decide.{dec_lt}
use native.Mathlib.Nat.{pow-suc}
use near_git_storage.Prelude.Bits.{mask_7, top_bit, set_top_bit, shl_bit_or}
use near_git_storage.Packfile.{Bytes}
use near_git_storage.Packfile.Entries.{
  ofs_loop, encode_ofs_offset, ofs_offset_loop, read_ofs_offset,
}

-- A byte with the top bit set joins the group behind it.
join_ofs :
    (v g byte : ℕ)
    → (v + 1) * 128 + g < 2 ^ 64
    → byte % 128 ≡ g
    → bit_or ((v + 1) * 2 ^ 7 % 2 ^ 64) (bit_and byte 0x7f) ≡ (v + 1) * 128 + g
join_ofs v g byte h e = ground (arith, mask_7 byte, shl_bit_or 7 (v + 1) g (omega arith))

ofs_offset_loop-next :
    (v g byte prev : ℕ) (rest : Bytes)
    → 128 ≤ prev
    → prev < 256
    → (v + 1) * 128 + g < 2 ^ 64
    → byte % 128 ≡ g
    → ofs_offset_loop (byte ∷ rest) prev v ≡ ofs_offset_loop rest byte ((v + 1) * 128 + g)
unfolding ofs_offset_loop
ofs_offset_loop-next v g byte prev rest lo hi h e =
    ground (arith, top_bit prev hi, join_ofs v g byte h e)

ofs_loop_done : (rounds : ℕ) (acc : Bytes) → ofs_loop rounds 0 acc ≡ acc
unfolding ofs_loop
ofs_loop_done zero acc = refl
ofs_loop_done (suc rounds) acc = refl

ofs_loop_more :
    (rounds off : ℕ) (acc : Bytes)
    → 0 < off
    → ofs_loop (suc rounds) off acc
      ≡ ofs_loop rounds ((off - 1) / 128) (((off - 1) % 128 + 128) ∷ acc)
unfolding ofs_loop
ofs_loop_more rounds off acc h =
    ground (arith, mask_7 (off - 1), set_top_bit ((off - 1) % 128) (omega arith))

read_ofs_offset-first :
    (g : ℕ) (acc : Bytes)
    → g < 128
    → read_ofs_offset ((g + 128) ∷ acc) ≡ ofs_offset_loop acc (g + 128) g
unfolding read_ofs_offset
read_ofs_offset-first g acc h =
    ap (λ (v : ℕ). ofs_offset_loop acc (g + 128) v) {x = bit_and (g + 128) 0x7f} {y = g}
      (omega (arith, mask_7 (g + 128)))

-- One group is left.
last_round :
    (rounds off : ℕ) (acc : Bytes)
    → 0 < off
    → off - 1 < 128
    → (prev : ℕ) × (128 ≤ prev)
      × (prev < 256)
      × (read_ofs_offset (ofs_loop (suc rounds) off acc) ≡ ofs_offset_loop acc prev (off - 1))
last_round rounds off acc some_left small =
    let g = (off - 1) % 128 in
    (
      g + 128,
      omega arith,
      omega arith,
      rw (ofs_loop_more rounds off acc some_left) (
          ap (λ (r : ℕ). read_ofs_offset (ofs_loop rounds r ((g + 128) ∷ acc)))
            {x = (off - 1) / 128} {y = 0} (omega arith)
          ∙ ap read_ofs_offset (ofs_loop_done rounds ((g + 128) ∷ acc))
          ∙ read_ofs_offset-first g acc (omega arith)
          ∙ ap (λ (v : ℕ). ofs_offset_loop acc (g + 128) v) {x = g} {y = off - 1} (omega arith)),
    )

-- The groups of `off` in front of `acc` are read as `off - 1`, and more is to come.
read-ofs_loop :
    (rounds off : ℕ) (acc : Bytes)
    → off < 128 ^ suc rounds
    → off < 2 ^ 57
    → 0 < off
    → (prev : ℕ) × (128 ≤ prev)
      × (prev < 256)
      × (read_ofs_offset (ofs_loop (suc rounds) off acc) ≡ ofs_offset_loop acc prev (off - 1))
read-ofs_loop zero off acc wide fits some_left = last_round 0 off acc some_left (omega arith)
read-ofs_loop (suc rounds) off acc wide fits some_left = elim (dec_lt (off - 1) 128) [
  | yes small ↦ last_round (suc rounds) off acc some_left small
  | no large ↦
      let o = off - 1 in
      let (prev, lo, hi, e) =
        read-ofs_loop rounds (o / 128) ((o % 128 + 128) ∷ acc)
          (omega (arith, pow-suc 128 (suc rounds))) (omega arith) (omega arith) in
      (
        o % 128 + 128,
        omega arith,
        omega arith,
        rw (ofs_loop_more (suc rounds) off acc some_left) (
            e
            ∙ ofs_offset_loop-next (o / 128 - 1) (o % 128) (o % 128 + 128) prev acc lo hi
                (omega arith) (omega arith)
            ∙ ap (λ (v : ℕ). ofs_offset_loop acc (o % 128 + 128) v)
                {x = (o / 128 - 1 + 1) * 128 + o % 128} {y = off - 1} (omega arith)),
      )
]

ofs_loop-append :
    (rounds off : ℕ) (acc rest : Bytes)
    → ofs_loop rounds off acc ++ rest ≡ ofs_loop rounds off (acc ++ rest)
unfolding ofs_loop
ofs_loop-append zero off acc rest = refl
ofs_loop-append (suc rounds) off acc rest = elim (Bool-cases (ltb 0 off)) [
  | inl more ↦ rw more (ofs_loop-append rounds ((off - 1) / 128) _ rest)
  | inr done ↦ rw done refl
]

ofs_offset_loop_last :
    (byte v : ℕ) (rest : Bytes) → byte < 128 → ofs_offset_loop rest byte v ≡ ok (v, rest)
unfolding ofs_offset_loop
ofs_offset_loop_last byte v [] h = ground (arith, top_bit byte)
ofs_offset_loop_last byte v (b ∷ rest) h = ground (arith, top_bit byte)

read_ofs_offset_one :
    (byte : ℕ) (rest : Bytes) → byte < 128 → read_ofs_offset (byte ∷ rest) ≡ ok (byte, rest)
unfolding read_ofs_offset
read_ofs_offset_one byte rest h =
    ofs_offset_loop_last byte _ rest h ∙ ap (λ (v : ℕ). ok (v, rest)) (omega (arith, mask_7 byte))

-- An offset below 2 ^ 64 is read back, and what follows it is handed back.
pub read_ofs_offset-encode_ofs_offset :
    (offset : ℕ) (rest : Bytes)
    → offset < 2 ^ 64
    → read_ofs_offset (encode_ofs_offset offset ++ rest) ≡ ok (offset, rest)
unfolding encode_ofs_offset
read_ofs_offset-encode_ofs_offset offset rest h =
    let last = bit_and offset 0x7f in
    ap read_ofs_offset (ofs_loop-append 9 (offset / 128) (last ∷ []) rest)
    ∙ (elim (dec_lt 0 (offset / 128)) [
      | yes more ↦
          let (prev, lo, hi, e) =
            read-ofs_loop 8 (offset / 128) (last ∷ rest) (omega arith) (omega arith) more in
          e
          ∙ ofs_offset_loop-next (offset / 128 - 1) (offset % 128) last prev rest lo hi
              (omega arith) (omega (arith, mask_7 offset))
          ∙ ofs_offset_loop_last last _ rest (omega (arith, mask_7 offset))
          ∙ ap (λ (v : ℕ). ok (v, rest)) (omega arith)
      | no one ↦
          ap (λ (r : ℕ). read_ofs_offset (ofs_loop 9 r (last ∷ rest))) {x = offset / 128} {y = 0}
            (omega arith)
          ∙ ap read_ofs_offset (ofs_loop_done 9 (last ∷ rest))
          ∙ read_ofs_offset_one last rest (omega (arith, mask_7 offset))
          ∙ ap (λ (v : ℕ). ok (v, rest)) (omega (arith, mask_7 offset))
    ])
