-- ===== src/Packfile/Entries/Heads.antt =====
-- What `encode_pack_header` writes is read back.
use near_git_storage.Prelude.{
  ℕ, zero, suc, ◌+◌, ◌-◌, ◌*◌, ◌/◌, ◌%◌, ◌^◌, ◌≤◌, ◌<◌, ◌≡◌, refl, ap, ap₂, ◌∙◌, arith, [], ◌∷◌,
  ◌++◌, bit_and, bit_or, ltb, leb, ◌==◌, true, false, Bool-cases, inl, inr, ltb→lt, ok, ◌>>=◌,
  ok-injective, err-ne-ok, drop, drop-append_left,
}
use native.Mathlib.Decide.{dec_lt}
use near_git_storage.Prelude.Bits.{mask_3, mask_4, top_bit, set_top_bit, shl_bit_or}
use near_git_storage.Packfile.{Bytes}
use near_git_storage.Packfile.Delta.{join_group, size_loop}
use near_git_storage.Packfile.ComputeDelta.{encode_size_loop}
use near_git_storage.Packfile.ComputeDelta.Sizes.{size_loop-encode}
use near_git_storage.Packfile.Entries.{
  pack_size_loop, encode_pack_header, entry_size_loop, read_entry_header,
}

-- Where the loop of `read_delta_size` reads a size, this loop reads the same one, and hands back what
-- follows.
entry_size_loop-size_loop :
    (bytes : Bytes) (size shift count : ℕ) {n c : ℕ}
    → size_loop bytes size shift count ≡ ok (n, c)
    → (count ≤ c) × (entry_size_loop bytes size shift ≡ ok (n, drop (c - count) bytes))
unfolding size_loop entry_size_loop
entry_size_loop-size_loop [] size shift count e = absurd (err-ne-ok e)
entry_size_loop-size_loop (b ∷ rest) size shift count {n} {c} e = elim (Bool-cases (leb 64 shift)) [
  | inl wide ↦ absurd (err-ne-ok (rw wide at e))
  | inr narrow ↦ elim (Bool-cases (bit_and b 0x80 == 0)) [
    | inl last ↦
        let q = ok-injective (rw (narrow, last) at e) in
        let one : count + 1 ≡ c = ap (λ p. p.1) q in
        (
          omega arith,
          rw (narrow, last)
              (ap ok (
                ap₂ (λ (a : ℕ) (r : Bytes). (a, r)) (ap (λ p. p.0) q)
                  (ap (λ (k : ℕ). drop k (b ∷ rest)) {x = 1} {y = c - count} (omega arith)))),
        )
    | inr more ↦
        let (le, h) =
          entry_size_loop-size_loop rest (join_group size b shift) (shift + 7) (count + 1)
            (rw (narrow, more) at e) in
        (
          omega arith,
          rw (narrow, more)
              (h
                ∙ ap (λ (k : ℕ). ok (n, drop k (b ∷ rest))) {x = suc (c - (count + 1))}
                    {y = c - count} (omega arith)),
        )
  ]
]

pack_size_loop_done : (rounds : ℕ) → pack_size_loop rounds 0 ≡ []
unfolding pack_size_loop
pack_size_loop_done zero = refl
pack_size_loop_done (suc rounds) = refl

pack_size_loop-encode_size_loop :
    (rounds v : ℕ) → 0 < v → pack_size_loop rounds v ≡ encode_size_loop rounds v
unfolding pack_size_loop encode_size_loop
pack_size_loop-encode_size_loop zero v h = refl
pack_size_loop-encode_size_loop (suc rounds) v h = elim (Bool-cases (ltb 0 (v / 128))) [
  | inl more ↦ ground (arith, pack_size_loop-encode_size_loop rounds (v / 128) (ltb→lt _ _ more))
  | inr last ↦ ground (arith, pack_size_loop_done rounds)
]

-- The first byte of a header, and whether more bytes follow.
abbrev first_of : ℕ → ℕ → ℕ
first_of t size = bit_or (t * 2 ^ 4 % 2 ^ 8) (bit_and size 0x0f)

first_of_lem : (t size : ℕ) → t < 8 → first_of t size ≡ t * 16 + size % 16
first_of_lem t size h = ground (arith, mask_4 size, shl_bit_or 4 t (size % 16) (omega arith))

read_short :
    (t size : ℕ) (rest : Bytes)
    → t < 8
    → size < 16
    → read_entry_header ((t * 16 + size) ∷ rest) ≡ ok (t, size, rest)
unfolding read_entry_header
read_short t size rest h small = ground (
  arith,
  top_bit (t * 16 + size) (omega arith),
  mask_4 (t * 16 + size),
  mask_3 ((t * 16 + size) / 16),
)

read_long :
    (t low : ℕ) (rest : Bytes)
    → t < 8
    → low < 16
    → read_entry_header ((t * 16 + low + 128) ∷ rest)
      ≡ (entry_size_loop rest low 4 >>= λ (size, rest'). ok (t, size, rest'))
unfolding read_entry_header
read_long t low rest h small =
    let byte = t * 16 + low + 128 in
    let low_bits : bit_and byte 0x0f ≡ low = omega (arith, mask_4 byte) in
    let type_bits : bit_and (byte / 16) 0x07 ≡ t = omega (arith, mask_3 (byte / 16)) in
    let more : (bit_and byte 0x80 == 0) ≡ false = ground (arith, top_bit byte) in
    rw (low_bits, type_bits, more) refl

encode_short : (t size : ℕ) → t < 8 → size < 16 → encode_pack_header t size ≡ (t * 16 + size) ∷ []
unfolding encode_pack_header
encode_short t size h small =
    let one : ltb 0 (size / 16) ≡ false = ground arith in
    rw (one, first_of_lem t size h)
      (ap₂ (λ (a : ℕ) (r : Bytes). a ∷ r) {x = t * 16 + size % 16} {y = t * 16 + size} (omega arith)
        (ap (λ (v : ℕ). pack_size_loop 9 v) {x = size / 16} {y = 0} (omega arith)
          ∙ pack_size_loop_done 9))

encode_long :
    (t size : ℕ)
    → t < 8
    → 16 ≤ size
    → encode_pack_header t size ≡ (t * 16 + size % 16 + 128) ∷ encode_size_loop 9 (size / 16)
unfolding encode_pack_header
encode_long t size h large =
    let more : ltb 0 (size / 16) ≡ true = ground arith in
    rw (
      more,
      first_of_lem t size h,
      set_top_bit (t * 16 + size % 16) (omega arith),
      pack_size_loop-encode_size_loop 9 (size / 16) (omega arith),
    )

entry_size_loop-encode :
    (size : ℕ) (rest : Bytes)
    → size < 2 ^ 64
    → entry_size_loop (encode_size_loop 9 (size / 16) ++ rest) (size % 16) 4 ≡ ok (size, rest)
entry_size_loop-encode size rest fits =
    let v = size / 16 in
    let groups = encode_size_loop 9 v in
    (entry_size_loop-size_loop (groups ++ rest) (size % 16) 4 0 (
      size_loop-encode 8 v (size % 16) 4 0 rest (omega arith) (omega arith) (omega arith)
        (omega arith))).1
    ∙ ap₂ (λ (n : ℕ) (r : Bytes). ok (n, r)) {x = size % 16 + v * 2 ^ 4} {y = size} (omega arith)
        (drop-append_left groups rest _ (omega arith))

-- The type of an entry and a size below 2 ^ 64 are read back, and what follows them is handed back.
pub read_entry_header-encode_pack_header :
    (type_bits size : ℕ) (rest : Bytes)
    → type_bits < 8
    → size < 2 ^ 64
    → read_entry_header (encode_pack_header type_bits size ++ rest) ≡ ok (type_bits, size, rest)
read_entry_header-encode_pack_header t size rest h fits = elim (dec_lt size 16) [
  | yes small ↦ rw (encode_short t size h small) (read_short t size rest h small)
  | no large ↦
      rw
        (
          encode_long t size h (omega arith),
          read_long t (size % 16) (encode_size_loop 9 (size / 16) ++ rest) h (omega arith),
          entry_size_loop-encode size rest fits,
        )
        refl
]
