-- ===== src/Packfile/Parse/Reads.antt =====
-- The first pass of `parse` of git-core/src/packfile.rs: it ends, and finds its entries one behind the
-- other.
use near_git_storage.Prelude.{
  ℕ, zero, suc, ◌+◌, ◌-◌, ◌^◌, ◌≤◌, ◌<◌, ◌≡◌, refl, arith, [], ◌∷◌, Option, none, some, ltb, leb,
  ◌==◌, bit_and, Bool-cases, inl, inr, length, drop, length-drop,
}
use near_git_storage.Packfile.{Bytes, panic, capacity_overflow, end_in_base_sha}
use near_git_storage.Packfile.Ensures.{Ensures, returned, failed, Ensures-bind, guard-Ensures}
use near_git_storage.Packfile.Delta.{join_group}
use near_git_storage.Packfile.Entries.{
  entry_size_loop, read_entry_header, ofs_offset_loop, read_ofs_offset,
}
use near_git_storage.Packfile.Parse.{
  Entries, inflated, decompress, ref_delta_entry, ofs_delta_entry, object_entry, parse_entry,
  parse_entries, type_from_bits,
}

-- The unread bytes are fewer than `n`.
abbrev Below : {A : Type 0} → ℕ → A × Bytes → Type 0
Below n p = length p.1 < n

entry_size_loop-Ensures :
    (n : ℕ) (rest : Bytes) (size shift : ℕ)
    → length rest < n
    → Ensures (Below n) (entry_size_loop rest size shift)
unfolding entry_size_loop
entry_size_loop-Ensures n [] size shift h = failed (λ e. cc)
entry_size_loop-Ensures n (byte ∷ rest) size shift h = elim (Bool-cases (leb 64 shift)) [
  | inl wide ↦ rw wide (failed (λ e. cc))
  | inr narrow ↦ elim (Bool-cases (bit_and byte 0x80 == 0)) [
    | inl last ↦ rw (narrow, last) (returned (omega arith))
    | inr more ↦
        rw (narrow, more)
          (entry_size_loop-Ensures n rest (join_group size byte shift) (shift + 7) (omega arith))
  ]
]

read_entry_header-Ensures :
    (bytes : Bytes) → Ensures (λ p. length p.2 < length bytes) (read_entry_header bytes)
unfolding read_entry_header
read_entry_header-Ensures [] = failed (λ e. cc)
read_entry_header-Ensures (b ∷ rest) = elim (Bool-cases (bit_and b 0x80 == 0)) [
  | inl last ↦ rw last (returned (omega arith))
  | inr more ↦ rw more (
      Ensures-bind _ _
        (entry_size_loop-Ensures (suc (length rest)) rest (bit_and b 0x0f) 4 (omega arith))
        λ p h. returned h)
]

ofs_offset_loop-Ensures :
    (n : ℕ) (rest : Bytes) (byte offset : ℕ)
    → length rest < n
    → Ensures (Below n) (ofs_offset_loop rest byte offset)
unfolding ofs_offset_loop
ofs_offset_loop-Ensures n [] byte offset h = elim (Bool-cases (bit_and byte 0x80 == 0)) [
  | inl last ↦ rw last (returned h)
  | inr more ↦ rw more (failed (λ e. cc))
]
ofs_offset_loop-Ensures n (b ∷ rest) byte offset h = elim (Bool-cases (bit_and byte 0x80 == 0)) [
  | inl last ↦ rw last (returned h)
  | inr more ↦ elim (Bool-cases (leb (2 ^ 64) (offset + 1))) [
    | inl wide ↦ rw (more, wide) (failed (λ e. cc))
    | inr narrow ↦ rw (more, narrow) (ofs_offset_loop-Ensures n rest b _ (omega arith))
  ]
]

read_ofs_offset-Ensures : (bytes : Bytes) → Ensures (Below (length bytes)) (read_ofs_offset bytes)
unfolding read_ofs_offset
read_ofs_offset-Ensures [] = failed (λ e. cc)
read_ofs_offset-Ensures (b ∷ rest) =
    ofs_offset_loop-Ensures (suc (length rest)) rest b (bit_and b 0x7f) (omega arith)

-- The start positions rise, from at least `lo` on.
abbrev pub Rises : ℕ → Entries → Type 0
Rises lo [] = Unit {0}
Rises lo ((pos, entry) ∷ entries) = (lo ≤ pos) × Rises (pos + 1) entries

Rises-weaken : (lo lo' : ℕ) (entries : Entries) → lo' ≤ lo → Rises lo entries → Rises lo' entries
Rises-weaken lo lo' [] h tt = tt
Rises-weaken lo lo' ((pos, entry) ∷ entries) h (from, rises) = (omega arith, rises)

module _ (inflate : Bytes → Option (Bytes × ℕ)) where
  decompress-Ensures :
      (n size : ℕ) (rest : Bytes)
      → length rest < n
      → Ensures (Below n) (decompress inflate size rest)
  unfolding decompress inflated
  decompress-Ensures n size rest h =
      Ensures-bind _ _ (guard-Ensures (ltb size (2 ^ 63)) (panic capacity_overflow) (λ e. cc))
        λ _ _. found (inflate rest)
    where
      found : (stream : Option (Bytes × ℕ)) → Ensures (Below n) (inflated inflate rest stream)
      found none = failed (λ e. cc)
      found (some (contents, total_in)) = returned (omega (arith, length-drop total_in rest))

  ref_delta_entry-Ensures :
      (n size : ℕ) (rest : Bytes)
      → length rest < n
      → Ensures (Below n) (ref_delta_entry inflate size rest)
  unfolding ref_delta_entry
  ref_delta_entry-Ensures n size rest h =
      Ensures-bind _ _ (guard-Ensures (ltb 19 (length rest)) end_in_base_sha (λ e. cc)) λ _ _.
        Ensures-bind _ _
          (decompress-Ensures n size (drop 20 rest) (omega (arith, length-drop 20 rest)))
          λ p h'. returned h'

  ofs_delta_entry-Ensures :
      (n obj_start size : ℕ) (rest : Bytes)
      → length rest < n
      → Ensures (Below n) (ofs_delta_entry inflate obj_start size rest)
  unfolding ofs_delta_entry
  ofs_delta_entry-Ensures n obj_start size rest h =
      Ensures-bind _ _ (read_ofs_offset-Ensures rest) λ (offset, rest₁) h₁.
        elim (Bool-cases (ltb obj_start offset)) [
          | inl beyond ↦ rw beyond (failed (λ e. cc))
          | inr within ↦
              rw within (
                Ensures-bind _ _ (decompress-Ensures n size rest₁ (omega arith))
                  λ p h₂. returned h₂)
        ]

  object_entry-Ensures :
      (n type_bits size : ℕ) (obj_type : Option Bytes) (rest : Bytes)
      → length rest < n
      → Ensures (Below n) (object_entry inflate type_bits size obj_type rest)
  unfolding object_entry
  object_entry-Ensures n type_bits size none rest h = failed (λ e. cc)
  object_entry-Ensures n type_bits size (some obj_type) rest h =
      Ensures-bind _ _ (decompress-Ensures n size rest h) λ p h'. returned h'

  parse_entry-Ensures :
      (obj_start : ℕ) (rest : Bytes)
      → Ensures (Below (length rest)) (parse_entry inflate obj_start rest)
  unfolding parse_entry
  parse_entry-Ensures obj_start rest =
      Ensures-bind _ _ (read_entry_header-Ensures rest) λ (type_bits, size, rest') h.
        elim (Bool-cases (type_bits == 7)) [
          | inl ref ↦ rw ref (ref_delta_entry-Ensures (length rest) size rest' h)
          | inr no_ref ↦ elim (Bool-cases (type_bits == 6)) [
            | inl ofs ↦
                rw (no_ref, ofs) (ofs_delta_entry-Ensures (length rest) obj_start size rest' h)
            | inr no_ofs ↦
                rw (no_ref, no_ofs)
                  (object_entry-Ensures (length rest) type_bits size (type_from_bits type_bits)
                    rest' h)
          ]
        ]

  pub parse_entries-Ensures :
      (left pos : ℕ) (rest : Bytes)
      → Ensures
          (λ entries. (length entries ≡ left) × Rises pos entries)
          (parse_entries inflate left pos rest)
  unfolding parse_entries
  parse_entries-Ensures zero pos rest = returned (refl, tt)
  parse_entries-Ensures (suc left) pos rest =
      Ensures-bind _ _ (parse_entry-Ensures pos rest) λ (entry, rest') h.
        let next = pos + (length rest - length rest') in
        Ensures-bind _ _ (parse_entries-Ensures left next rest') λ entries (count, rises).
          returned (
            omega (arith, count),
            (omega arith, Rises-weaken next (pos + 1) entries (omega arith) rises),
          )
