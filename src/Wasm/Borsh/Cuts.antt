-- ===== src/Wasm/Borsh/Cuts.antt =====
-- Data that is cut off, before the readers of `borsh_decode_objects` of wasm-lib/src/lib.rs.
use near_git_storage.Prelude.{
  ℕ, zero, suc, ◌+◌, ◌-◌, ◌^◌, ◌≤◌, ◌<◌, ◌≡◌, refl, ap, subst, ◌∙◌, arith, [], ◌∷◌, ◌++◌, true, ◌⊎◌,
  inl, inr, lt→ltb, ltb, Result, ok, err, length, length-append, length-take, take, drop,
  Bool-cases, ltb→lt, ltb_false→le,
}
use near_git_storage.Hex.{Bytes}
use near_git_storage.Text.{is_utf8}
use near_git_storage.Wasm.{Error, end_of_data}
use near_git_storage.Wasm.Borsh.{
  to_le_bytes, write_bytes, read_u8, read_u32, read_bytes, read_string, first_byte,
}
use near_git_storage.Wasm.Borsh.Laws.{
  Stands, Stands-append, read_u32-Stands, read_bytes-Stands, behind, length-write_bytes,
}

-- From a position to its end the data has a first part of the whole, and not all of it. The whole would
-- have fitted.
abbrev pub Cut : Bytes → ℕ → Bytes → Type 0
Cut bytes pos whole =
    (pos + length whole < 2 ^ 32)
    × (left : ℕ) × (left < length whole)
    × Stands bytes pos (take left whole)

-- Data that was read before the cut, or a read that met it.
unfoldable pub Met : {A : Type 0} → Bytes → Bytes → Result Error (A × ℕ) → A → Type 0
Met bytes rest read a =
    (read ≡ err end_of_data) ⊎ ((next : ℕ) × (read ≡ ok (a, next)) × Cut bytes next rest)

take-append :
    (xs ys : Bytes) (n : ℕ) → length xs ≤ n → take n (xs ++ ys) ≡ xs ++ take (n - length xs) ys
take-append [] ys n h = ap (λ (k : ℕ). take k ys) {x = n} {y = n - 0} (omega arith)
take-append (x ∷ xs) ys zero h = absurd (omega arith)
take-append (x ∷ xs) ys (suc n) h =
    ap (λ t. x ∷ t)
      (take-append xs ys n (omega arith)
        ∙ ap (λ (k : ℕ). xs ++ take k ys) {x = n - length xs} {y = suc n - suc (length xs)}
            (omega arith))

-- The cut is in the first part, or behind it.
pub Cut-append :
    (bytes front rest : Bytes) (pos next : ℕ)
    → next ≡ pos + length front
    → Cut bytes pos (front ++ rest)
    → (length bytes < next)
      ⊎ ((left : ℕ) × Stands bytes pos (front ++ take left rest) × Cut bytes next rest)
Cut-append bytes front rest pos next e (fits, left, short, stands) =
    elim (Bool-cases (ltb left (length front))) [
      | inl inside ↦ inl (
          omega
            (arith, ltb→lt left (length front) inside, stands.1, length-take left (front ++ rest)))
      | inr beyond ↦
          let before = ltb_false→le left (length front) beyond in
          let at = subst (Stands bytes pos) (take-append front rest left before) stands in
          inr (
            left - length front,
            at,
            (
              omega (arith, length-append front rest),
              left - length front,
              omega (arith, length-append front rest),
              Stands-append bytes front (take (left - length front) rest) pos next e at,
            ),
          )
    ]

Cut-length : (bytes whole : Bytes) (pos : ℕ) → Cut bytes pos whole → length bytes < 2 ^ 32
Cut-length bytes whole pos (fits, left, short, stands) =
    omega (arith, stands.1, length-take left whole)

drop-all : (bytes : Bytes) (n : ℕ) → length bytes ≤ n → drop n bytes ≡ []
drop-all [] zero h = refl
drop-all [] (suc n) h = refl
drop-all (b ∷ bytes) zero h = absurd (omega arith)
drop-all (b ∷ bytes) (suc n) h = drop-all bytes n (omega arith)

pub read_u32-short :
    (bytes : Bytes) (pos : ℕ) → length bytes < pos + 4 → read_u32 bytes pos ≡ err end_of_data
unfolding read_u32
read_u32-short bytes pos h = rw (lt→ltb (length bytes) (pos + 4) h)

pub read_u8-short :
    (bytes : Bytes) (pos : ℕ) → length bytes ≤ pos → read_u8 bytes pos ≡ err end_of_data
unfolding read_u8
read_u8-short bytes pos h = ap (λ r. first_byte r pos) (drop-all bytes pos h)

read_bytes-short :
    (bytes : Bytes) (pos pos' n : ℕ)
    → read_u32 bytes pos ≡ ok (n, pos')
    → length bytes < pos' + n
    → pos' + n < 2 ^ 32
    → read_bytes bytes pos ≡ err end_of_data
unfolding read_bytes
read_bytes-short bytes pos pos' n e short h =
    rw (e, lt→ltb (pos' + n) (2 ^ 32) h, lt→ltb (length bytes) (pos' + n) short)

read_bytes-none :
    (bytes : Bytes) (pos : ℕ)
    → read_u32 bytes pos ≡ err end_of_data
    → read_bytes bytes pos ≡ err end_of_data
unfolding read_bytes
read_bytes-none bytes pos e = rw e

-- The cut in the length or in the content.
read_bytes-inside :
    (bytes content rest : Bytes) (pos : ℕ)
    → Cut bytes pos (write_bytes content ++ rest)
    → length bytes < behind pos content
    → read_bytes bytes pos ≡ err end_of_data
unfolding write_bytes
read_bytes-inside bytes content rest pos cut short =
    let head = to_le_bytes 4 (length content) in
    let small : (behind pos content < 2 ^ 32) = omega (arith, cut.0, length-append content rest) in
    elim (Cut-append bytes head (content ++ rest) pos (pos + 4) (omega arith) cut) [
      | inl outside ↦ read_bytes-none bytes pos (read_u32-short bytes pos outside)
      | inr (left, stands, _) ↦
          read_bytes-short bytes pos (pos + 4) (length content)
            (read_u32-Stands bytes (take left (content ++ rest)) pos (length content) (omega arith)
              stands)
            short small
    ]

pub read_bytes-Cut :
    (bytes content rest : Bytes) (pos : ℕ)
    → Cut bytes pos (write_bytes content ++ rest)
    → Met bytes rest (read_bytes bytes pos) content
unfolding Met
read_bytes-Cut bytes content rest pos cut =
    elim (Cut-append bytes (write_bytes content) rest pos (behind pos content)
      (omega (arith, length-write_bytes content)) cut) [
        | inl short ↦ inl (read_bytes-inside bytes content rest pos cut short)
        | inr (left, stands, after) ↦ inr (
          behind pos content,
          read_bytes-Stands bytes content (take left rest) pos
              (Cut-length bytes (write_bytes content ++ rest) pos cut) stands,
          after,
        )
      ]

pub read_string-Cut :
    (bytes s rest : Bytes) (pos : ℕ)
    → is_utf8 s ≡ true
    → Cut bytes pos (write_bytes s ++ rest)
    → Met bytes rest (read_string bytes pos) s
unfolding Met read_string
read_string-Cut bytes s rest pos u cut = elim (read_bytes-Cut bytes s rest pos cut) [
  | inl e ↦ inl (rw e)
  | inr (next, e, after) ↦ inr (next, rw (e, u), after)
]
