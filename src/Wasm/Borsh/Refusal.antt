-- ===== src/Wasm/Borsh/Refusal.antt =====
-- An answer of `get_objects` that is cut off, before `borsh_decode_objects` of wasm-lib/src/lib.rs.
use near_git_storage.Prelude.{
  ℕ, ◌+◌, ◌^◌, ◌<◌, ◌≡◌, refl, ap, subst, ◌∙◌, arith, List, [], ◌∷◌, ◌++◌, Option, none, some, true,
  ◌⊎◌, inl, inr, Result, ok, err, ◌>>=◌, length, All, append_assoc, take,
}
use near_git_storage.Hex.{Bytes}
use near_git_storage.Text.{is_utf8}
use near_git_storage.Wasm.{Error, end_of_data}
use near_git_storage.Wasm.Borsh.{
  to_le_bytes, write_bytes, read_u8, Fetched, read_found, read_objects, decode_objects,
}
use near_git_storage.Wasm.Borsh.Laws.{read_u8-Stands, read_u32-Stands}
use near_git_storage.Wasm.Borsh.Objects.{
  encode_found, encode_fetched, encode_objects, HasText, IsFetched, length-encode_fetched,
}
use near_git_storage.Wasm.Borsh.Cuts.{
  Cut, Met, Cut-append, read_u8-short, read_u32-short, read_bytes-Cut, read_string-Cut,
}

fields-Cut :
    (bytes obj_type contents rest : Bytes) (pos : ℕ)
    → is_utf8 obj_type ≡ true
    → Cut bytes pos (write_bytes obj_type ++ (write_bytes contents ++ rest))
    → Met bytes rest (read_found bytes (1, pos)) (some (obj_type, contents))
unfolding Met read_found
fields-Cut bytes obj_type contents rest pos text cut =
    elim (read_string-Cut bytes obj_type (write_bytes contents ++ rest) pos text cut) [
      | inl e ↦ inl (rw e)
      | inr (pos', e, after) ↦ elim (read_bytes-Cut bytes contents rest pos' after) [
        | inl e' ↦ inl (rw (e, e'))
        | inr (next, e', after') ↦ inr (next, rw (e, e'), after')
      ]
    ]

-- The tag of an object and its fields.
found-Cut :
    (bytes rest : Bytes) (pos : ℕ) (found : Option (Bytes × Bytes))
    → HasText found
    → Cut bytes pos (encode_found found ++ rest)
    → (read_u8 bytes pos ≡ err end_of_data)
      ⊎ ((tag : ℕ × ℕ) × (read_u8 bytes pos ≡ ok tag) × Met bytes rest (read_found bytes tag) found)
unfolding Met read_found
found-Cut bytes rest pos none text cut =
    elim (Cut-append bytes (0 ∷ []) rest pos (pos + 1) (omega arith) cut) [
      | inl short ↦ inl (read_u8-short bytes pos (omega arith))
      | inr (left, stands, after) ↦ inr (
        (0, pos + 1),
        read_u8-Stands bytes (take left rest) pos 0 stands,
        inr (pos + 1, refl, after),
      )
    ]
found-Cut bytes rest pos (some (obj_type, contents)) text cut =
    let fields : Bytes = write_bytes obj_type ++ (write_bytes contents ++ rest) in
    let cut' : Cut bytes pos (1 ∷ fields) =
      subst (λ r. Cut bytes pos (1 ∷ r))
        (append_assoc (write_bytes obj_type) (write_bytes contents) rest) cut in
    elim (Cut-append bytes (1 ∷ []) fields pos (pos + 1) (omega arith) cut') [
      | inl short ↦ inl (read_u8-short bytes pos (omega arith))
      | inr (left, stands, after) ↦ inr (
        (1, pos + 1),
        read_u8-Stands bytes (take left fields) pos 1 stands,
        fields-Cut bytes obj_type contents rest (pos + 1) text after,
      )
    ]

read_objects-Cut :
    (objects : List Fetched) (bytes : Bytes) (pos : ℕ)
    → All IsFetched objects
    → Cut bytes pos (encode_fetched objects)
    → read_objects (length objects) bytes pos ≡ err end_of_data
unfolding Met read_objects
read_objects-Cut [] bytes pos text (fits, left, short, stands) = absurd (omega arith)
read_objects-Cut ((sha, found) ∷ objects) bytes pos ((u, has_text), text) cut =
    let rest = encode_fetched objects in
    elim (read_string-Cut bytes sha (encode_found found ++ rest) pos u cut) [
      | inl e ↦ rw e
      | inr (pos₁, e₁, at_tag) ↦ elim (found-Cut bytes rest pos₁ found has_text at_tag) [
        | inl e₂ ↦ rw (e₁, e₂)
        | inr (tag, e₂, inl e₃) ↦ rw (e₁, e₂, e₃)
        | inr (tag, e₂, inr (pos₂, e₃, after)) ↦
            rw (e₁, e₂, e₃, read_objects-Cut objects bytes pos₂ text after)
      ]
    ]

-- For the borsh encoding of a list of objects whose SHAs and types are UTF-8, of less than 2^32 bytes:
-- whatever proper first part of it arrives, `borsh_decode_objects` refuses it for the end of the data.
pub decode_objects-take :
    (objects : List Fetched) (left : ℕ)
    → All IsFetched objects
    → length (encode_objects objects) < 2 ^ 32
    → left < length (encode_objects objects)
    → decode_objects (take left (encode_objects objects)) ≡ err end_of_data
unfolding decode_objects
decode_objects-take objects left text h short =
    let head = to_le_bytes 4 (length objects) in
    let bytes = take left (encode_objects objects) in
    let cut : Cut bytes 0 (head ++ encode_fetched objects) =
      (omega (arith, h), left, short, (refl, omega arith)) in
    let rest_of = λ (r : Result Error (ℕ × ℕ)). r >>= λ (len, pos). read_objects len bytes pos in
    elim (Cut-append bytes head (encode_fetched objects) 0 4 refl cut) [
      | inl outside ↦ ap rest_of (read_u32-short bytes 0 outside)
      | inr (more, stands, after) ↦
          ap rest_of (
            read_u32-Stands bytes (take more (encode_fetched objects)) 0 (length objects)
              (omega (arith, length-encode_fetched objects)) stands)
          ∙ read_objects-Cut objects bytes 4 text after
    ]
