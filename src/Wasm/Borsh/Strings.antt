-- ===== src/Wasm/Borsh/Strings.antt =====
-- The list of SHAs that `borsh_encode_shas` of wasm-lib/src/lib.rs writes, read by
-- `borsh_read_string_vec`.
use near_git_storage.Prelude.{
  ℕ, ◌+◌, ◌*◌, ◌^◌, ◌≤◌, ◌<◌, ◌≡◌, refl, ap, ◌∙◌, arith, List, [], ◌∷◌, ◌++◌, true, lt→ltb, ok,
  ◌>>=◌, ◌>>◌, guard, ltb, length, length-append, All,
}
use near_git_storage.Hex.{Bytes}
use near_git_storage.Text.{is_utf8}
use near_git_storage.Wasm.{overflow}
use near_git_storage.Wasm.Borsh.{
  to_le_bytes, write_bytes, write_string, read_strings, read_string_vec, encode_strings,
  encode_shas,
}
use near_git_storage.Wasm.Borsh.Laws.{
  Stands, Stands-append, read_u32-Stands, Stands-write_bytes, read_string-Stands, behind,
  length-write_bytes,
}

-- The place behind strings that were written.
abbrev behind_strings : ℕ → List Bytes → ℕ
behind_strings pos [] = pos
behind_strings pos (s ∷ ss) = behind_strings (behind pos s) ss

read_strings-Stands :
    (ss : List Bytes) (bytes : Bytes) (pos : ℕ)
    → length bytes < 2 ^ 32
    → All (λ s. is_utf8 s ≡ true) ss
    → Stands bytes pos (encode_strings ss)
    → read_strings (length ss) bytes pos ≡ ok (ss, behind_strings pos ss)
unfolding read_strings encode_strings write_string write_bytes
read_strings-Stands [] bytes pos h text stands = refl
read_strings-Stands (s ∷ ss) bytes pos h (u, text) stands =
    let at = Stands-write_bytes bytes s (encode_strings ss) pos stands in
    rw (
      read_string-Stands bytes s (encode_strings ss) pos h u stands,
      read_strings-Stands ss bytes (behind pos s) h text at,
    )

length-encode_strings : (ss : List Bytes) → length ss ≤ length (encode_strings ss)
unfolding encode_strings write_string write_bytes
length-encode_strings [] = omega arith
length-encode_strings (s ∷ ss) = omega (
  arith,
  length-encode_strings ss,
  length-append (write_bytes s) (encode_strings ss),
  length-write_bytes s,
)

end-encode_strings :
    (ss : List Bytes) (pos : ℕ) → behind_strings pos ss ≡ pos + length (encode_strings ss)
unfolding encode_strings write_string write_bytes
end-encode_strings [] pos = omega arith
end-encode_strings (s ∷ ss) pos = omega (
  arith,
  end-encode_strings ss (behind pos s),
  length-append (write_bytes s) (encode_strings ss),
  length-write_bytes s,
)

-- For UTF-8 strings so few that their vector stays below 2^31 bytes of memory and their encoding below
-- 2^32, `borsh_read_string_vec` reads what `borsh_encode_shas` writes: the same strings in their order,
-- and it ends exactly behind the last byte.
pub read_string_vec-encode_shas :
    (shas : List Bytes)
    → All (λ s. is_utf8 s ≡ true) shas
    → length shas * 12 < 2 ^ 31
    → length (encode_shas shas) < 2 ^ 32
    → read_string_vec (encode_shas shas) 0 ≡ ok (shas, length (encode_shas shas))
unfolding read_string_vec encode_shas
read_string_vec-encode_shas shas text few h =
    let bytes = to_le_bytes 4 (length shas) ++ encode_strings shas in
    let stands : Stands bytes 0 (to_le_bytes 4 (length shas) ++ encode_strings shas) =
      (refl, omega arith) in
    let at =
      Stands-append bytes (to_le_bytes 4 (length shas)) (encode_strings shas) 0 4 refl stands in
    let last : (behind_strings 4 shas ≡ length bytes) = omega (arith, end-encode_strings shas 4) in
    ap
      (λ r.
        r >>= λ (len, pos). guard (ltb (len * 12) (2 ^ 31)) overflow >> read_strings len bytes pos)
      (read_u32-Stands bytes (encode_strings shas) 0 (length shas) (omega arith) stands)
    ∙ ap (λ t. guard t overflow >> read_strings (length shas) bytes 4)
        (lt→ltb (length shas * 12) (2 ^ 31) few)
    ∙ read_strings-Stands shas bytes 4 h text at
    ∙ ap (λ (k : ℕ). ok (shas, k)) last
