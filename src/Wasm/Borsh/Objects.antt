-- ===== src/Wasm/Borsh/Objects.antt =====
-- The answer of `get_objects` as the contract's side writes it, read by `borsh_decode_objects` of
-- wasm-lib/src/lib.rs.
use near_git_storage.Prelude.{
  ℕ, ◌+◌, ◌^◌, ◌≤◌, ◌<◌, ◌≡◌, refl, ap, subst, ◌∙◌, arith, List, [], ◌∷◌, ◌++◌, Option, none, some,
  true, ok, ◌>>=◌, length, length-append, append_assoc, All,
}
use near_git_storage.Hex.{Bytes}
use near_git_storage.Text.{is_utf8}
use near_git_storage.Wasm.Borsh.{
  to_le_bytes, write_bytes, read_u8, Fetched, read_found, read_objects, decode_objects,
}
use near_git_storage.Wasm.Borsh.Laws.{
  Stands, Stands-append, read_u8-Stands, read_u32-Stands, read_bytes-Stands, Stands-write_bytes,
  read_string-Stands, behind, length-write_bytes,
}

-- An `Option` is a tag and, under the tag 1, its fields.
abbrev pub encode_found : Option (Bytes × Bytes) → Bytes
encode_found none = 0 ∷ []
encode_found (some (obj_type, contents)) = 1 ∷ (write_bytes obj_type ++ write_bytes contents)

abbrev pub encode_fetched : List Fetched → Bytes
encode_fetched [] = []
encode_fetched ((sha, found) ∷ objects) =
    write_bytes sha ++ (encode_found found ++ encode_fetched objects)

abbrev pub encode_objects : List Fetched → Bytes
encode_objects objects = to_le_bytes 4 (length objects) ++ encode_fetched objects

abbrev pub HasText : Option (Bytes × Bytes) → Type 0
HasText none = Unit {0}
HasText (some (obj_type, contents)) = is_utf8 obj_type ≡ true

-- The SHA and the type are strings, whose bytes are UTF-8.
abbrev pub IsFetched : Fetched → Type 0
IsFetched (sha, found) = (is_utf8 sha ≡ true) × HasText found

found-Stands :
    (bytes rest : Bytes) (pos : ℕ) (found : Option (Bytes × Bytes))
    → length bytes < 2 ^ 32
    → HasText found
    → Stands bytes pos (encode_found found ++ rest)
    → (tag : ℕ × ℕ) × (next : ℕ) × (read_u8 bytes pos ≡ ok tag)
      × (read_found bytes tag ≡ ok (found, next))
      × Stands bytes next rest
unfolding read_found
found-Stands bytes rest pos none h text stands = (
  (0, pos + 1),
  pos + 1,
  read_u8-Stands bytes rest pos 0 stands,
  refl,
  Stands-append bytes (0 ∷ []) rest pos (pos + 1) (omega arith) stands,
)
found-Stands bytes rest pos (some (obj_type, contents)) h text stands =
    let fields : Bytes = write_bytes obj_type ++ (write_bytes contents ++ rest) in
    let stands' : Stands bytes pos (1 ∷ fields) =
      subst (λ r. Stands bytes pos (1 ∷ r))
        (append_assoc (write_bytes obj_type) (write_bytes contents) rest) stands in
    let at_type = Stands-append bytes (1 ∷ []) fields pos (pos + 1) (omega arith) stands' in
    let at_data =
      Stands-write_bytes bytes obj_type (write_bytes contents ++ rest) (pos + 1) at_type in
    let pos' = behind (pos + 1) obj_type in
    (
      (1, pos + 1),
      behind pos' contents,
      read_u8-Stands bytes fields pos 1 stands',
      rw (
        read_string-Stands bytes obj_type (write_bytes contents ++ rest) (pos + 1) h text at_type,
        read_bytes-Stands bytes contents rest pos' h at_data,
      ),
      Stands-write_bytes bytes contents rest pos' at_data,
    )

read_objects-Stands :
    (objects : List Fetched) (bytes : Bytes) (pos : ℕ)
    → length bytes < 2 ^ 32
    → All IsFetched objects
    → Stands bytes pos (encode_fetched objects)
    → read_objects (length objects) bytes pos ≡ ok objects
unfolding read_objects
read_objects-Stands [] bytes pos h text stands = refl
read_objects-Stands ((sha, found) ∷ objects) bytes pos h ((u, has_text), text) stands =
    let behind_sha = encode_found found ++ encode_fetched objects in
    let at_tag = Stands-write_bytes bytes sha behind_sha pos stands in
    let (tag, next, read_tag, read_fields, at_rest) =
      found-Stands bytes (encode_fetched objects) (behind pos sha) found h has_text at_tag in
    rw (
      read_string-Stands bytes sha behind_sha pos h u stands,
      read_tag,
      read_fields,
      read_objects-Stands objects bytes next h text at_rest,
    )

pub length-encode_fetched :
    (objects : List Fetched) → length objects ≤ length (encode_fetched objects)
length-encode_fetched [] = omega arith
length-encode_fetched ((sha, found) ∷ objects) =
    let rest = encode_found found ++ encode_fetched objects in
    omega (
      arith,
      length-encode_fetched objects,
      length-append (write_bytes sha) rest,
      length-write_bytes sha,
      length-append (encode_found found) (encode_fetched objects),
    )

-- For a list of objects whose SHAs and types are UTF-8 and whose borsh encoding, as the contract's side
-- writes it, takes less than 2^32 bytes, `borsh_decode_objects` reads from that encoding exactly the
-- objects of the list, found or not, in their order.
pub decode_objects-encode_objects :
    (objects : List Fetched)
    → All IsFetched objects
    → length (encode_objects objects) < 2 ^ 32
    → decode_objects (encode_objects objects) ≡ ok objects
unfolding decode_objects
decode_objects-encode_objects objects text h =
    let bytes = encode_objects objects in
    let stands : Stands bytes 0 (to_le_bytes 4 (length objects) ++ encode_fetched objects) =
      (refl, omega arith) in
    let at =
      Stands-append bytes (to_le_bytes 4 (length objects)) (encode_fetched objects) 0 4 refl
        stands in
    ap (λ r. r >>= λ (len, pos). read_objects len bytes pos)
      (read_u32-Stands bytes (encode_fetched objects) 0 (length objects)
        (omega (arith, length-encode_fetched objects, stands.1)) stands)
    ∙ read_objects-Stands objects bytes 4 h text at
