-- ===== src/Packfile/ComputeDelta.antt =====
-- `compute_delta` of git-core/src/packfile.rs. A function that only pushes onto `buf` is the list of
-- the bytes that it pushes.
pub mod Flags
pub mod Emit
pub mod Sizes
pub mod Matching
pub mod RoundTrip
use near_git_storage.Prelude.{
  ℕ, zero, suc, ◌+◌, ◌-◌, ◌*◌, ◌/◌, ◌%◌, ◌^◌, List, [], ◌∷◌, ◌++◌, bit_and, bit_or, bit_xor, ltb,
  leb, ◌==◌, if◌then◌else◌, length, take, drop, min,
}
use near_git_storage.Packfile.{Bytes}

abbrev pub block_size : ℕ
block_size = 16

unfoldable pub fnv_loop : ℕ → Bytes → ℕ
fnv_loop hash [] = hash
fnv_loop hash (b ∷ bs) = fnv_loop (bit_xor hash b * 0x100000001b3 % 2 ^ 64) bs

unfoldable pub fnv_hash : Bytes → ℕ
fnv_hash = fnv_loop 0xcbf29ce484222325

-- Seven bits a round: ten rounds take a usize of 64 bits.
unfoldable pub encode_size_loop : ℕ → ℕ → Bytes
encode_size_loop zero val = []
encode_size_loop (suc rounds) val =
    let byte = bit_and val 0x7f in
    let rest = encode_size_loop rounds (val / 128) in
    if ltb 0 (val / 128) then bit_or byte 0x80 ∷ rest else byte ∷ []

unfoldable pub encode_size : ℕ → Bytes
encode_size = encode_size_loop 10

-- `if byte != 0 { cmd |= flag; data.push(byte); }`
unfoldable pub put_operand : ℕ → ℕ → ℕ × Bytes → ℕ × Bytes
put_operand flag byte (cmd, pushed) =
    if byte == 0 then (cmd, pushed) else (bit_or cmd flag, pushed ++ (byte ∷ []))

-- `((n >> (i * 8)) & 0xff) as u8`
abbrev pub byte_at : ℕ → ℕ → ℕ
byte_at n i = bit_and (n / 2 ^ (i * 8)) 0xff

-- The two loops, four rounds and three, written out.
unfoldable pub copy_fields : ℕ → ℕ → ℕ × Bytes
copy_fields offset enc_size = put_operand 0x40 (byte_at enc_size 2) (
    put_operand 0x20 (byte_at enc_size 1) (
      put_operand 0x10 (byte_at enc_size 0) (
        put_operand 0x08 (byte_at offset 3) (
          put_operand 0x04 (byte_at offset 2) (
            put_operand 0x02 (byte_at offset 1)
              (put_operand 0x01 (byte_at offset 0) (0x80, [])))))))

unfoldable pub emit_copy : ℕ → ℕ → Bytes
emit_copy offset size =
    let (cmd, pushed) = copy_fields offset (if size == 0x10000 then 0 else size) in cmd ∷ pushed

-- `while !insert_buf.is_empty()`. Each round drains a byte at least.
unfoldable pub flush_loop : ℕ → Bytes → Bytes
flush_loop fuel [] = []
flush_loop zero (b ∷ bs) = []
flush_loop (suc fuel) (b ∷ bs) =
    let count = min (length (b ∷ bs)) 127 in
    count ∷ (take count (b ∷ bs) ++ flush_loop fuel (drop count (b ∷ bs)))

unfoldable pub flush_inserts : Bytes → Bytes
flush_inserts insert_buf = flush_loop (length insert_buf) insert_buf

-- The hash map from a block's hash to the offsets of the blocks that have it.
abbrev pub Index : Type 0
Index = List (ℕ × List ℕ)

-- `index.entry(hash).or_default().push(offset)`
unfoldable pub index_push : ℕ → ℕ → Index → Index
index_push hash offset [] = (hash, offset ∷ []) ∷ []
index_push hash offset ((h, offsets) ∷ rest) =
    if h == hash
    then (h, offsets ++ (offset ∷ [])) ∷ rest
    else (h, offsets) ∷ index_push hash offset rest

-- The offsets of a hash; none where the map has no entry.
unfoldable pub index_get : ℕ → Index → List ℕ
index_get hash [] = []
index_get hash ((h, offsets) ∷ rest) = if h == hash then offsets else index_get hash rest

unfoldable pub index_blocks : ℕ → ℕ → Bytes → Index → Index
index_blocks zero i base index = index
index_blocks (suc left) i base index =
    index_blocks left (i + block_size) base
      (index_push (fnv_hash (take block_size (drop i base))) i index)

-- `(0..=base.len() - BLOCK_SIZE).step_by(BLOCK_SIZE)` has `(len - 16) / 16 + 1` members.
unfoldable pub build_index : Bytes → Index
build_index base =
    if leb block_size (length base)
    then index_blocks ((length base - block_size) / block_size + 1) 0 base []
    else []

-- `while len < max_len && target[pos + len] == base[base_off + len]`, on the two suffixes.
unfoldable pub match_length : ℕ → Bytes → Bytes → ℕ
match_length (suc left) (x ∷ xs) (y ∷ ys) = if x == y then suc (match_length left xs ys) else 0
match_length _ _ _ = 0

pub record Match : Type 0 where
  pub offset : ℕ
  pub len : ℕ

-- `for &base_off in offsets`
unfoldable pub best_of : Bytes → Bytes → List ℕ → Match → Match
best_of base rest [] best = best
best_of base rest (base_off ∷ offsets) best =
    let len = match_length (min (length rest) (length base - base_off)) rest (drop base_off base) in
    best_of base rest offsets
      (if ltb best.len len then record { offset = base_off; len = len } else best)

unfoldable pub find_match : Bytes → Index → Bytes → Match
find_match base index rest =
    let nothing : Match = record { offset = 0; len = 0 } in
    if leb block_size (length rest)
    then best_of base rest (index_get (fnv_hash (take block_size rest)) index) nothing
    else nothing

-- `while copied < best_len`, over what is left to copy. Each round copies a byte at least.
unfoldable pub emit_copies : ℕ → ℕ → ℕ → Bytes
emit_copies zero offset left = []
emit_copies (suc fuel) offset left =
    let chunk = min left 0x10000 in
    let more = emit_copies fuel (offset + chunk) (left - chunk) in
    if left == 0 then [] else emit_copy offset chunk ++ more

-- `while pos < target.len()`, over the bytes of the target from `pos` on. Each round takes one of
-- them at least. The last flush is the code's, behind the loop.
unfoldable pub delta_loop : ℕ → Bytes → Index → Bytes → Bytes → Bytes → Bytes
delta_loop fuel base index [] result insert_buf = result ++ flush_inserts insert_buf
delta_loop zero base index (x ∷ xs) result insert_buf = result
delta_loop (suc fuel) base index (x ∷ xs) result insert_buf =
    let best = find_match base index (x ∷ xs) in
    let copied =
      delta_loop fuel base index (drop best.len (x ∷ xs))
        (result ++ (flush_inserts insert_buf ++ emit_copies best.len best.offset best.len)) [] in
    let inserted = delta_loop fuel base index xs result (insert_buf ++ (x ∷ [])) in
    if leb block_size best.len then copied else inserted

unfoldable pub compute_delta : Bytes → Bytes → Bytes
compute_delta base target =
    delta_loop (length target) base (build_index base) target
      (encode_size (length base) ++ encode_size (length target)) []
