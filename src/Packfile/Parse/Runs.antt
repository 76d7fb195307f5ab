-- ===== src/Packfile/Parse/Runs.antt =====
-- A run of the parser, and its laws at concrete inputs.
use near_git_storage.Prelude.{
  ℕ, suc, ◌≡◌, refl, subst, arith, All, ok-injective, List, [], ◌∷◌, ◌++◌, Option, some, none, ok,
  err, take, drop, replicate, length,
}
use near_git_storage.Hex.{format_hex, digits_loop, hex_digit}
use near_git_storage.Packfile.{Bytes, out_of_fuel}
use near_git_storage.Packfile.Entries.{
  read_entry_header, entry_size_loop, read_ofs_offset, ofs_offset_loop,
}
use near_git_storage.Packfile.Parse.{
  ParseResult, ofs_delta, Entries, Resolution, inflated, decompress, ref_delta_entry,
  ofs_delta_entry, object_entry, type_from_bits, parse_entry, parse_entries, pos_to_idx, entry_at,
  cached, store, stack_delta, resolve_entry, resolve, add_resolution, resolve_all, check_head,
  num_objects, parse,
}
use near_git_storage.Text.{ascii}
use near_git_storage.Packfile.Delta.{
  apply_delta, read_delta_size, size_loop, run, instruction_step, insert_literal,
}
use near_git_storage.Packfile.Parse.Types.{AreTyped, parse-AreTyped}
use near_git_storage.Packfile.Ensures.{Ensures}
use near_git_storage.Packfile.Parse.Ends.{IsBackward, count, parse-Ensures}
use near_git_storage.Packfile.Parse.Results.{
  ResolvesFrom, collect, parse-ResolvesFrom, resolve_self,
}

-- A stream of one byte, which stands for itself.
abbrev one_byte : Bytes → Option (Bytes × ℕ)
one_byte bytes = some (take 1 bytes, 1)

-- A delta on a foreign base, and a delta on that delta.
abbrev two_deltas : Bytes
two_deltas =
    b'P'
    ∷ b'A'
    ∷ b'C'
    ∷ b'K'
    ∷ 0
    ∷ 0
    ∷ 0
    ∷ 2
    ∷ 0
    ∷ 0
    ∷ 0
    ∷ 2
    ∷ 0x71
    ∷ (replicate 20 0 ++ (9 ∷ 0x61 ∷ 22 ∷ 8 ∷ []))

abbrev two_chains : ParseResult
two_chains = record {
  objects = [];
  deltas =
      record { base_sha = replicate 40 b'0'; delta_data = 9 ∷ []; chain = [] }
      ∷ record { base_sha = replicate 40 b'0'; delta_data = 9 ∷ []; chain = (8 ∷ []) ∷ [] }
      ∷ [];
}

parsed : parse one_byte two_deltas ≡ ok two_chains
unfolding parse check_head num_objects parse_entries parse_entry ref_delta_entry ofs_delta_entry
    decompress inflated read_entry_header entry_size_loop read_ofs_offset ofs_offset_loop format_hex
    digits_loop hex_digit resolve_all resolve resolve_entry stack_delta pos_to_idx entry_at cached
    store add_resolution
parsed = refl

parse-ResolvesFrom_example :
    (entries : Entries) × (parse_entries one_byte (num_objects two_deltas) 12 (drop 12 two_deltas)
      ≡ ok entries)
    × ((rs : List Resolution) × (length rs ≡ length entries)
        × ResolvesFrom entries 0 rs
        × (collect rs (record { objects = []; deltas = [] }) ≡ ok two_chains))
parse-ResolvesFrom_example = parse-ResolvesFrom one_byte two_deltas two_chains parsed

backward :
    (entries : Entries)
    → parse_entries one_byte (num_objects two_deltas) 12 (drop 12 two_deltas) ≡ ok entries
    → All IsBackward entries
unfolding parse_entries parse_entry ref_delta_entry ofs_delta_entry num_objects decompress inflated
    read_entry_header entry_size_loop read_ofs_offset ofs_offset_loop format_hex digits_loop
    hex_digit
backward entries e = subst (All IsBackward) (ok-injective e) (tt, (omega arith, tt))

parse-Ensures_example :
    Ensures (λ result. count result ≡ num_objects two_deltas) (parse one_byte two_deltas)
parse-Ensures_example = parse-Ensures one_byte two_deltas backward

-- A stream is its length and its bytes.
abbrev counted : Bytes → Option (Bytes × ℕ)
counted [] = none
counted (n ∷ bytes) = some (take n bytes, suc n)

-- A blob, and a delta on it.
abbrev two_blobs : Bytes
two_blobs =
    ascii "PACK"
    ++ (0 ∷ 0 ∷ 0 ∷ 2 ∷ 0 ∷ 0 ∷ 0 ∷ 2 ∷ 0x31 ∷ 1 ∷ 65 ∷ 0x65 ∷ 3 ∷ 5 ∷ 1 ∷ 2 ∷ 2 ∷ 66 ∷ 67 ∷ [])

abbrev blobs : ParseResult
blobs = record {
  objects =
      record { obj_type = ascii "blob"; data_bytes = 65 ∷ [] }
      ∷ record { obj_type = ascii "blob"; data_bytes = 66 ∷ 67 ∷ [] }
      ∷ [];
  deltas = [];
}

parsed_blobs : parse counted two_blobs ≡ ok blobs
unfolding parse check_head num_objects parse_entries parse_entry object_entry type_from_bits
    ofs_delta_entry decompress inflated read_entry_header entry_size_loop read_ofs_offset
    ofs_offset_loop resolve_all resolve resolve_entry stack_delta pos_to_idx entry_at cached store
    add_resolution apply_delta read_delta_size size_loop run instruction_step insert_literal
parsed_blobs = refl

parse-AreTyped_example : AreTyped blobs.objects
parse-AreTyped_example = parse-AreTyped counted two_blobs blobs parsed_blobs

abbrev self_based : Entries
self_based = (12, ofs_delta 12 []) ∷ []

at_zero : entry_at 0 self_based ≡ some (ofs_delta 12 [])
unfolding entry_at
at_zero = refl

self_found : pos_to_idx self_based 0 12 ≡ some 0
unfolding pos_to_idx
self_found = refl

nothing_cached : cached 0 (none ∷ []) ≡ ok none
unfolding cached
nothing_cached = refl

resolve_self_example : resolve 1000 self_based 0 (none ∷ []) ≡ err out_of_fuel
resolve_self_example =
    resolve_self 1000 self_based 0 12 [] (none ∷ []) at_zero self_found nothing_cached
