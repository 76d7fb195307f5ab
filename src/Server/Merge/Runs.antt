-- ===== src/Server/Merge/Runs.antt =====
-- Runs of the merge, and its laws at concrete inputs.
use near_git_storage.Prelude.{
  ℕ, ◌≡◌, refl, suc, List, [], ◌∷◌, ◌++◌, Option, some, none, true, ok, ap, ◌<◌, ◌^◌, arith, take,
  replicate, length, All,
}
use near_git_storage.Hex.{format_hex, digits_loop, hex_digit}
use near_git_storage.Text.{ascii}
use near_git_storage.Packfile.{Bytes}
use near_git_storage.Packfile.Ensures.{Ensures}
use near_git_storage.Packfile.Delta.{
  size_loop, read_delta_size, insert_literal, instruction_step, run, apply_delta,
}
use near_git_storage.Packfile.Entries.{read_entry_header}
use near_git_storage.Packfile.Parse.{
  PackObject, UnresolvedDelta, sha1, type_from_bits, inflated, decompress, ref_delta_entry,
  object_entry, parse_entry, parse_entries, entry_at, cached, store, resolve_entry, resolve,
  add_resolution, resolve_all, check_head, num_objects, parse,
}
use near_git_storage.Packfile.Entries.{encode_pack_header, pack_size_loop}
use near_git_storage.Packfile.ComputeDelta.{
  compute_delta, delta_loop, find_match, build_index, flush_inserts, flush_loop, encode_size,
  encode_size_loop,
}
use near_git_storage.Packfile.Build.{
  sort_objects, insert_sorted, precedes, plan_entries, plan_entry, try_refs, try_ofs, try_base,
  last_by_type, write_entries, write_entry, type_to_bits, build_with_bases, build,
}
use near_git_storage.Packfile.Build.Runs.{size_of, mark, unmark, mark-IsCodec}
use near_git_storage.Server.Merge.Clone.{parse-merged_pack}
use mathlib.Core.List.{Perm}
use near_git_storage.Server.Merge.{
  merged_pack, is_caught, caught, local_get, Merge, apply_chain, apply_all, add_or_drop, retain,
  resolve_rounds, local_of, merge_parsed, merge_packs,
}
use near_git_storage.Server.Merge.Rounds.{IsBaseless, resolve_rounds-Ensures}
use near_git_storage.Server.Merge.Derived.{ComesFromPacks, merge_packs-ComesFromPacks}

-- A stream is its length and its bytes.
abbrev counted : Bytes → Option (Bytes × ℕ)
counted [] = none
counted (n ∷ bytes) = some (take n bytes, suc n)

-- All objects have the same SHA.
abbrev zeros : Bytes → Bytes
zeros bytes = replicate 20 0

abbrev head : Bytes
head = ascii "PACK" ++ (0 ∷ 0 ∷ 0 ∷ 2 ∷ 0 ∷ 0 ∷ 0 ∷ 1 ∷ [])

-- A blob, and a pack with a delta that makes another one of it.
abbrev base_pack : Bytes
base_pack = head ++ (0x31 ∷ 1 ∷ 65 ∷ [])

abbrev thin_pack : Bytes
thin_pack = head ++ (0x75 ∷ (replicate 20 0 ++ (5 ∷ 1 ∷ 2 ∷ 2 ∷ 66 ∷ 67 ∷ [])))

abbrev blob : Bytes → PackObject
blob contents = record { obj_type = ascii "blob"; data_bytes = contents }

base_first :
    merge_packs counted zeros [] (base_pack ∷ thin_pack ∷ [])
    ≡ ok (blob (65 ∷ []) ∷ blob (66 ∷ 67 ∷ []) ∷ [])
unfolding merge_packs merge_parsed resolve_rounds retain local_of local_get add_or_drop apply_all
    apply_chain caught is_caught parse check_head num_objects parse_entries parse_entry
    ref_delta_entry object_entry type_from_bits decompress inflated read_entry_header resolve_all
    resolve resolve_entry entry_at cached store add_resolution sha1 format_hex digits_loop hex_digit
    apply_delta read_delta_size size_loop run instruction_step insert_literal
base_first = refl

-- A delta whose base lies in a later pack is lost: the deltas of a pack are given up with the pack.
late_base : merge_packs counted zeros [] (thin_pack ∷ base_pack ∷ []) ≡ ok (blob (65 ∷ []) ∷ [])
unfolding merge_packs merge_parsed resolve_rounds retain local_of local_get add_or_drop apply_all
    apply_chain caught is_caught parse check_head num_objects parse_entries parse_entry
    ref_delta_entry object_entry type_from_bits decompress inflated read_entry_header resolve_all
    resolve resolve_entry entry_at cached store add_resolution sha1 format_hex digits_loop hex_digit
    apply_delta read_delta_size size_loop run instruction_step insert_literal
late_base = refl

merge_packs-ComesFromPacks_example :
    All
      (ComesFromPacks counted zeros (base_pack ∷ thin_pack ∷ []))
      (blob (65 ∷ []) ∷ blob (66 ∷ 67 ∷ []) ∷ [])
merge_packs-ComesFromPacks_example =
    merge_packs-ComesFromPacks counted zeros (base_pack ∷ thin_pack ∷ [])
      (blob (65 ∷ []) ∷ blob (66 ∷ 67 ∷ []) ∷ []) base_first

abbrev one_delta : List UnresolvedDelta
one_delta =
    record { base_sha = replicate 40 b'0'; delta_data = 1 ∷ 2 ∷ 2 ∷ 66 ∷ 67 ∷ []; chain = [] } ∷ []

resolve_rounds-Ensures_example :
    Ensures
      (λ (out : List UnresolvedDelta × Merge). All (IsBaseless zeros out.1.all_objects) out.0)
      (resolve_rounds zeros (suc (length one_delta)) one_delta (record {
        local = local_of zeros (blob [] ∷ []) [];
        all_objects = blob [] ∷ [];
        progress = true;
      }))
resolve_rounds-Ensures_example = resolve_rounds-Ensures zeros one_delta (blob [] ∷ [])

-- The two packs with the streams of another codec.
abbrev packs : List Bytes
packs =
    (head ++ (0x31 ∷ mark (65 ∷ [])))
    ∷ (head ++ (0x75 ∷ (replicate 20 0 ++ mark (1 ∷ 2 ∷ 2 ∷ 66 ∷ 67 ∷ []))))
    ∷ []

abbrev merged_objects : List PackObject
merged_objects = blob (65 ∷ []) ∷ blob (66 ∷ 67 ∷ []) ∷ []

merged : merge_packs unmark zeros [] packs ≡ ok merged_objects
unfolding merge_packs merge_parsed resolve_rounds retain local_of local_get add_or_drop apply_all
    apply_chain caught is_caught parse check_head num_objects parse_entries parse_entry
    ref_delta_entry object_entry type_from_bits decompress inflated read_entry_header resolve_all
    resolve resolve_entry entry_at cached store add_resolution sha1 format_hex digits_loop hex_digit
    apply_delta read_delta_size size_loop run instruction_step insert_literal
merged = refl

merged_size : size_of (build mark zeros merged_objects) ≡ 39
unfolding build build_with_bases sort_objects insert_sorted precedes plan_entries plan_entry
    try_refs try_ofs try_base last_by_type write_entries write_entry type_to_bits encode_pack_header
    pack_size_loop compute_delta delta_loop find_match build_index flush_inserts flush_loop
    encode_size encode_size_loop
merged_size = refl

merged_fits : (pack : Bytes) → build mark zeros merged_objects ≡ ok pack → length pack < 2 ^ 64
merged_fits pack built = omega (arith, ap size_of built, merged_size)

parse-merged_pack_example :
    (pack : Bytes) × (merged_pack unmark zeros mark packs ≡ ok pack)
    × (parse unmark pack ≡ ok (record { objects = sort_objects merged_objects; deltas = [] }))
    × Perm (sort_objects merged_objects) merged_objects
    × All (ComesFromPacks unmark zeros packs) merged_objects
parse-merged_pack_example =
    parse-merged_pack unmark zeros packs mark mark-IsCodec merged_objects merged
      (omega arith, (omega arith, tt)) (omega arith) merged_fits
