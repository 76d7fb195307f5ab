-- ===== src/Packfile/Build/Runs.antt =====
-- Runs of the builder, and its laws at concrete inputs.
use near_git_storage.Prelude.{
  ℕ, zero, suc, ◌<◌, ◌^◌, ◌≡◌, refl, ap, arith, All, List, [], ◌∷◌, ◌++◌, Option, some, none, ok,
  err, length, replicate,
}
use near_git_storage.Text.{ascii}
use near_git_storage.Hex.{format_hex, digits_loop, hex_digit, from_str_radix, parse_loop, to_digit}
use near_git_storage.Packfile.{Bytes, Outcome}
use near_git_storage.Packfile.Entries.{
  encode_pack_header, pack_size_loop, encode_ofs_offset, ofs_loop,
}
use near_git_storage.Packfile.ComputeDelta.{
  compute_delta, delta_loop, find_match, best_of, match_length, build_index, index_get, index_push,
  index_blocks, flush_inserts, flush_loop, emit_copies, emit_copy, copy_fields, put_operand,
  encode_size, encode_size_loop, fnv_hash, fnv_loop,
}
use near_git_storage.Packfile.Parse.{PackObject, ParseResult, sha1, parse}
use near_git_storage.Packfile.Build.{
  sort_objects, insert_sorted, precedes, plan_entries, plan_entry, try_refs, try_ofs, try_base,
  last_by_type, write_entries, write_entry, sha_bytes, position_at, type_to_bits, build_with_bases,
  build,
}
use near_git_storage.Packfile.Build.Plan.{Planned, plan_entries-sort_objects}
use near_git_storage.Packfile.Parse.Types.{blob}
use near_git_storage.Packfile.Build.Codec.{IsCodec}
use near_git_storage.Packfile.Build.Parsed.{Recovers}
use near_git_storage.Packfile.Build.Thin.{parse-build_with_bases, parse-build}
use near_git_storage.Packfile.Build.RoundTrip.{IsStorable}
use mathlib.Core.List.{Perm}

abbrev no_digest : Bytes → Bytes
no_digest bytes = []

abbrev pub file : Bytes → PackObject
file contents = record { obj_type = ascii "blob"; data_bytes = contents }

empty_pack :
    build (λ bytes. bytes) no_digest []
    ≡ ok (b'P' ∷ b'A' ∷ b'C' ∷ b'K' ∷ 0 ∷ 0 ∷ 0 ∷ 2 ∷ 0 ∷ 0 ∷ 0 ∷ 0 ∷ [])
unfolding build build_with_bases sort_objects plan_entries write_entries
empty_pack = refl

-- The largest object comes first.
sorted : sort_objects (file [] ∷ file (1 ∷ []) ∷ []) ≡ file (1 ∷ []) ∷ file [] ∷ []
unfolding sort_objects insert_sorted precedes
sorted = refl

plan_entries-sort_objects_example : Planned no_digest (file (replicate 40 7) ∷ []) (
    plan_entries no_digest
      (file (replicate 40 7) ∷ [])
      []
      (sort_objects (file (8 ∷ replicate 40 7) ∷ file (replicate 30 7) ∷ [])))
plan_entries-sort_objects_example =
    plan_entries-sort_objects no_digest (file (replicate 40 7) ∷ [])
      (file (8 ∷ replicate 40 7) ∷ file (replicate 30 7) ∷ []) (omega arith, tt)
      (omega arith, (omega arith, tt))

-- A codec that marks where a stream ends, and a digest that is the same for all.
abbrev pub mark : Bytes → Bytes
mark [] = 0 ∷ []
mark (b ∷ bs) = suc b ∷ mark bs

abbrev shifted : ℕ → Option (Bytes × ℕ) → Option (Bytes × ℕ)
shifted b none = none
shifted b (some (contents, n)) = some (b ∷ contents, suc n)

abbrev pub unmark : Bytes → Option (Bytes × ℕ)
unmark [] = none
unmark (zero ∷ rest) = some ([], 1)
unmark (suc b ∷ bs) = shifted b (unmark bs)

abbrev pub zeros : Bytes → Bytes
zeros bytes = replicate 20 0

unmark-mark :
    (contents rest : Bytes)
    → unmark (mark contents ++ rest) ≡ some (contents, length (mark contents))
unmark-mark [] rest = refl
unmark-mark (b ∷ contents) rest = rw (unmark-mark contents rest) refl

zeros_bytes : All (λ b. b < 256) (replicate 20 0)
zeros_bytes = zero_bytes 20
  where
    zero_bytes : (n : ℕ) → All (λ b. b < 256) (replicate n 0)
    zero_bytes zero = tt
    zero_bytes (suc n) = (omega arith, zero_bytes n)

pub mark-IsCodec : IsCodec unmark mark zeros
mark-IsCodec = record {
  inflate-deflate = unmark-mark;
  length-digest = λ bytes. refl;
  digest-bytes = λ bytes. zeros_bytes;
}

-- An external base, and two versions of it, each with a byte in front.
abbrev pub bases : List PackObject
bases = file (replicate 40 7) ∷ []

abbrev pub versions : List PackObject
versions = file (8 ∷ replicate 40 7) ∷ file (9 ∷ 8 ∷ replicate 40 7) ∷ []

abbrev pub size_of : Outcome Bytes → ℕ
size_of (ok pack) = length pack
size_of (err e) = 0

-- The longer version comes first. It is a delta only where there is the base.
pack_sizes :
    (size_of (build_with_bases mark zeros versions bases) ≡ 89)
    × (size_of (build mark zeros versions) ≡ 103)
unfolding build build_with_bases sort_objects insert_sorted precedes plan_entries plan_entry
    try_refs try_ofs try_base last_by_type write_entries write_entry sha_bytes sha1 position_at
    type_to_bits encode_pack_header pack_size_loop encode_ofs_offset ofs_loop compute_delta
    delta_loop find_match best_of match_length build_index index_get index_push index_blocks
    flush_inserts flush_loop emit_copies emit_copy copy_fields put_operand encode_size
    encode_size_loop fnv_hash fnv_loop format_hex digits_loop hex_digit from_str_radix parse_loop
    to_digit
pack_sizes = (refl, refl)

pub version_packs :
    (pack : Bytes) → build_with_bases mark zeros versions bases ≡ ok pack → length pack < 2 ^ 64
version_packs pack built = omega (arith, ap size_of built, pack_sizes.0)

pub versions-IsStorable : All IsStorable versions
versions-IsStorable = ((blob, omega arith), ((blob, omega arith), tt))

parse-build_with_bases_example :
    (pack : Bytes) × (result : ParseResult) × (build_with_bases mark zeros versions bases ≡ ok pack)
    × (parse unmark pack ≡ ok result)
    × Recovers zeros bases (sort_objects versions) result.objects result.deltas
parse-build_with_bases_example =
    parse-build_with_bases unmark mark zeros mark-IsCodec bases versions (omega arith, tt)
      versions-IsStorable (omega arith) version_packs

pub full_packs : (pack : Bytes) → build mark zeros versions ≡ ok pack → length pack < 2 ^ 64
full_packs pack built = omega (arith, ap size_of built, pack_sizes.1)

parse-build_example :
    (pack : Bytes) × (build mark zeros versions ≡ ok pack)
    × (parse unmark pack ≡ ok (record { objects = sort_objects versions; deltas = [] }))
    × Perm (sort_objects versions) versions
parse-build_example =
    parse-build unmark mark zeros mark-IsCodec versions versions-IsStorable (omega arith) full_packs
