-- ===== src/Packfile/Parse.antt =====
-- `parse` of git-core/src/packfile.rs: the entries of a packfile, and the resolution of the deltas
-- among them. A SHA in hexadecimal is its bytes.
pub mod Resolve
pub mod Results
pub mod Types
pub mod Reads
pub mod Ends
mod Runs
use near_git_storage.Prelude.{
  ℕ, zero, suc, ◌+◌, ◌-◌, ◌*◌, ◌^◌, String, List, [], ◌∷◌, ◌++◌, Option, none, some, Bool, true,
  false, ltb, ◌==◌, ◌&&◌, ◌||◌, if◌then◌else◌, Result, ok, err, ◌>>=◌, ◌>>◌, guard, length, take,
  drop, replicate,
}
use near_git_storage.Hex.{format_hex}
use near_git_storage.Text.{ascii, text_eq, format_decimal}
use near_git_storage.Packfile.{
  Bytes, Outcome, panic, out_of_fuel, index_out_of_range, capacity_overflow, packfile_too_short,
  invalid_magic, unsupported_version, end_in_base_sha, zlib_failed, unknown_type,
  ofs_offset_exceeds, ofs_base_not_found,
}
use near_git_storage.Packfile.Delta.{apply_delta}
use near_git_storage.Packfile.Entries.{read_entry_header, read_ofs_offset}

pub record PackObject : Type 0 where
  pub obj_type : Bytes
  pub data_bytes : Bytes

pub record UnresolvedDelta : Type 0 where
  pub base_sha : Bytes
  pub delta_data : Bytes
  pub chain : List Bytes

pub record ParseResult : Type 0 where
  pub objects : List PackObject
  pub deltas : List UnresolvedDelta

pub data ParsedEntry : Type 0 where
  object : PackObject → ParsedEntry
  ref_delta : UnresolvedDelta → ParsedEntry
  ofs_delta : ℕ → Bytes → ParsedEntry

abbrev pub Entries : Type 0
Entries = List (ℕ × ParsedEntry)

pub data Resolution : Type 0 where
  whole : PackObject → Resolution
  external : Bytes → List Bytes → Resolution

unfoldable pub type_from_bits : ℕ → Option Bytes
type_from_bits bits =
    if bits == 1
    then some (ascii "commit")
    else if bits == 2
    then some (ascii "tree")
    else if bits == 3
    then some (ascii "blob")
    else if bits == 4
    then some (ascii "tag")
    else none

abbrev pub from_be_bytes : ℕ → Bytes → ℕ
from_be_bytes acc [] = acc
from_be_bytes acc (b ∷ bs) = from_be_bytes (acc * 256 + b) bs

abbrev pub format_sha : Bytes → Bytes
format_sha [] = []
format_sha (b ∷ bs) = format_hex 2 b ++ format_sha bs

-- `PackObject::sha1`; `digest` is the SHA-1 of bytes.
unfoldable pub sha1 : (Bytes → Bytes) → PackObject → Bytes
sha1 digest obj = format_sha (
    digest
      (obj.obj_type ++ (32 ∷ (format_decimal (length obj.data_bytes) ++ (0 ∷ obj.data_bytes)))))

-- `inflate` decompresses the zlib stream at the start of the bytes: the data, and how many bytes the
-- stream took.
module _ (inflate : Bytes → Option (Bytes × ℕ)) where
  unfoldable pub inflated : Bytes → Option (Bytes × ℕ) → Outcome (Bytes × Bytes)
  inflated rest none = err zlib_failed
  inflated rest (some (contents, total_in)) = ok (contents, drop total_in rest)

  -- `Vec::with_capacity(size)`, and the stream at the position.
  unfoldable pub decompress : ℕ → Bytes → Outcome (Bytes × Bytes)
  decompress size rest = do
    guard (ltb size (2 ^ 63)) (panic capacity_overflow)
    inflated rest (inflate rest)

  unfoldable pub ref_delta_entry : ℕ → Bytes → Outcome (ParsedEntry × Bytes)
  ref_delta_entry size rest = do
    guard (ltb 19 (length rest)) end_in_base_sha
    (delta_data, rest') ← decompress size (drop 20 rest)
    ok (
      ref_delta
          (record { base_sha = format_sha (take 20 rest); delta_data = delta_data; chain = [] }),
      rest',
    )

  unfoldable pub ofs_delta_entry : ℕ → ℕ → Bytes → Outcome (ParsedEntry × Bytes)
  ofs_delta_entry obj_start size rest = do
    (offset, rest₁) ← read_ofs_offset rest
    if ltb obj_start offset
        then err (ofs_offset_exceeds offset obj_start)
        else decompress size rest₁ >>= λ (delta_data, rest₂).
            ok (ofs_delta (obj_start - offset) delta_data, rest₂)

  unfoldable pub object_entry : ℕ → ℕ → Option Bytes → Bytes → Outcome (ParsedEntry × Bytes)
  object_entry type_bits size none rest = err (unknown_type type_bits)
  object_entry type_bits size (some obj_type) rest = do
    (contents, rest') ← decompress size rest
    ok (object (record { obj_type = obj_type; data_bytes = contents }), rest')

  -- One round of the first pass, on the bytes from `obj_start` on.
  unfoldable pub parse_entry : ℕ → Bytes → Outcome (ParsedEntry × Bytes)
  parse_entry obj_start rest = do
    (type_bits, size, rest') ← read_entry_header rest
    if type_bits == 7
        then ref_delta_entry size rest'
        else if type_bits == 6
        then ofs_delta_entry obj_start size rest'
        else object_entry type_bits size (type_from_bits type_bits) rest'

  -- `for _ in 0..num_objects`
  unfoldable pub parse_entries : ℕ → ℕ → Bytes → Outcome Entries
  parse_entries zero pos rest = ok []
  parse_entries (suc left) pos rest = do
    (entry, rest') ← parse_entry pos rest
    entries ← parse_entries left (pos + (length rest - length rest')) rest'
    ok ((pos, entry) ∷ entries)

abbrev pub later_or : Option ℕ → Option ℕ → Option ℕ
later_or none first = first
later_or (some later) first = some later

-- The map from start positions to indices; of equal positions the last inserted counts.
unfoldable pub pos_to_idx : Entries → ℕ → ℕ → Option ℕ
pos_to_idx [] i pos = none
pos_to_idx ((start_pos, entry) ∷ entries) i pos =
    later_or (pos_to_idx entries (i + 1) pos) (if start_pos == pos then some i else none)

unfoldable pub entry_at : ℕ → Entries → Option ParsedEntry
entry_at idx [] = none
entry_at zero ((start_pos, entry) ∷ entries) = some entry
entry_at (suc idx) (e ∷ entries) = entry_at idx entries

abbrev pub Cache : Type 0
Cache = List (Option Resolution)

-- `&cache[idx]`
unfoldable pub cached : ℕ → Cache → Outcome (Option Resolution)
cached idx [] = err (panic index_out_of_range)
cached zero (r ∷ cache) = ok r
cached (suc idx) (r ∷ cache) = cached idx cache

-- `cache[idx] = Some(r)`, behind a `&cache[idx]` that found the index in range.
unfoldable pub store : ℕ → Resolution → Cache → Cache
store idx r [] = []
store zero r (old ∷ cache) = some r ∷ cache
store (suc idx) r (old ∷ cache) = old ∷ store idx r cache

-- What a delta makes of what its base resolved to.
unfoldable pub stack_delta : Bytes → Resolution × Cache → Outcome (Resolution × Cache)
stack_delta delta_data (whole base_obj, cache) = do
  resolved_data ← apply_delta base_obj.data_bytes delta_data
  ok (whole (record { obj_type = base_obj.obj_type; data_bytes = resolved_data }), cache)
stack_delta delta_data (external base_sha deltas, cache) =
    ok (external base_sha (deltas ++ (delta_data ∷ [])), cache)

abbrev pub base_or_error : ℕ → Option ℕ → Outcome ℕ
base_or_error base_pos none = err (ofs_base_not_found base_pos)
base_or_error base_pos (some base_idx) = ok base_idx

-- The `match` on the entry; `again` is the call of `resolve` for the base.
unfoldable pub resolve_entry :
    (ℕ → Cache → Outcome (Resolution × Cache))
    → Entries
    → Option ParsedEntry
    → Cache
    → Outcome (Resolution × Cache)
resolve_entry again entries none cache = err (panic index_out_of_range)
resolve_entry again entries (some (object obj)) cache = ok (whole obj, cache)
resolve_entry again entries (some (ref_delta d)) cache =
    ok (external d.base_sha (d.delta_data ∷ []), cache)
resolve_entry again entries (some (ofs_delta base_pos delta_data)) cache = do
  base_idx ← base_or_error base_pos (pos_to_idx entries 0 base_pos)
  based ← again base_idx cache
  stack_delta delta_data based

abbrev pub remember : ℕ → Resolution × Cache → Outcome (Resolution × Cache)
remember idx (r, cache) = ok (r, store idx r cache)

-- `resolve`, with as many nested calls as there is fuel.
unfoldable pub resolve : ℕ → Entries → ℕ → Cache → Outcome (Resolution × Cache)
resolve zero entries idx cache = err out_of_fuel
resolve (suc fuel) entries idx cache = cached idx cache >>= λ hit. elim hit [
  | some r ↦ ok (r, cache)
  | none ↦
      resolve_entry (resolve fuel entries) entries (entry_at idx entries) cache >>= remember idx
]

-- An external chain is split into the delta at its bottom and those stacked on it.
unfoldable pub add_resolution : Resolution → ParseResult → Outcome ParseResult
add_resolution (whole obj) result = ok (record result { objects = result.objects ++ (obj ∷ []) })
add_resolution (external base_sha []) result = err (panic index_out_of_range)
add_resolution (external base_sha (head ∷ chain)) result = ok (record result {
  deltas = result.deltas ++ (record { base_sha = base_sha; delta_data = head; chain = chain } ∷ []);
})

-- `for i in 0..entries.len()`. Unless an offset is 0, a nested call is for an earlier entry, so that
-- no more calls nest than there are entries.
unfoldable pub resolve_all : ℕ → ℕ → Entries → Cache → ParseResult → Outcome ParseResult
resolve_all zero i entries cache result = ok result
resolve_all (suc left) i entries cache result = do
  (r, cache') ← resolve (length entries) entries i cache
  result' ← add_resolution r result
  resolve_all left (i + 1) entries cache' result'

-- What is tested before the first entry.
unfoldable pub check_head : Bytes → Outcome (Unit {0})
check_head bytes = do
  guard (ltb 11 (length bytes)) packfile_too_short
  guard (text_eq (take 4 bytes) (ascii "PACK")) invalid_magic
  let version = from_be_bytes 0 (take 4 (drop 4 bytes))
  guard ((version == 2) || (version == 3)) (unsupported_version version)

-- `num_objects`
unfoldable pub num_objects : Bytes → ℕ
num_objects bytes = from_be_bytes 0 (take 4 (drop 8 bytes))

unfoldable pub parse : (Bytes → Option (Bytes × ℕ)) → Bytes → Outcome ParseResult
parse inflate bytes = do
  check_head bytes
  entries ← parse_entries inflate (num_objects bytes) 12 (drop 12 bytes)
  resolve_all (length entries) 0 entries (replicate (length entries) none)
      (record { objects = []; deltas = [] })
