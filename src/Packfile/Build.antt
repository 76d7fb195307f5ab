-- ===== src/Packfile/Build.antt =====
-- `build_with_bases` of git-core/src/packfile.rs: a base is chosen for each object, then the packfile
-- is written. A SHA in hexadecimal is its bytes.
pub mod Sort
pub mod Plan
pub mod Steps
pub mod Table
pub mod Codec
pub mod Written
pub mod RoundTrip
pub mod Parsed
pub mod Thin
pub mod Runs
use near_git_storage.Prelude.{
  ℕ, zero, suc, ◌+◌, ◌-◌, ◌*◌, ◌/◌, ◌%◌, ◌^◌, List, [], ◌∷◌, ◌++◌, Option, none, some, Bool, true,
  false, ltb, leb, ◌&&◌, if◌then◌else◌, Result, ok, err, ◌>>=◌, ◌>>◌, guard, length,
}
use Prim.Native.Nat.{Ordering}
use near_git_storage.Hex.{from_str_radix}
use near_git_storage.Text.{ascii, text_eq, text_cmp}
use near_git_storage.Packfile.{
  Bytes, Outcome, panic, index_out_of_range, slice_out_of_range, sub_overflow, unwrap_failed,
  unknown_object_type,
}
use near_git_storage.Packfile.ComputeDelta.{compute_delta}
use near_git_storage.Packfile.Entries.{encode_pack_header, encode_ofs_offset}
use near_git_storage.Packfile.Parse.{PackObject, sha1}

-- The order of the sort: by type, and the largest first.
unfoldable pub precedes : PackObject → PackObject → Bool
precedes a b = elim (text_cmp a.obj_type b.obj_type) [
  | Ordering.lt ↦ true
  | Ordering.eq ↦ leb (length b.data_bytes) (length a.data_bytes)
  | Ordering.gt ↦ false
]

-- The sort is stable: an object comes before the equal ones behind it.
unfoldable pub insert_sorted : PackObject → List PackObject → List PackObject
insert_sorted x [] = x ∷ []
insert_sorted x (y ∷ ys) =
    let rest = insert_sorted x ys in if precedes x y then x ∷ y ∷ ys else y ∷ rest

unfoldable pub sort_objects : List PackObject → List PackObject
sort_objects [] = []
sort_objects (x ∷ xs) = insert_sorted x (sort_objects xs)

-- The best base so far: none, an external object by its SHA, or an entry by its index.
pub data Base : Type 0 where
  no_base : Base
  ref_base : Bytes → Bytes → Base
  ofs_base : ℕ → Bytes → Base

pub record Entry : Type 0 where
  pub obj : PackObject
  pub base : Base

abbrev pub is_better : Bytes → Base → Bool
is_better delta no_base = true
is_better delta (ref_base sha best) = ltb (length delta) (length best)
is_better delta (ofs_base idx best) = ltb (length delta) (length best)

-- One candidate; `made` is the base that its delta makes.
unfoldable pub try_base : PackObject → PackObject → (Bytes → Base) → Base → Base
try_base obj base made best =
    let delta = compute_delta base.data_bytes obj.data_bytes in
    if ltb (length delta) (length obj.data_bytes * 9 / 10) && is_better delta best
    then made delta
    else best

-- The last entry of a type, with its index.
unfoldable pub last_by_type :
    Bytes → ℕ → List Entry → Option (ℕ × PackObject) → Option (ℕ × PackObject)
last_by_type obj_type i [] found = found
last_by_type obj_type i (e ∷ entries) found =
    last_by_type obj_type (i + 1) entries
      (if text_eq e.obj.obj_type obj_type then some (i, e.obj) else found)

unfoldable pub try_ofs : PackObject → Option (ℕ × PackObject) → Base → Base
try_ofs obj none best = best
try_ofs obj (some (idx, prev)) best = try_base obj prev (ofs_base idx) best

-- `digest` is the SHA-1 of bytes.
module _ (digest : Bytes → Bytes) where
  -- The external bases of the type, in their order.
  unfoldable pub try_refs : PackObject → List PackObject → Base → Base
  try_refs obj [] best = best
  try_refs obj (base ∷ bases) best = try_refs obj bases (
      if text_eq base.obj_type obj.obj_type
      then try_base obj base (ref_base (sha1 digest base)) best
      else best)

  unfoldable pub plan_entry : List PackObject → List Entry → PackObject → Entry
  plan_entry bases entries obj = record {
    obj = obj;
    base = try_ofs obj (last_by_type obj.obj_type 0 entries none) (try_refs obj bases no_base);
  }

  -- `for &orig_idx in &sorted_indices`
  unfoldable pub plan_entries : List PackObject → List Entry → List PackObject → List Entry
  plan_entries bases entries [] = entries
  plan_entries bases entries (obj ∷ objects) =
      plan_entries bases (entries ++ (plan_entry bases entries obj ∷ [])) objects

unfoldable pub type_to_bits : Bytes → Outcome ℕ
type_to_bits obj_type =
    if text_eq obj_type (ascii "commit")
    then ok 1
    else if text_eq obj_type (ascii "tree")
    then ok 2
    else if text_eq obj_type (ascii "blob")
    then ok 3
    else if text_eq obj_type (ascii "tag")
    then ok 4
    else err (panic unknown_object_type)

abbrev pub unwrap : Option ℕ → Outcome ℕ
unwrap none = err (panic unwrap_failed)
unwrap (some n) = ok n

-- As many pairs of digits as are left.
unfoldable pub sha_bytes : ℕ → Bytes → Outcome Bytes
sha_bytes zero sha = ok []
sha_bytes (suc left) (c ∷ d ∷ cs) = do
  b ← unwrap (from_str_radix 255 (c ∷ d ∷ []))
  bs ← sha_bytes left cs
  ok (b ∷ bs)
sha_bytes (suc left) _ = err (panic slice_out_of_range)

unfoldable pub position_at : ℕ → List ℕ → Outcome ℕ
position_at idx [] = err (panic index_out_of_range)
position_at zero (pos ∷ positions) = ok pos
position_at (suc idx) (pos ∷ positions) = position_at idx positions

abbrev pub to_be_bytes : ℕ → Bytes
to_be_bytes n = n / 2 ^ 24 % 256 ∷ n / 2 ^ 16 % 256 ∷ n / 2 ^ 8 % 256 ∷ n % 256 ∷ []

-- `deflate` is the zlib encoder.
module _ (deflate : Bytes → Bytes) (digest : Bytes → Bytes) where
  unfoldable pub write_entry : List ℕ → ℕ → PackObject → Base → Outcome Bytes
  write_entry positions obj_start obj no_base = do
    type_bits ← type_to_bits obj.obj_type
    ok (encode_pack_header type_bits (length obj.data_bytes) ++ deflate obj.data_bytes)
  write_entry positions obj_start obj (ref_base base_sha delta) = do
    sha ← sha_bytes 20 base_sha
    ok (encode_pack_header 7 (length delta) ++ (sha ++ deflate delta))
  write_entry positions obj_start obj (ofs_base base_idx delta) = do
    base_pos ← position_at base_idx positions
    guard (leb base_pos obj_start) (panic sub_overflow)
    ok (
        encode_pack_header 6 (length delta)
        ++ (encode_ofs_offset (obj_start - base_pos) ++ deflate delta))

  unfoldable pub write_entries : List Entry → List ℕ → Bytes → Outcome Bytes
  write_entries [] positions out = ok out
  write_entries (e ∷ entries) positions out = do
    bytes ← write_entry (positions ++ (length out ∷ [])) (length out) e.obj e.base
    write_entries entries (positions ++ (length out ∷ [])) (out ++ bytes)

  unfoldable pub build_with_bases : List PackObject → List PackObject → Outcome Bytes
  build_with_bases objects base_objects = do
    let entries = plan_entries digest base_objects [] (sort_objects objects)
    out ←
        write_entries entries []
          (ascii "PACK" ++ (to_be_bytes 2 ++ to_be_bytes (length entries % 2 ^ 32)))
    ok (out ++ digest out)

  unfoldable pub build : List PackObject → Outcome Bytes
  build objects = build_with_bases objects []
