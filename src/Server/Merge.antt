-- ===== src/Server/Merge.antt =====
-- The merge of packs in `handle_upload_pack` of git-server/src/main.rs.
pub mod Covers
pub mod Rounds
pub mod Applies
pub mod Derived
pub mod Clone
mod Runs
use near_git_storage.Prelude.{
  ℕ, zero, suc, List, [], ◌∷◌, ◌++◌, Option, none, some, Bool, true, false, if◌then◌else◌, Result,
  ok, err, ◌>>=◌, length,
}
use near_git_storage.Text.{text_eq}
use near_git_storage.Packfile.{Bytes, Failure, Outcome, panic, out_of_fuel}
use near_git_storage.Packfile.Delta.{apply_delta}
use near_git_storage.Packfile.Parse.{PackObject, UnresolvedDelta, ParseResult, parse, sha1}
use near_git_storage.Packfile.Build.{build}

-- `if let Ok(v)` and `Err(_)`: an error of the code is caught, a panic is not.
pub is_caught : Failure → Bool
is_caught (panic p) = false
is_caught out_of_fuel = false
is_caught e = true

pub caught : {A : Type 0} → Outcome A → Outcome (Option A)
caught (ok a) = ok (some a)
caught (err e) = if is_caught e then ok none else err e

-- The map `local` from a SHA to the object: what is inserted last counts.
abbrev pub Local : Type 0
Local = List (Bytes × PackObject)

pub local_get : Bytes → Local → Option PackObject
local_get sha [] = none
local_get sha ((key, obj) ∷ local) =
    let rest = local_get sha local in if text_eq key sha then some obj else rest

pub record Merge : Type 0 where
  pub local : Local
  pub all_objects : List PackObject
  pub progress : Bool

abbrev pub and_apply : (Bytes → Outcome (Option Bytes)) → Option Bytes → Outcome (Option Bytes)
and_apply next none = ok none
and_apply next (some current) = next current

-- `for d in &delta.chain`
pub apply_chain : List Bytes → Bytes → Outcome (Option Bytes)
apply_chain [] current = ok (some current)
apply_chain (d ∷ chain) current = caught (apply_delta current d) >>= and_apply (apply_chain chain)

-- The delta and those stacked on it, applied to a base.
pub apply_all : UnresolvedDelta → Bytes → Outcome (Option Bytes)
apply_all delta base_data =
    caught (apply_delta base_data delta.delta_data) >>= and_apply (apply_chain delta.chain)

abbrev pub keep :
    UnresolvedDelta → List UnresolvedDelta × Merge → Outcome (List UnresolvedDelta × Merge)
keep delta (kept, m) = ok (delta ∷ kept, m)

module _ (digest : Bytes → Bytes) where
  -- An object that the deltas of this round made.
  abbrev pub add_object : Bytes → Bytes → Merge → Merge
  add_object obj_type current m =
      let obj : PackObject = record { obj_type = obj_type; data_bytes = current } in
      record {
        local = (sha1 digest obj, obj) ∷ m.local;
        all_objects = m.all_objects ++ (obj ∷ []);
        progress = true;
      }

  -- The closure of `pending.retain`, with its base: a delta that fails is dropped.
  pub add_or_drop : Bytes → Option Bytes → Merge → Merge
  add_or_drop obj_type none m = m
  add_or_drop obj_type (some current) m = add_object obj_type current m

  pub retain : List UnresolvedDelta → Merge → Outcome (List UnresolvedDelta × Merge)
  retain [] m = ok ([], m)
  retain (delta ∷ pending) m = elim (local_get delta.base_sha m.local) [
    | none ↦ retain pending m >>= keep delta
    | some base_obj ↦ apply_all delta base_obj.data_bytes >>= λ r.
        retain pending (add_or_drop base_obj.obj_type r m)
  ]

  -- `while progress && !pending.is_empty()`. Each round but the last drops a delta.
  pub resolve_rounds : ℕ → List UnresolvedDelta → Merge → Outcome (List UnresolvedDelta × Merge)
  resolve_rounds fuel [] m = ok ([], m)
  resolve_rounds zero (delta ∷ pending) m =
      if m.progress then err out_of_fuel else ok (delta ∷ pending, m)
  resolve_rounds (suc fuel) (delta ∷ pending) m =
      if m.progress
      then (retain (delta ∷ pending) (record m { progress = false }) >>= λ (pending', m').
          resolve_rounds fuel pending' m')
      else ok (delta ∷ pending, m)

  pub local_of : List PackObject → Local → Local
  local_of [] local = local
  local_of (obj ∷ objects) local = local_of objects ((sha1 digest obj, obj) ∷ local)

  -- The objects of one pack are added to those of the packs before it.
  pub merge_parsed : List PackObject → Option ParseResult → Outcome (List PackObject)
  merge_parsed all_objects none = ok all_objects
  merge_parsed all_objects (some result) =
      let objects = all_objects ++ result.objects in
      resolve_rounds (suc (length result.deltas)) result.deltas
        (record { local = local_of objects []; all_objects = objects; progress = true })
      >>= λ (pending, m). ok m.all_objects

-- `for pack in &packs`
module _ (inflate : Bytes → Option (Bytes × ℕ)) (digest : Bytes → Bytes) where
  pub merge_packs : List PackObject → List Bytes → Outcome (List PackObject)
  merge_packs all_objects [] = ok all_objects
  merge_packs all_objects (pack ∷ packs) = do
    result ← caught (parse inflate pack)
    objects ← merge_parsed digest all_objects result
    merge_packs objects packs

  -- `deflate` is the zlib encoder.
  pub merged_pack : (Bytes → Bytes) → List Bytes → Outcome Bytes
  merged_pack deflate packs = do objects ← merge_packs [] packs; build deflate digest objects
