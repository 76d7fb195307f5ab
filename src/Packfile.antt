-- ===== src/Packfile.antt =====
-- git-core/src/packfile.rs: how its functions fail. A byte slice is a list of numbers.
pub mod Ensures
pub mod Delta
pub mod Chains
pub mod ComputeDelta
pub mod Entries
pub mod Parse
pub mod Build
mod Runs
use near_git_storage.Prelude.{ℕ, List, Result}

abbrev pub Bytes : Type 0
Bytes = List ℕ

-- Where the Rust code panics instead of returning an error.
pub data Panic : Type 0 where
  index_out_of_range slice_out_of_range shift_overflow add_overflow sub_overflow capacity_overflow
        unwrap_failed unknown_object_type :
      Panic

-- The error texts of the functions, with the values that they print. `out_of_fuel` is no outcome of
-- the code: a loop of the model used up its fuel.
pub data Failure : Type 0 where
  end_in_delta_size : Failure
  end_of_packfile end_in_size end_in_base_sha : Failure
  packfile_too_short invalid_magic zlib_failed : Failure
  unsupported_version unknown_type ofs_base_not_found : ℕ → Failure
  ofs_offset_exceeds : ℕ → ℕ → Failure
  delta_copy_out_of_bounds : ℕ → ℕ → ℕ → Failure
  delta_insert_out_of_bounds : Failure
  reserved_instruction : Failure
  target_size_mismatch : ℕ → ℕ → Failure
  panic : Panic → Failure
  out_of_fuel : Failure

abbrev pub Outcome {ℓ} : Type ℓ → Type ℓ
Outcome A = Result Failure A
