-- ===== src/Wasm.antt =====
-- wasm-lib/src/lib.rs, the library of the browser: borsh encodings, packfiles as JSON, and the signing of
-- transactions. A text is its bytes; a usize has 32 bits there.
pub mod Borsh
pub mod Transaction
pub mod Json
pub mod Packs
use near_git_storage.Prelude.{ℕ}
use near_git_storage.Packfile.{Failure}

-- The error texts; `overflow` is a panic, of an addition or of a capacity.
pub data Error : Type 0 where
  end_of_data bad_utf8 bad_json overflow : Error
  bad_private_key bad_keypair bad_public_key bad_block_hash bad_deposit : Error
  git_core : Failure → Error
  unexpected_key_length block_hash_length : ℕ → Error
