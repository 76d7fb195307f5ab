-- ===== src/Wasm/Packs.antt =====
-- The functions of wasm-lib/src/lib.rs that call git-core: packfiles from and to JSON, deltas, SHAs.
pub mod Thin
mod Runs
use near_git_storage.Prelude.{List, Result, ok, err, ◌>>=◌}
use near_git_storage.Hex.{Bytes}
use near_git_storage.Json.{result_json}
use near_git_storage.Packfile.{Outcome}
use near_git_storage.Packfile.Parse.{PackObject, ParseResult, sha1}
use near_git_storage.Wasm.{Error, git_core}
use near_git_storage.Wasm.Json.{Codec, parsed_or_error, parse_objects}

-- git-core as it is compiled for the browser, with a usize of 32 bits. The models of its functions are
-- those of 64 bits.
pub record GitCore : Type 0 where
  pub parse : Bytes → Outcome ParseResult
  pub build : List PackObject → Outcome Bytes
  pub build_with_bases : List PackObject → List PackObject → Outcome Bytes
  pub apply_delta : Bytes → Bytes → Outcome Bytes

abbrev pub from_core : {A : Type 0} → Outcome A → Result Error A
from_core (ok a) = ok a
from_core (err e) = err (git_core e)

module _ (codec : Codec) (core : GitCore) where
  pub parse_packfile : Bytes → Result Error Bytes
  parse_packfile pack = do
    result ← from_core (core.parse pack)
    parsed_or_error (codec.to_string (result_json codec.b64_encode result))

  pub build_packfile : Bytes → Result Error Bytes
  build_packfile objects_json = do
    pack_objects ← parse_objects codec objects_json
    from_core (core.build pack_objects)

  pub build_packfile_with_bases : Bytes → Bytes → Result Error Bytes
  build_packfile_with_bases objects_json bases_json = do
    objects ← parse_objects codec objects_json
    bases ← parse_objects codec bases_json
    from_core (core.build_with_bases objects bases)

  pub apply_delta : Bytes → Bytes → Result Error Bytes
  apply_delta source delta = from_core (core.apply_delta source delta)

-- `digest` is the SHA-1 of bytes.
pub git_sha1 : (Bytes → Bytes) → Bytes → Bytes → Bytes
git_sha1 digest obj_type contents =
    sha1 digest (record { obj_type = obj_type; data_bytes = contents })
