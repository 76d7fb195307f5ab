-- ===== src/Wasm/Packs/Thin.antt =====
-- Thin packfiles of the browser's library (wasm-lib/src/lib.rs), from JSON to JSON.
use near_git_storage.Prelude.{ℕ, List, Option, map}
use near_git_storage.Hex.{Bytes}
use near_git_storage.Json.{Json, object_json}
use near_git_storage.Packfile.Delta
use near_git_storage.Packfile.Parse
use near_git_storage.Packfile.Parse.{PackObject}
use near_git_storage.Packfile.Build
use near_git_storage.Wasm.Json.{Codec}
use near_git_storage.Wasm.Packs.{GitCore}

-- git-core with a usize of 64 bits.
abbrev pub core_64 : (Bytes → Option (Bytes × ℕ)) → (Bytes → Bytes) → (Bytes → Bytes) → GitCore
core_64 inflate deflate digest = record {
  parse = Parse.parse inflate;
  build = Build.build deflate digest;
  build_with_bases = Build.build_with_bases deflate digest;
  apply_delta = Delta.apply_delta;
}

-- Objects as a client writes them.
abbrev pub objects_json : (Bytes → Bytes) → List PackObject → List Json
objects_json b64_encode = map (λ obj. object_json b64_encode obj.obj_type obj.data_bytes)
