-- ===== src/Wasm/Packs/Runs.antt =====
-- A thin packfile of two versions of a file, from JSON to JSON.
use near_git_storage.Prelude.{List, [], ◌∷◌, some, none}
use near_git_storage.Text.{ascii}
use near_git_storage.Json.{Json}
use near_git_storage.Packfile.{Bytes}
use near_git_storage.Packfile.Build.Runs.{bases, versions}
use near_git_storage.Wasm.Json.{Codec}
use near_git_storage.Wasm.Packs.Thin.{objects_json}

-- Two texts are known, the empty one for the base; base64 encodes nothing.
abbrev known_text : Bytes → List Json
known_text [] = objects_json (λ bytes. bytes) bases
known_text (b ∷ bs) = objects_json (λ bytes. bytes) versions

abbrev codec : Codec
codec = record {
  from_values = λ text. some (known_text text);
  from_strings = λ text. none;
  to_string = λ value. some (ascii "{..}");
  b64_encode = λ bytes. bytes;
  b64_decode = λ text. some text;
}
