-- ===== src/Server/ParsePackfile/Runs.antt =====
-- A packfile of two versions of a file, through the server.
use near_git_storage.Prelude.{◌≡◌, refl, arith, [], some, none, ok, map}
use near_git_storage.Text.{ascii}
use near_git_storage.Json.{Json}
use near_git_storage.Packfile.{Bytes}
use near_git_storage.Packfile.Build.{sort_objects, build}
use near_git_storage.Packfile.Build.Runs.{
  mark, unmark, zeros, mark-IsCodec, versions, versions-IsStorable, full_packs,
}
use near_git_storage.Wasm.Json.{Codec, pack_object, listed}
use near_git_storage.Server.Http.{json_response}
use near_git_storage.Server.ParsePackfile.{handle_parse_packfile}
use near_git_storage.Server.ParsePackfile.Built.{handle_parse_packfile-build}
use mathlib.Core.List.{Perm}

-- A base64 that encodes nothing.
abbrev codec : Codec
codec = record {
  from_values = λ text. none;
  from_strings = λ text. none;
  to_string = λ value. none;
  b64_encode = λ bytes. bytes;
  b64_decode = λ text. some text;
}

handle_parse_packfile-build_example :
    (pack : Bytes) × (value : Json) × (build mark zeros versions ≡ ok pack)
    × (handle_parse_packfile unmark codec.b64_encode (λ e. []) pack ≡ ok (json_response value))
    × (map (pack_object codec) (listed (ascii "objects") value) ≡ sort_objects versions)
    × (listed (ascii "deltas") value ≡ [])
    × Perm (sort_objects versions) versions
handle_parse_packfile-build_example =
    handle_parse_packfile-build unmark mark zeros (λ e. []) codec mark-IsCodec (λ bytes. refl)
      versions versions-IsStorable (omega arith) full_packs
