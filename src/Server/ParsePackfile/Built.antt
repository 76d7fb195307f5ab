-- ===== src/Server/ParsePackfile/Built.antt =====
-- A packfile that git-core builds, through `handle_parse_packfile` of git-server/src/main.rs, to the reader
-- of wasm-lib/src/lib.rs.
use near_git_storage.Prelude.{
  ℕ, ◌^◌, ◌<◌, ◌≡◌, refl, List, [], ap, Option, some, ok, length, All, map,
}
use near_git_storage.Hex.{Bytes}
use near_git_storage.Text.{ascii}
use near_git_storage.Json.{Json, index, get_member, elements, list_of, array_or_empty, result_json}
use near_git_storage.Packfile.{Failure}
use near_git_storage.Packfile.Parse.{PackObject, ParseResult}
use near_git_storage.Packfile.Build.{sort_objects, build}
use near_git_storage.Packfile.Build.Codec.{IsCodec}
use near_git_storage.Packfile.Build.RoundTrip.{IsStorable}
use near_git_storage.Packfile.Build.Thin.{parse-build}
use near_git_storage.Wasm.Json.{Codec, pack_object, listed, objects-result_json}
use near_git_storage.Server.Http.{json_response}
use near_git_storage.Server.ParsePackfile.{handle_parse_packfile, parsed_response}
use mathlib.Core.List.{Perm}

-- For objects of the four types, no longer than 4 GiB, fewer than 2^32, whose packfile stays below 2^64
-- bytes, with zlib, SHA-1 and base64 as they are documented: handle_parse_packfile answers the packfile
-- that build writes with JSON in which the reader of the browser's library finds exactly the objects, in
-- another order, that of the sort; its list of deltas is empty.
pub handle_parse_packfile-build :
    (inflate : Bytes → Option (Bytes × ℕ)) (deflate digest : Bytes → Bytes)
    (message : Failure → Bytes) (codec : Codec)
    → IsCodec inflate deflate digest
    → ((bytes : Bytes) → codec.b64_decode (codec.b64_encode bytes) ≡ some bytes)
    → (objects : List PackObject) → All IsStorable objects
    → length objects < 2 ^ 32
    → ((pack : Bytes) → build deflate digest objects ≡ ok pack → length pack < 2 ^ 64)
    → (pack : Bytes) × (value : Json) × (build deflate digest objects ≡ ok pack)
      × (handle_parse_packfile inflate codec.b64_encode message pack ≡ ok (json_response value))
      × (map (pack_object codec) (listed (ascii "objects") value) ≡ sort_objects objects)
      × (listed (ascii "deltas") value ≡ [])
      × Perm (sort_objects objects) objects
unfolding handle_parse_packfile parsed_response result_json index get_member array_or_empty list_of
    elements
handle_parse_packfile-build inflate deflate digest message codec zlib decodes objects storable few
      fits =
    let (pack, built, parsed, same) =
      parse-build inflate deflate digest zlib objects storable few fits in
    let result : ParseResult = record { objects = sort_objects objects; deltas = [] } in
    (
      pack,
      result_json codec.b64_encode result,
      built,
      ap (parsed_response inflate codec.b64_encode message) parsed,
      objects-result_json codec decodes result,
      refl,
      same,
    )
