-- ===== src/Wasm/Json/Runs.antt =====
-- Runs of the JSON functions.
use near_git_storage.Prelude.{◌≡◌, refl, [], ◌∷◌, ◌++◌, none, some, ok, err}
use near_git_storage.Text.{ascii}
use near_git_storage.Json.{object, member, string, no_members, index, get_member, str_or}
use near_git_storage.Wasm.{bad_json}
use near_git_storage.Wasm.Borsh.{encode_push_objects, encode_git_objects, write_string, write_bytes}
use near_git_storage.Wasm.Json.{
  Codec, borsh_encode_push_objects, borsh_encode_shas, pushed_object, contents_of,
}

-- A text stands for a list of one object, which has no type; base64 decodes nothing but "QQ==".
abbrev codec : Codec
codec = record {
  from_values = λ text. some (
      object (
        member (ascii "sha") (string (ascii "a1"))
          (member (ascii "data") (string (ascii "QQ==")) no_members))
      ∷ []);
  from_strings = λ text. none;
  to_string = λ value. none;
  b64_encode = λ bytes. ascii "QQ==";
  b64_decode = λ text. some (65 ∷ []);
}

-- An object without a type is a blob.
untyped :
    borsh_encode_push_objects codec []
    ≡ ok (
        1
        ∷ 0
        ∷ 0
        ∷ 0
        ∷ 2
        ∷ 0
        ∷ 0
        ∷ 0
        ∷ (ascii "a1" ++ (4 ∷ 0 ∷ 0 ∷ 0 ∷ (ascii "blob" ++ (1 ∷ 0 ∷ 0 ∷ 0 ∷ 65 ∷ [])))))
unfolding borsh_encode_push_objects pushed_object contents_of index get_member str_or
    encode_push_objects encode_git_objects write_string write_bytes
untyped = refl

no_list : borsh_encode_shas codec [] ≡ err bad_json
unfolding borsh_encode_shas
no_list = refl
