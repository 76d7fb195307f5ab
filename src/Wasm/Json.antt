-- ===== src/Wasm/Json.antt =====
-- The JSON around the borsh encodings of wasm-lib/src/lib.rs, and the objects that its pack builders take.
-- serde_json and base64 are the record Codec.
mod Runs
use near_git_storage.Prelude.{
  ℕ, List, [], ◌∷◌, Option, none, some, Bool, if◌then◌else◌, Result, ok, err, ◌>>=◌, map, ◌≡◌, refl,
  ap, ◌∙◌,
}
use near_git_storage.Hex.{Bytes}
use near_git_storage.Text.{ascii, text_eq}
use near_git_storage.Packfile.Parse.{PackObject, ParseResult}
use near_git_storage.Json.{
  Json, null, string, array, no_elements, element, elements, index, get_member, str_or, or_empty,
  object_json, result_json, array_or_empty, list_of-elements,
}
use near_git_storage.Wasm.{Error, bad_json}
use near_git_storage.Wasm.Borsh.{Fetched, decode_objects, encode_shas, encode_push_objects}

-- `from_values` and `from_strings` are `from_str` at the two types that the code asks for.
pub record Codec : Type 0 where
  pub from_values : Bytes → Option (List Json)
  pub from_strings : Bytes → Option (List Bytes)
  pub to_string : Json → Option Bytes
  pub b64_encode : Bytes → Bytes
  pub b64_decode : Bytes → Option Bytes

abbrev pub parsed_or_error {ℓ} : {A : Type ℓ} → Option A → Result Error A
parsed_or_error none = err bad_json
parsed_or_error (some a) = ok a

module _ (codec : Codec) where
  unfoldable pub contents_of : Json → Bytes
  contents_of obj = or_empty (codec.b64_decode (str_or [] (index (ascii "data") obj)))

  -- The objects of build_packfile and of build_packfile_with_bases.
  unfoldable pub pack_object : Json → PackObject
  pack_object obj = record {
    obj_type = str_or (ascii "blob") (index (ascii "obj_type") obj);
    data_bytes = contents_of obj;
  }

  unfoldable pub parse_objects : Bytes → Result Error (List PackObject)
  parse_objects json = do
    values ← parsed_or_error (codec.from_values json)
    ok (map pack_object values)

  unfoldable pub pushed_object : Json → Bytes × Bytes × Bytes
  pushed_object obj = (
    str_or [] (index (ascii "sha") obj),
    str_or (ascii "blob") (index (ascii "obj_type") obj),
    contents_of obj,
  )

  unfoldable pub borsh_encode_push_objects : Bytes → Result Error Bytes
  borsh_encode_push_objects objects_json = do
    objects ← parsed_or_error (codec.from_values objects_json)
    ok (encode_push_objects (map pushed_object objects))

  unfoldable pub borsh_encode_shas : Bytes → Result Error Bytes
  borsh_encode_shas shas_json = do
    shas ← parsed_or_error (codec.from_strings shas_json)
    ok (encode_shas shas)

  unfoldable pub found_json : Option (Bytes × Bytes) → Json
  found_json none = null
  found_json (some (obj_type, contents)) = object_json codec.b64_encode obj_type contents

  unfoldable pub fetched_json : Fetched → Json
  fetched_json (sha, found) = array (element (string sha) (element (found_json found) no_elements))

  unfoldable pub borsh_decode_objects : Bytes → Result Error Bytes
  borsh_decode_objects bytes = do
    objects ← decode_objects bytes
    parsed_or_error (codec.to_string (array (elements (map fetched_json objects))))

  -- What is written of an object is read as that object, where base64 decodes what it encodes.
  pub pack_object-object_json :
      ((bytes : Bytes) → codec.b64_decode (codec.b64_encode bytes) ≡ some bytes)
      → (objects : List PackObject)
      → map pack_object
          (map (λ obj. object_json codec.b64_encode obj.obj_type obj.data_bytes) objects)
        ≡ objects
  unfolding pack_object object_json contents_of index get_member str_or
  pack_object-object_json decodes [] = refl
  pack_object-object_json decodes (obj ∷ objects) =
      rw (decodes obj.data_bytes, pack_object-object_json decodes objects) refl

-- The list under a name.
abbrev pub listed : Bytes → Json → List Json
listed name value = array_or_empty (index name value)

pub objects-result_json :
    (codec : Codec)
    → ((bytes : Bytes) → codec.b64_decode (codec.b64_encode bytes) ≡ some bytes)
    → (result : ParseResult)
    → map (pack_object codec) (listed (ascii "objects") (result_json codec.b64_encode result))
      ≡ result.objects
unfolding result_json index get_member array_or_empty
objects-result_json codec decodes result =
    ap (map (pack_object codec)) (
      list_of-elements
        (map (λ obj. object_json codec.b64_encode obj.obj_type obj.data_bytes) result.objects))
    ∙ pack_object-object_json codec decodes result.objects
