-- ===== src/Json.antt =====
-- The values of serde_json as git-server/src/main.rs and wasm-lib/src/lib.rs read and write them, with the
-- result of `parse` as such a value. A text is its bytes.
use near_git_storage.Prelude.{
  List, [], ◌∷◌, Option, none, some, Bool, if◌then◌else◌, map, ◌≡◌, refl, ap,
}
use near_git_storage.Hex.{Bytes}
use near_git_storage.Text.{ascii, text_eq}
use near_git_storage.Packfile.Parse.{UnresolvedDelta, ParseResult}

-- `serde_json::Value`; a number is its text, and members stand as the code writes them.
mutual
  pub data Json : Type 0 where
    null : Json
    boolean : Bool → Json
    number : Bytes → Json
    string : Bytes → Json
    array : Elements → Json
    object : Members → Json

  pub data Elements : Type 0 where
    no_elements : Elements
    element : Json → Elements → Elements

  pub data Members : Type 0 where
    no_members : Members
    member : Bytes → Json → Members → Members

unfoldable pub get_member : Bytes → Members → Json
get_member key no_members = null
get_member key (member name value members) =
    let rest = get_member key members in if text_eq name key then value else rest

-- `value[key]`, which is null where there is no such member.
unfoldable pub index : Bytes → Json → Json
index key (object members) = get_member key members
index key value = null

-- `value.as_str()`
unfoldable pub as_str : Json → Option Bytes
as_str (string text) = some text
as_str value = none

-- `value.as_str().unwrap_or(default)`
unfoldable pub str_or : Bytes → Json → Bytes
str_or default (string text) = text
str_or default value = default

unfoldable pub elements : List Json → Elements
elements [] = no_elements
elements (value ∷ values) = element value (elements values)

unfoldable pub list_of : Elements → List Json
list_of no_elements = []
list_of (element value values) = value ∷ list_of values

-- `value.as_array()`, and no members where it is no array.
unfoldable pub array_or_empty : Json → List Json
array_or_empty (array values) = list_of values
array_or_empty value = []

-- `unwrap_or_default`
abbrev pub or_empty : Option Bytes → Bytes
or_empty none = []
or_empty (some bytes) = bytes

pub list_of-elements : (values : List Json) → list_of (elements values) ≡ values
unfolding list_of elements
list_of-elements [] = refl
list_of-elements (value ∷ values) = ap (λ vs. value ∷ vs) (list_of-elements values)

-- `b64_encode` is the standard base64.
module _ (b64_encode : Bytes → Bytes) where
  -- `{ "obj_type": .., "data": .. }`
  unfoldable pub object_json : Bytes → Bytes → Json
  object_json obj_type contents = object (
      member (ascii "obj_type") (string obj_type)
        (member (ascii "data") (string (b64_encode contents)) no_members))

  unfoldable pub delta_json : UnresolvedDelta → Json
  delta_json d = object (
      member (ascii "base_sha") (string d.base_sha) (
        member (ascii "delta_data") (string (b64_encode d.delta_data)) (
          member (ascii "chain") (array (elements (map (λ c. string (b64_encode c)) d.chain)))
            no_members)))

  unfoldable pub result_json : ParseResult → Json
  result_json result = object (
      member (ascii "objects")
        (array (elements (map (λ obj. object_json obj.obj_type obj.data_bytes) result.objects)))
        (member (ascii "deltas") (array (elements (map delta_json result.deltas))) no_members))
