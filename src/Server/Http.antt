-- ===== src/Server/Http.antt =====
-- The responses of the handlers of git-server/src/main.rs, with what axum makes of a JSON value. A header is
-- its name and its value.
use near_git_storage.Prelude.{ℕ, List, [], ◌∷◌, ◌++◌, Option, none, some, Result, ok, err, ◌>>=◌}
use near_git_storage.Hex.{Bytes}
use near_git_storage.Text.{ascii}
use near_git_storage.Json.{Json}
use near_git_storage.Server.{info_refs_body, report_body}

pub data Body : Type 0 where
  json : Json → Body
  bytes text : Bytes → Body

pub record Response : Type 0 where
  pub status : ℕ
  pub headers : List (Bytes × Bytes)
  pub body : Body

abbrev pub content_type : Bytes → Bytes × Bytes
content_type value = (ascii "Content-Type", value)

-- `axum::Json(value).into_response()`
unfoldable pub json_response : Json → Response
json_response value = record {
  status = 200;
  headers = content_type (ascii "application/json") ∷ [];
  body = json value;
}

-- `make_receive_pack_response`
pub receive_pack_response : List Bytes → Response
receive_pack_response status_lines = record {
  status = 200;
  headers = content_type (ascii "application/x-git-receive-pack-result") ∷ [];
  body = bytes (report_body status_lines);
}

-- The end of `handle_upload_pack`.
pub upload_pack_response : Bytes → Response
upload_pack_response response_body = record {
  status = 200;
  headers = content_type (ascii "application/x-git-upload-pack-result") ∷ [];
  body = bytes response_body;
}

-- The text of the service in a header that `parse_header`, the parser of the crate http, may refuse.
abbrev pub advertisement : Bytes → Bytes
advertisement service = ascii "application/x-" ++ (service ++ ascii "-advertisement")

abbrev pub info_refs_response : Bytes → Bytes → List (Bytes × Bytes) → Response
info_refs_response header service refs = record {
  status = 200;
  headers = content_type header ∷ (ascii "Cache-Control", ascii "no-cache") ∷ [];
  body = bytes (info_refs_body service refs);
}

-- `get_refs` is the contract's view behind near_api; a panic leaves a world, too.
module _ {World : Type 0} (parse_header : Bytes → Option Bytes)
    (get_refs : World → Result World (List (Bytes × Bytes) × World)) where
  abbrev with_header :
      Bytes → List (Bytes × Bytes) × World → Option Bytes → Result World (Response × World)
  with_header service (refs, w) none = err w
  with_header service (refs, w) (some header) = ok (info_refs_response header service refs, w)

  pub handle_info_refs : Bytes → World → Result World (Response × World)
  handle_info_refs service w = do
    answer ← get_refs w
    with_header service answer (parse_header (advertisement service))
