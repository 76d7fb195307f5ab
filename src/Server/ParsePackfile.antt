-- ===== src/Server/ParsePackfile.antt =====
-- `handle_parse_packfile` of git-server/src/main.rs.
pub mod Built
mod Runs
use near_git_storage.Prelude.{ℕ, Option, ok, err, if◌then◌else◌}
use near_git_storage.Hex.{Bytes}
use near_git_storage.Text.{ascii}
use near_git_storage.Json.{string, object, member, no_members, result_json}
use near_git_storage.Packfile.{Outcome, Failure}
use near_git_storage.Packfile.Parse.{ParseResult, parse}
use near_git_storage.Server.Merge.{is_caught}
use near_git_storage.Server.Http.{Response, json_response}

-- `inflate` is the zlib decoder, `b64_encode` the standard base64, and `message` the text of an error,
-- of which the model of `parse` has the kind and the numbers. A panic has no response.
module _ (inflate : Bytes → Option (Bytes × ℕ)) (b64_encode : Bytes → Bytes)
    (message : Failure → Bytes) where
  pub parsed_response : Outcome ParseResult → Outcome Response
  parsed_response (ok result) = ok (json_response (result_json b64_encode result))
  parsed_response (err e) =
      if is_caught e
      then ok (json_response (object (member (ascii "error") (string (message e)) no_members)))
      else err e

  pub handle_parse_packfile : Bytes → Outcome Response
  handle_parse_packfile body = parsed_response (parse inflate body)
