-- ===== src/Server/Call/Pushes.antt =====
-- A push over JSON, and the same push over git's protocol (git-server/src/main.rs).
use near_git_storage.Prelude.{
  ◌≡◌, refl, ap, ap₂, List, [], ◌∷◌, ◌++◌, Option, none, some, true, All, map, ok, if◌then◌else◌,
}
use near_git_storage.Hex.{Bytes}
use near_git_storage.Text.{ascii, is_utf8}
use near_git_storage.Json.{
  Json, null, string, array, object, no_members, member, index, get_member, as_str, str_or,
  elements, list_of-elements, array_or_empty,
}
use near_git_storage.PktLine.{flush}
use near_git_storage.PktLine.Laws.{Fits, encode_all}
use near_git_storage.Server.{report_body}
use near_git_storage.Server.Receive.{
  RefUpdate, PushResult, succeeded, refused, call_failed, status_lines, encode_push_args,
  receive_pack,
}
use near_git_storage.Server.Receive.Requests.{
  IsUpdate, IsTail, commands, updates_of, parse_request-commands,
}
use near_git_storage.Server.Call.{
  Called, sent, not_sent, Host, ref_update_of, push_answer, push_args, call_push, call_method,
  handle_near_call,
}

-- The request for a push, as a client writes it.
abbrev pub option_json : Option Bytes → Json
option_json none = null
option_json (some text) = string text

abbrev pub update_json : RefUpdate → Json
update_json u = object (
    member (ascii "name") (string u.name) (
      member (ascii "old_sha") (option_json u.old_sha)
        (member (ascii "new_sha") (string u.new_sha) no_members)))

abbrev pub push_request : Bytes → List RefUpdate → Json
push_request pack_b64 updates = object (
    member (ascii "method") (string (ascii "push")) (
      member (ascii "args")
        (object (
          member (ascii "pack_data") (string pack_b64)
            (member (ascii "ref_updates") (array (elements (map update_json updates))) no_members)))
        no_members))

-- How handle_receive_pack tells the results of a call apart.
abbrev pub push_result : Called → PushResult
push_result (sent s) = if s.is_success then succeeded else refused s.failure
push_result (not_sent e) = call_failed

as_str-option_json : (o : Option Bytes) → as_str (option_json o) ≡ o
unfolding as_str
as_str-option_json none = refl
as_str-option_json (some text) = refl

ref_update_of-update_json : (u : RefUpdate) → ref_update_of (update_json u) ≡ u
unfolding ref_update_of index get_member str_or
ref_update_of-update_json u =
    ap (λ o. record { name = u.name; old_sha = o; new_sha = u.new_sha })
      (as_str-option_json u.old_sha)

ref_updates-update_json : (us : List RefUpdate) → map ref_update_of (map update_json us) ≡ us
ref_updates-update_json [] = refl
ref_updates-update_json (u ∷ us) =
    ap₂ (λ v vs. v ∷ vs) (ref_update_of-update_json u) (ref_updates-update_json us)

module _ {World : Type 0} (host : Host World) (from_utf8_lossy : Bytes → Bytes) where
  call_method-push_request :
      (pack_b64 pack : Bytes) (updates : List RefUpdate) (w w' : World) (result : Called)
      → host.b64_decode pack_b64 ≡ some pack
      → host.call_raw
          (ascii "push")
          (encode_push_args host.serialize_pack host.serialize_updates pack updates)
          w
        ≡ (result, w')
      → call_method host (push_request pack_b64 updates) w ≡ ok (push_answer result, w')
  unfolding call_method call_push push_args index get_member str_or array_or_empty
  call_method-push_request pack_b64 pack updates w w' result decoded call =
      rw
        (decoded, list_of-elements (map update_json updates), ref_updates-update_json updates, call)
        refl

  -- For a push as git sends it over its protocol, in UTF-8 and in packet lines that fit, and a request in
  -- JSON for the same updates and the same packfile in base64: handle_receive_pack and handle_near_call make the same
  -- call of the contract's push, once, and leave the same world; the one reports what came back in
  -- packet lines, the other in JSON.
  pub handle_near_call-receive_pack :
      (cs : List (RefUpdate × Bytes)) (pack_data pack_b64 body : Bytes) (w w' : World)
      (result : Called)
      → ((bytes : Bytes) → is_utf8 bytes ≡ true → from_utf8_lossy bytes ≡ bytes)
      → All (λ c. IsUpdate c.0 × IsTail c.1) cs
      → All (λ c. is_utf8 c ≡ true) (commands cs)
      → All Fits (commands cs)
      → host.from_slice body ≡ ok (push_request pack_b64 (updates_of cs))
      → host.b64_decode pack_b64 ≡ some pack_data
      → host.call_raw
          (ascii "push")
          (encode_push_args host.serialize_pack host.serialize_updates pack_data (updates_of cs))
          w
        ≡ (result, w')
      → (receive_pack host.serialize_pack host.serialize_updates from_utf8_lossy
            (λ args v. let (r, v') = host.call_raw (ascii "push") args v in (push_result r, v'))
            (encode_all (commands cs) ++ (flush ++ pack_data))
            w
          ≡ (report_body (status_lines (push_result result) (updates_of cs)), w'))
        × (handle_near_call host body w ≡ ok (push_answer result, w'))
  unfolding receive_pack handle_near_call
  handle_near_call-receive_pack cs pack_data pack_b64 body w w' result lossless h utf8 fit parsed
        decoded call =
      (
        rw (parse_request-commands from_utf8_lossy lossless cs pack_data h utf8 fit, call) refl,
        rw (parsed, handle_near_call)
            (call_method-push_request pack_b64 pack_data (updates_of cs) w w' result decoded call),
      )
