-- ===== src/Server/Call.antt =====
-- The handlers of git-server/src/main.rs for the service worker of the browser, which speak JSON:
-- handle_near_info, handle_near_credentials, handle_near_call and handle_near_rpc.
pub mod Pushes
mod Runs
use near_git_storage.Prelude.{
  ℕ, List, [], ◌∷◌, ◌++◌, Option, none, some, Bool, true, false, leb, ltb, ◌&&◌, if◌then◌else◌, map,
  Result, ok, err,
}
use near_git_storage.Hex.{Bytes}
use near_git_storage.Text.{ascii, text_eq}
use near_git_storage.Json.{
  Json, null, boolean, string, object, Members, no_members, member, index, as_str, str_or,
  array_or_empty, or_empty,
}
use near_git_storage.Server.Receive.{RefUpdate, encode_push_args}
use near_git_storage.Server.Http.{Response, bytes, text, content_type, json_response}

-- What the handlers read of `AppState`; the first list is the URLs of `network.rpc_endpoints`.
pub record AppState : Type 0 where
  pub rpc_urls : List Bytes
  pub contract_id : Bytes
  pub owner_id : Bytes
  pub owner_public_key : Bytes
  pub owner_secret_key : Bytes

-- `.first().map(..).unwrap_or_default()`
abbrev pub rpc_url : AppState → Bytes
rpc_url state = first state.rpc_urls
  where
    first : List Bytes → Bytes
    first [] = []
    first (url ∷ urls) = url

pub handle_near_info : AppState → Response
handle_near_info state = json_response (
    object (
      member (ascii "rpcUrl") (string (rpc_url state))
        (member (ascii "contractId") (string state.contract_id) no_members)))

pub handle_near_credentials : AppState → Response
handle_near_credentials state = json_response (
    object (
      member (ascii "rpcUrl") (string (rpc_url state)) (
        member (ascii "contractId") (string state.contract_id) (
          member (ascii "accountId") (string state.owner_id) (
            member (ascii "publicKey") (string state.owner_public_key)
              (member (ascii "secretKey") (string state.owner_secret_key) no_members))))))

-- A transaction that was sent: its hash, whether it succeeded, how its failure is printed, and what
-- `into_full` and then `json` make of it.
pub record Sent : Type 0 where
  pub tx_hash : Bytes
  pub is_success : Bool
  pub failure : Bytes
  pub full : Option (Option Json)

-- A call by near_api, which the owner signs; it may not be sent.
pub data Called : Type 0 where
  sent : Sent → Called
  not_sent : Bytes → Called

-- What is outside the program. `call_raw` and `call` are transactions with arguments in bytes and in
-- JSON, `post` is a request by reqwest, which ends with a status and perhaps with a body. A panic leaves
-- a world.
pub record Host (World : Type 0) : Type 0 where
  pub from_slice : Bytes → Result Bytes Json
  pub b64_decode : Bytes → Option Bytes
  pub serialize_pack : Bytes → Bytes
  pub serialize_updates : List RefUpdate → Bytes
  pub call_raw : Bytes → Bytes → World → Called × World
  pub call : Bytes → Json → World → Called × World
  pub post : Bytes → Bytes → World → Result Bytes (ℕ × Option Bytes) × World

-- `json!({ "success": true, .. })`, and with false.
abbrev pub successful : Members → Response
successful members = json_response (object (member (ascii "success") (boolean true) members))

abbrev pub unsuccessful : Bytes → Members → Response
unsuccessful error members = json_response (
    object
      (member (ascii "success") (boolean false) (member (ascii "error") (string error) members)))

abbrev pub with_hash : Sent → Members
with_hash s = member (ascii "txHash") (string s.tx_hash) no_members

pub ref_update_of : Json → RefUpdate
ref_update_of u = record {
  name = str_or [] (index (ascii "name") u);
  old_sha = as_str (index (ascii "old_sha") u);
  new_sha = str_or [] (index (ascii "new_sha") u);
}

pub push_answer : Called → Response
push_answer (sent s) =
    if s.is_success
    then successful (with_hash s)
    else unsuccessful (ascii "push failed") (with_hash s)
push_answer (not_sent e) = unsuccessful e no_members

-- `full.json().unwrap_or(json!(null))`
abbrev pub or_null : Option Json → Json
or_null none = null
or_null (some value) = value

abbrev pub full_answer :
    {World : Type 0} → Sent → World → Option (Option Json) → Result World (Response × World)
full_answer s w none = err w
full_answer s w (some value) =
    ok (successful (member (ascii "result") (or_null value) (with_hash s)), w)

pub call_answer : {World : Type 0} → Called × World → Result World (Response × World)
call_answer (sent s, w) =
    if s.is_success
    then full_answer s w s.full
    else ok (unsuccessful (ascii "transaction failed") (with_hash s), w)
call_answer (not_sent e, w) = ok (unsuccessful e no_members, w)

-- `StatusCode::from_u16(..).unwrap_or(StatusCode::BAD_GATEWAY)`
abbrev pub status_or_bad_gateway : ℕ → ℕ
status_or_bad_gateway status = if leb 100 status && ltb status 1000 then status else 502

pub rpc_answer : Result Bytes (ℕ × Option Bytes) → Response
rpc_answer (ok (status, body)) = record {
  status = status_or_bad_gateway status;
  headers = content_type (ascii "application/json") ∷ [];
  body = bytes (or_empty body);
}
rpc_answer (err e) = record {
  status = 502;
  headers = content_type (ascii "text/plain; charset=utf-8") ∷ [];
  body = text (ascii "RPC proxy error: " ++ e);
}

module _ {World : Type 0} (host : Host World) where
  pub push_args : Json → Bytes
  push_args args =
      encode_push_args host.serialize_pack host.serialize_updates
        (or_empty (host.b64_decode (str_or [] (index (ascii "pack_data") args))))
        (map ref_update_of (array_or_empty (index (ascii "ref_updates") args)))

  pub call_push : Json → World → Response × World
  call_push args w =
      let (result, w') = host.call_raw (ascii "push") (push_args args) w in (push_answer result, w')

  pub call_method : Json → World → Result World (Response × World)
  call_method request w =
      let method = str_or [] (index (ascii "method") request) in
      let args = index (ascii "args") request in
      if text_eq method (ascii "push")
      then ok (call_push args w)
      else call_answer (host.call method args w)

  pub handle_near_call : Bytes → World → Result World (Response × World)
  handle_near_call body w = elim (host.from_slice body) [
    | ok request ↦ call_method request w
    | err e ↦ ok (unsuccessful e no_members, w)
  ]

  pub handle_near_rpc : AppState → Bytes → World → Response × World
  handle_near_rpc state body w =
      let (result, w') = host.post (rpc_url state) body w in (rpc_answer result, w')
