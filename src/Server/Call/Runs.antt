-- ===== src/Server/Call/Runs.antt =====
-- A push over JSON at a concrete input.
use near_git_storage.Prelude.{ℕ, ◌+◌, ◌≡◌, refl, arith, [], ◌++◌, some, none, true, ok, err}
use near_git_storage.Text.{ascii}
use near_git_storage.Json.{object, no_members, index, get_member, str_or}
use near_git_storage.PktLine.{flush}
use near_git_storage.PktLine.Laws.{encode_all}
use near_git_storage.Server.{report_body}
use near_git_storage.Server.Receive.{succeeded, status_lines, receive_pack}
use near_git_storage.Server.Receive.Requests.{newline, capabilities, commands, updates_of}
use near_git_storage.Server.Receive.Runs.{
  create-IsUpdate, move-IsUpdate, sent as pushed, replacing, replacing_lem,
}
use near_git_storage.Server.Call.{
  Called, sent, not_sent, Host, push_answer, call_method, call_answer, handle_near_call,
}
use near_git_storage.Server.Call.Pushes.{push_request, push_result, handle_near_call-receive_pack}

abbrev landed : Called
landed = sent (record { tx_hash = ascii "h1"; is_success = true; failure = []; full = some none })

-- A contract that takes every push, in a world that counts the calls; each text is the one request, and
-- base64 encodes nothing.
abbrev host : Host ℕ
host = record {
  from_slice = λ text. ok (push_request (ascii "PACK") (updates_of pushed));
  b64_decode = λ text. some text;
  serialize_pack = λ pack. pack;
  serialize_updates = λ updates. [];
  call_raw = λ method args calls. (landed, calls + 1);
  call = λ method args calls. (not_sent (ascii "no such method"), calls);
  post = λ url body calls. (err (ascii "no connection"), calls);
}

handle_near_call-receive_pack_example :
    (receive_pack host.serialize_pack host.serialize_updates replacing
        (λ args v. let (r, v') = host.call_raw (ascii "push") args v in (push_result r, v'))
        (encode_all (commands pushed) ++ (flush ++ ascii "PACK"))
        0
      ≡ (report_body (status_lines succeeded (updates_of pushed)), 1))
    × (handle_near_call host (ascii "{..}") 0 ≡ ok (push_answer landed, 1))
handle_near_call-receive_pack_example =
    handle_near_call-receive_pack host replacing pushed (ascii "PACK") (ascii "PACK") (ascii "{..}")
      0 1 landed replacing_lem
      ((create-IsUpdate, capabilities (ascii " report-status")), ((move-IsUpdate, newline), tt))
      (refl, (refl, tt)) (omega arith, (omega arith, tt)) refl refl refl

-- A request without a method calls the method of no name.
unnamed :
    call_method host (object no_members) 0
    ≡ call_answer (host.call [] (index (ascii "args") (object no_members)) 0)
unfolding call_method index get_member str_or
unnamed = refl
