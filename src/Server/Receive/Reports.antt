-- ===== src/Server/Receive/Reports.antt =====
-- A push through `handle_receive_pack` of git-server/src/main.rs, from git's request to its report.
use near_git_storage.Prelude.{◌≡◌, refl, sym, ap, ◌∙◌, List, [], ◌∷◌, ◌++◌, true, All, map, subst}
use near_git_storage.Hex.{Bytes}
use near_git_storage.Text.{ascii, is_utf8}
use near_git_storage.PktLine.{flush, read_until_flush}
use near_git_storage.PktLine.Laws.{Fits, encode_all}
use near_git_storage.Server.{with_newlines, report_body}
use near_git_storage.Server.Answers.{read_until_flush-report_body}
use near_git_storage.Server.Receive.{
  RefUpdate, PushResult, succeeded, refused, call_failed, ok_lines, status_lines, encode_push_args,
  receive_pack,
}
use near_git_storage.Server.Receive.Requests.{
  IsUpdate, IsTail, commands, updates_of, parse_request-commands,
}

abbrev pub line : Bytes → Bytes
line text = text ++ (10 ∷ [])

-- The report of git's protocol: that the pack was unpacked and that each ref was updated, or why not.
abbrev pub report : PushResult → List RefUpdate → List Bytes
report succeeded updates = line (ascii "unpack ok") ∷ map (λ u. ascii "ok " ++ line u.name) updates
report (refused why) updates = (ascii "ng unpack " ++ line why) ∷ []
report call_failed updates = line (ascii "ng unpack contract call failed") ∷ []

with_newlines-ok_lines :
    (updates : List RefUpdate)
    → with_newlines (ok_lines updates) ≡ map (λ u. ascii "ok " ++ line u.name) updates
unfolding with_newlines ok_lines
with_newlines-ok_lines [] = refl
with_newlines-ok_lines (u ∷ updates) =
    ap (λ ls. (ascii "ok " ++ line u.name) ∷ ls) (with_newlines-ok_lines updates)

with_newlines-status_lines :
    (result : PushResult) (updates : List RefUpdate)
    → with_newlines (status_lines result updates) ≡ report result updates
unfolding with_newlines status_lines
with_newlines-status_lines succeeded updates =
    ap (λ ls. line (ascii "unpack ok") ∷ ls) (with_newlines-ok_lines updates)
with_newlines-status_lines (refused why) updates = refl
with_newlines-status_lines call_failed updates = refl

-- The client reads the report from the response.
report_body-report :
    (result : PushResult) (updates : List RefUpdate)
    → All Fits (report result updates)
    → read_until_flush (report_body (status_lines result updates)) ≡ (report result updates, [])
report_body-report result updates short =
    let same = with_newlines-status_lines result updates in
    read_until_flush-report_body (status_lines result updates) (subst (All Fits) (sym same) short)
    ∙ ap (λ lines. (lines, [])) same

module _ {World : Type 0} (serialize_pack : Bytes → Bytes)
    (serialize_updates : List RefUpdate → Bytes) (from_utf8_lossy : Bytes → Bytes)
    (call_push : Bytes → World → PushResult × World) where
  -- For a request of packet lines that fit, each a command as git writes it, in UTF-8, then a flush
  -- packet and a packfile: the server calls the contract's push once, with that packfile and the updates
  -- of the commands, all zeros as no old SHA. Where the lines fit, the client reads from the response,
  -- and nothing is left: after a success "unpack ok" and "ok" with the name for each update, in order,
  -- else the one line "ng unpack" with the failure, or that the call failed.
  pub receive_pack-commands :
      (cs : List (RefUpdate × Bytes)) (pack_data : Bytes) (w w' : World) (result : PushResult)
      → ((bytes : Bytes) → is_utf8 bytes ≡ true → from_utf8_lossy bytes ≡ bytes)
      → All (λ c. IsUpdate c.0 × IsTail c.1) cs
      → All (λ c. is_utf8 c ≡ true) (commands cs)
      → All Fits (commands cs)
      → call_push (encode_push_args serialize_pack serialize_updates pack_data (updates_of cs)) w
        ≡ (result, w')
      → All Fits (report result (updates_of cs))
      → (body : Bytes) × (receive_pack serialize_pack serialize_updates from_utf8_lossy call_push
            (encode_all (commands cs) ++ (flush ++ pack_data))
            w
          ≡ (body, w'))
        × (read_until_flush body ≡ (report result (updates_of cs), []))
  unfolding receive_pack
  receive_pack-commands cs pack_data w w' result lossless h utf8 fit call short = (
    report_body (status_lines result (updates_of cs)),
    rw (parse_request-commands from_utf8_lossy lossless cs pack_data h utf8 fit, call) refl,
    report_body-report result (updates_of cs) short,
  )
