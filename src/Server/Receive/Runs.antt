-- ===== src/Server/Receive/Runs.antt =====
-- A push to the server as git sends it.
use near_git_storage.Prelude.{
  ℕ, ◌+◌, ◌≡◌, refl, arith, List, [], ◌∷◌, ◌++◌, none, some, true, if◌then◌else◌,
}
use near_git_storage.Hex.{Bytes}
use near_git_storage.Text.{ascii, is_utf8}
use near_git_storage.PktLine.{flush, read_until_flush}
use near_git_storage.PktLine.Laws.{encode_all}
use near_git_storage.Server.Receive.{RefUpdate, PushResult, succeeded, receive_pack}
use near_git_storage.Server.Receive.Reports.{report, receive_pack-commands}
use near_git_storage.Server.Receive.Requests.{IsUpdate, newline, capabilities, commands, updates_of}

-- A new branch with the capabilities of git, and one that moves.
abbrev pub create : RefUpdate
create = record { name = ascii "r1"; old_sha = none; new_sha = ascii "a1" }

abbrev pub move : RefUpdate
move = record { name = ascii "r2"; old_sha = some (ascii "b2"); new_sha = ascii "c3" }

abbrev pub sent : List (RefUpdate × Bytes)
sent = (create, 0 ∷ ascii " report-status") ∷ (move, 10 ∷ []) ∷ []

pub create-IsUpdate : IsUpdate create
create-IsUpdate = record {
  old = tt;
  new = ((refl, refl, refl), ((refl, refl, refl), tt));
  name = ((refl, refl, refl), ((refl, refl, refl), tt));
}

pub move-IsUpdate : IsUpdate move
move-IsUpdate = record {
  old = (((refl, refl, refl), ((refl, refl, refl), tt)), refl);
  new = ((refl, refl, refl), ((refl, refl, refl), tt));
  name = ((refl, refl, refl), ((refl, refl, refl), tt));
}

-- A contract that takes every push; the world counts the calls.
abbrev take_push : Bytes → ℕ → PushResult × ℕ
take_push args calls = (succeeded, calls + 1)

abbrev no_updates : List RefUpdate → Bytes
no_updates updates = []

-- Puts U+FFFD in the place of a text that is not UTF-8.
abbrev pub replacing : Bytes → Bytes
replacing text = if is_utf8 text then text else 0xef ∷ 0xbf ∷ 0xbd ∷ []

pub replacing_lem : (text : Bytes) → is_utf8 text ≡ true → replacing text ≡ text
replacing_lem text h = rw h

abbrev same : Bytes → Bytes
same pack = pack

receive_pack-commands_example :
    (body : Bytes) × (receive_pack same no_updates replacing take_push
        (encode_all (commands sent) ++ (flush ++ ascii "PACK"))
        0
      ≡ (body, 1))
    × (read_until_flush body ≡ (report succeeded (updates_of sent), []))
receive_pack-commands_example =
    receive_pack-commands same no_updates replacing take_push sent (ascii "PACK") 0 1 succeeded
      replacing_lem
      ((create-IsUpdate, capabilities (ascii " report-status")), ((move-IsUpdate, newline), tt))
      (refl, (refl, tt)) (omega arith, (omega arith, tt)) refl
      (omega arith, (omega arith, (omega arith, tt)))
