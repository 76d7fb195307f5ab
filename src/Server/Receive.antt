-- ===== src/Server/Receive.antt =====
-- The request of `handle_receive_pack` of git-server/src/main.rs.
pub mod Requests
pub mod Reports
pub mod Runs
use near_git_storage.Prelude.{
  ℕ, List, [], ◌∷◌, ◌++◌, Option, none, some, Bool, true, false, ◌==◌, if◌then◌else◌, map,
}
use near_git_storage.Hex.{Bytes}
use near_git_storage.Text.{ascii, text_eq, split_once}
use near_git_storage.PktLine.{read_until_flush}
use near_git_storage.Server.{zero_sha, report_body}

pub record RefUpdate : Type 0 where
  pub name : Bytes
  pub old_sha : Option Bytes
  pub new_sha : Bytes

-- `trim_end_matches('\n')`: a newline is dropped where all behind it is dropped.
pub cons_line : ℕ → Bytes → Bytes
cons_line c [] = if c == 10 then [] else c ∷ []
cons_line c (d ∷ ds) = c ∷ d ∷ ds

pub trim_newlines : Bytes → Bytes
trim_newlines [] = []
trim_newlines (c ∷ cs) = cons_line c (trim_newlines cs)

-- `text.split('\0').next()`
abbrev pub before_nul : Bytes → Bytes
before_nul text = (split_once 0 text).0

pub command_update : Bytes → Bytes → Bytes → RefUpdate
command_update old new name =
    let old_sha = before_nul old in
    record {
      name = before_nul name;
      old_sha = if text_eq old_sha zero_sha then none else some old_sha;
      new_sha = new;
    }

-- `splitn(3, ' ')`: a line of fewer parts is no command.
pub third_part : Bytes → Bytes → Option Bytes → Option RefUpdate
third_part old new none = none
third_part old new (some name) = some (command_update old new name)

pub second_part : Bytes → Option Bytes → Option RefUpdate
second_part old none = none
second_part old (some text) = let (new, rest) = split_once b' ' text in third_part old new rest

pub keep_update : Option RefUpdate → List RefUpdate → List RefUpdate
keep_update none updates = updates
keep_update (some u) updates = u ∷ updates

-- `String::from_utf8_lossy` is std's: what is no UTF-8 becomes U+FFFD.
module _ (from_utf8_lossy : Bytes → Bytes) where
  pub parse_command : Bytes → Option RefUpdate
  parse_command cmd =
      let (old, rest) = split_once b' ' (trim_newlines (from_utf8_lossy cmd)) in
      second_part old rest

  -- `for cmd in &commands`
  pub parse_commands : List Bytes → List RefUpdate
  parse_commands [] = []
  parse_commands (cmd ∷ cmds) = keep_update (parse_command cmd) (parse_commands cmds)

  -- What the handler sends to the contract: the updates, and the packfile behind the commands.
  pub parse_request : Bytes → List RefUpdate × Bytes
  parse_request body =
      let (commands, pack_data) = read_until_flush body in (parse_commands commands, pack_data)

pub ok_lines : List RefUpdate → List Bytes
ok_lines [] = []
ok_lines (u ∷ updates) = (b'o' ∷ b'k' ∷ b' ' ∷ u.name) ∷ ok_lines updates

-- How the transaction came back: it succeeded, it failed with a failure that is printed, or its call
-- failed.
pub data PushResult : Type 0 where
  succeeded call_failed : PushResult
  refused : Bytes → PushResult

pub status_lines : PushResult → List RefUpdate → List Bytes
status_lines succeeded updates = ascii "unpack ok" ∷ ok_lines updates
status_lines (refused why) updates = (ascii "ng unpack " ++ why) ∷ []
status_lines call_failed updates = ascii "ng unpack contract call failed" ∷ []

-- The two functions of the crate borsh write a pack and a list of updates.
module _ (serialize_pack : Bytes → Bytes) (serialize_updates : List RefUpdate → Bytes) where
  pub encode_push_args : Bytes → List RefUpdate → Bytes
  encode_push_args pack_data ref_updates = serialize_pack pack_data ++ serialize_updates ref_updates

  -- `call_push` is the contract's push behind near_api, in a world that it may change.
  module _ {World : Type 0} (from_utf8_lossy : Bytes → Bytes)
      (call_push : Bytes → World → PushResult × World) where
    -- The body of the response, and the world behind the call.
    unfoldable pub receive_pack : Bytes → World → Bytes × World
    receive_pack body w =
        let (ref_updates, pack_data) = parse_request from_utf8_lossy body in
        let (result, w') = call_push (encode_push_args pack_data ref_updates) w in
        (report_body (status_lines result ref_updates), w')
