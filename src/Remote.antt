-- ===== src/Remote.antt =====
-- git-remote-near/src/main.rs, the remote helper of git: what stands outside the program is a `Host`.
pub mod Push
pub mod Session
pub mod Credentials
use near_git_storage.Prelude.{ℕ, List, Option, ◌++◌, Result, none, some}
use near_git_storage.Hex.{Bytes}
use near_git_storage.Text.{ascii, strip_prefix}

pub record RefUpdate : Type 0 where
  pub name : Bytes
  pub old_sha : Option Bytes
  pub new_sha : Bytes

-- How a transaction came back: it succeeded, it failed with a failure that is printed, or it was not sent.
pub data Reply : Type 0 where
  succeeded : Reply
  failed not_sent : Bytes → Reply

-- The contract behind near_api, the programs of git, the credentials and the crate borsh. `World` is the
-- state of all of it, which others may change in any step; a panic leaves a world, too. `rev_parse` and
-- `rev_list` give the output of a program that succeeded.
pub record Host (World Signer : Type 0) : Type 0 where
  pub get_refs : World → Result World (List (Bytes × Bytes) × World)
  pub get_packs : ℕ → World → Result World (List Bytes × World)
  pub call_push : Signer → Bytes → World → Reply × World
  pub resolve_credentials : World → Result World (Signer × World)
  pub rev_parse : Bytes → World → Option Bytes
  pub rev_list : List Bytes → World → Option Bytes
  pub pack_objects : Bytes → World → Result World (Bytes × World)
  pub index_pack : Bytes → World → Result World World
  pub from_utf8_lossy : Bytes → Bytes
  pub serialize_pack : Bytes → Bytes
  pub serialize_updates : List RefUpdate → Bytes

abbrev pub or_else : Option Bytes → Option Bytes → Option Bytes
or_else none second = second
or_else (some found) second = some found

abbrev pub unwrap_or : Bytes → Option Bytes → Bytes
unwrap_or default none = default
unwrap_or default (some found) = found

-- The contract's account in the URL.
pub contract_id : Bytes → Bytes
contract_id url =
    unwrap_or url (or_else (strip_prefix (ascii "near://") url) (strip_prefix (ascii "near::") url))

module _ {World Signer : Type 0} (host : Host World Signer) where
  pub encode_push_args : Bytes → List RefUpdate → Bytes
  encode_push_args pack_data ref_updates =
      host.serialize_pack pack_data ++ host.serialize_updates ref_updates
