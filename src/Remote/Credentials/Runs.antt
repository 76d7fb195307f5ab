-- ===== src/Remote/Credentials/Runs.antt =====
-- The credentials of a contract's owner, whose key is in his file.
use near_git_storage.Prelude.{◌≡◌, refl, [], Option, none, some, true, err, ok, if◌then◌else◌}
use near_git_storage.Hex.{Bytes}
use near_git_storage.Text.{ascii, text_eq}
use near_git_storage.Json.{Json, string, object, member, no_members, index, get_member, as_str}
use near_git_storage.Remote.Credentials.{
  Surroundings, invalid_contract_id, contains, signer_account, signer_of_key, signer_of_file,
  resolve_network, resolve_credentials,
}
use near_git_storage.Remote.Credentials.Keys.{SignsFor, HasKey, resolve_credentials-HasKey}

-- No account name has an at sign.
abbrev account_of : Bytes → Option Bytes
account_of text = if contains b'@' text then none else some text

abbrev credentials : Json
credentials = object (member (ascii "private_key") (string (ascii "k1")) no_members)

-- A home with one file, of alice on the main network; a key is its text, and so is a signer.
abbrev around : Surroundings Bytes Bytes Bytes
around = record {
  var = λ name.
      if text_eq name (ascii "NEAR_ENV")
      then some (ascii "mainnet")
      else if text_eq name (ascii "HOME")
      then some (ascii "/home")
      else none;
  read_to_string = λ path.
      if text_eq path (ascii "/home/.near-credentials/mainnet/alice.json") then some [] else none;
  get_owner = λ contract_id. some (ascii "alice");
  parse_account = account_of;
  parse_key = λ text. some text;
  from_secret_key = λ key. some key;
  parse_json = λ text. some credentials;
  parse_url = λ text. some text;
}

refuses_at : (text : Bytes) → contains b'@' text ≡ true → account_of text ≡ none
refuses_at text at = rw at refl

resolved : resolve_credentials around (ascii "repo") ≡ ok (ascii "repo", ascii "alice", ascii "k1")
unfolding resolve_credentials signer_account signer_of_file signer_of_key contains index get_member
    as_str
resolved = refl

resolve_credentials-HasKey_example :
    (account : Bytes) × (account_of (ascii "repo") ≡ some (ascii "repo"))
    × SignsFor around (ascii "repo") (ascii "repo") account
    × (account_of account ≡ some (ascii "alice"))
    × HasKey around account (ascii "k1")
resolve_credentials-HasKey_example =
    resolve_credentials-HasKey around (ascii "repo") (ascii "repo") (ascii "alice") (ascii "k1")
      refuses_at resolved

-- The form that names the signer before an at sign is refused as a contract.
named_signer : resolve_credentials around (ascii "alice@repo") ≡ err invalid_contract_id
unfolding resolve_credentials contains
named_signer = refl

main_network :
    resolve_network around ≡ ok (ascii "mainnet", ascii "https://rpc.mainnet.fastnear.com")
unfolding resolve_network
main_network = refl
