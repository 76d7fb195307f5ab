-- ===== src/Factory.antt =====
-- factory/src/lib.rs: the contract that creates repositories as its sub-accounts, each on the global
-- contract code whose hash the factory holds. A text that is read as hexadecimal is its bytes.
pub mod Hashes
pub mod Repos
mod Runs
use Prim.Native.String.{◌++◌ as str_append}
use near_git_storage.Prelude.{
  ℕ, ◌+◌, String, str_eq, List, [], ◌∷◌, ◌++◌, Option, none, some, Bool, leb, ltb, not, ◌==◌,
  if◌then◌else◌, Result, ok, err, ◌>>=◌, ◌>>◌, guard, length,
}
use near_git_storage.Hex.{Bytes, format_hex, from_str_radix}
use near_git_storage.Text.{ascii}
use near_git_storage.Near.{
  Promise, create_account, transfer, use_global_contract, function_call, from_near, from_tgas,
}

-- The ways in which a call panics; `bad_slice` is `&hex[i..i + 2]` beyond the end of the text.
pub data Panic : Type 0 where
  bad_slice : Panic
  invalid_hex : Panic
  wrong_length : Panic
  not_owner : Panic
  invalid_name : Panic
  small_deposit : Panic

pub record GitFactory : Type 0 where
  pub global_contract_hash : Bytes
  pub owner : String

abbrev pub byte_or_panic : Option ℕ → Result Panic ℕ
byte_or_panic none = err invalid_hex
byte_or_panic (some b) = ok b

-- A pair that splits a character panics too; here it is `invalid_hex`, as no digit is beyond ASCII.
unfoldable pub decode_hex : Bytes → Result Panic Bytes
decode_hex [] = ok []
decode_hex (c ∷ []) = err bad_slice
decode_hex (c ∷ d ∷ cs) = do
  b ← byte_or_panic (from_str_radix 255 (c ∷ d ∷ []))
  bs ← decode_hex cs
  ok (b ∷ bs)

unfoldable pub new : String → Bytes → Result Panic GitFactory
new predecessor global_contract_hash = do
  hash ← decode_hex global_contract_hash
  guard (length hash == 32) wrong_length
  ok (record { global_contract_hash = hash; owner = predecessor })

-- `format!("{}.{}", repo_name, factory_account)`
abbrev pub sub_account_name : String → String → String
sub_account_name repo_name factory_account = str_append repo_name (str_append "." factory_account)

-- `parse_account` is `AccountId::from_str`.
unfoldable pub create_repo :
    (String → Option String) → String → ℕ → String → GitFactory → Result Panic Promise
create_repo parse_account current_account deposit repo_name s =
    elim (parse_account (sub_account_name repo_name current_account)) [
      | none ↦ err invalid_name
      | some sub_account ↦
          guard (leb (from_near 1) deposit) small_deposit
          >> ok (record {
            receiver = sub_account;
            actions =
                create_account
                ∷ transfer deposit
                ∷ use_global_contract s.global_contract_hash
                ∷ function_call "new" "{}" (from_near 0) (from_tgas 10)
                ∷ [];
          })
    ]

pub set_global_contract_hash : String → Bytes → GitFactory → Result Panic GitFactory
set_global_contract_hash predecessor global_contract_hash s = do
  guard (str_eq predecessor s.owner) not_owner
  hash ← decode_hex global_contract_hash
  guard (length hash == 32) wrong_length
  ok (record s { global_contract_hash = hash })

unfoldable pub format_bytes : Bytes → Bytes
format_bytes [] = []
format_bytes (b ∷ bs) = format_hex 2 b ++ format_bytes bs

pub get_global_contract_hash : GitFactory → Bytes
get_global_contract_hash s = format_bytes s.global_contract_hash

pub get_owner : GitFactory → String
get_owner s = s.owner

-- The request of a web4 gateway, which is not looked at; texts are bytes.
pub record Web4Request : Type 0 where
  pub path : Bytes
  pub params : List (Bytes × Bytes)
  pub query : List (Bytes × List Bytes)

pub data Web4Response : Type 0 where
  body : Bytes → Bytes → Web4Response

-- `page` is the file that is built into the binary.
pub web4_get : Bytes → Web4Request → Web4Response
web4_get page request = body (ascii "text/html") page
