-- ===== src/Factory/Runs.antt =====
-- Runs of the factory, and its laws at concrete inputs.
use near_git_storage.Prelude.{
  ◌≡◌, ◌≤◌, ◌^◌, ◌*◌, refl, String, [], ◌∷◌, Option, some, ok, err, All, replicate, length,
}
use near_git_storage.Near.{
  Promise, create_account, transfer, use_global_contract, function_call, from_near, from_tgas,
}
use near_git_storage.Hex.{Bytes, from_str_radix, parse_loop, to_digit}
use near_git_storage.Factory.{
  bad_slice, GitFactory, decode_hex, new, sub_account_name, create_repo, set_global_contract_hash,
  get_owner,
}
use near_git_storage.Factory.Hashes.{
  IsByte, IsValid, SetTo, decode_hex-IsByte, new-IsValid, set_global_contract_hash-SetTo,
}
use near_git_storage.Factory.Repos.{RepoActions, create_repo-set_global_contract_hash}

-- A sign is read as part of a pair.
signed_pair : decode_hex (b'+' ∷ b'f' ∷ []) ≡ ok (15 ∷ [])
unfolding decode_hex from_str_radix parse_loop to_digit
signed_pair = refl

-- An odd number of digits is a slice beyond the end.
odd_text : decode_hex (b'f' ∷ b'f' ∷ b'f' ∷ []) ≡ err bad_slice
unfolding decode_hex from_str_radix parse_loop to_digit
odd_text = refl

abbrev zeros : Bytes
zeros = replicate 64 b'0'

abbrev ones : Bytes
ones = replicate 64 b'1'

abbrev factory : GitFactory
factory = record { global_contract_hash = replicate 32 0; owner = "gitfactory.near" }

abbrev updated : GitFactory
updated = record { global_contract_hash = replicate 32 17; owner = "gitfactory.near" }

made : new "gitfactory.near" zeros ≡ ok factory
unfolding new decode_hex from_str_radix parse_loop to_digit
made = refl

set : set_global_contract_hash "gitfactory.near" ones factory ≡ ok updated
unfolding set_global_contract_hash decode_hex from_str_radix parse_loop to_digit
set = refl

abbrev any_account : String → Option String
any_account name = some name

abbrev promised : Promise
promised = record {
  receiver = "demo.gitfactory.near";
  actions =
      create_account
      ∷ transfer (2 * 10 ^ 24)
      ∷ use_global_contract (replicate 32 17)
      ∷ function_call "new" "{}" 0 (from_tgas 10)
      ∷ [];
}

created : create_repo any_account "gitfactory.near" (2 * 10 ^ 24) "demo" updated ≡ ok promised
unfolding create_repo
created = refl

abbrev fifteen : Bytes
fifteen = 15 ∷ []

abbrev sign_digit : Bytes
sign_digit = b'+' ∷ b'f' ∷ []

decode_hex-IsByte_example : All IsByte fifteen × (2 * length fifteen ≡ length sign_digit)
decode_hex-IsByte_example = decode_hex-IsByte (b'+' ∷ b'f' ∷ []) signed_pair

new-IsValid_example :
    IsValid factory
    × (get_owner factory ≡ "gitfactory.near")
    × (decode_hex zeros ≡ ok factory.global_contract_hash)
new-IsValid_example = new-IsValid "gitfactory.near" zeros made

set_global_contract_hash-SetTo_example :
    ("gitfactory.near" ≡ get_owner factory) × SetTo ones factory updated
set_global_contract_hash-SetTo_example =
    set_global_contract_hash-SetTo "gitfactory.near" ones factory set

factory-IsValid : IsValid factory
factory-IsValid = (new-IsValid "gitfactory.near" zeros made).0

create_repo-set_global_contract_hash_example :
    (from_near 1 ≤ 2 * 10 ^ 24)
    × (any_account (sub_account_name "demo" "gitfactory.near") ≡ some "demo.gitfactory.near")
    × ((hash : Bytes) × (decode_hex ones ≡ ok hash) × RepoActions (2 * 10 ^ 24) hash promised)
create_repo-set_global_contract_hash_example =
    create_repo-set_global_contract_hash any_account "gitfactory.near" "gitfactory.near"
      (2 * 10 ^ 24) "demo" ones factory updated set created
