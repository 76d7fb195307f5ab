-- ===== src/Remote/Credentials.antt =====
-- `resolve_network` and `resolve_credentials` of git-remote-near/src/main.rs.
pub mod Keys
mod Runs
use near_git_storage.Prelude.{
  ℕ, List, [], ◌∷◌, ◌++◌, Option, none, some, Bool, true, false, ◌==◌, ◌||◌, if◌then◌else◌, Result,
  ok, err, ◌>>=◌,
}
use near_git_storage.Hex.{Bytes}
use near_git_storage.Text.{ascii, text_eq, split_once}
use near_git_storage.Json.{Json, index, as_str}
use near_git_storage.Remote.{unwrap_or}

pub data Panic : Type 0 where
  invalid_contract_id invalid_signer_account invalid_key no_signer no_credentials bad_json
        no_private_key bad_url :
      Panic

-- The environment, the files, the contract's view get_owner, and the parsers of near_api, serde_json and
-- the crate url.
pub record Surroundings (Url Key Signer : Type 0) : Type 0 where
  pub var : Bytes → Option Bytes
  pub read_to_string : Bytes → Option Bytes
  pub get_owner : Bytes → Option Bytes
  pub parse_account : Bytes → Option Bytes
  pub parse_key : Bytes → Option Key
  pub from_secret_key : Key → Option Signer
  pub parse_json : Bytes → Option Json
  pub parse_url : Bytes → Option Url

-- `expect`
abbrev pub or_panic : {A : Type 0} → Panic → Option A → Result Panic A
or_panic why none = err why
or_panic why (some a) = ok a

pub contains : ℕ → Bytes → Bool
contains wanted [] = false
contains wanted (c ∷ cs) = (c == wanted) || contains wanted cs

abbrev pub default_rpc : Bytes → Bytes
default_rpc env =
    if text_eq env (ascii "mainnet")
    then ascii "https://rpc.mainnet.fastnear.com"
    else ascii "https://rpc.testnet.fastnear.com"

abbrev pub joined : Bytes → Bytes → Bytes → Bytes
joined home env account =
    home ++ (ascii "/.near-credentials/" ++ (env ++ (b'/' ∷ (account ++ ascii ".json"))))

module _ {Url Key Signer : Type 0} (around : Surroundings Url Key Signer) where
  abbrev pub near_env : Bytes
  near_env = unwrap_or (ascii "testnet") (around.var (ascii "NEAR_ENV"))

  -- The name of the network, and its URL.
  unfoldable pub resolve_network : Result Panic (Bytes × Url)
  resolve_network = do
    url ←
        or_panic bad_url
          (around.parse_url (unwrap_or (default_rpc near_env) (around.var (ascii "NEAR_RPC_URL"))))
    ok (near_env, url)

  abbrev pub or_owner : Bytes → Bytes → Option Bytes → Bytes
  or_owner contract_id contract_id_str (some signer) = signer
  or_owner contract_id contract_id_str none =
      unwrap_or contract_id_str (around.get_owner contract_id)

  -- The account that signs; `contract_id` is the one that the text is parsed to.
  pub signer_account : Bytes → Bytes → Bytes
  signer_account contract_id contract_id_str =
      if contains b'@' contract_id_str
      then (split_once b'@' contract_id_str).0
      else or_owner contract_id contract_id_str (around.var (ascii "NEAR_SIGNER_ACCOUNT"))

  abbrev pub cred_path : Bytes → Bytes
  cred_path account = joined (unwrap_or (ascii ".") (around.var (ascii "HOME"))) near_env account

  pub signer_of_key : Bytes → Result Panic Signer
  signer_of_key key = do
    secret_key ← or_panic invalid_key (around.parse_key key)
    or_panic no_signer (around.from_secret_key secret_key)

  pub signer_of_file : Bytes → Result Panic Signer
  signer_of_file account = do
    cred_data ← or_panic no_credentials (around.read_to_string (cred_path account))
    cred ← or_panic bad_json (around.parse_json cred_data)
    private_key ← or_panic no_private_key (as_str (index (ascii "private_key") cred))
    signer_of_key private_key

  abbrev pub signer_for : Bytes → Option Bytes → Result Panic Signer
  signer_for account (some key) = signer_of_key key
  signer_for account none = signer_of_file account

  pub resolve_credentials : Bytes → Result Panic (Bytes × Bytes × Signer)
  resolve_credentials contract_id_str = do
    contract_id ← or_panic invalid_contract_id (around.parse_account contract_id_str)
    let account = signer_account contract_id contract_id_str
    signer_id ← or_panic invalid_signer_account (around.parse_account account)
    signer ← signer_for account (around.var (ascii "NEAR_SIGNER_KEY"))
    ok (contract_id, signer_id, signer)
