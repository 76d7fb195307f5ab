-- ===== src/Near.antt =====
-- What the contracts ask of the NEAR runtime: promises, by their receiver and actions. An account id
-- is the text that it was parsed from.
use near_git_storage.Prelude.{ℕ, ◌*◌, ◌^◌, String, List}

pub data Action : Type 0 where
  create_account : Action
  transfer : ℕ → Action
  use_global_contract : List ℕ → Action
  function_call : String → String → ℕ → ℕ → Action
  delete_account : String → Action

pub record Promise : Type 0 where
  pub receiver : String
  pub actions : List Action

-- `NearToken::from_near` and `from_millinear`, in yoctoNEAR; `Gas::from_tgas`.
abbrev pub from_near : ℕ → ℕ
from_near n = n * 10 ^ 24

abbrev pub from_millinear : ℕ → ℕ
from_millinear n = n * 10 ^ 21

abbrev pub from_tgas : ℕ → ℕ
from_tgas n = n * 10 ^ 12
