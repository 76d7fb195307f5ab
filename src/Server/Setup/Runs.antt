-- ===== src/Server/Setup/Runs.antt =====
-- The setup with a digest of zeros.
use near_git_storage.Prelude.{ℕ, zero, suc, ◌≡◌, refl, arith, [], ◌∷◌, some, ok, All, replicate}
use near_git_storage.Hex.{Bytes}
use near_git_storage.Near.{
  create_account, transfer, use_global_contract, function_call, from_near, from_tgas,
}
use near_git_storage.Factory.Hashes.{IsByte}
use near_git_storage.Server.Setup.{create_first_repo, create_first_repo-wasm_hash}

abbrev zeros : Bytes → Bytes
zeros bytes = replicate 32 0

zeros-IsByte : (n : ℕ) → All IsByte (replicate n 0)
zeros-IsByte zero = tt
zeros-IsByte (suc n) = (omega arith, zeros-IsByte n)

create_first_repo-wasm_hash_example :
    create_first_repo zeros some (1 ∷ 2 ∷ [])
    ≡ ok (
      record { global_contract_hash = zeros (1 ∷ 2 ∷ []); owner = "factory.sandbox" },
      record {
        receiver = "repo.factory.sandbox";
        actions =
            create_account
            ∷ transfer (from_near 5)
            ∷ use_global_contract (zeros (1 ∷ 2 ∷ []))
            ∷ function_call "new" "{}" (from_near 0) (from_tgas 10)
            ∷ [];
      },
    )
create_first_repo-wasm_hash_example =
    create_first_repo-wasm_hash zeros some (1 ∷ 2 ∷ []) "repo.factory.sandbox" refl
      (zeros-IsByte 32) refl
