-- ===== src/Server/Setup.antt =====
-- The repository that the `main` of git-server/src/main.rs creates, in front of the factory
-- (factory/src/lib.rs). The transactions are taken to be the calls of the factory.
mod Runs
use near_git_storage.Prelude.{
  ℕ, ◌≡◌, refl, ◌==◌, List, [], ◌∷◌, Option, some, true, leb, String, Result, ok, ◌>>=◌, length,
  All, guard,
}
use near_git_storage.Hex.{Bytes}
use near_git_storage.Near.{
  Promise, create_account, transfer, use_global_contract, function_call, from_near, from_tgas,
}
use near_git_storage.Factory.{Panic, GitFactory, new, create_repo, format_bytes}
use near_git_storage.Factory.Hashes.{IsByte, decode_hex-format_bytes}

module _ (sha256 : Bytes → Bytes) where
  pub wasm_hash : Bytes → Bytes
  wasm_hash storage_wasm = format_bytes (sha256 storage_wasm)

  new-wasm_hash :
      (storage_wasm : Bytes)
      → length (sha256 storage_wasm) ≡ 32
      → All IsByte (sha256 storage_wasm)
      → new "factory.sandbox" (wasm_hash storage_wasm)
        ≡ ok (record { global_contract_hash = sha256 storage_wasm; owner = "factory.sandbox" })
  unfolding new wasm_hash
  new-wasm_hash storage_wasm long bytes =
      rw (decode_hex-format_bytes (sha256 storage_wasm) bytes, long) refl

  -- The factory is deployed and initialised by its own account; then the owner creates the repository.
  module _ (parse_account : String → Option String) where
    pub create_first_repo : Bytes → Result Panic (GitFactory × Promise)
    create_first_repo storage_wasm = do
      factory ← new "factory.sandbox" (wasm_hash storage_wasm)
      repo ← create_repo parse_account "factory.sandbox" (from_near 5) "repo" factory
      ok (factory, repo)

    created :
        (hash : Bytes) (account : String)
        → parse_account "repo.factory.sandbox" ≡ some account
        → create_repo parse_account "factory.sandbox"
            (from_near 5)
            "repo"
            (record { global_contract_hash = hash; owner = "factory.sandbox" })
          ≡ ok (record {
            receiver = account;
            actions =
                create_account
                ∷ transfer (from_near 5)
                ∷ use_global_contract hash
                ∷ function_call "new" "{}" (from_near 0) (from_tgas 10)
                ∷ [];
          })
    unfolding create_repo
    created hash account named = rw (named, create_repo) refl

    -- Where SHA-256 gives 32 bytes and the name of the repository is an account: no call panics, and
    -- the repository is created under that name on the global code that main has deployed, with all
    -- 5 NEAR.
    pub create_first_repo-wasm_hash :
        (storage_wasm : Bytes) (account : String)
        → length (sha256 storage_wasm) ≡ 32
        → All IsByte (sha256 storage_wasm)
        → parse_account "repo.factory.sandbox" ≡ some account
        → create_first_repo storage_wasm
          ≡ ok (
            record { global_contract_hash = sha256 storage_wasm; owner = "factory.sandbox" },
            record {
              receiver = account;
              actions =
                  create_account
                  ∷ transfer (from_near 5)
                  ∷ use_global_contract (sha256 storage_wasm)
                  ∷ function_call "new" "{}" (from_near 0) (from_tgas 10)
                  ∷ [];
            },
          )
    unfolding create_first_repo
    create_first_repo-wasm_hash storage_wasm account long bytes named =
        rw (new-wasm_hash storage_wasm long bytes, created (sha256 storage_wasm) account named) refl
