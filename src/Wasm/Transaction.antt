-- ===== src/Wasm/Transaction.antt =====
-- `create_signed_transaction` of wasm-lib/src/lib.rs. A number of 64 or of 128 bits is below 2^64 or
-- 2^128.
pub mod Reader
pub mod Signed
mod Runs
use near_git_storage.Prelude.{
  ℕ, ◌+◌, ◌-◌, ◌^◌, List, [], ◌∷◌, ◌++◌, Option, none, some, ◌==◌, if◌then◌else◌, Result, ok, err,
  ◌>>=◌, ◌>>◌, guard, length,
}
use near_git_storage.Hex.{Bytes}
use near_git_storage.Text.{parse_decimal}
use near_git_storage.Wasm.{
  Error, bad_private_key, bad_keypair, unexpected_key_length, bad_public_key, bad_block_hash,
  block_hash_length, bad_deposit,
}
use near_git_storage.Wasm.Borsh.{to_le_bytes, write_bytes, write_string}

-- The parameters of the function.
pub record Request : Type 0 where
  pub signer_id : Bytes
  pub public_key_b58 : Bytes
  pub private_key_b58 : Bytes
  pub receiver_id : Bytes
  pub method_name : Bytes
  pub args : Bytes
  pub nonce : ℕ
  pub block_hash_b58 : Bytes
  pub gas : ℕ
  pub deposit : Bytes

unfoldable pub write_u32 : ℕ → Bytes
write_u32 n = to_le_bytes 4 n

unfoldable pub write_u64 : ℕ → Bytes
write_u64 n = to_le_bytes 8 n

unfoldable pub write_u128 : ℕ → Bytes
write_u128 n = to_le_bytes 16 n

-- `Action::FunctionCall`
abbrev pub action_bytes : Request → ℕ → Bytes
action_bytes request deposit =
    2
    ∷ (write_string request.method_name
        ++ (write_bytes request.args ++ (write_u64 request.gas ++ write_u128 deposit)))

unfoldable pub tx_bytes : Request → (public_key block_hash : Bytes) → (deposit : ℕ) → Bytes
tx_bytes request public_key block_hash deposit =
    write_string request.signer_id
    ++ (0
        ∷ (public_key
            ++ (write_u64 request.nonce
                ++ (write_string request.receiver_id
                    ++ (block_hash ++ (write_u32 1 ++ action_bytes request deposit))))))

-- `?` on the decoding of a text, which gives nothing where it fails.
abbrev pub or_error {ℓ} : {A : Type ℓ} → Error → Option A → Result Error A
or_error e none = err e
or_error e (some a) = ok a

-- The crates bs58, ed25519_dalek, sha2 and base64. A key of 64 bytes is refused where its halves do not
-- belong together.
pub record Crypto (Key : Type 0) : Type 0 where
  pub bs58_decode : Bytes → Option Bytes
  pub from_keypair_bytes : Bytes → Option Key
  pub from_secret : Bytes → Key
  pub sign : Key → Bytes → Bytes
  pub sha256 : Bytes → Bytes
  pub b64_encode : Bytes → Bytes

module _ {Key : Type 0} (crypto : Crypto Key) where
  unfoldable pub signing_key : Bytes → Result Error Key
  signing_key private_key =
      if length private_key == 64
      then or_error bad_keypair (crypto.from_keypair_bytes private_key)
      else if length private_key == 32
      then ok (crypto.from_secret private_key)
      else err (unexpected_key_length (length private_key))

  unfoldable pub signed_bytes : Key → Bytes → Bytes
  signed_bytes key tx = tx ++ (0 ∷ crypto.sign key (crypto.sha256 tx))

  unfoldable pub create_signed_transaction : Request → Result Error Bytes
  create_signed_transaction request = do
    private_key ← or_error bad_private_key (crypto.bs58_decode request.private_key_b58)
    key ← signing_key private_key
    public_key ← or_error bad_public_key (crypto.bs58_decode request.public_key_b58)
    block_hash ← or_error bad_block_hash (crypto.bs58_decode request.block_hash_b58)
    guard (length block_hash == 32) (block_hash_length (length block_hash))
    deposit ← or_error bad_deposit (parse_decimal (2 ^ 128 - 1) request.deposit)
    ok (crypto.b64_encode (signed_bytes key (tx_bytes request public_key block_hash deposit)))
