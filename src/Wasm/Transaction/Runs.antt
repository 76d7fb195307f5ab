-- ===== src/Wasm/Transaction/Runs.antt =====
-- A transaction that is signed, and the law of its reader there.
use near_git_storage.Prelude.{
  ℕ, ◌-◌, ◌^◌, ◌≡◌, refl, arith, [], ◌∷◌, ◌++◌, some, some-injective, sym, ap, ok, err, length,
  replicate,
}
use near_git_storage.Hex.{Bytes}
use near_git_storage.Text.{ascii, parse_decimal}
use near_git_storage.Wasm.{unexpected_key_length}
use near_git_storage.Wasm.Transaction.{
  Request, Crypto, create_signed_transaction, signing_key, signed_bytes, tx_bytes,
}
use near_git_storage.Wasm.Transaction.Reader.{read_transaction}
use near_git_storage.Wasm.Transaction.Signed.{
  Fits, IsKeyOf, transaction_of, create_signed_transaction-read_transaction,
}

-- A text decodes as its bytes; a key is its bytes, and a signature is the key and the hash.
abbrev plain : Crypto Bytes
plain = record {
  bs58_decode = λ text. some text;
  from_keypair_bytes = λ bytes. some bytes;
  from_secret = λ bytes. bytes;
  sign = λ key hash. key ++ hash;
  sha256 = λ bytes. 5 ∷ [];
  b64_encode = λ bytes. bytes;
}

abbrev request : Request
request = record {
  signer_id = ascii "alice.near";
  public_key_b58 = replicate 32 1;
  private_key_b58 = replicate 32 2;
  receiver_id = ascii "repo.near";
  method_name = ascii "push";
  args = 7 ∷ [];
  nonce = 4;
  block_hash_b58 = replicate 32 3;
  gas = 300000000000000;
  deposit = ascii "12";
}

abbrev signed : Bytes
signed = tx_bytes request (replicate 32 1) (replicate 32 3) 12 ++ (0 ∷ (replicate 32 2 ++ (5 ∷ [])))

is_signed : create_signed_transaction plain request ≡ ok signed
unfolding create_signed_transaction signing_key signed_bytes
is_signed = refl

-- A key of 31 bytes is refused.
short_key :
    create_signed_transaction plain (record request { private_key_b58 = replicate 31 2 })
    ≡ err (unexpected_key_length 31)
unfolding create_signed_transaction signing_key
short_key = refl

request-Fits : Fits request
request-Fits = record {
  signer_id = omega arith;
  receiver_id = omega arith;
  method_name = omega arith;
  args = omega arith;
  nonce = omega arith;
  gas = omega arith;
}

create_signed_transaction-read_transaction_example :
    (private_key : Bytes) × (key : Bytes) × (public_key : Bytes) × (block_hash : Bytes)
    × (deposit : ℕ) × (tx : Bytes) × (plain.bs58_decode request.private_key_b58 ≡ some private_key)
    × IsKeyOf plain private_key key
    × (plain.bs58_decode request.public_key_b58 ≡ some public_key)
    × (plain.bs58_decode request.block_hash_b58 ≡ some block_hash)
    × (parse_decimal (2 ^ 128 - 1) request.deposit ≡ some deposit)
    × (signed ≡ plain.b64_encode (tx ++ (0 ∷ plain.sign key (plain.sha256 tx))))
    × (read_transaction tx ≡ ok (transaction_of request public_key block_hash deposit, []))
create_signed_transaction-read_transaction_example =
    create_signed_transaction-read_transaction plain request signed request-Fits
      (λ public_key e. ap length (sym (some-injective e))) is_signed
