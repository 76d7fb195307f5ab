-- ===== src/Wasm/Transaction/Signed.antt =====
-- What `create_signed_transaction` of wasm-lib/src/lib.rs signs, for a reader of NEAR transactions.
use near_git_storage.Prelude.{
  ℕ, ◌-◌, ◌^◌, ◌<◌, ◌≡◌, refl, sym, ap, ◌∙◌, arith, [], ◌∷◌, ◌++◌, Option, some, ok, guard, length,
  append-nil, ◌==◌, none, >>=-eq-ok, ==_iff, Bool-cases, inl, inr, subst, true, false, Bool,
  err-ne-ok, ok-injective,
}
use near_git_storage.Hex.{Bytes}
use near_git_storage.Text.{parse_decimal}
use near_git_storage.Text.Laws.{parse_decimal-bound}
use near_git_storage.Wasm.{Error}
use near_git_storage.Wasm.Borsh.{write_bytes, write_string}
use near_git_storage.Wasm.Transaction.{
  write_u32, write_u64, write_u128, Request, tx_bytes, action_bytes, Crypto, signing_key,
  signed_bytes, create_signed_transaction, or_error,
}
use near_git_storage.Wasm.Transaction.Reader.{
  Transaction, read_transaction, read_number, read_text-write_string, read_text-write_bytes,
  read_fixed-append, read_number-write_u32, read_number-write_u64, read_number-write_u128,
}

-- What a Rust value of these types has, and texts below 4 GiB.
pub record Fits (request : Request) : Type 0 where
  pub signer_id : length request.signer_id < 2 ^ 32
  pub receiver_id : length request.receiver_id < 2 ^ 32
  pub method_name : length request.method_name < 2 ^ 32
  pub args : length request.args < 2 ^ 32
  pub nonce : request.nonce < 2 ^ 64
  pub gas : request.gas < 2 ^ 64

abbrev pub transaction_of : Request → (public_key block_hash : Bytes) → (deposit : ℕ) → Transaction
transaction_of request public_key block_hash deposit = record {
  signer_id = request.signer_id;
  public_key = public_key;
  nonce = request.nonce;
  receiver_id = request.receiver_id;
  block_hash = block_hash;
  method_name = request.method_name;
  args = request.args;
  gas = request.gas;
  deposit = deposit;
}

read_transaction-tx_bytes :
    (request : Request) (public_key block_hash : Bytes) (deposit : ℕ)
    → Fits request
    → length public_key ≡ 32
    → length block_hash ≡ 32
    → deposit < 2 ^ 128
    → read_transaction (tx_bytes request public_key block_hash deposit)
      ≡ ok (transaction_of request public_key block_hash deposit, [])
unfolding read_transaction tx_bytes
read_transaction-tx_bytes request public_key block_hash deposit fits pk bh small =
    let t₄ = write_u64 request.gas ++ write_u128 deposit in
    let t₃ = write_bytes request.args ++ t₄ in
    let t₂ = write_u32 1 ++ action_bytes request deposit in
    let t₁ = write_string request.receiver_id ++ (block_hash ++ t₂) in
    let t₀ = public_key ++ (write_u64 request.nonce ++ t₁) in
    let last : (read_number 16 (write_u128 deposit) ≡ ok (deposit, [])) =
      ap (read_number 16) (sym (append-nil (write_u128 deposit)))
      ∙ read_number-write_u128 deposit [] small in
    rw (
      read_text-write_string request.signer_id (0 ∷ t₀) fits.signer_id,
      read_fixed-append 32 public_key (write_u64 request.nonce ++ t₁) (sym pk),
      read_number-write_u64 request.nonce t₁ fits.nonce,
      read_text-write_string request.receiver_id (block_hash ++ t₂) fits.receiver_id,
      read_fixed-append 32 block_hash t₂ (sym bh),
      read_number-write_u32 1 (action_bytes request deposit) (omega arith),
      read_text-write_string request.method_name t₃ fits.method_name,
      read_text-write_bytes request.args t₄ fits.args,
      read_number-write_u64 request.gas (write_u128 deposit) fits.gas,
      last,
    )

or_error-eq-ok : {A : Type 0} (e : Error) {a : A} (o : Option A) → or_error e o ≡ ok a → o ≡ some a
or_error-eq-ok e none h = absurd (err-ne-ok h)
or_error-eq-ok e (some a) h = ap some (ok-injective h)

guard-eq-ok : (e : Error) (b : Bool) → guard b e ≡ ok tt → b ≡ true
guard-eq-ok e true h = refl
guard-eq-ok e false h = absurd (err-ne-ok h)

-- The signing key of a private key: of 64 bytes, which are a pair of halves that belong together, or of
-- the 32 bytes of a secret.
pub data IsKeyOf {Key : Type 0} (crypto : Crypto Key) (private_key : Bytes) : Key → Type 0 where
  of_keypair :
      {key : Key}
      → length private_key ≡ 64
      → crypto.from_keypair_bytes private_key ≡ some key
      → IsKeyOf crypto private_key key
  of_secret : length private_key ≡ 32 → IsKeyOf crypto private_key (crypto.from_secret private_key)

signing_key-IsKeyOf :
    {Key : Type 0} (crypto : Crypto Key) (private_key : Bytes) (key : Key)
    → signing_key crypto private_key ≡ ok key
    → IsKeyOf crypto private_key key
unfolding signing_key
signing_key-IsKeyOf crypto private_key key e = elim (Bool-cases (length private_key == 64)) [
  | inl pair ↦
      of_keypair ((==_iff (length private_key) 64).0 pair)
        (or_error-eq-ok _ (crypto.from_keypair_bytes private_key) (rw (pair, signing_key) at e))
  | inr no_pair ↦ elim (Bool-cases (length private_key == 32)) [
    | inl secret ↦
        subst (IsKeyOf crypto private_key) (ok-injective (rw (no_pair, secret, signing_key) at e))
          (of_secret ((==_iff (length private_key) 32).0 secret))
    | inr other ↦ absurd (err-ne-ok (rw (no_pair, other, signing_key) at e))
  ]
]

-- Where create_signed_transaction succeeds for a request that fits, and the public key is one of 32
-- bytes: the text is the base64 of a transaction and of the signature of its SHA-256 with the key that the
-- private key of the request is, of 32 bytes or of 64, and a reader of NEAR transactions reads from that transaction the signer, the key, the nonce, the receiver, the block
-- hash, the method, its arguments, the gas and the deposit that were asked for, with nothing left.
pub create_signed_transaction-read_transaction :
    {Key : Type 0} (crypto : Crypto Key) (request : Request) (text : Bytes)
    → Fits request
    → ((public_key : Bytes)
        → crypto.bs58_decode request.public_key_b58 ≡ some public_key
        → length public_key ≡ 32)
    → create_signed_transaction crypto request ≡ ok text
    → (private_key : Bytes) × (key : Key) × (public_key : Bytes) × (block_hash : Bytes)
      × (deposit : ℕ) × (tx : Bytes) × (crypto.bs58_decode request.private_key_b58
          ≡ some private_key)
      × IsKeyOf crypto private_key key
      × (crypto.bs58_decode request.public_key_b58 ≡ some public_key)
      × (crypto.bs58_decode request.block_hash_b58 ≡ some block_hash)
      × (parse_decimal (2 ^ 128 - 1) request.deposit ≡ some deposit)
      × (text ≡ crypto.b64_encode (tx ++ (0 ∷ crypto.sign key (crypto.sha256 tx))))
      × (read_transaction tx ≡ ok (transaction_of request public_key block_hash deposit, []))
unfolding create_signed_transaction signed_bytes
create_signed_transaction-read_transaction crypto request text fits is_key done =
    let (private_key, e₁, done₁) =
      >>=-eq-ok (or_error _ (crypto.bs58_decode request.private_key_b58)) _ done in
    let (key, e₂, done₂) = >>=-eq-ok (signing_key crypto private_key) _ done₁ in
    let (public_key, e₃, done₃) =
      >>=-eq-ok (or_error _ (crypto.bs58_decode request.public_key_b58)) _ done₂ in
    let (block_hash, e₄, done₄) =
      >>=-eq-ok (or_error _ (crypto.bs58_decode request.block_hash_b58)) _ done₃ in
    let (_, e₅, done₅) = >>=-eq-ok (guard (length block_hash == 32) _) _ done₄ in
    let (deposit, e₆, done₆) =
      >>=-eq-ok (or_error _ (parse_decimal (2 ^ 128 - 1) request.deposit)) _ done₅ in
    let pk = or_error-eq-ok _ (crypto.bs58_decode request.public_key_b58) e₃ in
    let read = or_error-eq-ok _ (parse_decimal (2 ^ 128 - 1) request.deposit) e₆ in
    let bh : (length block_hash ≡ 32) =
      (==_iff (length block_hash) 32).0 (guard-eq-ok _ (length block_hash == 32) e₅) in
    let small = parse_decimal-bound (2 ^ 128 - 1) request.deposit deposit read in
    (
      private_key,
      key,
      public_key,
      block_hash,
      deposit,
      tx_bytes request public_key block_hash deposit,
      or_error-eq-ok _ (crypto.bs58_decode request.private_key_b58) e₁,
      signing_key-IsKeyOf crypto private_key key e₂,
      pk,
      or_error-eq-ok _ (crypto.bs58_decode request.block_hash_b58) e₄,
      read,
      sym (ok-injective done₆),
      read_transaction-tx_bytes request public_key block_hash deposit fits (is_key public_key pk) bh
          (omega (arith, small)),
    )
