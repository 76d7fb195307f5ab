-- ===== src/Wasm/Transaction/Reader.antt =====
-- A reader of NEAR's borsh form of a transaction with one function call, independent of
-- wasm-lib/src/lib.rs. A reader hands back what it has not read.
use near_git_storage.Prelude.{
  ℕ, ◌^◌, ◌<◌, ◌≡◌, refl, ap, arith, [], ◌∷◌, ◌++◌, leb, ◌==◌, Result, ok, err, ◌>>=◌, ◌>>◌, guard,
  length, take, drop, length-append, take-append_left, drop-append_left, le→leb,
}
use near_git_storage.Hex.{Bytes}
use near_git_storage.Wasm.{Error, end_of_data, overflow}
use near_git_storage.Wasm.Borsh.{to_le_bytes, from_le_bytes, write_bytes, write_string}
use near_git_storage.Wasm.Borsh.Laws.{length-to_le_bytes, from_le_bytes-to_le_bytes}
use near_git_storage.Wasm.Transaction.{write_u32, write_u64, write_u128}

pub record Transaction : Type 0 where
  pub signer_id : Bytes
  pub public_key : Bytes
  pub nonce : ℕ
  pub receiver_id : Bytes
  pub block_hash : Bytes
  pub method_name : Bytes
  pub args : Bytes
  pub gas : ℕ
  pub deposit : ℕ

pub read_fixed : ℕ → Bytes → Result Error (Bytes × Bytes)
read_fixed n bytes = do guard (leb n (length bytes)) end_of_data; ok (take n bytes, drop n bytes)

pub read_number : ℕ → Bytes → Result Error (ℕ × Bytes)
read_number width bytes = do
  (digits, rest) ← read_fixed width bytes
  ok (from_le_bytes digits, rest)

pub read_text : Bytes → Result Error (Bytes × Bytes)
read_text bytes = do (len, rest) ← read_number 4 bytes; read_fixed len rest

-- A tag that must be this one.
abbrev pub read_tag : ℕ → Bytes → Result Error Bytes
read_tag tag [] = err end_of_data
read_tag tag (b ∷ bytes) = guard (b == tag) overflow >> ok bytes

-- The transaction, and what stands behind it.
unfoldable pub read_transaction : Bytes → Result Error (Transaction × Bytes)
read_transaction bytes = do
  (signer_id, r₁) ← read_text bytes
  r₂ ← read_tag 0 r₁
  (public_key, r₃) ← read_fixed 32 r₂
  (nonce, r₄) ← read_number 8 r₃
  (receiver_id, r₅) ← read_text r₄
  (block_hash, r₆) ← read_fixed 32 r₅
  (actions, r₇) ← read_number 4 r₆
  guard (actions == 1) overflow
  r₈ ← read_tag 2 r₇
  (method_name, r₉) ← read_text r₈
  (args, r₁₀) ← read_text r₉
  (gas, r₁₁) ← read_number 8 r₁₀
  (deposit, r₁₂) ← read_number 16 r₁₁
  ok (
    record {
      signer_id = signer_id;
      public_key = public_key;
      nonce = nonce;
      receiver_id = receiver_id;
      block_hash = block_hash;
      method_name = method_name;
      args = args;
      gas = gas;
      deposit = deposit;
    },
    r₁₂,
  )

pub read_fixed-append :
    (n : ℕ) (bytes rest : Bytes)
    → n ≡ length bytes
    → read_fixed n (bytes ++ rest) ≡ ok (bytes, rest)
unfolding read_fixed
read_fixed-append n bytes rest e = rw (
  le→leb n (length (bytes ++ rest)) (omega (arith, e, length-append bytes rest)),
  take-append_left bytes rest n e,
  drop-append_left bytes rest n e,
)

read_number-to_le_bytes :
    (width n : ℕ) (digits rest : Bytes)
    → digits ≡ to_le_bytes width n
    → n < 256 ^ width
    → read_number width (digits ++ rest) ≡ ok (n, rest)
unfolding read_number
read_number-to_le_bytes width n digits rest e h =
    let size : (width ≡ length digits) = omega (arith, ap length e, length-to_le_bytes width n) in
    rw (read_fixed-append width digits rest size, e, from_le_bytes-to_le_bytes width n h)

pub read_number-write_u32 :
    (n : ℕ) (rest : Bytes) → n < 2 ^ 32 → read_number 4 (write_u32 n ++ rest) ≡ ok (n, rest)
unfolding write_u32
read_number-write_u32 n rest h =
    read_number-to_le_bytes 4 n (to_le_bytes 4 n) rest refl (omega arith)

pub read_number-write_u64 :
    (n : ℕ) (rest : Bytes) → n < 2 ^ 64 → read_number 8 (write_u64 n ++ rest) ≡ ok (n, rest)
unfolding write_u64
read_number-write_u64 n rest h =
    read_number-to_le_bytes 8 n (to_le_bytes 8 n) rest refl (omega arith)

pub read_number-write_u128 :
    (n : ℕ) (rest : Bytes) → n < 2 ^ 128 → read_number 16 (write_u128 n ++ rest) ≡ ok (n, rest)
unfolding write_u128
read_number-write_u128 n rest h =
    read_number-to_le_bytes 16 n (to_le_bytes 16 n) rest refl (omega arith)

read_text-to_le_bytes :
    (text rest digits : Bytes)
    → digits ≡ to_le_bytes 4 (length text)
    → length text < 2 ^ 32
    → read_text (digits ++ (text ++ rest)) ≡ ok (text, rest)
unfolding read_text
read_text-to_le_bytes text rest digits e h = rw (
  read_number-to_le_bytes 4 (length text) digits (text ++ rest) e (omega arith),
  read_fixed-append (length text) text rest refl,
)

pub read_text-write_bytes :
    (text rest : Bytes)
    → length text < 2 ^ 32
    → read_text (write_bytes text ++ rest) ≡ ok (text, rest)
unfolding write_bytes
read_text-write_bytes text rest h =
    read_text-to_le_bytes text rest (to_le_bytes 4 (length text)) refl h

pub read_text-write_string :
    (text rest : Bytes)
    → length text < 2 ^ 32
    → read_text (write_string text ++ rest) ≡ ok (text, rest)
unfolding write_string
read_text-write_string text rest h =
    read_text-to_le_bytes text rest (to_le_bytes 4 (length text)) refl h
