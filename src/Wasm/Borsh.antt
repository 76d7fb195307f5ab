-- ===== src/Wasm/Borsh.antt =====
-- The readers and writers of borsh in wasm-lib/src/lib.rs. `pos` is the position in the data.
pub mod Laws
mod Runs
pub mod Objects
pub mod Strings
pub mod Cuts
pub mod Refusal
use near_git_storage.Prelude.{
  ℕ, zero, suc, ◌+◌, ◌*◌, ◌/◌, ◌%◌, ◌^◌, List, [], ◌∷◌, ◌++◌, Option, none, some, Bool, ltb, ◌==◌,
  if◌then◌else◌, not, Result, ok, err, ◌>>=◌, ◌>>◌, guard, length, take, drop,
}
use near_git_storage.Hex.{Bytes}
use near_git_storage.Text.{is_utf8}
use near_git_storage.Wasm.{Error, end_of_data, bad_utf8, overflow}

-- `to_le_bytes` of a number of so many bytes: what does not fit is cut off, as `as u32` does.
abbrev pub to_le_bytes : ℕ → ℕ → Bytes
to_le_bytes zero n = []
to_le_bytes (suc width) n = n % 256 ∷ to_le_bytes width (n / 256)

abbrev pub from_le_bytes : Bytes → ℕ
from_le_bytes [] = 0
from_le_bytes (b ∷ bs) = b + from_le_bytes bs * 256

unfoldable pub write_bytes : Bytes → Bytes
write_bytes bytes = to_le_bytes 4 (length bytes) ++ bytes

unfoldable pub write_string : Bytes → Bytes
write_string s = to_le_bytes 4 (length s) ++ s

-- `data[pos]`
abbrev pub first_byte : Bytes → ℕ → Result Error (ℕ × ℕ)
first_byte [] pos = err end_of_data
first_byte (b ∷ rest) pos = ok (b, pos + 1)

pub read_u8 : Bytes → ℕ → Result Error (ℕ × ℕ)
read_u8 bytes pos = first_byte (drop pos bytes) pos

pub read_u32 : Bytes → ℕ → Result Error (ℕ × ℕ)
read_u32 bytes pos =
    if ltb (length bytes) (pos + 4)
    then err end_of_data
    else ok (from_le_bytes (take 4 (drop pos bytes)), pos + 4)

pub read_bytes : Bytes → ℕ → Result Error (Bytes × ℕ)
read_bytes bytes pos = do
  (len, pos') ← read_u32 bytes pos
  guard (ltb (pos' + len) (2 ^ 32)) overflow
  guard (not (ltb (length bytes) (pos' + len))) end_of_data
  ok (take len (drop pos' bytes), pos' + len)

pub read_string : Bytes → ℕ → Result Error (Bytes × ℕ)
read_string bytes pos = do
  (s, pos') ← read_bytes bytes pos
  guard (is_utf8 s) bad_utf8
  ok (s, pos')

pub read_strings : ℕ → Bytes → ℕ → Result Error (List Bytes × ℕ)
read_strings zero bytes pos = ok ([], pos)
read_strings (suc left) bytes pos = do
  (s, pos') ← read_string bytes pos
  (rest, pos'') ← read_strings left bytes pos'
  ok (s ∷ rest, pos'')

-- A String takes twelve bytes, and `Vec::with_capacity` panics beyond `isize::MAX` of them.
pub read_string_vec : Bytes → ℕ → Result Error (List Bytes × ℕ)
read_string_vec bytes pos = do
  (len, pos') ← read_u32 bytes pos
  guard (ltb (len * 12) (2 ^ 31)) overflow
  read_strings len bytes pos'

-- An object of `get_objects`: the SHA, and the type and the data where the contract has it.
abbrev pub Fetched : Type 0
Fetched = Bytes × Option (Bytes × Bytes)

pub read_found : Bytes → ℕ × ℕ → Result Error (Option (Bytes × Bytes) × ℕ)
read_found bytes (option_tag, pos) =
    if option_tag == 1
    then (read_string bytes pos >>= λ (obj_type, pos').
        read_bytes bytes pos' >>= λ (obj_data, pos''). ok (some (obj_type, obj_data), pos''))
    else ok (none, pos)

-- `for _ in 0..len`
pub read_objects : ℕ → Bytes → ℕ → Result Error (List Fetched)
read_objects zero bytes pos = ok []
read_objects (suc left) bytes pos = do
  (sha, pos₁) ← read_string bytes pos
  tag ← read_u8 bytes pos₁
  (found, pos₂) ← read_found bytes tag
  rest ← read_objects left bytes pos₂
  ok ((sha, found) ∷ rest)

-- What `borsh_decode_objects` reads before it writes it as JSON.
pub decode_objects : Bytes → Result Error (List Fetched)
decode_objects bytes = do (len, pos) ← read_u32 bytes 0; read_objects len bytes pos

pub encode_strings : List Bytes → Bytes
encode_strings [] = []
encode_strings (s ∷ ss) = write_string s ++ encode_strings ss

-- `borsh_encode_shas`, behind the parse of its JSON.
pub encode_shas : List Bytes → Bytes
encode_shas shas = to_le_bytes 4 (length shas) ++ encode_strings shas

-- The SHA, the type and the data of each object.
unfoldable pub encode_git_objects : List (Bytes × Bytes × Bytes) → Bytes
encode_git_objects [] = []
encode_git_objects ((sha, obj_type, contents) ∷ objects) =
    write_string sha
    ++ (write_string obj_type ++ (write_bytes contents ++ encode_git_objects objects))

unfoldable pub encode_push_objects : List (Bytes × Bytes × Bytes) → Bytes
encode_push_objects objects = to_le_bytes 4 (length objects) ++ encode_git_objects objects
