-- ===== src/PktLine/Runs.antt =====
-- Runs of the packet lines, and their laws at concrete inputs.
use near_git_storage.Prelude.{◌≡◌, refl, arith, List, [], ◌∷◌, ◌++◌}
use near_git_storage.Hex.{
  Bytes, format_hex, digits_loop, hex_digit, from_str_radix, parse_loop, to_digit,
}
use near_git_storage.PktLine.{encode, prefix_length, read_loop, read_until_flush}
use near_git_storage.PktLine.Laws.{encode_all, after, read_until_flush-encode_all}

-- `encode(b"hello\n")`, as the tests of the code have it.
encode_hello :
    encode (b'h' ∷ b'e' ∷ b'l' ∷ b'l' ∷ b'o' ∷ 10 ∷ [])
    ≡ b'0' ∷ b'0' ∷ b'0' ∷ b'a' ∷ b'h' ∷ b'e' ∷ b'l' ∷ b'l' ∷ b'o' ∷ 10 ∷ []
unfolding encode format_hex digits_loop hex_digit
encode_hello = refl

-- A delimiter packet 0001 ends the section like a line that is cut off, and stays unread.
read_delimiter :
    read_until_flush (b'0' ∷ b'0' ∷ b'0' ∷ b'1' ∷ []) ≡ ([], b'0' ∷ b'0' ∷ b'0' ∷ b'1' ∷ [])
unfolding read_until_flush read_loop prefix_length from_str_radix parse_loop to_digit
read_delimiter = refl

abbrev two_lines : List Bytes
two_lines = (b'o' ∷ b'k' ∷ []) ∷ [] ∷ []

read_until_flush-encode_all_example :
    read_until_flush (encode_all two_lines ++ (b'0' ∷ b'0' ∷ []))
    ≡ after two_lines (read_until_flush (b'0' ∷ b'0' ∷ []))
read_until_flush-encode_all_example =
    read_until_flush-encode_all two_lines (b'0' ∷ b'0' ∷ []) (omega arith, (omega arith, tt))

-- A packet, and one that announces more bytes than there are.
abbrev cut_input : Bytes
cut_input = b'0' ∷ b'0' ∷ b'0' ∷ b'5' ∷ b'x' ∷ b'0' ∷ b'0' ∷ b'0' ∷ b'9' ∷ b'y' ∷ []
