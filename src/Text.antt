-- ===== src/Text.antt =====
-- Texts as the code reads and writes them, by the functions of Rust's standard library that it uses. A
-- text is its bytes.
pub mod Laws
use Prim.Native.Char.{code}
use Prim.Native.String.{String, [], ◌∷◌}
use near_git_storage.Prelude.{
  ℕ, zero, suc, ◌+◌, ◌-◌, ◌*◌, ◌/◌, ◌%◌, List, [], ◌∷◌, ◌++◌, Option, none, some, Bool, true, false,
  ltb, leb, ◌==◌, ◌&&◌, ◌||◌, not, if◌then◌else◌, length,
}
use Prim.Native.Nat.{compare, Ordering}
use near_git_storage.Hex.{Bytes}

-- A literal of ASCII characters.
abbrev pub ascii : String → Bytes
ascii [] = []
ascii (c ∷ s) = code c ∷ ascii s

abbrev pub text_eq : Bytes → Bytes → Bool
text_eq [] [] = true
text_eq (x ∷ xs) (y ∷ ys) = (x == y) && text_eq xs ys
text_eq _ _ = false

-- `str::cmp`, byte by byte.
abbrev pub text_cmp : Bytes → Bytes → Ordering
text_cmp [] [] = Ordering.eq
text_cmp [] (y ∷ ys) = Ordering.lt
text_cmp (x ∷ xs) [] = Ordering.gt
text_cmp (x ∷ xs) (y ∷ ys) = elim (compare x y) [
  | Ordering.lt ↦ Ordering.lt
  | Ordering.eq ↦ text_cmp xs ys
  | Ordering.gt ↦ Ordering.gt
]

-- `format!("{}", n)` of at most twenty digits, which 64 bits have.
abbrev pub decimal_loop : ℕ → ℕ → Bytes → Bytes
decimal_loop zero n acc = acc
decimal_loop (suc rounds) n acc =
    let acc' : Bytes = (b'0' + n % 10) ∷ acc in
    let more = decimal_loop rounds (n / 10) acc' in if n / 10 == 0 then acc' else more

abbrev pub format_decimal : ℕ → Bytes
format_decimal n = decimal_loop 20 n []

-- `text.strip_prefix(prefix)`
abbrev pub strip_prefix : Bytes → Bytes → Option Bytes
strip_prefix [] text = some text
strip_prefix (p ∷ ps) [] = none
strip_prefix (p ∷ ps) (c ∷ cs) = let rest = strip_prefix ps cs in if p == c then rest else none

-- White space of one byte.
abbrev pub is_space : ℕ → Bool
is_space c = (c == 32) || (leb 9 c && leb c 13)

-- U+0085 and U+00A0.
abbrev pub is_space_of_two : ℕ → ℕ → Bool
is_space_of_two c d = (c == 0xc2) && ((d == 0x85) || (d == 0xa0))

-- U+1680, U+2000 to U+200A, U+2028, U+2029, U+202F, U+205F and U+3000.
abbrev pub is_space_of_three : ℕ → ℕ → ℕ → Bool
is_space_of_three c d e =
    ((c == 0xe1) && ((d == 0x9a) && (e == 0x80)))
    || (((c == 0xe2)
          && (((d == 0x80)
                && ((leb 0x80 e && leb e 0x8a) || ((e == 0xa8) || ((e == 0xa9) || (e == 0xaf)))))
              || ((d == 0x81) && (e == 0x9f))))
        || ((c == 0xe3) && ((d == 0x80) && (e == 0x80))))

abbrev pub space_beyond : ℕ → Bytes → ℕ
space_beyond c [] = 0
space_beyond c (d ∷ []) = if is_space_of_two c d then 2 else 0
space_beyond c (d ∷ e ∷ cs) =
    if is_space_of_two c d then 2 else if is_space_of_three c d e then 3 else 0

-- `char::is_whitespace` of the first character: the number of its bytes, or 0.
abbrev pub space_length : Bytes → ℕ
space_length [] = 0
space_length (c ∷ cs) = if is_space c then 1 else space_beyond c cs

-- `skipped` bytes of a space are still to be left out.
abbrev pub trim_start_from : ℕ → Bytes → Bytes
trim_start_from skipped [] = []
trim_start_from (suc skipped) (c ∷ cs) = trim_start_from skipped cs
trim_start_from zero (c ∷ cs) = elim (space_length (c ∷ cs)) [
  | zero ↦ c ∷ cs
  | suc skipped ↦ trim_start_from skipped cs
]

abbrev pub trim_start : Bytes → Bytes
trim_start = trim_start_from 0

abbrev pub is_empty : Bytes → Bool
is_empty [] = true
is_empty (c ∷ cs) = false

abbrev pub is_blank : Bytes → Bool
is_blank text = is_empty (trim_start text)

-- What is only white space up to the end is dropped.
abbrev pub trim_end : Bytes → Bytes
trim_end [] = []
trim_end (c ∷ cs) = let rest = trim_end cs in if is_blank (c ∷ cs) then [] else c ∷ rest

abbrev pub trim : Bytes → Bytes
trim text = trim_start (trim_end text)

-- The first word of a text that starts with no space, and what stands behind it.
abbrev pub span_word : Bytes → Bytes × Bytes
span_word [] = ([], [])
span_word (c ∷ cs) =
    let (word, rest) = span_word cs in
    if space_length (c ∷ cs) == 0 then (c ∷ word, rest) else ([], c ∷ cs)

-- `split_whitespace().next().unwrap_or("")`
abbrev pub first_word : Bytes → Bytes
first_word text = (span_word (trim_start text)).0

-- `split_whitespace().nth(1).unwrap_or("")`
abbrev pub second_word : Bytes → Bytes
second_word text = first_word (span_word (trim_start text)).1

-- What stands before the first separator, and, where there is one, what stands behind it.
abbrev pub split_once : ℕ → Bytes → Bytes × Option Bytes
split_once sep [] = ([], none)
split_once sep (c ∷ cs) =
    let (front, back) = split_once sep cs in if c == sep then ([], some cs) else (c ∷ front, back)

-- After a first byte: how many bytes follow, and the bounds of the next one.
abbrev pub utf8_next : ℕ → Option (ℕ × ℕ × ℕ)
utf8_next b =
    if ltb b 0x80
    then some (0, 0, 0)
    else if leb 0xc2 b && leb b 0xdf
    then some (1, 0x80, 0xbf)
    else if b == 0xe0
    then some (2, 0xa0, 0xbf)
    else if b == 0xed
    then some (2, 0x80, 0x9f)
    else if leb 0xe1 b && leb b 0xef
    then some (2, 0x80, 0xbf)
    else if b == 0xf0
    then some (3, 0x90, 0xbf)
    else if leb 0xf1 b && leb b 0xf3
    then some (3, 0x80, 0xbf)
    else if b == 0xf4
    then some (3, 0x80, 0x8f)
    else none

-- The bytes from where `left` bytes of a character are to follow.
abbrev pub utf8_from : ℕ → ℕ → ℕ → Bytes → Bool
utf8_from zero lo hi [] = true
utf8_from (suc left) lo hi [] = false
utf8_from zero lo hi (b ∷ bs) = elim (utf8_next b) [
  | none ↦ false
  | some (left, lo', hi') ↦ utf8_from left lo' hi' bs
]
utf8_from (suc left) lo hi (b ∷ bs) =
    let rest = utf8_from left 0x80 0xbf bs in leb lo b && leb b hi && rest

-- Whether `String::from_utf8` accepts the bytes.
abbrev pub is_utf8 : Bytes → Bool
is_utf8 = utf8_from 0 0 0

-- `str::parse` of an unsigned number that is at most `max`.
abbrev pub parse_digits : ℕ → ℕ → Bytes → Option ℕ
parse_digits max acc [] = some acc
parse_digits max acc (c ∷ cs) =
    let next = parse_digits max (acc * 10 + (c - b'0')) cs in
    if leb b'0' c && leb c b'9' && leb (acc * 10 + (c - b'0')) max then next else none

abbrev pub parse_decimal : ℕ → Bytes → Option ℕ
parse_decimal max [] = none
parse_decimal max (c ∷ []) = parse_digits max 0 (c ∷ [])
parse_decimal max (c ∷ d ∷ cs) =
    if c == b'+' then parse_digits max 0 (d ∷ cs) else parse_digits max 0 (c ∷ d ∷ cs)

-- `str::lines`: the newlines end the lines, and a carriage return before one is dropped.
abbrev pub drop_return : Bytes → Bytes
drop_return [] = []
drop_return (c ∷ []) = if c == 13 then [] else c ∷ []
drop_return (c ∷ d ∷ cs) = c ∷ drop_return (d ∷ cs)

-- `current` is the line so far.
abbrev pub lines_from : Bytes → Bytes → List Bytes
lines_from [] [] = []
lines_from (d ∷ current) [] = (d ∷ current) ∷ []
lines_from current (c ∷ cs) =
    let next = lines_from [] cs in
    let longer = lines_from (current ++ (c ∷ [])) cs in
    if c == 10 then drop_return current ∷ next else longer

abbrev pub lines : Bytes → List Bytes
lines = lines_from []

abbrev pub starts_with : Bytes → Bytes → Bool
starts_with prefix text = elim (strip_prefix prefix text) [ none ↦ false | some rest ↦ true ]

-- `text.strip_prefix(prefix).unwrap_or(text)`
abbrev pub without_prefix : Bytes → Bytes → Bytes
without_prefix prefix text = elim (strip_prefix prefix text) [ none ↦ text | some rest ↦ rest ]
