-- ===== src/PktLine/Laws.antt =====
-- What `read_until_flush` reads of lines that `encode` wrote.
use near_git_storage.Prelude.{
  ℕ, zero, suc, ◌+◌, ◌-◌, ◌≤◌, ◌<◌, ◌^◌, ◌≡◌, refl, sym, ap, ◌∙◌, arith, List, [], ◌∷◌, ◌++◌, ltb,
  ◌==◌, ◌||◌, length, length-append, length-drop, take, drop, take-append_left, drop-append_left,
  append_assoc, append-nil, All, Bool-cases, inl, inr,
}
use near_git_storage.Hex.{Bytes, format_hex, to_digit, parse_loop, from_str_radix}
use near_git_storage.Hex.RoundTrip.{from_str_radix-format_four, length-format_four}
use near_git_storage.PktLine.{encode, flush, prefix_length, read_loop, read_until_flush}

-- The longest payload that four digits can announce.
abbrev pub Fits : Bytes → Type 0
Fits payload = length payload + 4 < 0x10000

abbrev pub encode_all : List Bytes → Bytes
encode_all [] = []
encode_all (l ∷ ls) = encode l ++ encode_all ls

prefix_length-encode :
    (payload rest : Bytes)
    → Fits payload
    → prefix_length (encode payload ++ rest) ≡ length payload + 4
unfolding prefix_length encode
prefix_length-encode payload rest h =
    let digits = format_hex 4 (length payload + 4) in
    rw (
      append_assoc digits payload rest,
      take-append_left digits (payload ++ rest) 4 (sym (length-format_four _ h)),
      from_str_radix-format_four (2 ^ 64 - 1) (length payload + 4) h (omega arith),
    )

prefix_length-flush : (rest : Bytes) → prefix_length (flush ++ rest) ≡ 0
unfolding prefix_length from_str_radix parse_loop to_digit
prefix_length-flush rest = refl

length-encode : (payload : Bytes) → Fits payload → length (encode payload) ≡ length payload + 4
unfolding encode
length-encode payload h = omega (
  arith,
  length-append (format_hex 4 (length payload + 4)) payload,
  length-format_four (length payload + 4) h,
)

-- More fuel than the input has bytes changes nothing.
read_loop_enough :
    (f g : ℕ) (lines : List Bytes) (rest : Bytes)
    → length rest ≤ f
    → length rest ≤ g
    → read_loop f lines rest ≡ read_loop g lines rest
unfolding read_loop
read_loop_enough zero zero lines rest hf hg = refl
read_loop_enough zero (suc g) lines rest hf hg = ground arith
read_loop_enough (suc f) zero lines rest hf hg = ground arith
read_loop_enough (suc f) (suc g) lines rest hf hg =
    let len = prefix_length rest in
    ground (
      arith,
      length-drop len rest,
      read_loop_enough f g (lines ++ (take (len - 4) (drop 4 rest) ∷ [])) (drop len rest),
    )

drop_four :
    (payload rest : Bytes) → Fits payload → drop 4 (encode payload ++ rest) ≡ payload ++ rest
unfolding encode
drop_four payload rest h =
    let digits = format_hex 4 (length payload + 4) in
    rw (
      append_assoc digits payload rest,
      drop-append_left digits (payload ++ rest) 4 (sym (length-format_four _ h)),
    )

-- One line is read and the loop goes on behind it.
read_loop-encode :
    (fuel : ℕ) (lines : List Bytes) (payload rest : Bytes)
    → Fits payload
    → read_loop (suc fuel) lines (encode payload ++ rest)
      ≡ read_loop fuel (lines ++ (payload ∷ [])) rest
unfolding read_loop
read_loop-encode fuel lines payload rest h =
    let long = length-append (encode payload) rest in
    let n = length-encode payload h in
    rw
      (
        prefix_length-encode payload rest h,
        drop_four payload rest h,
        drop-append_left (encode payload) rest (length payload + 4) (sym n),
        take-append_left payload rest (length payload + 4 - 4) (omega arith),
      )
      (ground arith)

read_loop-flush :
    (fuel : ℕ) (lines : List Bytes) (rest : Bytes)
    → read_loop (suc fuel) lines (flush ++ rest) ≡ (lines, rest)
unfolding read_loop
read_loop-flush fuel lines rest = rw (prefix_length-flush rest) (ground arith)

-- What the loop has read already stays in front.
pub read_loop-acc :
    (fuel : ℕ) (lines : List Bytes) (rest : Bytes)
    → read_loop fuel lines rest ≡ (lines ++ (read_loop fuel [] rest).0, (read_loop fuel [] rest).1)
unfolding read_loop
read_loop-acc zero lines rest = ap (λ l. (l, rest)) (sym (append-nil lines))
read_loop-acc (suc fuel) lines rest =
    let len = prefix_length rest in
    let line = take (len - 4) (drop 4 rest) in
    let more = read_loop fuel [] (drop len rest) in
    elim (Bool-cases (ltb (length rest) 4)) [
      | inl short ↦ rw (short, append-nil lines)
      | inr long ↦ elim (Bool-cases (len == 0)) [
        | inl stop ↦ rw (long, stop, append-nil lines)
        | inr going ↦ elim (Bool-cases (ltb len 4 || ltb (length rest) len)) [
          | inl broken ↦ rw (long, going, broken, append-nil lines)
          | inr whole ↦
              rw (long, going, whole)
                (rw (
                  read_loop-acc fuel (lines ++ (line ∷ [])) (drop len rest),
                  read_loop-acc fuel (line ∷ []) (drop len rest),
                  append_assoc lines (line ∷ []) more.0,
                ))
        ]
      ]
    ]

abbrev pub after : List Bytes → List Bytes × Bytes → List Bytes × Bytes
after lines (more, rest) = (lines ++ more, rest)

read_loop-encode_all :
    (fuel : ℕ) (acc lines : List Bytes) (rest : Bytes)
    → All Fits lines
    → length lines + length rest ≤ fuel
    → read_loop fuel acc (encode_all lines ++ rest)
      ≡ (acc ++ (lines ++ (read_until_flush rest).0), (read_until_flush rest).1)
unfolding read_until_flush
read_loop-encode_all fuel acc [] rest fit h =
    read_loop_enough fuel (length rest) acc rest (omega arith) (omega arith)
    ∙ read_loop-acc (length rest) acc rest
read_loop-encode_all zero acc (l ∷ lines) rest fit h = absurd (omega arith)
read_loop-encode_all (suc fuel) acc (l ∷ lines) rest (fits, fit) h = rw (
  append_assoc (encode l) (encode_all lines) rest,
  read_loop-encode fuel acc l (encode_all lines ++ rest) fits,
  read_loop-encode_all fuel (acc ++ (l ∷ [])) lines rest fit (omega arith),
  append_assoc acc (l ∷ []) (lines ++ (read_until_flush rest).0),
)

length-encode_all : (lines : List Bytes) → All Fits lines → length lines ≤ length (encode_all lines)
length-encode_all [] fit = omega arith
length-encode_all (l ∷ lines) (fits, fit) = omega (
  arith,
  length-encode_all lines fit,
  length-append (encode l) (encode_all lines),
  length-encode l fits,
)

read_flush : (rest : Bytes) → read_until_flush (flush ++ rest) ≡ ([], rest)
unfolding read_until_flush
read_flush rest = read_loop-flush (suc (suc (suc (length rest)))) [] rest

-- Lines that fit are read back in order, whatever follows them, and the reader then does with what
-- follows what it would do with that alone.
pub read_until_flush-encode_all :
    (lines : List Bytes) (rest : Bytes)
    → All Fits lines
    → read_until_flush (encode_all lines ++ rest) ≡ after lines (read_until_flush rest)
unfolding read_until_flush
read_until_flush-encode_all lines rest fit =
    let input = encode_all lines ++ rest in
    read_loop-encode_all (length input) [] lines rest fit
      (omega (arith, length-encode_all lines fit, length-append (encode_all lines) rest))

-- A section of lines that fit, ended by a flush packet, is read back, and what stands behind the
-- flush packet is handed back unread.
pub read_until_flush-flush :
    (lines : List Bytes) (rest : Bytes)
    → All Fits lines
    → read_until_flush (encode_all lines ++ (flush ++ rest)) ≡ (lines, rest)
read_until_flush-flush lines rest fit =
    rw (read_until_flush-encode_all lines (flush ++ rest) fit, read_flush rest, append-nil lines)
