-- ===== src/Server/Upload/Answer.antt =====
-- What a client is answered.
use near_git_storage.Prelude.{
  ℕ, zero, suc, ◌≡◌, refl, ap, ◌∙◌, List, [], ◌∷◌, ◌++◌, Option, true, false, All, ok, ◌>>=◌, map,
  ◌==◌, subst, sym, Bool-cases, inl, inr, if◌then◌else◌,
}
use near_git_storage.Hex.{Bytes}
use near_git_storage.Text.{
  ascii, is_utf8, strip_prefix, is_space, space_beyond, space_length, trim_start_from, trim_start,
  is_empty, is_blank, trim_end, trim, span_word, first_word,
}
use near_git_storage.PktLine.{encode, flush}
use near_git_storage.PktLine.Laws.{Fits, encode_all, read_until_flush-flush}
use near_git_storage.Server.Merge.{merged_pack}
use near_git_storage.Server.Upload.{
  keep_word, answer, sha_behind, want_prefix, line_wants, wants_of, parse_wants, nak, upload_body,
}

-- No white space starts with the byte, whatever follows it.
abbrev pub IsInWord : ℕ → Type 0
IsInWord c =
    (is_space c ≡ false)
    × ((c == 0xc2) ≡ false)
    × ((c == 0xe1) ≡ false)
    × ((c == 0xe2) ≡ false)
    × ((c == 0xe3) ≡ false)

-- A text without white space that is not empty.
abbrev pub IsWant : Bytes → Type 0
IsWant [] = ⊥
IsWant (c ∷ cs) = All IsInWord (c ∷ cs)

-- Nothing, or a space with any text behind it.
pub data IsGap : Bytes → Type 0 where
  no_gap : IsGap []
  gap : (c : ℕ) (text : Bytes) → is_space c ≡ true → IsGap (c ∷ text)

space_beyond-IsInWord : (c : ℕ) (text : Bytes) → IsInWord c → space_beyond c text ≡ 0
space_beyond-IsInWord c [] h = refl
space_beyond-IsInWord c (d ∷ []) (s, n, a, b, e) = rw n refl
space_beyond-IsInWord c (d ∷ x ∷ text) (s, n, a, b, e) = rw (n, a, b, e) refl

space_length-IsInWord : (c : ℕ) (text : Bytes) → IsInWord c → space_length (c ∷ text) ≡ 0
space_length-IsInWord c text h = rw h.0 (space_beyond-IsInWord c text h)

trim_start-IsInWord : (c : ℕ) (text : Bytes) → IsInWord c → trim_start (c ∷ text) ≡ c ∷ text
trim_start-IsInWord c text h =
    ap (λ (n : ℕ). elim n [ zero ↦ c ∷ text | suc skipped ↦ trim_start_from skipped text ])
      (space_length-IsInWord c text h)

trim_end-append : (xs rest : Bytes) → All IsInWord xs → trim_end (xs ++ rest) ≡ xs ++ trim_end rest
trim_end-append [] rest h = refl
trim_end-append (x ∷ xs) rest (s, h) =
    ap (λ (t : Bytes). if is_empty t then [] else x ∷ trim_end (xs ++ rest))
      (trim_start-IsInWord x (xs ++ rest) s)
    ∙ ap (λ t. x ∷ t) (trim_end-append xs rest h)

trim_end-IsGap : (rest : Bytes) → IsGap rest → IsGap (trim_end rest)
trim_end-IsGap _ no_gap = no_gap
trim_end-IsGap _ (gap c text s) = elim (Bool-cases (is_blank (c ∷ text))) [
  | inl blank ↦ subst IsGap (sym (ap (λ b. if b then [] else c ∷ trim_end text) blank)) no_gap
  | inr other ↦
      subst IsGap (sym (ap (λ b. if b then [] else c ∷ trim_end text) other))
        (gap c (trim_end text) s)
]

span_word-append :
    (xs rest : Bytes) → All IsInWord xs → IsGap rest → (span_word (xs ++ rest)).0 ≡ xs
span_word-append [] _ h no_gap = refl
span_word-append [] _ h (gap c text s) = rw s refl
span_word-append (x ∷ xs) rest (s, h) g =
    rw (space_length-IsInWord x (xs ++ rest) s) (ap (λ w. x ∷ w) (span_word-append xs rest h g))

first_word-append : (sha rest : Bytes) → IsWant sha → IsGap rest → first_word (sha ++ rest) ≡ sha
first_word-append [] rest h g = absurd h
first_word-append (c ∷ cs) rest (s, h) g =
    ap (λ t. (span_word t).0) (trim_start-IsInWord c (cs ++ rest) s)
    ∙ span_word-append (c ∷ cs) rest (s, h) g

-- A want as a client sends it: behind the SHA may stand capabilities, and a newline.
abbrev pub want_line : Bytes × Bytes → Bytes
want_line (sha, rest) = want_prefix ++ (sha ++ rest)

trim_end-space :
    (c : ℕ) (text : Bytes) → IsInWord c → trim_end (b' ' ∷ (c ∷ text)) ≡ b' ' ∷ trim_end (c ∷ text)
trim_end-space c text h =
    ap (λ (t : Bytes). if is_empty t then [] else b' ' ∷ trim_end (c ∷ text))
      (trim_start-IsInWord c text h)

trim-want_line :
    (sha rest : Bytes)
    → IsWant sha
    → trim (want_line (sha, rest)) ≡ want_prefix ++ (sha ++ trim_end rest)
trim-want_line [] rest h = absurd h
trim-want_line (c ∷ cs) rest (s, h) =
    ap (λ t. ascii "want" ++ t)
      (trim_end-space c (cs ++ rest) s ∙ ap (λ t. b' ' ∷ t) (trim_end-append (c ∷ cs) rest (s, h)))

abbrev pub want_lines : List (Bytes × Bytes) → List Bytes
want_lines [] = []
want_lines (w ∷ ws) = want_line w ∷ want_lines ws

-- What is UTF-8 is read as it stands.
module _ (from_utf8_lossy : Bytes → Bytes)
    (lossless : (bytes : Bytes) → is_utf8 bytes ≡ true → from_utf8_lossy bytes ≡ bytes) where
  line_wants-want_line :
      (sha rest : Bytes)
      → IsWant sha
      → IsGap rest
      → is_utf8 (want_line (sha, rest)) ≡ true
      → line_wants from_utf8_lossy (want_line (sha, rest)) ≡ sha ∷ []
  unfolding line_wants sha_behind keep_word
  line_wants-want_line [] rest h g utf8 = absurd h
  line_wants-want_line (c ∷ cs) rest h g utf8 =
      ap (λ t. sha_behind (strip_prefix want_prefix (trim t)))
        (lossless (want_line (c ∷ cs, rest)) utf8)
      ∙ ap (λ t. sha_behind (strip_prefix want_prefix t)) (trim-want_line (c ∷ cs) rest h)
      ∙ ap keep_word (first_word-append (c ∷ cs) (trim_end rest) h (trim_end-IsGap rest g))

  wants_of-want_lines :
      (ws : List (Bytes × Bytes))
      → All (λ w. IsWant w.0 × IsGap w.1) ws
      → All (λ l. is_utf8 l ≡ true) (want_lines ws)
      → wants_of from_utf8_lossy (want_lines ws) ≡ map (λ w. w.0) ws
  unfolding wants_of
  wants_of-want_lines [] h utf8 = refl
  wants_of-want_lines ((sha, rest) ∷ ws) ((h, g), hs) (utf8, utf8s) =
      rw (line_wants-want_line sha rest h g utf8, wants_of-want_lines ws hs utf8s)

  -- A request whose first section is wants that fit, at least one, in UTF-8, is answered with a NAK line
  -- and the pack that the contract's packs merge to, whatever stands behind the section: the client's
  -- haves make no difference.
  pub upload_body-want_lines :
      (inflate : Bytes → Option (Bytes × ℕ)) (deflate digest : Bytes → Bytes) (packs : List Bytes)
      (w : Bytes × Bytes) (ws : List (Bytes × Bytes)) (rest : Bytes)
      → All (λ w. IsWant w.0 × IsGap w.1) (w ∷ ws)
      → All (λ l. is_utf8 l ≡ true) (want_lines (w ∷ ws))
      → All Fits (want_lines (w ∷ ws))
      → upload_body inflate deflate digest packs from_utf8_lossy
          (encode_all (want_lines (w ∷ ws)) ++ (flush ++ rest))
        ≡ (merged_pack inflate digest deflate packs >>= λ pack_data. ok (encode nak ++ pack_data))
  unfolding upload_body parse_wants answer
  upload_body-want_lines inflate deflate digest packs w ws rest h utf8 fit =
      ap (λ p. answer inflate deflate digest packs (wants_of from_utf8_lossy p.0))
        (read_until_flush-flush (want_lines (w ∷ ws)) rest fit)
      ∙ ap (answer inflate deflate digest packs) (wants_of-want_lines (w ∷ ws) h utf8)
