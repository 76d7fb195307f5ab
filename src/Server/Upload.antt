-- ===== src/Server/Upload.antt =====
-- `handle_upload_pack` of git-server/src/main.rs: what it reads of the request, and its answer.
pub mod Answer
mod Runs
use near_git_storage.Prelude.{
  ℕ, ◌-◌, List, [], ◌∷◌, ◌++◌, Option, none, some, Bool, true, false, if◌then◌else◌, Result, ok,
  err, ◌>>=◌, length, drop,
}
use near_git_storage.Hex.{Bytes}
use near_git_storage.Text.{ascii, strip_prefix, trim, first_word}
use near_git_storage.Packfile.{Outcome}
use near_git_storage.PktLine.{encode, flush, read_until_flush}
use near_git_storage.Server.Merge.{merged_pack}

-- An empty word is left out.
pub keep_word : Bytes → List Bytes
keep_word [] = []
keep_word (c ∷ cs) = (c ∷ cs) ∷ []

-- `text[5..].split_whitespace().next().unwrap_or("")`, where the text has the prefix.
pub sha_behind : Option Bytes → List Bytes
sha_behind none = []
sha_behind (some text) = keep_word (first_word text)

abbrev pub want_prefix : Bytes
want_prefix = ascii "want "

abbrev pub have_prefix : Bytes
have_prefix = ascii "have "

-- `String::from_utf8_lossy` is std's: what is no UTF-8 becomes U+FFFD.
module _ (from_utf8_lossy : Bytes → Bytes) where
  -- A line is a want, a have or something else; the prefixes exclude each other.
  pub line_wants : Bytes → List Bytes
  line_wants line = sha_behind (strip_prefix want_prefix (trim (from_utf8_lossy line)))

  pub line_haves : Bytes → List Bytes
  line_haves line = sha_behind (strip_prefix have_prefix (trim (from_utf8_lossy line)))

  pub wants_of : List Bytes → List Bytes
  wants_of [] = []
  wants_of (line ∷ lines) = line_wants line ++ wants_of lines

  pub haves_of : List Bytes → List Bytes
  haves_of [] = []
  haves_of (line ∷ lines) = line_haves line ++ haves_of lines

  -- The wants, and the haves, those of the last eight bytes of the body once more.
  pub parse_wants : Bytes → List Bytes × List Bytes
  parse_wants body =
      let lines = (read_until_flush body).0 in
      let after_lines = (read_until_flush (drop (length body - 8) body)).0 in
      (wants_of lines, haves_of lines ++ haves_of after_lines)

abbrev pub nak : Bytes
nak = ascii "NAK" ++ (10 ∷ [])

-- `packs` are those that the contract returns; `deflate` is the zlib encoder.
module _ (inflate : Bytes → Option (Bytes × ℕ)) (deflate digest : Bytes → Bytes)
    (packs : List Bytes) where
  pub answer : List Bytes → Outcome Bytes
  answer [] = ok (encode nak ++ (flush ++ []))
  answer (want ∷ wants) =
      merged_pack inflate digest deflate packs >>= λ pack_data. ok (encode nak ++ pack_data)

  -- The haves are not used.
  pub upload_body : (Bytes → Bytes) → Bytes → Outcome Bytes
  upload_body from_utf8_lossy body = answer (parse_wants from_utf8_lossy body).0
