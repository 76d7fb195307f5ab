-- ===== src/Server/Receive/Requests.antt =====
-- The requests that git sends are read as it means them.
use near_git_storage.Prelude.{
  ℕ, ◌≡◌, refl, ap, ◌∙◌, List, [], ◌∷◌, ◌++◌, Option, none, some, true, false, ◌==◌, All,
  append-nil, replicate, zero, suc, if◌then◌else◌,
}
use near_git_storage.Hex.{Bytes}
use near_git_storage.Text.{text_eq, is_utf8}
use near_git_storage.Text.Laws.{split_once-append, split_once-none}
use near_git_storage.PktLine.{flush}
use near_git_storage.PktLine.Laws.{Fits, encode_all, read_until_flush-flush}
use near_git_storage.Server.{zero_sha}
use near_git_storage.Server.Receive.{
  RefUpdate, before_nul, cons_line, trim_newlines, command_update, third_part, second_part,
  parse_command, keep_update, parse_commands, parse_request,
}

-- A text without spaces, newlines and zero bytes.
abbrev pub IsWord : Bytes → Type 0
IsWord = All (λ c. ((c == b' ') ≡ false) × ((c == 10) ≡ false) × ((c == 0) ≡ false))

-- A SHA, which is not the one that stands for none.
abbrev pub IsSha : Bytes → Type 0
IsSha sha = IsWord sha × (text_eq sha zero_sha ≡ false)

abbrev pub IsOldSha : Option Bytes → Type 0
IsOldSha none = Unit
IsOldSha (some sha) = IsSha sha

-- A name ends in no newline and has no zero byte.
pub record IsUpdate (u : RefUpdate) : Type 0 where
  pub old : IsOldSha u.old_sha
  pub new : IsWord u.new_sha
  pub name : IsWord u.name

abbrev pub sha_text : Option Bytes → Bytes
sha_text none = zero_sha
sha_text (some sha) = sha

-- A command as git writes it; `tail` is what stands behind the name, such as the capabilities behind a
-- zero byte.
abbrev pub command : RefUpdate → Bytes → Bytes
command u tail = sha_text u.old_sha ++ (b' ' ∷ (u.new_sha ++ (b' ' ∷ (u.name ++ tail))))

-- Nothing, a newline, or a zero byte with any text behind it.
pub data IsTail : Bytes → Type 0 where
  bare : IsTail []
  newline : IsTail (10 ∷ [])
  capabilities : (caps : Bytes) → IsTail (0 ∷ caps)

no_space : (xs : Bytes) → IsWord xs → All (λ c. (c == b' ') ≡ false) xs
no_space [] h = tt
no_space (x ∷ xs) ((s, n, z), h) = (s, no_space xs h)

no_nul : (xs : Bytes) → IsWord xs → All (λ c. (c == 0) ≡ false) xs
no_nul [] h = tt
no_nul (x ∷ xs) ((s, n, z), h) = (z, no_nul xs h)

cons_line-other : (c : ℕ) (cs : Bytes) → (c == 10) ≡ false → cons_line c cs ≡ c ∷ cs
unfolding cons_line
cons_line-other c [] h = rw h
cons_line-other c (d ∷ ds) h = refl

-- No newline is dropped before a word or a space.
trim_newlines-append :
    (xs rest : Bytes) → IsWord xs → trim_newlines (xs ++ rest) ≡ xs ++ trim_newlines rest
unfolding trim_newlines
trim_newlines-append [] rest h = refl
trim_newlines-append (x ∷ xs) rest ((s, n, z), h) =
    ap (cons_line x) (trim_newlines-append xs rest h) ∙ cons_line-other x _ n

trim_newlines-space : (rest : Bytes) → trim_newlines (b' ' ∷ rest) ≡ b' ' ∷ trim_newlines rest
unfolding trim_newlines
trim_newlines-space rest = cons_line-other b' ' _ refl

zeros-IsWord : (n : ℕ) → IsWord (replicate n b'0')
zeros-IsWord zero = tt
zeros-IsWord (suc n) = ((refl, refl, refl), zeros-IsWord n)

sha_text-IsWord : (sha : Option Bytes) → IsOldSha sha → IsWord (sha_text sha)
sha_text-IsWord none h = zeros-IsWord 40
sha_text-IsWord (some sha) (word, other) = word

-- What the reader takes for the name is the name.
name_lem :
    (name tail : Bytes) → IsWord name → IsTail tail → before_nul (name ++ trim_newlines tail) ≡ name
unfolding trim_newlines cons_line
name_lem name _ word bare =
    rw append-nil (ap (λ p. p.0) (split_once-none 0 name (no_nul name word)))
name_lem name _ word newline =
    rw append-nil (ap (λ p. p.0) (split_once-none 0 name (no_nul name word)))
name_lem name _ word (capabilities caps) =
    rw (cons_line-other 0 (trim_newlines caps) refl)
      (ap (λ p. p.0) (split_once-append 0 name (trim_newlines caps) (no_nul name word)))

-- The zero SHA stands for no old SHA.
old_sha_lem :
    (sha : Option Bytes)
    → IsOldSha sha
    → (if text_eq (sha_text sha) zero_sha then none else some (sha_text sha)) ≡ sha
old_sha_lem none h = refl
old_sha_lem (some sha) (word, other) = rw other

command_update-command :
    (u : RefUpdate) (tail : Bytes)
    → IsUpdate u
    → IsTail tail
    → command_update (sha_text u.old_sha) u.new_sha (u.name ++ trim_newlines tail) ≡ u
unfolding command_update
command_update-command u tail h t =
    let word = sha_text-IsWord u.old_sha h.old in
    let old : before_nul (sha_text u.old_sha) ≡ sha_text u.old_sha =
      ap (λ p. p.0) (split_once-none 0 (sha_text u.old_sha) (no_nul (sha_text u.old_sha) word)) in
    λ i. record {
      name = name_lem u.name tail h.name t i;
      old_sha =
          (ap (λ (sha : Bytes). if text_eq sha zero_sha then none else some sha) old
              ∙ old_sha_lem u.old_sha h.old)
            i;
      new_sha = u.new_sha;
    }

-- The commands of a push, each with its tail.
abbrev pub commands : List (RefUpdate × Bytes) → List Bytes
commands [] = []
commands ((u, tail) ∷ cs) = command u tail ∷ commands cs

abbrev pub updates_of : List (RefUpdate × Bytes) → List RefUpdate
updates_of [] = []
updates_of ((u, tail) ∷ cs) = u ∷ updates_of cs

-- What is UTF-8 is read as it stands.
module _ (from_utf8_lossy : Bytes → Bytes)
    (lossless : (bytes : Bytes) → is_utf8 bytes ≡ true → from_utf8_lossy bytes ≡ bytes) where
  parse_command-command :
      (u : RefUpdate) (tail : Bytes)
      → IsUpdate u
      → IsTail tail
      → is_utf8 (command u tail) ≡ true
      → parse_command from_utf8_lossy (command u tail) ≡ some u
  unfolding parse_command second_part third_part
  parse_command-command u tail h t utf8 =
      let word = sha_text-IsWord u.old_sha h.old in
      rw (
        lossless (command u tail) utf8,
        trim_newlines-append (sha_text u.old_sha) (b' ' ∷ (u.new_sha ++ (b' ' ∷ (u.name ++ tail))))
            word,
        trim_newlines-space (u.new_sha ++ (b' ' ∷ (u.name ++ tail))),
        trim_newlines-append u.new_sha (b' ' ∷ (u.name ++ tail)) h.new,
        trim_newlines-space (u.name ++ tail),
        trim_newlines-append u.name tail h.name,
        split_once-append b' ' (sha_text u.old_sha)
            (u.new_sha ++ (b' ' ∷ (u.name ++ trim_newlines tail)))
            (no_space (sha_text u.old_sha) word),
        split_once-append b' ' u.new_sha (u.name ++ trim_newlines tail) (no_space u.new_sha h.new),
        command_update-command u tail h t,
      )

  parse_commands-commands :
      (cs : List (RefUpdate × Bytes))
      → All (λ c. IsUpdate c.0 × IsTail c.1) cs
      → All (λ c. is_utf8 c ≡ true) (commands cs)
      → parse_commands from_utf8_lossy (commands cs) ≡ updates_of cs
  unfolding parse_commands keep_update
  parse_commands-commands [] h utf8 = refl
  parse_commands-commands ((u, tail) ∷ cs) ((h, t), hs) (utf8, utf8s) =
      rw (parse_command-command u tail h t utf8, parse_commands-commands cs hs utf8s)

  -- A request of packet lines that fit, each a command as git writes it and UTF-8, then a flush packet and a
  -- packfile, is read as those updates and that packfile, all zeros as no old SHA.
  pub parse_request-commands :
      (cs : List (RefUpdate × Bytes)) (pack_data : Bytes)
      → All (λ c. IsUpdate c.0 × IsTail c.1) cs
      → All (λ c. is_utf8 c ≡ true) (commands cs)
      → All Fits (commands cs)
      → parse_request from_utf8_lossy (encode_all (commands cs) ++ (flush ++ pack_data))
        ≡ (updates_of cs, pack_data)
  unfolding parse_request
  parse_request-commands cs pack_data h utf8 fit =
      rw (read_until_flush-flush (commands cs) pack_data fit, parse_commands-commands cs h utf8)
