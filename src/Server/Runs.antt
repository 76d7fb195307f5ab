-- ===== src/Server/Runs.antt =====
-- The answers at concrete inputs.
use near_git_storage.Prelude.{◌≡◌, arith, List, [], ◌∷◌, ◌++◌, All, replicate}
use near_git_storage.Hex.{Bytes}
use near_git_storage.Text.{ascii}
use near_git_storage.PktLine.{read_until_flush}
use near_git_storage.PktLine.Laws.{Fits}
use near_git_storage.Server.{
  main_ref, find_ref, head_of, announcement, head_line, ref_line, ref_lines, advertised,
  info_refs_body, with_newlines,
}
use near_git_storage.Server.Answers.{terminated, IsAdvertisement, info_refs_body-IsAdvertisement}

abbrev unpack_ok : Bytes
unpack_ok = b'u' ∷ b'n' ∷ b'p' ∷ b'a' ∷ b'c' ∷ b'k' ∷ b' ' ∷ b'o' ∷ b'k' ∷ []

abbrev one_ref : List (Bytes × Bytes)
one_ref = (main_ref, replicate 40 b'a') ∷ []

report-Fits : All Fits (with_newlines (unpack_ok ∷ []))
unfolding with_newlines
report-Fits = (omega arith, tt)

service-Fits : Fits (announcement (b'g' ∷ []))
unfolding announcement
service-Fits = omega arith

refs-Fits : All Fits (advertised one_ref)
unfolding advertised head_of find_ref head_line ref_lines ref_line
refs-Fits = (omega arith, (omega arith, tt))

info_refs_body-IsAdvertisement_example :
    (rest : Bytes) × (lines : List Bytes) × (read_until_flush (info_refs_body (b'g' ∷ []) one_ref)
      ≡ ((ascii "# service=" ++ terminated (b'g' ∷ [])) ∷ [], rest))
    × (read_until_flush rest ≡ (lines, []))
    × IsAdvertisement one_ref lines
info_refs_body-IsAdvertisement_example =
    info_refs_body-IsAdvertisement (b'g' ∷ []) one_ref service-Fits refs-Fits
