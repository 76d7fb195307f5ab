-- ===== src/Server/Upload/Runs.antt =====
-- The law of the answer at a concrete input.
use near_git_storage.Prelude.{ℕ, ◌≡◌, refl, arith, [], ◌∷◌, ◌++◌, Option, none, ok, ◌>>=◌}
use near_git_storage.Hex.{Bytes}
use near_git_storage.Text.{ascii}
use near_git_storage.PktLine.{encode, flush}
use near_git_storage.PktLine.Laws.{encode_all}
use near_git_storage.Server.Merge.{merged_pack}
use near_git_storage.Server.Receive.Runs.{replacing, replacing_lem}
use near_git_storage.Server.Upload.{nak, upload_body}
use near_git_storage.Server.Upload.Answer.{gap, want_lines, upload_body-want_lines}

abbrev nothing : Bytes → Option (Bytes × ℕ)
nothing bytes = none

abbrev same : Bytes → Bytes
same bytes = bytes

abbrev want : Bytes × Bytes
want = (ascii "a1", ascii " ofs-delta" ++ (10 ∷ []))

upload_body-want_lines_example :
    upload_body nothing same same [] replacing
      (encode_all (want_lines (want ∷ [])) ++ (flush ++ ascii "0009done"))
    ≡ (merged_pack nothing same same [] >>= λ pack_data. ok (encode nak ++ pack_data))
upload_body-want_lines_example =
    upload_body-want_lines replacing replacing_lem nothing same same [] want [] (ascii "0009done")
      (
        (
          ((refl, refl, refl, refl, refl), ((refl, refl, refl, refl, refl), tt)),
          gap 32 (ascii "ofs-delta" ++ (10 ∷ [])) refl,
        ),
        tt,
      )
      (refl, tt) (omega arith, tt)
