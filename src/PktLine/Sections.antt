-- ===== src/PktLine/Sections.antt =====
-- What `read_until_flush` of git-core/src/pktline.rs makes of any input.
use near_git_storage.Prelude.{◌+◌, ◌<◌, ◌≡◌, List, [], ◌∷◌, ◌++◌, length}
use near_git_storage.Hex.{Bytes}
use near_git_storage.PktLine.{prefix_length}

-- A section as the bytes say it: each packet has its prefix, which announces the four bytes of the prefix
-- and those of the line, until a flush packet, which is taken, or what is no packet, which is not.
pub data IsSection : Bytes → List Bytes → Bytes → Type 0 where
  flushed :
      (prefix rest : Bytes)
      → length prefix ≡ 4
      → prefix_length (prefix ++ rest) ≡ 0
      → IsSection (prefix ++ rest) [] rest
  cut_off : (rest : Bytes) → length rest < 4 → IsSection rest [] rest
  too_short :
      (rest : Bytes) → 0 < prefix_length rest → prefix_length rest < 4 → IsSection rest [] rest
  too_long : (rest : Bytes) → length rest < prefix_length rest → IsSection rest [] rest
  packet :
      (prefix line rest : Bytes) (lines : List Bytes) (unread : Bytes)
      → length prefix ≡ 4
      → prefix_length (prefix ++ (line ++ rest)) ≡ 4 + length line
      → IsSection rest lines unread
      → IsSection (prefix ++ (line ++ rest)) (line ∷ lines) unread
