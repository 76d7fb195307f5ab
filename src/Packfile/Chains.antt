-- ===== src/Packfile/Chains.antt =====
-- Deltas that are applied one after the other (`apply_delta` of git-core/src/packfile.rs).
use near_git_storage.Prelude.{◌≡◌, List, [], ◌∷◌, ◌++◌, ok}
use near_git_storage.Packfile.{Bytes}
use near_git_storage.Packfile.Delta.{apply_delta}

-- What deltas, one after the other, make of a text.
pub data Applies : Bytes → List Bytes → Bytes → Type 0 where
  unchanged : {text : Bytes} → Applies text [] text
  changed :
      {text delta next out : Bytes} {deltas : List Bytes}
      → apply_delta text delta ≡ ok next
      → Applies next deltas out
      → Applies text (delta ∷ deltas) out

-- One more delta behind a chain.
pub Applies-append :
    {text next out : Bytes} (delta : Bytes) (deltas : List Bytes)
    → Applies text deltas next
    → apply_delta next delta ≡ ok out
    → Applies text (deltas ++ (delta ∷ [])) out
Applies-append delta _ unchanged e = changed e unchanged
Applies-append delta _ (changed {deltas = deltas} first rest) e =
    changed first (Applies-append delta deltas rest e)
