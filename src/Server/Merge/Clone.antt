-- ===== src/Server/Merge/Clone.antt =====
-- The one packfile that `handle_upload_pack` of git-server/src/main.rs makes of the contract's packs, as a
-- client of git reads it.
use near_git_storage.Prelude.{ℕ, ◌^◌, ◌<◌, ◌≡◌, List, [], ◌∷◌, Option, ok, length, All, Among-All}
use near_git_storage.Packfile.{Bytes}
use near_git_storage.Packfile.Parse.{PackObject, parse}
use near_git_storage.Packfile.Parse.Types.{IsGitType, parse-AreTyped}
use near_git_storage.Packfile.Build.{sort_objects, build}
use near_git_storage.Packfile.Build.Plan.{Fits}
use near_git_storage.Packfile.Build.Codec.{IsCodec}
use near_git_storage.Packfile.Build.RoundTrip.{IsStorable}
use near_git_storage.Packfile.Build.Thin.{parse-build}
use near_git_storage.Server.Merge.{merge_packs, merged_pack}
use near_git_storage.Server.Merge.Derived.{parsed, made, ComesFromPacks, merge_packs-ComesFromPacks}
use mathlib.Core.List.{Perm}

module _ (inflate : Bytes → Option (Bytes × ℕ)) (digest : Bytes → Bytes) (packs : List Bytes) where
  -- What comes from the packs has a type that git knows.
  ComesFromPacks-IsGitType :
      (obj : PackObject) → ComesFromPacks inflate digest packs obj → IsGitType obj.obj_type
  ComesFromPacks-IsGitType _ (parsed {obj = obj} (pack, result, stored, read, among)) =
      Among-All (λ (o : PackObject). IsGitType o.obj_type) result.objects among
        (parse-AreTyped inflate pack result read)
  ComesFromPacks-IsGitType _ (made {base = base} base_comes delta same applies) =
      ComesFromPacks-IsGitType base base_comes

  storable :
      (objects : List PackObject)
      → All (ComesFromPacks inflate digest packs) objects
      → All Fits objects
      → All IsStorable objects
  storable [] come fit = tt
  storable (obj ∷ objects) (comes, come) (fits, fit) =
      ((ComesFromPacks-IsGitType obj comes, fits), storable objects come fit)

  -- Where the merge of the packs succeeds, with objects no longer than 4 GiB, fewer than 2^32, and whose
  -- packfile stays below 2^64 bytes, and zlib and SHA-1 are as documented: the server does not panic, and
  -- a client that parses the packfile that it answers with has exactly the merged objects, in another
  -- order, each in full, with no delta left, and each comes from the packs.
  pub parse-merged_pack :
      (deflate : Bytes → Bytes)
      → IsCodec inflate deflate digest
      → (objects : List PackObject) → merge_packs inflate digest [] packs ≡ ok objects
      → All Fits objects
      → length objects < 2 ^ 32
      → ((pack : Bytes) → build deflate digest objects ≡ ok pack → length pack < 2 ^ 64)
      → (pack : Bytes) × (merged_pack inflate digest deflate packs ≡ ok pack)
        × (parse inflate pack ≡ ok (record { objects = sort_objects objects; deltas = [] }))
        × Perm (sort_objects objects) objects
        × All (ComesFromPacks inflate digest packs) objects
  unfolding merged_pack
  parse-merged_pack deflate zlib objects merged fit few short =
      let come = merge_packs-ComesFromPacks inflate digest packs objects merged in
      let (pack, built, read, same) =
        parse-build inflate deflate digest zlib objects (storable objects come fit) few short in
      (pack, rw merged built, read, same, come)
