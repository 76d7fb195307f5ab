-- ===== src/Packfile/Build/Codec.antt =====
-- Types, digests and streams, as `build_with_bases` of git-core/src/packfile.rs writes them and `parse`
-- reads them.
use near_git_storage.Prelude.{
  ℕ, ◌^◌, ◌<◌, ◌≡◌, refl, arith, [], ◌∷◌, ◌++◌, Option, some, false, ok, length, All, ◌==◌, lt→ltb,
  drop-append_left,
}
use near_git_storage.Hex.RoundTrip.{from_str_radix-format_two, format_hex_two}
use near_git_storage.Text.{format_decimal}
use near_git_storage.Packfile.{Bytes}
use near_git_storage.Packfile.Parse.{PackObject, format_sha, inflated, decompress, type_from_bits}
use near_git_storage.Packfile.Parse.Types.{IsGitType, commit, tree, blob, tag}
use near_git_storage.Packfile.Build.{type_to_bits, sha_bytes}

-- What zlib and SHA-1 are documented to do: the decoder takes one stream from the front of the bytes, and
-- a digest has twenty bytes.
pub record IsCodec (inflate : Bytes → Option (Bytes × ℕ)) (deflate digest : Bytes → Bytes)
    : Type 0 where
  pub inflate-deflate :
      (contents rest : Bytes)
      → inflate (deflate contents ++ rest) ≡ some (contents, length (deflate contents))
  pub length-digest : (bytes : Bytes) → length (digest bytes) ≡ 20
  pub digest-bytes : (bytes : Bytes) → All (λ b. b < 256) (digest bytes)

-- The number of a type.
pub record IsNumber (obj_type : Bytes) (bits : ℕ) : Type 0 where
  pub written : type_to_bits obj_type ≡ ok bits
  pub read : type_from_bits bits ≡ some obj_type
  pub small : bits < 6

pub type-IsNumber : (obj_type : Bytes) → IsGitType obj_type → (bits : ℕ) × IsNumber obj_type bits
unfolding type_to_bits type_from_bits
type-IsNumber _ commit = (1, record { written = refl; read = refl; small = omega arith })
type-IsNumber _ tree = (2, record { written = refl; read = refl; small = omega arith })
type-IsNumber _ blob = (3, record { written = refl; read = refl; small = omega arith })
type-IsNumber _ tag = (4, record { written = refl; read = refl; small = omega arith })

pub sha_bytes-format_sha :
    (bytes : Bytes)
    → All (λ b. b < 256) bytes
    → sha_bytes (length bytes) (format_sha bytes) ≡ ok bytes
unfolding sha_bytes
sha_bytes-format_sha [] h = refl
sha_bytes-format_sha (b ∷ bytes) (small, h) =
    let digits = from_str_radix-format_two b small in
    rw (format_hex_two b small, rw (format_hex_two b small) at digits, sha_bytes-format_sha bytes h)
      refl

-- What `PackObject::sha1` hashes.
abbrev pub header_of : PackObject → Bytes
header_of obj =
    obj.obj_type ++ (32 ∷ (format_decimal (length obj.data_bytes) ++ (0 ∷ obj.data_bytes)))

pub ==_less : (a b : ℕ) → a < b → (a == b) ≡ false
==_less a b h = ground arith

module _ (inflate : Bytes → Option (Bytes × ℕ)) (deflate digest : Bytes → Bytes)
    (codec : IsCodec inflate deflate digest) where
  pub decompress-deflate :
      (size : ℕ) (contents rest : Bytes)
      → size < 2 ^ 63
      → decompress inflate size (deflate contents ++ rest) ≡ ok (contents, rest)
  unfolding decompress inflated
  decompress-deflate size contents rest h =
      rw
        (
          lt→ltb size (2 ^ 63) h,
          codec.inflate-deflate contents rest,
          drop-append_left (deflate contents) rest (length (deflate contents)) refl,
        )
        refl
