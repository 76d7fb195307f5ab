-- ===== src/Packfile/Build/Written.antt =====
-- The bytes that `build_with_bases` of git-core/src/packfile.rs writes for an entry, and what `parse` reads
-- from them.
use near_git_storage.Prelude.{
  ℕ, ◌-◌, ◌^◌, ◌≤◌, ◌<◌, ◌≡◌, refl, sym, ap, ◌∙◌, arith, List, [], ◌∷◌, ◌++◌, Option, some, ok, map,
  length, length-append, get_elem?, append_assoc, le→leb, le→ltb_false, lt→ltb, take-append_left,
  drop-append_left, Among,
}
use near_git_storage.Packfile.{Bytes}
use near_git_storage.Packfile.Chains.{unchanged, changed, Applies-append}
use near_git_storage.Packfile.Entries.{encode_pack_header, encode_ofs_offset}
use near_git_storage.Packfile.Entries.Heads.{read_entry_header-encode_pack_header}
use near_git_storage.Packfile.Entries.Offsets.{read_ofs_offset-encode_ofs_offset}
use near_git_storage.Packfile.Parse.{
  PackObject, sha1, format_sha, ParsedEntry, object, ref_delta, ofs_delta, Resolution, whole,
  external, Cache, stack_delta, ref_delta_entry, ofs_delta_entry, object_entry, parse_entry,
}
use near_git_storage.Packfile.Build.{Base, no_base, ref_base, ofs_base, sha_bytes, write_entry}
use near_git_storage.Packfile.Build.Plan.{Fits, Rebuilds}
use near_git_storage.Packfile.Build.Steps.{Step, Restores, itself, from_base, position_at-step}
use near_git_storage.Packfile.Build.Table.{IsRead, read_whole, read_ref, read_ofs}
use near_git_storage.Packfile.Build.Codec.{
  IsCodec, type-IsNumber, sha_bytes-format_sha, header_of, ==_less, decompress-deflate,
}
use near_git_storage.Packfile.Parse.Types.{IsGitType}

module _ (inflate : Bytes → Option (Bytes × ℕ)) (deflate digest : Bytes → Bytes)
    (codec : IsCodec inflate deflate digest) where
  -- The bytes of an entry behind earlier steps, what they are read as, and what that resolves to.
  pub record IsWritten (bases : List PackObject) (earlier : List Step) (pos : ℕ) (obj : PackObject)
      (base : Base) (bytes : Bytes) (parsed : ParsedEntry) (resolved : Resolution) : Type 0 where
    pub writes :
        write_entry deflate digest (map (λ s. s.start) earlier ++ (pos ∷ [])) pos obj base
        ≡ ok bytes
    pub parses :
        (rest : Bytes) → pos < 2 ^ 64 → parse_entry inflate pos (bytes ++ rest) ≡ ok (parsed, rest)
    pub reads : IsRead earlier parsed resolved
    pub restores : Restores digest bases obj resolved

  pub whole-IsWritten :
      (bases : List PackObject) (earlier : List Step) (pos : ℕ) (obj : PackObject)
      → IsGitType obj.obj_type
      → Fits obj
      → (bytes : Bytes) × (parsed : ParsedEntry) × (resolved : Resolution) × IsWritten bases earlier
          pos obj no_base bytes parsed resolved
  unfolding write_entry parse_entry object_entry
  whole-IsWritten bases earlier pos obj git fits =
      let (bits, number) = type-IsNumber obj.obj_type git in
      let size = length obj.data_bytes in
      let head = encode_pack_header bits size in
      (
        head ++ deflate obj.data_bytes,
        object obj,
        whole obj,
        record {
          writes = rw number.written refl;
          parses = λ rest low.
              rw
                (
                  append_assoc head (deflate obj.data_bytes) rest,
                  read_entry_header-encode_pack_header bits size (deflate obj.data_bytes ++ rest)
                      (omega (arith, number.small)) (omega arith),
                  ==_less bits 7 (omega (arith, number.small)),
                  ==_less bits 6 number.small,
                  number.read,
                  decompress-deflate inflate deflate digest codec size obj.data_bytes rest
                      (omega arith),
                )
                refl;
          reads = read_whole;
          restores = itself;
        },
      )

  pub ref-IsWritten :
      (bases : List PackObject) (earlier : List Step) (pos : ℕ) (obj base : PackObject)
      (delta : Bytes)
      → Fits obj
      → Among base bases
      → Rebuilds obj base delta
      → (bytes : Bytes) × (parsed : ParsedEntry) × (resolved : Resolution) × IsWritten bases earlier
          pos obj
          (ref_base (sha1 digest base) delta)
          bytes
          parsed
          resolved
  unfolding write_entry parse_entry ref_delta_entry sha1
  ref-IsWritten bases earlier pos obj base delta fits among rebuilds =
      let raw = header_of base in
      let sha = digest raw in
      let size : (20 ≡ length sha) = sym (codec.length-digest raw) in
      let sha_written : (sha_bytes 20 (format_sha sha) ≡ ok sha) =
        ap (λ (n : ℕ). sha_bytes n (format_sha sha)) size
        ∙ sha_bytes-format_sha sha (codec.digest-bytes raw) in
      let head = encode_pack_header 7 (length delta) in
      (
        head ++ (sha ++ deflate delta),
        ref_delta (record { base_sha = format_sha sha; delta_data = delta; chain = [] }),
        external (format_sha sha) (delta ∷ []),
        record {
          writes = rw sha_written refl;
          parses = λ rest low.
              rw
                (
                  append_assoc head (sha ++ deflate delta) rest,
                  append_assoc sha (deflate delta) rest,
                  read_entry_header-encode_pack_header 7 (length delta)
                      (sha ++ (deflate delta ++ rest)) (omega arith)
                      (omega (arith, rebuilds.shorter)),
                  lt→ltb 19 (length (sha ++ (deflate delta ++ rest)))
                      (omega (arith, size, length-append sha (deflate delta ++ rest))),
                  take-append_left sha (deflate delta ++ rest) 20 size,
                  drop-append_left sha (deflate delta ++ rest) 20 size,
                  decompress-deflate inflate deflate digest codec (length delta) delta rest
                      (omega (arith, rebuilds.shorter)),
                )
                refl;
          reads = read_ref;
          restores = from_base among rebuilds.same_type (changed rebuilds.applied unchanged);
        },
      )

  -- A delta on what an earlier step resolved to.
  stack_delta-Restores :
      (bases : List PackObject) (obj prev : PackObject) (delta : Bytes) (r : Resolution)
      → Rebuilds obj prev delta
      → Restores digest bases prev r
      → (resolved : Resolution) × ((cache : Cache)
          → stack_delta delta (r, cache) ≡ ok (resolved, cache))
        × Restores digest bases obj resolved
  unfolding stack_delta
  stack_delta-Restores bases obj prev delta _ rebuilds itself = (
    whole obj,
    λ cache. rw rebuilds.applied (
        ap (λ (t : Bytes). ok (whole (record { obj_type = t; data_bytes = obj.data_bytes }), cache))
          rebuilds.same_type),
    itself,
  )
  stack_delta-Restores bases obj prev delta _ rebuilds
        (from_base {base = base} {delta = first} {deltas = deltas} among same applies) =
      (
        external (sha1 digest base) (first ∷ (deltas ++ (delta ∷ []))),
        λ cache. refl,
        from_base among (same ∙ rebuilds.same_type)
            (Applies-append delta (first ∷ deltas) applies rebuilds.applied),
      )

  pub ofs-IsWritten :
      (bases : List PackObject) (earlier : List Step) (pos idx : ℕ) (obj : PackObject) (s : Step)
      (delta : Bytes)
      → Fits obj
      → get_elem? earlier idx ≡ some s
      → s.start ≤ pos
      → Restores digest bases s.entry.obj s.resolved
      → Rebuilds obj s.entry.obj delta
      → (bytes : Bytes) × (parsed : ParsedEntry) × (resolved : Resolution) × IsWritten bases earlier
          pos obj
          (ofs_base idx delta)
          bytes
          parsed
          resolved
  unfolding write_entry parse_entry ofs_delta_entry
  ofs-IsWritten bases earlier pos idx obj s delta fits at before restores rebuilds =
      let (resolved, stacked, restores') =
        stack_delta-Restores bases obj s.entry.obj delta s.resolved rebuilds restores in
      let offset = pos - s.start in
      let head = encode_pack_header 6 (length delta) in
      (
        head ++ (encode_ofs_offset offset ++ deflate delta),
        ofs_delta s.start delta,
        resolved,
        record {
          writes = rw (position_at-step earlier (pos ∷ []) idx at, le→leb s.start pos before) refl;
          parses = λ rest low.
              rw
                (
                  append_assoc head (encode_ofs_offset offset ++ deflate delta) rest,
                  append_assoc (encode_ofs_offset offset) (deflate delta) rest,
                  read_entry_header-encode_pack_header 6 (length delta)
                      (encode_ofs_offset offset ++ (deflate delta ++ rest)) (omega arith)
                      (omega (arith, rebuilds.shorter)),
                  read_ofs_offset-encode_ofs_offset offset (deflate delta ++ rest) (omega arith),
                  le→ltb_false pos offset (omega arith),
                  decompress-deflate inflate deflate digest codec (length delta) delta rest
                      (omega (arith, rebuilds.shorter)),
                )
                (ap (λ (p : ℕ). ok (ofs_delta p delta, rest)) {x = pos - offset} {y = s.start}
                  (omega arith));
          reads = read_ofs idx at stacked;
          restores = restores';
        },
      )
