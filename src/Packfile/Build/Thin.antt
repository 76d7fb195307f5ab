-- ===== src/Packfile/Build/Thin.antt =====
-- A packfile that `build_with_bases` wrote, under `parse` (git-core/src/packfile.rs).
use near_git_storage.Prelude.{
  ℕ, ◌+◌, ◌^◌, ◌%◌, ◌<◌, ◌≡◌, refl, ap, subst, ◌∙◌, arith, List, [], ◌∷◌, ◌++◌, Option, none, ok,
  map, length, length-append, drop, append_assoc, All, lt→ltb, replicate, ok-injective, err-ne-ok,
}
use near_git_storage.Hex.{Bytes}
use near_git_storage.Text.{ascii}
use near_git_storage.Packfile.{Outcome}
use near_git_storage.Packfile.Ensures.{Ensures, returned, failed}
use near_git_storage.Packfile.Parse.{
  PackObject, UnresolvedDelta, Entries, ParseResult, check_head, num_objects, parse_entries,
  resolve_all, parse,
}
use near_git_storage.Packfile.Parse.Reads.{Rises, parse_entries-Ensures}
use near_git_storage.Packfile.Build.{Entry, sort_objects, to_be_bytes, build_with_bases, build}
use near_git_storage.Packfile.Build.Plan.{Fits}
use near_git_storage.Packfile.Build.Sort.{sort_objects-All, sort_objects-Perm, length-sort_objects}
use mathlib.Core.List.{Perm}
use near_git_storage.Packfile.Build.Steps.{Step, placed}
use near_git_storage.Packfile.Build.Table.{length-map, resolve_all-Tabled}
use near_git_storage.Packfile.Build.Codec.{IsCodec}
use near_git_storage.Packfile.Build.RoundTrip.{IsStorable, Writes, entries-Writes}
use near_git_storage.Packfile.Build.Parsed.{
  Recovers, nothing, in_full, as_delta, object_of, collect-Recovers, plan_entries-PlannedAfter,
}

-- The twelve bytes before the entries.
abbrev head : ℕ → Bytes
head count = ascii "PACK" ++ (to_be_bytes 2 ++ to_be_bytes (count % 2 ^ 32))

check_head-head : (count : ℕ) (rest : Bytes) → check_head (head count ++ rest) ≡ ok tt
unfolding check_head
check_head-head count rest = rw (lt→ltb 11 (length (head count ++ rest)) (omega arith)) refl

num_objects-head :
    (count : ℕ) (rest : Bytes) → count < 2 ^ 32 → num_objects (head count ++ rest) ≡ count
unfolding num_objects
num_objects-head count rest h = omega arith

ended_Rises :
    (inflate : Bytes → Option (Bytes × ℕ)) (left pos : ℕ) (rest : Bytes) (entries : Entries)
    → parse_entries inflate left pos rest ≡ ok entries
    → Rises pos entries
ended_Rises inflate left pos rest entries e =
    of (parse_entries inflate left pos rest) (parse_entries-Ensures inflate left pos rest) e
  where
    of :
        (r : Outcome Entries)
        → Ensures (λ es. (length es ≡ left) × Rises pos es) r
        → r ≡ ok entries
        → Rises pos entries
    of _ (returned (size, rises)) e = subst (Rises pos) (ok-injective e) rises
    of _ (failed ne) e = absurd (err-ne-ok e)

parse-steps :
    (inflate : Bytes → Option (Bytes × ℕ)) (bytes : Bytes) (entries : Entries)
    (result : ParseResult)
    → check_head bytes ≡ ok tt
    → parse_entries inflate (num_objects bytes) 12 (drop 12 bytes) ≡ ok entries
    → resolve_all
        (length entries)
        0
        entries
        (replicate (length entries) none)
        (record { objects = []; deltas = [] })
      ≡ ok result
    → parse inflate bytes ≡ ok result
unfolding parse
parse-steps inflate bytes entries result h e r = rw (h, e) r

objects_of-steps :
    (steps : List Step) → map object_of steps ≡ map (λ e. e.obj) (map (λ s. s.entry) steps)
objects_of-steps [] = refl
objects_of-steps (s ∷ steps) = ap (λ objs. object_of s ∷ objs) (objects_of-steps steps)

module _ (inflate : Bytes → Option (Bytes × ℕ)) (deflate digest : Bytes → Bytes)
    (codec : IsCodec inflate deflate digest) (bases : List PackObject) where
  -- A head, the bytes of the entries and a trailer are parsed.
  parse-Writes :
      (es : List Entry) (w : Writes inflate deflate digest codec bases [] 12 es) (trailer : Bytes)
      → length es < 2 ^ 32
      → 12 + length w.bytes < 2 ^ 64
      → (result : ParseResult) × (parse inflate (head (length es) ++ (w.bytes ++ trailer))
          ≡ ok result)
        × Recovers digest bases (map object_of w.steps) result.objects result.deltas
  unfolding parse
  parse-Writes es w trailer count low =
      let read = w.parses trailer low in
      let entries = map placed w.steps in
      let none_yet : ParseResult = record { objects = []; deltas = [] } in
      let (objects, deltas, collected, recovers) =
        collect-Recovers digest bases w.steps none_yet w.restored in
      let sizes : (length entries ≡ length w.steps) = length-map placed w.steps in
      let resolved : (resolve_all (length entries) 0 entries (replicate (length entries) none)
            none_yet
          ≡ ok (record { objects = objects; deltas = deltas })) =
        ap (λ (n : ℕ). resolve_all n 0 entries (replicate n none) none_yet) sizes
        ∙ resolve_all-Tabled w.steps [] 12 entries none_yet refl
            (ended_Rises inflate (length es) 12 (w.bytes ++ trailer) entries read) w.tabled
        ∙ collected in
      (
        record { objects = objects; deltas = deltas },
        parse-steps inflate (head (length es) ++ (w.bytes ++ trailer)) entries
            (record { objects = objects; deltas = deltas })
            (check_head-head (length es) (w.bytes ++ trailer))
            (ap (λ (n : ℕ). parse_entries inflate n 12 (w.bytes ++ trailer))
                (num_objects-head (length es) (w.bytes ++ trailer) count)
              ∙ read)
            resolved,
        recovers,
      )

  -- For objects of the four types, no longer than 4 GiB, as the external bases are, fewer than 2^32, and
  -- whose packfile stays below 2^64 bytes, with zlib and SHA-1 as they are documented: build_with_bases
  -- does not panic, and parse reads from the packfile that it writes, behind one another in the order of
  -- the sort, all objects and nothing else, each in full, or as deltas that give it from an external base
  -- of its type, which is named by its SHA.
  pub parse-build_with_bases :
      (objects : List PackObject)
      → All Fits bases
      → All IsStorable objects
      → length objects < 2 ^ 32
      → ((pack : Bytes)
          → build_with_bases deflate digest objects bases ≡ ok pack
          → length pack < 2 ^ 64)
      → (pack : Bytes) × (result : ParseResult) × (build_with_bases deflate digest objects bases
          ≡ ok pack)
        × (parse inflate pack ≡ ok result)
        × Recovers digest bases (sort_objects objects) result.objects result.deltas
  unfolding build_with_bases
  parse-build_with_bases objects bases_fit storable few fits =
      let (es, plan, same, can, after) =
        plan_entries-PlannedAfter digest bases (sort_objects objects) [] bases_fit tt
          (sort_objects-All IsStorable objects storable) in
      let w = entries-Writes inflate deflate digest codec bases es [] 12 can tt after in
      let out = head (length es) ++ w.bytes in
      let pack = out ++ digest out in
      let built : (build_with_bases deflate digest objects bases ≡ ok pack) =
        rw (plan, w.writes (head (length es)) (omega arith)) refl in
      let (result, parsed, recovers) =
        parse-Writes es w (digest out)
          (omega (
            arith,
            few,
            ap length same,
            length-map (λ (e : Entry). e.obj) es,
            length-sort_objects objects,
          ))
          (omega (arith, fits pack built, length-append out (digest out))) in
      (
        pack,
        result,
        built,
        ap (parse inflate) (append_assoc (head (length es)) w.bytes (digest out)) ∙ parsed,
        subst (λ objs. Recovers digest bases objs result.objects result.deltas)
            (objects_of-steps w.steps ∙ ap (map (λ e. e.obj)) w.entries_of ∙ same) recovers,
      )

-- What is recovered without external bases is the objects.
Recovers-nil :
    (digest : Bytes → Bytes) (objs objects : List PackObject) (deltas : List UnresolvedDelta)
    → Recovers digest [] objs objects deltas
    → ◌≡◌ {A = ParseResult}
        (record { objects = objects; deltas = deltas })
        (record { objects = objs; deltas = [] })
Recovers-nil digest _ _ _ nothing = refl
Recovers-nil digest _ _ _ (in_full {obj = obj} rest) =
    ap (λ (r : ParseResult). record { objects = obj ∷ r.objects; deltas = r.deltas })
      (Recovers-nil digest _ _ _ rest)
Recovers-nil digest _ _ _ (as_delta among same applies rest) = elim among [ ]

-- For objects of the four types, no longer than 4 GiB, fewer than 2^32, and whose packfile stays below
-- 2^64 bytes, with zlib and SHA-1 as they are documented: build does not panic, and parse reads from
-- the packfile that it writes exactly the objects, in another order, that of the sort, with no delta left.
pub parse-build :
    (inflate : Bytes → Option (Bytes × ℕ)) (deflate digest : Bytes → Bytes)
    → IsCodec inflate deflate digest
    → (objects : List PackObject) → All IsStorable objects
    → length objects < 2 ^ 32
    → ((pack : Bytes) → build deflate digest objects ≡ ok pack → length pack < 2 ^ 64)
    → (pack : Bytes) × (build deflate digest objects ≡ ok pack)
      × (parse inflate pack ≡ ok (record { objects = sort_objects objects; deltas = [] }))
      × Perm (sort_objects objects) objects
unfolding build
parse-build inflate deflate digest codec objects storable few fits =
    let (pack, result, built, parsed, recovers) =
      parse-build_with_bases inflate deflate digest codec [] objects tt storable few fits in
    (
      pack,
      built,
      parsed
          ∙ ap ok
              (Recovers-nil digest (sort_objects objects) result.objects result.deltas recovers),
      sort_objects-Perm objects,
    )
