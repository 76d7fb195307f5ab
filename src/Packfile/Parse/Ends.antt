-- ===== src/Packfile/Parse/Ends.antt =====
-- The second pass of `parse` of git-core/src/packfile.rs ends where every base is an earlier entry.
use near_git_storage.Prelude.{
  ℕ, zero, suc, ◌+◌, ◌<◌, ◌≡◌, refl, sym, subst, ◌∙◌, arith, [], ◌∷◌, Option, none, some,
  Option-cases, ◌==◌, inl, inr, if◌then◌else◌, ok, length, length-append, All, drop, take,
  replicate, none-ne-some, some-injective, ltb, ◌||◌,
}
use near_git_storage.Hex.{Bytes}
use near_git_storage.Text.{ascii, text_eq}
use near_git_storage.Packfile.{Outcome, packfile_too_short, invalid_magic, unsupported_version}
use near_git_storage.Packfile.Ensures.{
  Ensures, returned, failed, Ensures-bind, Ensures-both, Ensures-weaken, guard-Ensures,
}
use near_git_storage.Packfile.Delta.Apply.{apply_delta-Ensures}
use near_git_storage.Packfile.Parse.{
  ParseResult, ParsedEntry, object, ref_delta, ofs_delta, Entries, Resolution, whole, external,
  later_or, pos_to_idx, entry_at, Cache, stack_delta, base_or_error, resolve_entry, resolve,
  add_resolution, resolve_all, check_head, num_objects, parse, parse_entries, from_be_bytes,
}
use near_git_storage.Packfile.Parse.Resolve.{cached-cases}
use near_git_storage.Packfile.Parse.Reads.{Rises, parse_entries-Ensures}

-- The base of a delta by offset starts before the delta: the offset is not 0.
abbrev pub IsBackward : ℕ × ParsedEntry → Type 0
IsBackward (pos, ofs_delta base_pos delta_data) = base_pos < pos
IsBackward _ = Unit {0}

pub later_or-none :
    {later first : Option ℕ} → later ≡ none → first ≡ none → later_or later first ≡ none
later_or-none e e' = rw (e, e') refl

pub pos_to_idx-before :
    (entries : Entries) (lo i base : ℕ)
    → Rises lo entries
    → base < lo
    → pos_to_idx entries i base ≡ none
unfolding pos_to_idx
pos_to_idx-before [] lo i base rises h = refl
pos_to_idx-before ((pos, entry) ∷ entries) lo i base (from, rises) h =
    later_or-none (pos_to_idx-before entries (pos + 1) (i + 1) base rises (omega arith))
      (ground arith)

-- A base that starts before the delta is an entry before it.
pos_to_idx-earlier :
    (entries : Entries) (lo i k base j : ℕ) (delta_data : Bytes)
    → Rises lo entries
    → All IsBackward entries
    → entry_at k entries ≡ some (ofs_delta base delta_data)
    → pos_to_idx entries i base ≡ some j
    → j < i + k
unfolding pos_to_idx entry_at
pos_to_idx-earlier [] lo i k base j d rises back at found = absurd (none-ne-some found)
pos_to_idx-earlier ((pos, entry) ∷ entries) lo i zero base j d (from, rises) (b, back) at found =
    let before : (base < pos) = subst (λ e. IsBackward (pos, e)) (some-injective at) b in
    absurd (
      none-ne-some (
        sym (
          later_or-none (pos_to_idx-before entries (pos + 1) (i + 1) base rises (omega arith))
            (ground arith))
        ∙ found))
pos_to_idx-earlier ((pos, entry) ∷ entries) lo i (suc k) base j d (from, rises) (b, back) at found =
    elim (Option-cases (pos_to_idx entries (i + 1) base)) [
      | inr (j', later) ↦
          let earlier =
            pos_to_idx-earlier entries (pos + 1) (i + 1) k base j' d rises back at later in
          let same : (j' ≡ j) = some-injective (rw later at found) in omega arith
      | inl first ↦
          let here : ((if pos == base then some i else none) ≡ some j) = rw first at found in
          ground arith
    ]

stack_delta-Ensures :
    (delta_data : Bytes) (based : Resolution × Cache)
    → Ensures (λ (out : Resolution × Cache). Unit {0}) (stack_delta delta_data based)
unfolding stack_delta
stack_delta-Ensures delta_data (whole base_obj, cache) =
    Ensures-bind _ _ (apply_delta-Ensures base_obj.data_bytes delta_data) λ resolved h. returned tt
stack_delta-Ensures delta_data (external base_sha deltas, cache) = returned tt

base_or_error-Ensures :
    (base_pos : ℕ) (found : Option ℕ)
    → Ensures (λ base_idx. found ≡ some base_idx) (base_or_error base_pos found)
base_or_error-Ensures base_pos none = failed (λ e. cc)
base_or_error-Ensures base_pos (some base_idx) = returned refl

resolve_entry-Ensures :
    (again : ℕ → Cache → Outcome (Resolution × Cache)) (entries : Entries) (lo idx : ℕ)
    (at : Option ParsedEntry) (cache : Cache)
    → Rises lo entries
    → All IsBackward entries
    → ((i : ℕ) → i < idx → Ensures (λ (out : Resolution × Cache). Unit {0}) (again i cache))
    → entry_at idx entries ≡ at
    → Ensures (λ (out : Resolution × Cache). Unit {0}) (resolve_entry again entries at cache)
unfolding resolve_entry
resolve_entry-Ensures again entries lo idx none cache rises back h at = failed (λ e. cc)
resolve_entry-Ensures again entries lo idx (some (object obj)) cache rises back h at = returned tt
resolve_entry-Ensures again entries lo idx (some (ref_delta d)) cache rises back h at = returned tt
resolve_entry-Ensures again entries lo idx (some (ofs_delta base d)) cache rises back h at =
    Ensures-bind _ _ (base_or_error-Ensures base (pos_to_idx entries 0 base)) λ base_idx found.
      Ensures-bind _ _
        (h base_idx
          (omega (arith, pos_to_idx-earlier entries lo 0 idx base base_idx d rises back at found)))
        λ based _. stack_delta-Ensures d based

-- More calls than the index is high are never nested.
resolve-Ensures :
    (fuel : ℕ) (entries : Entries) (lo idx : ℕ) (cache : Cache)
    → Rises lo entries
    → All IsBackward entries
    → idx < fuel
    → Ensures (λ (out : Resolution × Cache). Unit {0}) (resolve fuel entries idx cache)
unfolding resolve
resolve-Ensures zero entries lo idx cache rises back h = absurd (omega arith)
resolve-Ensures (suc fuel) entries lo idx cache rises back h = elim (cached-cases idx cache) [
  | inl out_of_range ↦ rw (out_of_range, resolve) (failed (λ e. cc))
  | inr (inr (r, hit)) ↦ rw (hit, resolve) (returned tt)
  | inr (inl miss) ↦
      rw (miss, resolve)
        (Ensures-bind _ _
          (resolve_entry-Ensures (resolve fuel entries) entries lo idx (entry_at idx entries) cache
            rises back
            (λ i earlier. resolve-Ensures fuel entries lo i cache rises back (omega arith)) refl)
          λ (r, cache') _. returned tt)
]

-- How many objects and deltas a result has.
abbrev pub count : ParseResult → ℕ
count result = length result.objects + length result.deltas

add_resolution-Ensures :
    (r : Resolution) (result : ParseResult)
    → Ensures (λ result'. count result' ≡ count result + 1) (add_resolution r result)
unfolding add_resolution
add_resolution-Ensures (whole obj) result =
    returned (omega (arith, length-append result.objects (obj ∷ [])))
add_resolution-Ensures (external base_sha []) result = failed (λ e. cc)
add_resolution-Ensures (external base_sha (head ∷ chain)) result = returned (
    omega (
      arith,
      length-append result.deltas
          (record { base_sha = base_sha; delta_data = head; chain = chain } ∷ []),
    ))

resolve_all-Ensures :
    (left i lo : ℕ) (entries : Entries) (cache : Cache) (result : ParseResult)
    → Rises lo entries
    → All IsBackward entries
    → i + left ≡ length entries
    → Ensures
        (λ result'. count result' ≡ count result + left)
        (resolve_all left i entries cache result)
unfolding resolve_all
resolve_all-Ensures zero i lo entries cache result rises back h = returned (omega arith)
resolve_all-Ensures (suc left) i lo entries cache result rises back h =
    Ensures-bind _ _ (resolve-Ensures (length entries) entries lo i cache rises back (omega arith))
      λ (r, cache') _. Ensures-bind _ _ (add_resolution-Ensures r result) λ result' one.
        Ensures-weaken _
          (resolve_all-Ensures left (i + 1) lo entries cache' result' rises back (omega arith))
          λ out more. omega (arith, one, more)

check_head-Ensures : (bytes : Bytes) → Ensures (λ (u : Unit {0}). Unit {0}) (check_head bytes)
unfolding check_head
check_head-Ensures bytes =
    let version = from_be_bytes 0 (take 4 (drop 4 bytes)) in
    Ensures-bind _ _ (guard-Ensures (ltb 11 (length bytes)) packfile_too_short (λ e. cc)) λ _ _.
      Ensures-bind _ _
        (guard-Ensures (text_eq (take 4 bytes) (ascii "PACK")) invalid_magic (λ e. cc))
        λ _ _.
          Ensures-weaken _
            (guard-Ensures ((version == 2) || (version == 3)) (unsupported_version version)
              (λ e. cc))
            λ _ _. tt

-- Where no entry that is read has an offset of 0, so that every base by offset starts before its delta:
-- whatever the bytes are, parse ends by the code's own tests, and no calls of resolve nest deeper than
-- the entries are many. A result that it returns has as many objects and deltas as the head declares.
pub parse-Ensures :
    (inflate : Bytes → Option (Bytes × ℕ)) (bytes : Bytes)
    → ((entries : Entries)
        → parse_entries inflate (num_objects bytes) 12 (drop 12 bytes) ≡ ok entries
        → All IsBackward entries)
    → Ensures (λ result. count result ≡ num_objects bytes) (parse inflate bytes)
unfolding parse
parse-Ensures inflate bytes back = Ensures-bind _ _ (check_head-Ensures bytes) λ _ _.
    Ensures-bind _ _
      (Ensures-both (parse_entries-Ensures inflate (num_objects bytes) 12 (drop 12 bytes)))
      λ entries (read, (size, rises)).
        Ensures-weaken _
          (resolve_all-Ensures (length entries) 0 12 entries (replicate (length entries) none)
            (record { objects = []; deltas = [] }) rises (back entries read) (omega arith))
          λ out h. omega (arith, h, size)
