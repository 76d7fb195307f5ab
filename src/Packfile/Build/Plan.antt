-- ===== src/Packfile/Build/Plan.antt =====
-- The bases that `build_with_bases` chooses: each delta rebuilds its object from its base.
use near_git_storage.Prelude.{
  ℕ, zero, suc, ◌+◌, ◌*◌, ◌/◌, ◌<◌, ltb, ltb→lt, ◌≤◌, ◌^◌, ◌≡◌, refl, ap, subst, ◌∙◌, arith, List,
  [], ◌∷◌, ◌++◌, Option, none, some, Bool-cases, inl, inr, ok, length, All, All-append, Among, here,
  there, none-ne-some,
}
use near_git_storage.Text.{text_eq}
use near_git_storage.Text.Laws.{text_eq→≡}
use near_git_storage.Packfile.{Bytes}
use near_git_storage.Packfile.Delta.{apply_delta}
use near_git_storage.Packfile.ComputeDelta.{compute_delta}
use near_git_storage.Packfile.ComputeDelta.RoundTrip.{apply_delta-compute_delta}
use near_git_storage.Packfile.Parse.{PackObject, sha1}
use near_git_storage.Packfile.Build.Sort.{if-case, sort_objects-All}
use near_git_storage.Packfile.Build.{
  Base, no_base, ref_base, ofs_base, is_better, Entry, try_base, sort_objects, last_by_type,
  try_ofs, try_refs, plan_entry, plan_entries,
}

-- An object of at most 4 GiB.
abbrev pub Fits : PackObject → Type 0
Fits obj = length obj.data_bytes ≤ 2 ^ 32

-- A delta gives the object from this base, which has the object's type, and is shorter than the object.
pub record Rebuilds (obj base : PackObject) (delta : Bytes) : Type 0 where
  pub same_type : base.obj_type ≡ obj.obj_type
  pub applied : apply_delta base.data_bytes delta ≡ ok obj.data_bytes
  pub shorter : length delta < length obj.data_bytes

abbrev pub object_at : ℕ → List Entry → Option PackObject
object_at idx [] = none
object_at zero (e ∷ entries) = some e.obj
object_at (suc idx) (e ∷ entries) = object_at idx entries

-- A chosen base is one of the external objects under its SHA, or an earlier entry.
pub data IsChosen (digest : Bytes → Bytes) (bases : List PackObject) (entries : List Entry)
    (obj : PackObject) : Base → Type 0 where
  whole_object : IsChosen digest bases entries obj no_base
  on_external :
      {base : PackObject} {delta : Bytes}
      → Among base bases
      → Rebuilds obj base delta
      → IsChosen digest bases entries obj (ref_base (sha1 digest base) delta)
  on_entry :
      {idx : ℕ} {base : PackObject} {delta : Bytes}
      → object_at idx entries ≡ some base
      → Rebuilds obj base delta
      → IsChosen digest bases entries obj (ofs_base idx delta)

computed-Rebuilds :
    (obj base : PackObject)
    → Fits obj
    → Fits base
    → base.obj_type ≡ obj.obj_type
    → length (compute_delta base.data_bytes obj.data_bytes) < length obj.data_bytes * 9 / 10
    → Rebuilds obj base (compute_delta base.data_bytes obj.data_bytes)
computed-Rebuilds obj base fits fits' same short = record {
  same_type = same;
  applied = apply_delta-compute_delta base.data_bytes obj.data_bytes fits' (omega arith);
  shorter = omega (arith, short);
}

-- An entry of the type with its object, or none.
abbrev Found : (ℕ → Option PackObject) → Bytes → Option (ℕ × PackObject) → Type 0
Found at obj_type none = Unit
Found at obj_type (some (idx, b)) = (at idx ≡ some b) × (b.obj_type ≡ obj_type)

last_by_type-Found :
    (at : ℕ → Option PackObject) (obj_type : Bytes) (i : ℕ) (rest : List Entry)
    (found : Option (ℕ × PackObject))
    → ((k : ℕ) (b : PackObject) → object_at k rest ≡ some b → at (i + k) ≡ some b)
    → Found at obj_type found
    → Found at obj_type (last_by_type obj_type i rest found)
unfolding last_by_type
last_by_type-Found at obj_type i [] found h f = f
last_by_type-Found at obj_type i (e ∷ rest) found h f =
    last_by_type-Found at obj_type (i + 1) rest _
      (λ k b q. ap at {x = i + 1 + k} {y = i + suc k} (omega arith) ∙ h (suc k) b q)
      (elim (Bool-cases (text_eq e.obj.obj_type obj_type)) [
        | inl same ↦ rw same (
          ap at {x = i} {y = i + 0} (omega arith) ∙ h 0 e.obj refl,
          text_eq→≡ e.obj.obj_type obj_type same,
        )
        | inr other ↦ rw other f
      ])

some_injective : {a b : PackObject} → ◌≡◌ {A = Option PackObject} (some a) (some b) → a ≡ b
some_injective h = cc

object_at-Fits :
    (entries : List Entry) (idx : ℕ) {b : PackObject}
    → All (λ e. Fits e.obj) entries
    → object_at idx entries ≡ some b
    → Fits b
object_at-Fits [] idx all e = absurd (none-ne-some e)
object_at-Fits (e ∷ entries) zero (fits, all) q = subst Fits (some_injective q) fits
object_at-Fits (e ∷ entries) (suc idx) (fits, all) q = object_at-Fits entries idx all q

module _ (digest : Bytes → Bytes) (bases : List PackObject) (entries : List Entry) where
  -- The candidate is taken only where its delta is short.
  try_base-IsChosen :
      (obj base : PackObject) (made : Bytes → Base) (best : Base)
      → (length (compute_delta base.data_bytes obj.data_bytes) < length obj.data_bytes * 9 / 10
          → IsChosen digest bases entries obj (made (compute_delta base.data_bytes obj.data_bytes)))
      → IsChosen digest bases entries obj best
      → IsChosen digest bases entries obj (try_base obj base made best)
  unfolding try_base
  try_base-IsChosen obj base made best h h' =
      let delta = compute_delta base.data_bytes obj.data_bytes in
      elim (Bool-cases (ltb (length delta) (length obj.data_bytes * 9 / 10))) [
        | inl short ↦ rw short (
            if-case (IsChosen digest bases entries obj) (is_better delta best) _ _
              (h (ltb→lt (length delta) (length obj.data_bytes * 9 / 10) short)) h')
        | inr long ↦ rw long h'
      ]

  try_refs-IsChosen :
      (obj : PackObject) (left : List PackObject) (best : Base)
      → Fits obj
      → All Fits left
      → ((b : PackObject) → Among b left → Among b bases)
      → IsChosen digest bases entries obj best
      → IsChosen digest bases entries obj (try_refs digest obj left best)
  unfolding try_refs
  try_refs-IsChosen obj [] best fits all among h = h
  try_refs-IsChosen obj (base ∷ left) best fits (fits', all) among h =
      elim (Bool-cases (text_eq base.obj_type obj.obj_type)) [
        | inl same ↦ rw same (
            try_refs-IsChosen obj left _ fits all (λ b m. among b (there m))
              (try_base-IsChosen obj base (ref_base (sha1 digest base)) best
                (λ short.
                  on_external (among base here)
                    (computed-Rebuilds obj base fits fits' (text_eq→≡ _ _ same) short))
                h))
        | inr other ↦
            rw other (try_refs-IsChosen obj left best fits all (λ b m. among b (there m)) h)
      ]

  try_ofs-IsChosen :
      (obj : PackObject) (found : Option (ℕ × PackObject)) (best : Base)
      → Fits obj
      → All (λ e. Fits e.obj) entries
      → Found (λ k. object_at k entries) obj.obj_type found
      → IsChosen digest bases entries obj best
      → IsChosen digest bases entries obj (try_ofs obj found best)
  unfolding try_ofs
  try_ofs-IsChosen obj none best fits all f h = h
  try_ofs-IsChosen obj (some (idx, prev)) best fits all (at, same) h =
      try_base-IsChosen obj prev (ofs_base idx) best
        (λ short.
          on_entry at
            (computed-Rebuilds obj prev fits (object_at-Fits entries idx all at) same short))
        h

  pub plan_entry-IsChosen :
      (obj : PackObject)
      → Fits obj
      → All Fits bases
      → All (λ e. Fits e.obj) entries
      → IsChosen digest bases entries obj (plan_entry digest bases entries obj).base
  unfolding plan_entry
  plan_entry-IsChosen obj fits bases_fit all =
      try_ofs-IsChosen obj (last_by_type obj.obj_type 0 entries none) _ fits all
        (last_by_type-Found (λ k. object_at k entries) obj.obj_type 0 entries none
          (λ k b e. ap (λ (i : ℕ). object_at i entries) {x = 0 + k} {y = k} (omega arith) ∙ e) tt)
        (try_refs-IsChosen obj bases no_base fits bases_fit (λ b m. m) whole_object)

-- Entries of which each has a base that is chosen from what stands before it.
pub data Planned (digest : Bytes → Bytes) (bases : List PackObject) : List Entry → Type 0 where
  nothing : Planned digest bases []
  one_more :
      {entries : List Entry} {e : Entry}
      → Planned digest bases entries
      → IsChosen digest bases entries e.obj e.base
      → Planned digest bases (entries ++ (e ∷ []))

plan_entries-Planned :
    (digest : Bytes → Bytes) (bases : List PackObject) (entries : List Entry)
    (objects : List PackObject)
    → All Fits bases
    → All (λ e. Fits e.obj) entries
    → All Fits objects
    → Planned digest bases entries
    → Planned digest bases (plan_entries digest bases entries objects)
unfolding plan_entries plan_entry
plan_entries-Planned digest bases entries [] bases_fit all fit h = h
plan_entries-Planned digest bases entries (obj ∷ objects) bases_fit all (fits, fit) h =
    plan_entries-Planned digest bases (entries ++ (plan_entry digest bases entries obj ∷ []))
      objects bases_fit
      (All-append (λ e. Fits e.obj) entries (plan_entry digest bases entries obj ∷ []) all
        (fits, tt))
      fit (one_more h (plan_entry-IsChosen digest bases entries obj fits bases_fit all))

-- Where no object and no external base is longer than 4 GiB, each entry that build_with_bases plans is
-- a whole object, or has a base of the same type, external or an earlier entry, from which its delta,
-- shorter than the object, rebuilds the object.
pub plan_entries-sort_objects :
    (digest : Bytes → Bytes) (bases objects : List PackObject)
    → All Fits bases
    → All Fits objects
    → Planned digest bases (plan_entries digest bases [] (sort_objects objects))
plan_entries-sort_objects digest bases objects bases_fit fit =
    plan_entries-Planned digest bases [] (sort_objects objects) bases_fit tt
      (sort_objects-All Fits objects fit) nothing
