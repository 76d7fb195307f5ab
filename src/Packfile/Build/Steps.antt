-- ===== src/Packfile/Build/Steps.antt =====
-- The entries that `build_with_bases` of git-core/src/packfile.rs writes, with what `parse` makes of each.
use near_git_storage.Prelude.{
  ℕ, zero, suc, ◌+◌, ◌<◌, ◌≡◌, refl, ap, subst, arith, List, [], ◌∷◌, ◌++◌, Option, none, some, ok,
  map, length, get_elem?, All, none-ne-some, some-injective, Among,
}
use near_git_storage.Packfile.{Bytes}
use near_git_storage.Packfile.Chains.{Applies}
use near_git_storage.Packfile.Parse.{
  PackObject, sha1, ParsedEntry, Resolution, whole, external, pos_to_idx, entry_at, Cache, cached,
  store,
}
use near_git_storage.Packfile.Parse.Reads.{Rises}
use near_git_storage.Packfile.Parse.Ends.{pos_to_idx-before}
use near_git_storage.Packfile.Build.{Entry, position_at}
use near_git_storage.Packfile.Build.Plan.{object_at}

-- An entry of the plan, where it starts, what it is read as, and what that resolves to.
pub record Step : Type 0 where
  pub entry : Entry
  pub start : ℕ
  pub parsed : ParsedEntry
  pub resolved : Resolution

abbrev pub placed : Step → ℕ × ParsedEntry
placed s = (s.start, s.parsed)

abbrev pub resolved_of : Step → Option Resolution
resolved_of s = some s.resolved

-- A resolution that gives an object: the object itself, or deltas from one of the external bases, named
-- by its SHA.
pub data Restores (digest : Bytes → Bytes) (bases : List PackObject) (obj : PackObject)
    : Resolution → Type 0 where
  itself : Restores digest bases obj (whole obj)
  from_base :
      {base : PackObject} {delta : Bytes} {deltas : List Bytes}
      → Among base bases
      → base.obj_type ≡ obj.obj_type
      → Applies base.data_bytes (delta ∷ deltas) obj.data_bytes
      → Restores digest bases obj (external (sha1 digest base) (delta ∷ deltas))

module _ {ℓ} {A : Type ℓ} where
  pub get_elem?-append_left :
      (xs ys : List A) (i : ℕ) {x : A} → get_elem? xs i ≡ some x → get_elem? (xs ++ ys) i ≡ some x
  get_elem?-append_left [] ys i e = absurd (none-ne-some e)
  get_elem?-append_left (y ∷ xs) ys zero e = e
  get_elem?-append_left (y ∷ xs) ys (suc i) e = get_elem?-append_left xs ys i e

  pub All-get_elem? {κ} :
      (P : A → Type κ) (xs : List A) (i : ℕ) {x : A} → All P xs → get_elem? xs i ≡ some x → P x
  All-get_elem? P [] i all e = absurd (none-ne-some e)
  All-get_elem? P (y ∷ xs) zero (p, all) e = subst P (some-injective e) p
  All-get_elem? P (y ∷ xs) (suc i) (p, all) e = All-get_elem? P xs i all e

  pub get_elem?-bound : (xs : List A) (i : ℕ) {x : A} → get_elem? xs i ≡ some x → i < length xs
  get_elem?-bound [] i e = absurd (none-ne-some e)
  get_elem?-bound (y ∷ xs) zero e = omega arith
  get_elem?-bound (y ∷ xs) (suc i) e = omega (arith, get_elem?-bound xs i e)

-- The step of an entry with this object.
pub object_at-step :
    (steps : List Step) (idx : ℕ) {base : PackObject}
    → object_at idx (map (λ s. s.entry) steps) ≡ some base
    → (s : Step) × (get_elem? steps idx ≡ some s) × (s.entry.obj ≡ base)
object_at-step [] idx e = absurd (none-ne-some e)
object_at-step (s ∷ steps) zero e = (s, refl, some-injective e)
object_at-step (s ∷ steps) (suc idx) e = object_at-step steps idx e

pub position_at-step :
    (steps : List Step) (more : List ℕ) (idx : ℕ) {s : Step}
    → get_elem? steps idx ≡ some s
    → position_at idx (map (λ t. t.start) steps ++ more) ≡ ok s.start
unfolding position_at
position_at-step [] more idx e = absurd (none-ne-some e)
position_at-step (t ∷ steps) more zero e = ap (λ (s : Step). ok s.start) (some-injective e)
position_at-step (t ∷ steps) more (suc idx) e = position_at-step steps more idx e

pub entry_at-length :
    (steps rest : List Step) (s : Step)
    → entry_at (length steps) (map placed (steps ++ (s ∷ rest))) ≡ some s.parsed
unfolding entry_at
entry_at-length [] rest s = refl
entry_at-length (t ∷ steps) rest s = entry_at-length steps rest s

-- The index behind the start of a step.
pub pos_to_idx-step :
    (steps : List Step) (lo i idx : ℕ) {s : Step}
    → Rises lo (map placed steps)
    → get_elem? steps idx ≡ some s
    → pos_to_idx (map placed steps) i s.start ≡ some (i + idx)
unfolding pos_to_idx
pos_to_idx-step [] lo i idx rises e = absurd (none-ne-some e)
pos_to_idx-step (t ∷ steps) lo i zero {s} (from, rises) e =
    let same : (t.start ≡ s.start) = ap (λ (u : Step). u.start) (some-injective e) in
    rw (pos_to_idx-before (map placed steps) (t.start + 1) (i + 1) s.start rises (omega arith))
      (ground arith)
pos_to_idx-step (t ∷ steps) lo i (suc idx) {s} (from, rises) e =
    rw (pos_to_idx-step steps (t.start + 1) (i + 1) idx rises e) (ap {A = ℕ} some (omega arith))

-- The cache once some steps are resolved and `left` is not.
abbrev pub cache_of : List Step → Cache → Cache
cache_of steps left = map resolved_of steps ++ left

pub cached-step :
    (steps : List Step) (left : Cache) (idx : ℕ) {s : Step}
    → get_elem? steps idx ≡ some s
    → cached idx (cache_of steps left) ≡ ok (some s.resolved)
unfolding cached
cached-step [] left idx e = absurd (none-ne-some e)
cached-step (t ∷ steps) left zero e = ap ok (ap resolved_of (some-injective e))
cached-step (t ∷ steps) left (suc idx) e = cached-step steps left idx e

pub cached-length :
    (steps : List Step) (left : Cache)
    → cached (length steps) (cache_of steps (none ∷ left)) ≡ ok none
unfolding cached
cached-length [] left = refl
cached-length (t ∷ steps) left = cached-length steps left

pub store-length :
    (steps : List Step) (s : Step) (left : Cache)
    → store (length steps) s.resolved (cache_of steps (none ∷ left))
      ≡ cache_of (steps ++ (s ∷ [])) left
unfolding store
store-length [] s left = refl
store-length (t ∷ steps) s left = ap (λ c. some t.resolved ∷ c) (store-length steps s left)
