-- ===== src/Packfile/Parse/Resolve.antt =====
-- What an entry of a packfile resolves to.
use near_git_storage.Prelude.{
  ℕ, zero, suc, ◌≡◌, refl, sym, ap, subst, List, [], ◌∷◌, ◌++◌, Option, none, some, ◌⊎◌, inl, inr,
  ok, err, >>=-eq-ok, ok-injective, err-ne-ok,
}
use near_git_storage.Packfile.{Bytes, Outcome, panic, index_out_of_range}
use near_git_storage.Packfile.Delta.{apply_delta}
use near_git_storage.Packfile.Parse.{
  PackObject, UnresolvedDelta, ParsedEntry, object, ref_delta, ofs_delta, Entries, Resolution,
  whole, external, pos_to_idx, entry_at, Cache, cached, store, stack_delta, base_or_error,
  resolve_entry, resolve,
}

-- What the format says that an entry stands for, given those before it.
pub data Resolves (entries : Entries) : ℕ → Resolution → Type 0 where
  from_object :
      {idx : ℕ} {obj : PackObject}
      → entry_at idx entries ≡ some (object obj)
      → Resolves entries idx (whole obj)
  from_ref :
      {idx : ℕ} {d : UnresolvedDelta}
      → entry_at idx entries ≡ some (ref_delta d)
      → Resolves entries idx (external d.base_sha (d.delta_data ∷ []))
  applied :
      {idx base_pos base_idx : ℕ} {delta_data resolved : Bytes} {base_obj : PackObject}
      → entry_at idx entries ≡ some (ofs_delta base_pos delta_data)
      → pos_to_idx entries 0 base_pos ≡ some base_idx
      → Resolves entries base_idx (whole base_obj)
      → apply_delta base_obj.data_bytes delta_data ≡ ok resolved
      → Resolves entries idx
          (whole (record { obj_type = base_obj.obj_type; data_bytes = resolved }))
  chained :
      {idx base_pos base_idx : ℕ} {delta_data base_sha : Bytes} {deltas : List Bytes}
      → entry_at idx entries ≡ some (ofs_delta base_pos delta_data)
      → pos_to_idx entries 0 base_pos ≡ some base_idx
      → Resolves entries base_idx (external base_sha deltas)
      → Resolves entries idx (external base_sha (deltas ++ (delta_data ∷ [])))

-- The ways in which a cache is read.
pub cached-cases :
    (idx : ℕ) (cache : Cache)
    → (cached idx cache ≡ err (panic index_out_of_range))
      ⊎ ((cached idx cache ≡ ok none) ⊎ ((r : Resolution) × (cached idx cache ≡ ok (some r))))
unfolding cached
cached-cases idx [] = inl refl
cached-cases zero (none ∷ cache) = inr (inl refl)
cached-cases zero (some r ∷ cache) = inr (inr (r, refl))
cached-cases (suc idx) (r ∷ cache) = cached-cases idx cache

-- A cache that holds only what the entries resolve to.
abbrev pub IsSound : Entries → Cache → Type 0
IsSound entries cache =
    (idx : ℕ) (r : Resolution) → cached idx cache ≡ ok (some r) → Resolves entries idx r

cached-store :
    (i j : ℕ) (r : Resolution) (cache : Cache) {r' : Resolution}
    → cached j (store i r cache) ≡ ok (some r')
    → ((j ≡ i) × (r ≡ r')) ⊎ (cached j cache ≡ ok (some r'))
unfolding cached store
cached-store i j r [] e = inr e
cached-store zero zero r (old ∷ cache) e = inl (refl, cc)
cached-store zero (suc j) r (old ∷ cache) e = inr e
cached-store (suc i) zero r (old ∷ cache) e = inr e
cached-store (suc i) (suc j) r (old ∷ cache) e = elim (cached-store i j r cache e) [
  | inl (same, q) ↦ inl (ap suc same, q)
  | inr other ↦ inr other
]

store-IsSound :
    (entries : Entries) (i : ℕ) (r : Resolution) (cache : Cache)
    → IsSound entries cache
    → Resolves entries i r
    → IsSound entries (store i r cache)
store-IsSound entries i r cache sound h j r' e = elim (cached-store i j r cache e) [
  | inl (same, q) ↦ subst (λ k. Resolves entries k r') (sym same) (subst (Resolves entries i) q h)
  | inr other ↦ sound j r' other
]

-- The result of a call of `resolve` for an index.
abbrev pub IsResolved : Entries → ℕ → Resolution × Cache → Type 0
IsResolved entries idx (r, cache) = Resolves entries idx r × IsSound entries cache

stack_delta-IsResolved :
    (entries : Entries) (idx base_pos base_idx : ℕ) (delta_data : Bytes)
    (based out : Resolution × Cache)
    → entry_at idx entries ≡ some (ofs_delta base_pos delta_data)
    → pos_to_idx entries 0 base_pos ≡ some base_idx
    → IsResolved entries base_idx based
    → stack_delta delta_data based ≡ ok out
    → IsResolved entries idx out
unfolding stack_delta
stack_delta-IsResolved entries idx base_pos base_idx delta_data (whole obj, cache) out at found
      (h, sound) e =
    let (resolved, a, q) = >>=-eq-ok (apply_delta obj.data_bytes delta_data) _ e in
    subst (IsResolved entries idx) (ok-injective q) (applied at found h a, sound)
stack_delta-IsResolved entries idx base_pos base_idx delta_data (external sha deltas, cache) out at
      found (h, sound) e =
    subst (IsResolved entries idx) (ok-injective e) (chained at found h, sound)

base_or_error-ok :
    (base_pos : ℕ) (found : Option ℕ) {base_idx : ℕ}
    → base_or_error base_pos found ≡ ok base_idx
    → found ≡ some base_idx
base_or_error-ok base_pos none e = absurd (err-ne-ok e)
base_or_error-ok base_pos (some i) e = ap some (ok-injective e)

resolve_entry-IsResolved :
    (again : ℕ → Cache → Outcome (Resolution × Cache)) (entries : Entries) (idx : ℕ)
    (at : Option ParsedEntry) (cache : Cache) (out : Resolution × Cache)
    → ((i : ℕ) (based : Resolution × Cache) → again i cache ≡ ok based → IsResolved entries i based)
    → IsSound entries cache
    → entry_at idx entries ≡ at
    → resolve_entry again entries at cache ≡ ok out
    → IsResolved entries idx out
unfolding resolve_entry
resolve_entry-IsResolved again entries idx none cache out h sound at e = absurd (err-ne-ok e)
resolve_entry-IsResolved again entries idx (some (object obj)) cache out h sound at e =
    subst (IsResolved entries idx) (ok-injective e) (from_object at, sound)
resolve_entry-IsResolved again entries idx (some (ref_delta d)) cache out h sound at e =
    subst (IsResolved entries idx) (ok-injective e) (from_ref at, sound)
resolve_entry-IsResolved again entries idx (some (ofs_delta pos delta_data)) cache out h sound at
      e =
    let (base_idx, found, e₁) = >>=-eq-ok (base_or_error pos (pos_to_idx entries 0 pos)) _ e in
    let (based, called, e₂) = >>=-eq-ok (again base_idx cache) _ e₁ in
    stack_delta-IsResolved entries idx pos base_idx delta_data based out at
      (base_or_error-ok pos (pos_to_idx entries 0 pos) found) (h base_idx based called) e₂

-- From a cache that holds only what the entries resolve to, a call that succeeds gives what its entry
-- resolves to, and leaves such a cache.
pub resolve-IsResolved :
    (fuel : ℕ) (entries : Entries) (idx : ℕ) (cache : Cache) (out : Resolution × Cache)
    → IsSound entries cache
    → resolve fuel entries idx cache ≡ ok out
    → IsResolved entries idx out
unfolding resolve
resolve-IsResolved zero entries idx cache out sound e = absurd (err-ne-ok e)
resolve-IsResolved (suc fuel) entries idx cache out sound e = elim (cached-cases idx cache) [
  | inl out_of_range ↦ absurd (err-ne-ok (rw (out_of_range, resolve) at e))
  | inr (inr (r, hit)) ↦
      subst (IsResolved entries idx) (ok-injective (rw (hit, resolve) at e))
        (sound idx r hit, sound)
  | inr (inl miss) ↦
      let (resolved, called, e₁) =
        >>=-eq-ok (resolve_entry (resolve fuel entries) entries (entry_at idx entries) cache) _
          (rw (miss, resolve) at e) in
      let (h, sound') =
        resolve_entry-IsResolved (resolve fuel entries) entries idx (entry_at idx entries) cache
          resolved (λ i based. resolve-IsResolved fuel entries i cache based sound) sound refl
          called in
      subst (IsResolved entries idx) (ok-injective e₁)
        (h, store-IsSound entries idx resolved.0 resolved.1 sound' h)
]
