-- ===== src/Packfile/Build/Table.antt =====
-- The second pass of `parse` of git-core/src/packfile.rs over entries whose bases are earlier entries.
use near_git_storage.Prelude.{
  ℕ, zero, suc, ◌+◌, ◌<◌, ◌≡◌, refl, sym, ap, subst, ◌∙◌, arith, List, [], ◌∷◌, ◌++◌, none, some,
  ok, ◌>>=◌, map, length, length-append, get_elem?, append_assoc, replicate, fun_ext,
}
use near_git_storage.Packfile.{Bytes, Outcome}
use near_git_storage.Packfile.Parse.{
  PackObject, UnresolvedDelta, ParseResult, ParsedEntry, object, ref_delta, ofs_delta, Entries,
  Resolution, whole, external, pos_to_idx, Cache, cached, stack_delta, resolve_entry, resolve,
  add_resolution, resolve_all,
}
use near_git_storage.Packfile.Parse.Reads.{Rises}
use near_git_storage.Packfile.Parse.Results.{collect}
use near_git_storage.Packfile.Build.Steps.{
  Step, placed, get_elem?-append_left, get_elem?-bound, entry_at-length, pos_to_idx-step, cache_of,
  cached-step, cached-length, store-length,
}

-- What an entry resolves to behind earlier ones.
pub data IsRead (earlier : List Step) : ParsedEntry → Resolution → Type 0 where
  read_whole : {obj : PackObject} → IsRead earlier (object obj) (whole obj)
  read_ref :
      {d : UnresolvedDelta} → IsRead earlier (ref_delta d) (external d.base_sha (d.delta_data ∷ []))
  read_ofs :
      (idx : ℕ) {s : Step} {delta_data : Bytes} {r : Resolution}
      → get_elem? earlier idx ≡ some s
      → ((cache : Cache) → stack_delta delta_data (s.resolved, cache) ≡ ok (r, cache))
      → IsRead earlier (ofs_delta s.start delta_data) r

pub data Tabled : List Step → List Step → Type 0 where
  no_steps : {earlier : List Step} → Tabled earlier []
  next_step :
      {earlier rest : List Step} {s : Step}
      → IsRead earlier s.parsed s.resolved
      → Tabled (earlier ++ (s ∷ [])) rest
      → Tabled earlier (s ∷ rest)

resolve_entry-IsRead :
    (again : ℕ → Cache → Outcome (Resolution × Cache)) (entries : Entries) (earlier : List Step)
    (parsed : ParsedEntry) (r : Resolution) (cache : Cache)
    → ((idx : ℕ) (s : Step)
        → get_elem? earlier idx ≡ some s
        → (pos_to_idx entries 0 s.start ≡ some idx) × (again idx cache ≡ ok (s.resolved, cache)))
    → IsRead earlier parsed r
    → resolve_entry again entries (some parsed) cache ≡ ok (r, cache)
unfolding resolve_entry
resolve_entry-IsRead again entries earlier _ _ cache h read_whole = refl
resolve_entry-IsRead again entries earlier _ _ cache h read_ref = refl
resolve_entry-IsRead again entries earlier _ _ cache h
      (read_ofs idx {s = s} {delta_data = delta_data} at stacked) =
    let (found, called) = h idx s at in rw (found, called, stacked cache)

resolve_hit :
    (fuel : ℕ) (entries : Entries) (idx : ℕ) (cache : Cache) (r : Resolution)
    → 0 < fuel
    → cached idx cache ≡ ok (some r)
    → resolve fuel entries idx cache ≡ ok (r, cache)
unfolding resolve
resolve_hit zero entries idx cache r h hit = absurd (omega arith)
resolve_hit (suc fuel) entries idx cache r h hit = rw (hit, resolve) refl

resolve-step :
    (fuel lo : ℕ) (earlier rest : List Step) (s : Step) (left : Cache)
    → length earlier < fuel
    → Rises lo (map placed (earlier ++ (s ∷ rest)))
    → IsRead earlier s.parsed s.resolved
    → resolve fuel
        (map placed (earlier ++ (s ∷ rest)))
        (length earlier)
        (cache_of earlier (none ∷ left))
      ≡ ok (s.resolved, cache_of (earlier ++ (s ∷ [])) left)
unfolding resolve
resolve-step zero lo earlier rest s left h rises read = absurd (omega arith)
resolve-step (suc fuel) lo earlier rest s left h rises read =
    let full = earlier ++ (s ∷ rest) in
    let again = resolve fuel (map placed full) in
    let found : ((idx : ℕ) (t : Step)
        → get_elem? earlier idx ≡ some t
        → (pos_to_idx (map placed full) 0 t.start ≡ some idx)
          × (again idx (cache_of earlier (none ∷ left))
              ≡ ok (t.resolved, cache_of earlier (none ∷ left)))) =
      λ idx t at. (
        pos_to_idx-step full lo 0 idx rises (get_elem?-append_left earlier (s ∷ rest) idx at)
            ∙ ap {A = ℕ} some {x = 0 + idx} {y = idx} (omega arith),
        resolve_hit fuel (map placed full) idx (cache_of earlier (none ∷ left)) t.resolved
            (omega (arith, get_elem?-bound earlier idx at))
            (cached-step earlier (none ∷ left) idx at),
      ) in
    rw
      (
        resolve,
        cached-length earlier left,
        entry_at-length earlier rest s,
        resolve_entry-IsRead again (map placed full) earlier s.parsed s.resolved
            (cache_of earlier (none ∷ left)) found read,
        store-length earlier s left,
      )
      refl

pub length-map {ℓ κ} :
    {A : Type ℓ} {B : Type κ} (f : A → B) (xs : List A) → length (map f xs) ≡ length xs
length-map f [] = refl
length-map f (x ∷ xs) = ap suc (length-map f xs)

abbrev pub resolutions : List Step → List Resolution
resolutions steps = map (λ s. s.resolved) steps

-- Over such entries the second pass sorts what they resolve to.
pub resolve_all-Tabled :
    (rest earlier : List Step) (lo : ℕ) (entries : Entries) (result : ParseResult)
    → entries ≡ map placed (earlier ++ rest)
    → Rises lo entries
    → Tabled earlier rest
    → resolve_all
        (length rest)
        (length earlier)
        entries
        (cache_of earlier (replicate (length rest) none))
        result
      ≡ collect (resolutions rest) result
unfolding resolve_all
resolve_all-Tabled [] earlier lo entries result full rises t = refl
resolve_all-Tabled (s ∷ rest) earlier lo entries result full rises (next_step read t) =
    let left = replicate (length rest) none in
    let cache = cache_of earlier (none ∷ left) in
    let cache' = cache_of (earlier ++ (s ∷ [])) left in
    let called : (resolve (length entries) entries (length earlier) cache
        ≡ ok (s.resolved, cache')) =
      rw full (
        resolve-step (length (map placed (earlier ++ (s ∷ rest)))) lo earlier rest s left
          (omega
            (arith, length-map placed (earlier ++ (s ∷ rest)), length-append earlier (s ∷ rest)))
          (subst (Rises lo) full rises) read) in
    let next : ((result' : ParseResult)
        → resolve_all (length rest) (length earlier + 1) entries cache' result'
          ≡ collect (resolutions rest) result') =
      λ result'.
        ap (λ (i : ℕ). resolve_all (length rest) i entries cache' result')
          (omega (arith, length-append earlier (s ∷ [])))
        ∙ resolve_all-Tabled rest (earlier ++ (s ∷ [])) lo entries result'
            (full ∙ ap (map placed) (sym (append_assoc earlier (s ∷ []) rest))) rises t in
    rw called (ap (λ k. add_resolution s.resolved result >>= k) (fun_ext next))
