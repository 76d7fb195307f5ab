-- ===== src/Packfile/Build/Parsed.antt =====
-- What the resolutions of planned entries add up to (git-core/src/packfile.rs).
use near_git_storage.Prelude.{
  ◌≡◌, refl, sym, ap, ◌∙◌, List, [], ◌∷◌, ◌++◌, ok, map, append_assoc, append-nil, All, All-append,
  Among,
}
use near_git_storage.Hex.{Bytes}
use near_git_storage.Packfile.Chains.{Applies}
use near_git_storage.Packfile.Parse.{
  PackObject, UnresolvedDelta, Resolution, ParseResult, sha1, add_resolution,
}
use near_git_storage.Packfile.Parse.Results.{collect}
use near_git_storage.Packfile.Build.{Entry, plan_entry, plan_entries}
use near_git_storage.Packfile.Build.Plan.{Fits, plan_entry-IsChosen}
use near_git_storage.Packfile.Build.Steps.{Step, Restores, itself, from_base}
use near_git_storage.Packfile.Build.Table.{resolutions}
use near_git_storage.Packfile.Build.RoundTrip.{PlannedAfter, planned, then_one, IsStorable}

-- What a result of `parse` holds for a list of objects, in its order: each object in full, or as deltas
-- that give it, applied one after the other, from an external base of its type, named by its SHA.
pub data Recovers (digest : Bytes → Bytes) (bases : List PackObject)
    : List PackObject → List PackObject → List UnresolvedDelta → Type 0 where
  nothing : Recovers digest bases [] [] []
  in_full :
      {obj : PackObject} {rest objects : List PackObject} {deltas : List UnresolvedDelta}
      → Recovers digest bases rest objects deltas
      → Recovers digest bases (obj ∷ rest) (obj ∷ objects) deltas
  as_delta :
      {obj base : PackObject} {delta : Bytes} {chain : List Bytes} {rest objects : List PackObject}
      {deltas : List UnresolvedDelta}
      → Among base bases
      → base.obj_type ≡ obj.obj_type
      → Applies base.data_bytes (delta ∷ chain) obj.data_bytes
      → Recovers digest bases rest objects deltas
      → Recovers digest bases
          (obj ∷ rest)
          objects
          (record { base_sha = sha1 digest base; delta_data = delta; chain = chain } ∷ deltas)

abbrev pub object_of : Step → PackObject
object_of s = s.entry.obj

-- A result that has more behind what it had.
abbrev extended : ParseResult → List PackObject → List UnresolvedDelta → ParseResult
extended result objects deltas = record {
  objects = result.objects ++ objects;
  deltas = result.deltas ++ deltas;
}

module _ (digest : Bytes → Bytes) (bases : List PackObject) where
  -- What is collected of an object and of those behind it.
  collect-step :
      (obj : PackObject) (r : Resolution) (rest : List PackObject) (rs : List Resolution)
      (result : ParseResult)
      → Restores digest bases obj r
      → ((result' : ParseResult)
          → (objects : List PackObject) × (deltas : List UnresolvedDelta) × (collect rs result'
              ≡ ok (extended result' objects deltas))
            × Recovers digest bases rest objects deltas)
      → (objects : List PackObject) × (deltas : List UnresolvedDelta) × (collect (r ∷ rs) result
          ≡ ok (extended result objects deltas))
        × Recovers digest bases (obj ∷ rest) objects deltas
  unfolding add_resolution
  collect-step obj _ rest rs result itself behind =
      let (objects, deltas, e, recovers) =
        behind (record result { objects = result.objects ++ (obj ∷ []) }) in
      (
        obj ∷ objects,
        deltas,
        e
            ∙ ap (λ objs. ok (record { objects = objs; deltas = result.deltas ++ deltas }))
                (append_assoc result.objects (obj ∷ []) objects),
        in_full recovers,
      )
  collect-step obj _ rest rs result
        (from_base {base = base} {delta = delta} {deltas = chain} among same applies) behind =
      let new : UnresolvedDelta = record {
        base_sha = sha1 digest base;
        delta_data = delta;
        chain = chain;
      } in
      let (objects, deltas, e, recovers) =
        behind (record result { deltas = result.deltas ++ (new ∷ []) }) in
      (
        objects,
        new ∷ deltas,
        e
            ∙ ap (λ ds. ok (record { objects = result.objects ++ objects; deltas = ds }))
                (append_assoc result.deltas (new ∷ []) deltas),
        as_delta among same applies recovers,
      )

  pub collect-Recovers :
      (steps : List Step) (result : ParseResult)
      → All (λ s. Restores digest bases s.entry.obj s.resolved) steps
      → (objects : List PackObject) × (deltas : List UnresolvedDelta) × (collect
            (resolutions steps)
            result
          ≡ ok (extended result objects deltas))
        × Recovers digest bases (map object_of steps) objects deltas
  collect-Recovers [] result all = (
    [],
    [],
    ap ok (λ i. record {
      objects = sym (append-nil result.objects) i;
      deltas = sym (append-nil result.deltas) i;
    }),
    nothing,
  )
  collect-Recovers (s ∷ steps) result (restores, all) =
      collect-step s.entry.obj s.resolved (map object_of steps) (resolutions steps) result restores
        λ result'. collect-Recovers steps result' all

  -- The plan for objects behind entries that are planned.
  pub plan_entries-PlannedAfter :
      (objects : List PackObject) (earlier : List Entry)
      → All Fits bases
      → All (λ e. Fits e.obj) earlier
      → All IsStorable objects
      → (es : List Entry) × (plan_entries digest bases earlier objects ≡ earlier ++ es)
        × (map (λ e. e.obj) es ≡ objects)
        × All (λ e. IsStorable e.obj) es
        × PlannedAfter digest bases earlier es
  unfolding plan_entries plan_entry
  plan_entries-PlannedAfter [] earlier bases_fit all storable =
      ([], sym (append-nil earlier), refl, tt, planned)
  plan_entries-PlannedAfter (obj ∷ objects) earlier bases_fit all ((git, fits), storable) =
      let e = plan_entry digest bases earlier obj in
      let (es, planned_as, same, can, after) =
        plan_entries-PlannedAfter objects (earlier ++ (e ∷ [])) bases_fit
          (All-append (λ d. Fits d.obj) earlier (e ∷ []) all (fits, tt)) storable in
      (
        e ∷ es,
        planned_as ∙ append_assoc earlier (e ∷ []) es,
        ap (λ objs. obj ∷ objs) same,
        ((git, fits), can),
        then_one (plan_entry-IsChosen digest bases earlier obj fits bases_fit all) after,
      )
