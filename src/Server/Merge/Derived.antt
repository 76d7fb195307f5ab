-- ===== src/Server/Merge/Derived.antt =====
-- Every object of the merged pack comes from the packs.
use near_git_storage.Prelude.{
  ℕ, zero, suc, ◌≡◌, refl, sym, ap, ◌∙◌, subst, List, [], ◌∷◌, Option, none, some, Option-cases,
  false, Bool-cases, inl, inr, ok, All, All-append, All-map, All-Among, Among, here, there,
  ok-injective, err-ne-ok, >>=-eq-ok, some-injective, none-ne-some,
}
use near_git_storage.Text.{text_eq}
use near_git_storage.Text.Laws.{text_eq→≡}
use near_git_storage.Packfile.{Bytes}
use near_git_storage.Packfile.Parse.{PackObject, UnresolvedDelta, ParseResult, parse, sha1}
use near_git_storage.Packfile.Chains.{Applies}
use near_git_storage.Server.Merge.Applies.{caught-some, apply_all-Applies}
use near_git_storage.Server.Merge.{
  caught, Local, local_get, Merge, apply_all, add_or_drop, keep, retain, resolve_rounds, local_of,
  merge_parsed, merge_packs,
}

module _ (digest : Bytes → Bytes) (IsObject : PackObject → Type 0)
    (IsDelta : UnresolvedDelta → Type 0) where
  -- An object of the packs, or what a delta of the packs makes of the object that it names.
  pub data Derives : PackObject → Type 0 where
    parsed : {obj : PackObject} → IsObject obj → Derives obj
    made :
        {base : PackObject} {delta : UnresolvedDelta} {current : Bytes}
        → Derives base
        → IsDelta delta
        → sha1 digest base ≡ delta.base_sha
        → Applies base.data_bytes (delta.delta_data ∷ delta.chain) current
        → Derives (record { obj_type = base.obj_type; data_bytes = current })

  -- The map has objects under their SHA, each of which comes from the packs.
  abbrev IsKeyed : Bytes × PackObject → Type 0
  IsKeyed entry = (entry.0 ≡ sha1 digest entry.1) × Derives entry.1

  record IsDerived (m : Merge) : Type 0 where
    keyed : All IsKeyed m.local
    objects : All Derives m.all_objects

  local_get-Derives :
      (sha : Bytes) (local : Local) {obj : PackObject}
      → All IsKeyed local
      → local_get sha local ≡ some obj
      → (sha1 digest obj ≡ sha) × Derives obj
  unfolding local_get
  local_get-Derives sha [] h e = absurd (none-ne-some e)
  local_get-Derives sha ((key, obj) ∷ local) ((k, d), h) e = elim (Bool-cases (text_eq key sha)) [
    | inl same ↦
        let q = some-injective (rw same at e) in
        (sym (ap (sha1 digest) q) ∙ sym k ∙ text_eq→≡ key sha same, subst Derives q d)
    | inr other ↦ local_get-Derives sha local h (rw other at e)
  ]

  abbrev IsOut : List UnresolvedDelta × Merge → Type 0
  IsOut (pending, m) = All IsDelta pending × IsDerived m

  add_or_drop-IsDerived :
      (base : PackObject) (delta : UnresolvedDelta) (r : Option Bytes) (m : Merge)
      → Derives base
      → IsDelta delta
      → sha1 digest base ≡ delta.base_sha
      → apply_all delta base.data_bytes ≡ ok r
      → IsDerived m
      → IsDerived (add_or_drop digest base.obj_type r m)
  unfolding add_or_drop
  add_or_drop-IsDerived base delta none m d h same e dm = dm
  add_or_drop-IsDerived base delta (some current) m d h same e dm =
      let new = made d h same (apply_all-Applies delta base.data_bytes current e) in
      record {
        keyed = ((refl, new), dm.keyed);
        objects = All-append Derives m.all_objects _ dm.objects (new, tt);
      }

  retain-IsOut :
      (pending : List UnresolvedDelta) (m : Merge) (out : List UnresolvedDelta × Merge)
      → All IsDelta pending
      → IsDerived m
      → retain digest pending m ≡ ok out
      → IsOut out
  unfolding retain
  retain-IsOut [] m out all d e = subst IsOut (ok-injective e) (tt, d)
  retain-IsOut (delta ∷ pending) m out (h, all) d e =
      elim (Option-cases (local_get delta.base_sha m.local)) [
        | inl missing ↦
            let (out', rest, q) =
              >>=-eq-ok (retain digest pending m) (keep delta) (rw (missing, retain) at e) in
            let (all', d') = retain-IsOut pending m out' all d rest in
            subst IsOut (ok-injective q) ((h, all'), d')
        | inr (base, found) ↦
            let (r, applied, rest) =
              >>=-eq-ok (apply_all delta base.data_bytes) _ (rw (found, retain) at e) in
            let (same, base_derives) = local_get-Derives delta.base_sha m.local d.keyed found in
            retain-IsOut pending (add_or_drop digest base.obj_type r m) out all
              (add_or_drop-IsDerived base delta r m base_derives h same applied d) rest
      ]

  reset-IsDerived : (m : Merge) → IsDerived m → IsDerived (record m { progress = false })
  reset-IsDerived m d = record { keyed = d.keyed; objects = d.objects }

  resolve_rounds-IsOut :
      (fuel : ℕ) (pending : List UnresolvedDelta) (m : Merge) (out : List UnresolvedDelta × Merge)
      → All IsDelta pending
      → IsDerived m
      → resolve_rounds digest fuel pending m ≡ ok out
      → IsOut out
  unfolding resolve_rounds
  resolve_rounds-IsOut fuel [] m out all d e = subst IsOut (ok-injective e) (tt, d)
  resolve_rounds-IsOut zero (delta ∷ pending) m out all d e = elim (Bool-cases m.progress) [
    | inl going ↦ absurd (err-ne-ok (rw going at e))
    | inr done ↦ subst IsOut (ok-injective (rw done at e)) (all, reset-IsDerived m d)
  ]
  resolve_rounds-IsOut (suc fuel) (delta ∷ pending) m out all d e = elim (Bool-cases m.progress) [
    | inr done ↦ subst IsOut (ok-injective (rw done at e)) (all, reset-IsDerived m d)
    | inl going ↦
        let (out', pass, rest) =
          >>=-eq-ok (retain digest (delta ∷ pending) (record m { progress = false })) _
            (rw going at e) in
        let (all', d') =
          retain-IsOut (delta ∷ pending) (record m { progress = false }) out' all
            (reset-IsDerived m d) pass in
        resolve_rounds-IsOut fuel out'.0 out'.1 out all' d' rest
  ]

  local_of-IsKeyed :
      (objects : List PackObject) (local : Local)
      → All Derives objects
      → All IsKeyed local
      → All IsKeyed (local_of digest objects local)
  unfolding local_of
  local_of-IsKeyed [] local h k = k
  local_of-IsKeyed (obj ∷ objects) local (d, h) k =
      local_of-IsKeyed objects ((sha1 digest obj, obj) ∷ local) h ((refl, d), k)

  abbrev IsGiven : Option ParseResult → Type 0
  IsGiven none = Unit
  IsGiven (some result) = All IsObject result.objects × All IsDelta result.deltas

  merge_parsed-Derives :
      (all_objects out : List PackObject) (result : Option ParseResult)
      → All Derives all_objects
      → IsGiven result
      → merge_parsed digest all_objects result ≡ ok out
      → All Derives out
  unfolding merge_parsed
  merge_parsed-Derives all_objects out none h given e = subst (All Derives) (ok-injective e) h
  merge_parsed-Derives all_objects out (some result) h (objects, deltas) e =
      let every =
        All-append Derives all_objects result.objects h
          (All-map result.objects (λ obj o. parsed o) objects) in
      let (rounds, ran, q) = >>=-eq-ok (resolve_rounds digest _ result.deltas _) _ e in
      let (_, d) =
        resolve_rounds-IsOut _ result.deltas _ rounds deltas
          (record { keyed = local_of-IsKeyed _ [] every tt; objects = every }) ran in
      subst (All Derives) (ok-injective q) d.objects

-- An object, and a delta, that stand in one of the packs as `parse` reads it.
module _ (inflate : Bytes → Option (Bytes × ℕ)) (digest : Bytes → Bytes) (packs : List Bytes) where
  abbrev pub InPack : (ParseResult → Type 0) → Type 0
  InPack P =
      (pack : Bytes) × (result : ParseResult) × Among pack packs
      × (parse inflate pack ≡ ok result)
      × P result

  abbrev pub IsPackObject : PackObject → Type 0
  IsPackObject obj = InPack λ result. Among obj result.objects

  abbrev pub IsPackDelta : UnresolvedDelta → Type 0
  IsPackDelta delta = InPack λ result. Among delta result.deltas

  abbrev pub ComesFromPacks : PackObject → Type 0
  ComesFromPacks = Derives digest IsPackObject IsPackDelta

  parse-IsGiven :
      (pack : Bytes) (result : Option ParseResult)
      → Among pack packs
      → caught (parse inflate pack) ≡ ok result
      → IsGiven digest IsPackObject IsPackDelta result
  parse-IsGiven pack none m e = tt
  parse-IsGiven pack (some result) m e =
      let read = caught-some (parse inflate pack) e in
      (
        All-Among result.objects (λ obj a. (pack, result, m, read, a)),
        All-Among result.deltas (λ delta a. (pack, result, m, read, a)),
      )

  merge_rest :
      (all_objects left : List PackObject) (rest : List Bytes)
      → ((pack : Bytes) → Among pack rest → Among pack packs)
      → All ComesFromPacks all_objects
      → merge_packs inflate digest all_objects rest ≡ ok left
      → All ComesFromPacks left
  unfolding merge_packs
  merge_rest all_objects left [] sub h e = subst (All ComesFromPacks) (ok-injective e) h
  merge_rest all_objects left (pack ∷ rest) sub h e =
      let (result, read, e₁) = >>=-eq-ok (caught (parse inflate pack)) _ e in
      let (objects, merged, e₂) = >>=-eq-ok (merge_parsed digest all_objects result) _ e₁ in
      merge_rest objects left rest (λ p a. sub p (there a))
        (merge_parsed-Derives digest IsPackObject IsPackDelta all_objects objects result h
          (parse-IsGiven pack result (sub pack here) read) merged)
        e₂

  -- Every object of a merge that succeeds comes from the packs: one of them has it, or it is what a
  -- delta of one of them, and then those stacked on it in their order, make of an object that comes from
  -- the packs and has the SHA that the delta names.
  pub merge_packs-ComesFromPacks :
      (objects : List PackObject)
      → merge_packs inflate digest [] packs ≡ ok objects
      → All ComesFromPacks objects
  merge_packs-ComesFromPacks objects e = merge_rest [] objects packs (λ pack a. a) tt e
