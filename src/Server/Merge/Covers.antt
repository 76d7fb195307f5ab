-- ===== src/Server/Merge/Covers.antt =====
-- The map `local` of the merge in git-server/src/main.rs has every object that the merge has so far, under
-- its SHA.
use near_git_storage.Prelude.{
  ℕ, zero, suc, ◌≡◌, refl, subst, List, [], ◌∷◌, Option, none, some, Option-cases, false,
  Bool-cases, inl, inr, ok, All, All-append, All-map, ok-injective, err-ne-ok, >>=-eq-ok,
}
use near_git_storage.Text.{text_eq}
use near_git_storage.Text.Laws.{text_eq_refl}
use near_git_storage.Packfile.{Bytes}
use near_git_storage.Packfile.Parse.{PackObject, UnresolvedDelta, sha1}
use near_git_storage.Server.Merge.{
  Local, local_get, Merge, apply_all, add_or_drop, keep, retain, resolve_rounds, local_of,
}

-- An object stands under the SHA.
abbrev pub Has : Local → Bytes → Type 0
Has local sha = (obj : PackObject) × (local_get sha local ≡ some obj)

Has-cons :
    (key sha : Bytes) (obj : PackObject) (local : Local)
    → Has local sha
    → Has ((key, obj) ∷ local) sha
unfolding local_get
Has-cons key sha obj local (found, e) = elim (Bool-cases (text_eq key sha)) [
  | inl same ↦ (obj, rw same refl)
  | inr other ↦ (found, rw other e)
]

Has-self : (sha : Bytes) (obj : PackObject) (local : Local) → Has ((sha, obj) ∷ local) sha
unfolding local_get
Has-self sha obj local = (obj, rw (text_eq_refl sha) refl)

module _ (digest : Bytes → Bytes) where
  abbrev pub Covers : Local → List PackObject → Type 0
  Covers local = All (λ obj. Has local (sha1 digest obj))

  local_of-Has :
      (objects : List PackObject) (local : Local) (sha : Bytes)
      → Has local sha
      → Has (local_of digest objects local) sha
  unfolding local_of
  local_of-Has [] local sha h = h
  local_of-Has (obj ∷ objects) local sha h =
      local_of-Has objects ((sha1 digest obj, obj) ∷ local) sha
        (Has-cons (sha1 digest obj) sha obj local h)

  pub local_of-Covers :
      (objects : List PackObject) (local : Local) → Covers (local_of digest objects local) objects
  unfolding local_of
  local_of-Covers [] local = tt
  local_of-Covers (obj ∷ objects) local = (
    local_of-Has objects ((sha1 digest obj, obj) ∷ local) (sha1 digest obj)
        (Has-self (sha1 digest obj) obj local),
    local_of-Covers objects ((sha1 digest obj, obj) ∷ local),
  )

  abbrev pub IsCovered : Merge → Type 0
  IsCovered m = Covers m.local m.all_objects

  add_or_drop-IsCovered :
      (obj_type : Bytes) (r : Option Bytes) (m : Merge)
      → IsCovered m
      → IsCovered (add_or_drop digest obj_type r m)
  unfolding add_or_drop
  add_or_drop-IsCovered obj_type none m c = c
  add_or_drop-IsCovered obj_type (some current) m c =
      let new : PackObject = record { obj_type = obj_type; data_bytes = current } in
      let local = (sha1 digest new, new) ∷ m.local in
      All-append (λ (obj : PackObject). Has local (sha1 digest obj)) m.all_objects (new ∷ [])
        (All-map m.all_objects (λ obj. Has-cons (sha1 digest new) (sha1 digest obj) new m.local) c)
        (Has-self (sha1 digest new) new m.local, tt)

  retain-IsCovered :
      (pending : List UnresolvedDelta) (m : Merge) (out : List UnresolvedDelta × Merge)
      → IsCovered m
      → retain digest pending m ≡ ok out
      → IsCovered out.1
  unfolding retain
  retain-IsCovered [] m out c e =
      subst (λ (o : List UnresolvedDelta × Merge). IsCovered o.1) (ok-injective e) c
  retain-IsCovered (delta ∷ pending) m out c e =
      elim (Option-cases (local_get delta.base_sha m.local)) [
        | inl missing ↦
            let (out', rest, q) =
              >>=-eq-ok (retain digest pending m) (keep delta) (rw (missing, retain) at e) in
            subst (λ (o : List UnresolvedDelta × Merge). IsCovered o.1) (ok-injective q)
              (retain-IsCovered pending m out' c rest)
        | inr (base, found) ↦
            let (r, _, rest) =
              >>=-eq-ok (apply_all delta base.data_bytes) _ (rw (found, retain) at e) in
            retain-IsCovered pending (add_or_drop digest base.obj_type r m) out
              (add_or_drop-IsCovered base.obj_type r m c) rest
      ]

  pub resolve_rounds-IsCovered :
      (fuel : ℕ) (pending : List UnresolvedDelta) (m : Merge) (out : List UnresolvedDelta × Merge)
      → IsCovered m
      → resolve_rounds digest fuel pending m ≡ ok out
      → IsCovered out.1
  unfolding resolve_rounds
  resolve_rounds-IsCovered fuel [] m out c e =
      subst (λ (o : List UnresolvedDelta × Merge). IsCovered o.1) (ok-injective e) c
  resolve_rounds-IsCovered zero (delta ∷ pending) m out c e = elim (Bool-cases m.progress) [
    | inl going ↦ absurd (err-ne-ok (rw going at e))
    | inr done ↦
        subst (λ (o : List UnresolvedDelta × Merge). IsCovered o.1) (ok-injective (rw done at e)) c
  ]
  resolve_rounds-IsCovered (suc fuel) (delta ∷ pending) m out c e = elim (Bool-cases m.progress) [
    | inr done ↦
        subst (λ (o : List UnresolvedDelta × Merge). IsCovered o.1) (ok-injective (rw done at e)) c
    | inl going ↦
        let (out', pass, rest) =
          >>=-eq-ok (retain digest (delta ∷ pending) (record m { progress = false })) _
            (rw going at e) in
        resolve_rounds-IsCovered fuel out'.0 out'.1 out
          (retain-IsCovered (delta ∷ pending) (record m { progress = false }) out' c pass) rest
  ]
