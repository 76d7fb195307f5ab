-- ===== src/Server/Merge/Rounds.antt =====
-- The rounds over the pending deltas end, and leave a delta only where its base is not there.
use near_git_storage.Prelude.{
  ℕ, zero, suc, ◌≤◌, ◌<◌, ◌≡◌, refl, sym, ◌∙◌, subst, arith, List, [], ◌∷◌, Option, none, some,
  Option-cases, true, false, true-ne-false, Bool-cases, inl, inr, length, All, All-map, ◌≢◌,
  none-ne-some, ap,
}
use near_git_storage.Packfile.{Bytes, Outcome}
use near_git_storage.Packfile.Ensures.{
  Ensures, returned, failed, Ensures-bind, Ensures-both, Ensures-weaken,
}
use near_git_storage.Packfile.Delta.Apply.{apply_delta-Ensures}
use near_git_storage.Packfile.Parse.{PackObject, UnresolvedDelta, sha1}
use near_git_storage.Server.Merge.{
  is_caught, caught, local_get, Merge, and_apply, apply_chain, apply_all, add_or_drop, retain,
  resolve_rounds, local_of,
}
use near_git_storage.Server.Merge.Covers.{Covers, local_of-Covers, resolve_rounds-IsCovered}

caught-Ensures :
    {A : Type 0} {P : A → Type 0} (r : Outcome A)
    → Ensures P r
    → Ensures (λ (o : Option A). Unit {0}) (caught r)
unfolding caught
caught-Ensures _ (returned h) = returned tt
caught-Ensures _ (failed {e = e} ne) = elim (Bool-cases (is_caught e)) [
  | inl error ↦ rw error (returned tt)
  | inr panics ↦ rw panics (failed ne)
]

and_apply-Ensures :
    (next : Bytes → Outcome (Option Bytes)) (r : Option Bytes)
    → ((current : Bytes) → Ensures (λ (o : Option Bytes). Unit {0}) (next current))
    → Ensures (λ (o : Option Bytes). Unit {0}) (and_apply next r)
and_apply-Ensures next none h = returned tt
and_apply-Ensures next (some current) h = h current

apply_chain-Ensures :
    (chain : List Bytes) (current : Bytes)
    → Ensures (λ (o : Option Bytes). Unit {0}) (apply_chain chain current)
unfolding apply_chain
apply_chain-Ensures [] current = returned tt
apply_chain-Ensures (d ∷ chain) current =
    Ensures-bind _ _ (caught-Ensures _ (apply_delta-Ensures current d))
      λ r _. and_apply-Ensures (apply_chain chain) r (apply_chain-Ensures chain)

apply_all-Ensures :
    (delta : UnresolvedDelta) (base_data : Bytes)
    → Ensures (λ (o : Option Bytes). Unit {0}) (apply_all delta base_data)
unfolding apply_all
apply_all-Ensures delta base_data =
    Ensures-bind _ _ (caught-Ensures _ (apply_delta-Ensures base_data delta.delta_data))
      λ r _. and_apply-Ensures (apply_chain delta.chain) r (apply_chain-Ensures delta.chain)

-- The delta's base is not in the map.
abbrev pub IsMissing : Merge → UnresolvedDelta → Type 0
IsMissing m delta = local_get delta.base_sha m.local ≡ none

-- What a pass over the pending deltas leaves.
record IsPass (pending : List UnresolvedDelta) (m : Merge) (out : List UnresolvedDelta × Merge)
    : Type 0 where
  shorter : length out.0 ≤ length pending
  still : m.progress ≡ true → out.1.progress ≡ true
  dropped : m.progress ≡ false → out.1.progress ≡ true → length out.0 < length pending
  settled : out.1.progress ≡ false → (out.1 ≡ m) × All (IsMissing m) out.0

IsPass-keep :
    (delta : UnresolvedDelta) (pending : List UnresolvedDelta) (m : Merge)
    (out : List UnresolvedDelta × Merge)
    → IsMissing m delta
    → IsPass pending m out
    → IsPass (delta ∷ pending) m (delta ∷ out.0, out.1)
IsPass-keep delta pending m out missing p = record {
  shorter = omega (arith, p.shorter);
  still = p.still;
  dropped = λ a b. omega (arith, p.dropped a b);
  settled = λ a. ((p.settled a).0, (missing, (p.settled a).1));
}

module _ (digest : Bytes → Bytes) where
  IsPass-add_or_drop :
      (delta : UnresolvedDelta) (pending : List UnresolvedDelta) (obj_type : Bytes)
      (r : Option Bytes) (m : Merge) (out : List UnresolvedDelta × Merge)
      → IsPass pending (add_or_drop digest obj_type r m) out
      → IsPass (delta ∷ pending) m out
  unfolding add_or_drop
  IsPass-add_or_drop delta pending obj_type none m out p = record {
    shorter = omega (arith, p.shorter);
    still = p.still;
    dropped = λ a b. omega (arith, p.dropped a b);
    settled = p.settled;
  }
  IsPass-add_or_drop delta pending obj_type (some current) m out p = record {
    shorter = omega (arith, p.shorter);
    still = λ a. p.still refl;
    dropped = λ a b. omega (arith, p.shorter);
    settled = λ a. absurd (true-ne-false (sym (p.still refl) ∙ a));
  }

  retain-Ensures :
      (pending : List UnresolvedDelta) (m : Merge)
      → Ensures (IsPass pending m) (retain digest pending m)
  unfolding retain
  retain-Ensures [] m = returned (record {
    shorter = omega arith;
    still = λ a. a;
    dropped = λ a b. absurd (true-ne-false (sym b ∙ a));
    settled = λ a. (refl, tt);
  })
  retain-Ensures (delta ∷ pending) m = elim (Option-cases (local_get delta.base_sha m.local)) [
    | inl missing ↦
        rw (missing, retain)
          (Ensures-bind _ _ (retain-Ensures pending m)
            λ out p. returned (IsPass-keep delta pending m out missing p))
    | inr (base_obj, there) ↦
        rw (there, retain)
          (Ensures-bind _ _ (apply_all-Ensures delta base_obj.data_bytes) λ r _.
            Ensures-weaken _ (retain-Ensures pending (add_or_drop digest base_obj.obj_type r m))
              λ out. IsPass-add_or_drop delta pending base_obj.obj_type r m out)
  ]

  -- With fuel for each pending delta, the rounds end by the code's own tests. A delta that they leave
  -- pending has a base that is not in the map.
  rounds-Ensures :
      (fuel : ℕ) (pending : List UnresolvedDelta) (m : Merge)
      → (m.progress ≡ true → length pending ≤ fuel)
      → (m.progress ≡ false → All (IsMissing m) pending)
      → Ensures
          (λ (out : List UnresolvedDelta × Merge). All (IsMissing out.1) out.0)
          (resolve_rounds digest fuel pending m)
  unfolding resolve_rounds
  rounds-Ensures fuel [] m enough settled = returned tt
  rounds-Ensures zero (delta ∷ pending) m enough settled = elim (Bool-cases m.progress) [
    | inl going ↦ absurd (omega (arith, enough going))
    | inr done ↦ rw done (returned (settled done))
  ]
  rounds-Ensures (suc fuel) (delta ∷ pending) m enough settled = elim (Bool-cases m.progress) [
    | inr done ↦ rw done (returned (settled done))
    | inl going ↦ rw going (
        Ensures-bind _ _ (retain-Ensures (delta ∷ pending) (record m { progress = false }))
          λ (pending', m') p.
            rounds-Ensures fuel pending' m' (λ a. omega (arith, p.dropped refl a, enough going))
              (λ a. subst (λ k. All (IsMissing k) pending') (sym (p.settled a).0) (p.settled a).1))
  ]

  -- No object has the SHA of the delta's base.
  abbrev pub IsBaseless : List PackObject → UnresolvedDelta → Type 0
  IsBaseless objects delta = All (λ obj. sha1 digest obj ≢ delta.base_sha) objects

  IsMissing-IsBaseless :
      (m : Merge) (objects : List PackObject) (delta : UnresolvedDelta)
      → Covers digest m.local objects
      → IsMissing m delta
      → IsBaseless objects delta
  IsMissing-IsBaseless m [] delta c missing = tt
  IsMissing-IsBaseless m (obj ∷ objects) delta ((found, has), c) missing = (
    λ same. none-ne-some (sym missing ∙ ap (λ sha. local_get sha m.local) (sym same) ∙ has),
    IsMissing-IsBaseless m objects delta c missing,
  )

  -- The rounds over the deltas of a pack, from all objects so far, end by the code's own tests: no delta
  -- makes them go on for ever. A delta that they leave pending has a base that no object has the SHA of
  -- at the end, those that the rounds made included.
  pub resolve_rounds-Ensures :
      (deltas : List UnresolvedDelta) (objects : List PackObject)
      → Ensures
          (λ (out : List UnresolvedDelta × Merge). All (IsBaseless out.1.all_objects) out.0)
          (resolve_rounds digest
            (suc (length deltas))
            deltas
            (record { local = local_of digest objects []; all_objects = objects; progress = true }))
  resolve_rounds-Ensures deltas objects =
      let start : Merge = record {
        local = local_of digest objects [];
        all_objects = objects;
        progress = true;
      } in
      Ensures-weaken _
        (Ensures-both (
          rounds-Ensures (suc (length deltas)) deltas start (λ a. omega arith)
            (λ a. absurd (true-ne-false a))))
        λ (pending, m) (ended, missing).
          All-map pending
            (λ delta. IsMissing-IsBaseless m m.all_objects delta (
              resolve_rounds-IsCovered digest (suc (length deltas)) deltas start (pending, m)
                (local_of-Covers digest objects []) ended))
            missing
