-- ===== src/Contract/Clearing.antt =====
-- `clear_storage` leaves nothing behind, whatever was stored.
use near_git_storage.Prelude.{
  ℕ, zero, suc, ◌+◌, ◌≤◌, ◌<◌, String, str_eq, ◌≡◌, refl, sym, subst, ◌∙◌, ap, fun_ext,
  ok-injective, err-ne-ok, arith, List, [], ◌∷◌, none, ◌⊎◌, inl, inr, Bool-cases, map, ◌==◌, ok,
}
use native.Mathlib.Decide.{dec_lt}
use near_git_storage.Contract.Collections.{RefMap, PackMap, lookup}
use near_git_storage.Contract.{
  GitStorage, assert_owner, get_packs, packs_from, remove_packs, remove_refs, clear_storage,
}
use near_git_storage.Contract.Packs.{IsValid}
use near_git_storage.Contract.Spec.{clear_spec, map_ok, view}

module _ (R : RefMap) (P : PackMap) where
  -- An index is empty, or it is still to be removed.
  abbrev EmptyOrLeft : ℕ → ℕ → ℕ → P.Map → Type 0
  EmptyOrLeft left i j m = (P.get j m ≡ none) ⊎ ((i ≤ j) × (j < i + left))

  remove-EmptyOrLeft :
      (left i j : ℕ) (m : P.Map)
      → EmptyOrLeft (suc left) i j m
      → EmptyOrLeft left (i + 1) j (P.remove i m)
  remove-EmptyOrLeft left i j m h = elim (Bool-cases (i == j)) [
    | inl same ↦ inl (rw (P.get-remove i j m, same) refl)
    | inr other ↦ elim h [
      | inl e ↦ inl (rw (P.get-remove i j m, other) e)
      | inr (lo, hi) ↦ inr (ground arith, omega arith)
    ]
  ]

  remove_packs-none :
      (left i j : ℕ) (m : P.Map)
      → EmptyOrLeft left i j m
      → P.get j (remove_packs R P left i m) ≡ none
  unfolding remove_packs
  remove_packs-none zero i j m (inl h) = h
  remove_packs-none zero i j m (inr h) = absurd (omega arith)
  remove_packs-none (suc left) i j m h =
      remove_packs-none left (i + 1) j (P.remove i m) (remove-EmptyOrLeft left i j m h)

  remove_refs-none :
      (pairs : List (String × String)) (k : String) (m : R.Map)
      → (lookup k pairs ≡ none → R.get k m ≡ none)
      → R.get k (remove_refs R P (map (λ p. p.0) pairs) m) ≡ none
  unfolding remove_refs
  remove_refs-none [] k m h = h refl
  remove_refs-none ((j, v) ∷ pairs) k m h = remove_refs-none pairs k (R.remove j m) λ e.
      elim (Bool-cases (str_eq j k)) [
        | inl same ↦ rw (R.get-remove j k m, same) refl
        | inr other ↦ rw (R.get-remove j k m, other) (h (rw other e))
      ]

  remove_all_refs-none :
      (k : String) (m : R.Map) → R.get k (remove_refs R P (map (λ p. p.0) (R.iter m)) m) ≡ none
  remove_all_refs-none k m = remove_refs-none (R.iter m) k m (λ e. sym (R.lookup-iter k m) ∙ e)

  -- What a cleared contract holds.
  pub record IsCleared (owner : String) (s : GitStorage R P) : Type 0 where
    pub no_pack : (i : ℕ) → P.get i s.packs ≡ none
    pub no_ref : (k : String) → R.get k s.refs ≡ none
    pub no_count : s.pack_count ≡ 0
    pub same_owner : s.owner ≡ owner

  -- From a valid state, where the call succeeds, no pack is left at any index, no ref under any name,
  -- and the count is 0; the owner stays.
  pub clear_storage-IsCleared :
      (caller : String) (s s' : GitStorage R P)
      → IsValid R P s
      → clear_storage R P caller s ≡ ok s'
      → IsCleared s.owner s'
  unfolding clear_storage assert_owner
  clear_storage-IsCleared caller s s' v e = elim (Bool-cases (str_eq caller s.owner)) [
    | inl owner ↦ subst (IsCleared s.owner) (ok-injective (rw owner at e)) (record {
      no_pack = λ i. remove_packs-none s.pack_count 0 i s.packs (empty_or_left i);
      no_ref = λ k. remove_all_refs-none k s.refs;
      no_count = refl;
      same_owner = refl;
    })
    | inr other ↦ absurd (err-ne-ok (rw other at e))
  ]
    where
      empty_or_left : (i : ℕ) → EmptyOrLeft s.pack_count 0 i s.packs
      empty_or_left i = elim (dec_lt i s.pack_count) [
        | yes below ↦ inr (omega arith, omega arith)
        | no above ↦ inl (v.unused i (omega arith))
      ]

  -- The `clear_storage` of the contract is that of the specification, failures included, in every
  -- state.
  pub clear_storage-refines :
      (caller : String) (s : GitStorage R P)
      → map_ok (view R P) (clear_storage R P caller s) ≡ clear_spec caller (view R P s)
  unfolding clear_storage assert_owner clear_spec get_packs packs_from
  clear_storage-refines caller s = elim (Bool-cases (str_eq caller s.owner)) [
    | inl owner ↦ rw owner (
        ap ok λ i. record {
          packs = [];
          refs = fun_ext (λ k. remove_all_refs-none k s.refs) i;
          owner = s.owner;
        })
    | inr other ↦ rw other refl
  ]
