-- ===== src/Contract/Refinement.antt =====
-- Each call of the contract does to what its state stands for what the specification does, and
-- keeps the state valid.
use near_git_storage.Prelude.{
  ◌+◌, ◌^◌, String, str_eq, ◌≡◌, refl, ap, ◌∙◌, fun_ext, List, [], ◌∷◌, Option, none, some, Bool,
  true, false, Bool-cases, inl, inr, ltb, if◌then◌else◌, Result, ok, err, ◌>>=◌,
}
use near_git_storage.Contract.Collections.{RefMap, PackMap, Bytes}
use near_git_storage.Contract.{
  Panic, RefUpdate, GitStorage, assert_owner, store_pack, compare_and_swap, update_refs, push,
  get_packs, cas_failure,
}
use near_git_storage.Contract.Packs.{IsValid, length-get_packs, packs_from-insert_last}
use near_git_storage.Contract.Spec.{
  Refs, Repo, same_sha, set_ref, swap_refs, append_pack, push_spec, map_ok, refs_of, view,
}

module _ {ℓ κ μ ν} {A : Type ℓ} {A' : Type κ} {B : Type μ} {B' : Type ν} where
  bind-refines :
      (f : A → A') (g : B → B') (k : A → Result Panic B) (k' : A' → Result Panic B')
      → ((a : A) → map_ok g (k a) ≡ k' (f a))
      → (m : Result Panic A) → map_ok g (m >>= k) ≡ (map_ok f m >>= k')
  bind-refines f g k k' h (ok a) = h a
  bind-refines f g k k' h (err e) = refl

if-bind :
    (t : Bool) (a : Refs) (e : Panic) (k : Refs → Result Panic Refs)
    → ((if t then ok a else err e) >>= k) ≡ (if t then k a else err e)
if-bind true a e k = refl
if-bind false a e k = refl

bind-bind {ℓ κ μ} :
    {A : Type ℓ} {B : Type κ} {C : Type μ} (m : Result Panic A) (f : A → B) (k : B → Result Panic C)
    → ((m >>= λ a. ok (f a)) >>= k) ≡ (m >>= λ a. k (f a))
bind-bind (ok a) f k = refl
bind-bind (err e) f k = refl

-- The last two steps of the specification's push, on any repository.
abbrev swap_in : List RefUpdate → Repo → Result Panic Repo
swap_in us r = swap_refs us r.refs >>= λ refs. ok (record r { refs = refs })

module _ (R : RefMap) (P : PackMap) where
  compare_and_swap-refines :
      (u : RefUpdate) (old cur : Option String) (refs : R.Map)
      → map_ok (refs_of R P) (compare_and_swap R P u old cur refs) ≡ (
          if same_sha old cur
          then ok (set_ref u.name u.new_sha (refs_of R P refs))
          else err (cas_failure u.name old cur))
  unfolding compare_and_swap
  compare_and_swap-refines u none none refs =
      ap ok (fun_ext λ k. R.get-insert u.name u.new_sha k refs)
  compare_and_swap-refines u (some old) (some cur) refs = elim (Bool-cases (str_eq old cur)) [
    | inl e ↦ rw e (ap ok (fun_ext λ k. R.get-insert u.name u.new_sha k refs))
    | inr e ↦ rw e refl
  ]
  compare_and_swap-refines u none (some cur) refs = refl
  compare_and_swap-refines u (some old) none refs = refl

  pub update_refs-refines :
      (us : List RefUpdate) (refs : R.Map)
      → map_ok (refs_of R P) (update_refs R P us refs) ≡ swap_refs us (refs_of R P refs)
  unfolding update_refs swap_refs
  update_refs-refines [] refs = refl
  update_refs-refines (u ∷ us) refs =
      let cur = R.get u.name refs in
      bind-refines (refs_of R P) (refs_of R P) (update_refs R P us) (swap_refs us)
        (update_refs-refines us) (compare_and_swap R P u u.old_sha cur refs)
      ∙ ap (λ r. r >>= swap_refs us) (compare_and_swap-refines u u.old_sha cur refs)
      ∙ if-bind (same_sha u.old_sha cur) _ _ (swap_refs us)

  store_pack-refines :
      (pack : Bytes) (s : GitStorage R P)
      → IsValid R P s
      → map_ok (view R P) (store_pack R P pack s) ≡ (
          append_pack pack (get_packs R P 0 s) >>= λ packs.
          ok (record { packs = packs; refs = refs_of R P s.refs; owner = s.owner }))
  unfolding store_pack append_pack get_packs
  store_pack-refines [] s v = refl
  store_pack-refines (b ∷ bs) s v =
      rw (length-get_packs R P s v) (elim (Bool-cases (ltb (s.pack_count + 1) (2 ^ 32))) [
        | inl fits ↦ rw fits (
            ap (λ packs. ok (record { packs = packs; refs = refs_of R P s.refs; owner = s.owner }))
              (packs_from-insert_last R P s.pack_count (b ∷ bs) s.packs))
        | inr full ↦ rw full refl
      ])

  -- From a valid state, the `push` of the contract does to what the state stands for what the
  -- specification's `push` does, failures included.
  pub push-refines :
      (caller : String) (pack : Bytes) (us : List RefUpdate) (s : GitStorage R P)
      → IsValid R P s
      → map_ok (view R P) (push R P caller pack us s) ≡ push_spec caller pack us (view R P s)
  unfolding push push_spec assert_owner get_packs
  push-refines caller pack us s v = elim (Bool-cases (str_eq caller s.owner)) [
    | inr other ↦ rw other refl
    | inl owner ↦ rw owner (
        bind-refines (view R P) (view R P)
          (λ s'. update_refs R P us s'.refs >>= λ refs. ok (record s' { refs = refs })) (swap_in us)
          (λ s'.
            bind-refines (refs_of R P) (view R P) (λ refs. ok (record s' { refs = refs }))
              (λ refs. ok (record (view R P s') { refs = refs })) (λ refs. refl)
              (update_refs R P us s'.refs)
            ∙ ap (λ r. r >>= λ refs. ok (record (view R P s') { refs = refs }))
                (update_refs-refines us s'.refs))
          (store_pack R P pack s)
        ∙ ap (λ r. r >>= swap_in us) (store_pack-refines pack s v)
        ∙ bind-bind (append_pack pack (get_packs R P 0 s)) _ (swap_in us))
  ]
