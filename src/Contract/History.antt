-- ===== src/Contract/History.antt =====
-- Any sequence of calls, by any callers. The runtime keeps the state of a call that panics.
use near_git_storage.Prelude.{
  ◌+◌, ◌^◌, String, ◌≡◌, refl, ◌∙◌, ap, subst, arith, List, [], ◌∷◌, none, Bool-cases, inl, inr,
  ltb, ltb→lt, ◌==◌, Result, ok, err, ok-injective, err-ne-ok, >>=-eq-ok, Option, Option-cases,
  fun_ext,
}
use near_git_storage.Near.{Promise}
use near_git_storage.Contract.Collections.{RefMap, PackMap, Bytes}
use near_git_storage.Contract.{
  Panic, RefUpdate, GitStorage, new, assert_owner, store_pack, update_refs, push, clear_storage,
  get_packs, packs_from,
}
use near_git_storage.Contract.Packs.{IsValid}
use near_git_storage.Contract.Spec.{Repo, push_spec, clear_spec, map_ok, view}
use near_git_storage.Contract.Refinement.{push-refines}
use near_git_storage.Contract.Clearing.{clear_storage-IsCleared, clear_storage-refines}

pub data Call : Type 0 where
  push_call : String → Bytes → List RefUpdate → Call
  clear_call : String → Call

abbrev pub keep_or {ℓ} : {A : Type ℓ} → A → Result Panic A → A
keep_or s (ok s') = s'
keep_or s (err e) = s

-- The same calls on the abstract repository.
unfoldable pub perform_spec : Call → Repo → Repo
perform_spec (push_call caller pack us) r = keep_or r (push_spec caller pack us r)
perform_spec (clear_call caller) r = keep_or r (clear_spec caller r)

unfoldable pub replay_spec : List Call → Repo → Repo
unfolding perform_spec
replay_spec [] r = r
replay_spec (c ∷ cs) r = replay_spec cs (perform_spec c r)

module _ (R : RefMap) (P : PackMap) where
  unfoldable pub perform : Call → GitStorage R P → GitStorage R P
  perform (push_call caller pack us) s = keep_or s (push R P caller pack us s)
  perform (clear_call caller) s = keep_or s (clear_storage R P caller s)

  unfoldable pub replay : List Call → GitStorage R P → GitStorage R P
  unfolding perform
  replay [] s = s
  replay (c ∷ cs) s = replay cs (perform c s)

  -- The refs are no part of validity.
  IsValid-refs :
      (s : GitStorage R P) (refs : R.Map) → IsValid R P s → IsValid R P (record s { refs = refs })
  IsValid-refs s refs v = record { count_fits = v.count_fits; stored = v.stored; unused = v.unused }

  store_pack-IsValid :
      (pack : Bytes) (s s' : GitStorage R P)
      → IsValid R P s
      → store_pack R P pack s ≡ ok s'
      → IsValid R P s'
  unfolding store_pack
  store_pack-IsValid [] s s' v e = subst (IsValid R P) (ok-injective e) v
  store_pack-IsValid (b ∷ bs) s s' v e = elim (Bool-cases (ltb (s.pack_count + 1) (2 ^ 32))) [
    | inl fits ↦ subst (IsValid R P) (ok-injective (rw fits at e)) (record {
      count_fits = ltb→lt _ _ fits;
      stored = λ k lo hi. elim (Bool-cases (s.pack_count == k)) [
        | inl same ↦ (b ∷ bs, rw (P.get-insert s.pack_count k (b ∷ bs) s.packs, same) refl, λ z. cc)
        | inr other ↦
            let (pack, stored, filled) = v.stored k lo (ground arith) in
            (pack, rw (P.get-insert s.pack_count k (b ∷ bs) s.packs, other) stored, filled)
      ];
      unused = λ i h. ground (arith, P.get-insert s.pack_count i (b ∷ bs) s.packs, v.unused i);
    })
    | inr full ↦ absurd (err-ne-ok (rw full at e))
  ]

  pub push-IsValid :
      (caller : String) (pack : Bytes) (us : List RefUpdate) (s s' : GitStorage R P)
      → IsValid R P s
      → push R P caller pack us s ≡ ok s'
      → IsValid R P s'
  unfolding push
  push-IsValid caller pack us s s' v e =
      let (_, _, e₁) = >>=-eq-ok (assert_owner R P caller s) _ e in
      let (s₁, h, e₂) = >>=-eq-ok (store_pack R P pack s) _ e₁ in
      let (refs, _, e₃) = >>=-eq-ok (update_refs R P us s₁.refs) _ e₂ in
      subst (IsValid R P) (ok-injective e₃)
        (IsValid-refs s₁ refs (store_pack-IsValid pack s s₁ v h))

  clear_storage-IsValid :
      (caller : String) (s s' : GitStorage R P)
      → IsValid R P s
      → clear_storage R P caller s ≡ ok s'
      → IsValid R P s'
  clear_storage-IsValid caller s s' v e =
      let c = clear_storage-IsCleared R P caller s s' v e in
      record {
        count_fits = rw c.no_count (omega arith);
        stored = λ k lo hi. absurd (omega (arith, c.no_count));
        unused = λ k h. c.no_pack k;
      }

  keep_or-IsValid :
      (s : GitStorage R P) (r : Result Panic (GitStorage R P))
      → IsValid R P s
      → ((s' : GitStorage R P) → r ≡ ok s' → IsValid R P s')
      → IsValid R P (keep_or s r)
  keep_or-IsValid s (ok s') v h = h s' refl
  keep_or-IsValid s (err e) v h = v

  pub perform-IsValid : (c : Call) (s : GitStorage R P) → IsValid R P s → IsValid R P (perform c s)
  unfolding perform
  perform-IsValid (push_call caller pack us) s v =
      keep_or-IsValid s _ v (λ s'. push-IsValid caller pack us s s' v)
  perform-IsValid (clear_call caller) s v =
      keep_or-IsValid s _ v (λ s'. clear_storage-IsValid caller s s' v)

  keep_or-view :
      (s : GitStorage R P) (r : Result Panic (GitStorage R P))
      → view R P (keep_or s r) ≡ keep_or (view R P s) (map_ok (view R P) r)
  keep_or-view s (ok s') = refl
  keep_or-view s (err e) = refl

  perform-refines :
      (c : Call) (s : GitStorage R P)
      → IsValid R P s
      → view R P (perform c s) ≡ perform_spec c (view R P s)
  unfolding perform perform_spec
  perform-refines (push_call caller pack us) s v =
      keep_or-view s (push R P caller pack us s)
      ∙ ap (keep_or (view R P s)) (push-refines R P caller pack us s v)
  perform-refines (clear_call caller) s v =
      keep_or-view s (clear_storage R P caller s)
      ∙ ap (keep_or (view R P s)) (clear_storage-refines R P caller s)

  -- Any sequence of calls of push and clear_storage, those that panic included, from a valid state
  -- leaves a valid state, which stands for what the same calls of the specification leave.
  pub replay-refines :
      (cs : List Call) (s : GitStorage R P)
      → IsValid R P s
      → IsValid R P (replay cs s) × (view R P (replay cs s) ≡ replay_spec cs (view R P s))
  unfolding replay replay_spec
  replay-refines [] s v = (v, refl)
  replay-refines (c ∷ cs) s v =
      let (v', e) = replay-refines cs (perform c s) (perform-IsValid c s v) in
      (v', e ∙ ap (replay_spec cs) (perform-refines c s v))

  -- Where `new` does not panic, the state that it leaves is valid and stands for the empty repository
  -- of the signer.
  pub new_lem :
      (parse_account : String → Option String) (fee_recipient signer : String) {s : GitStorage R P}
      {p : Promise}
      → new R P parse_account fee_recipient signer ≡ ok (s, p)
      → IsValid R P s × (view R P s ≡ record { packs = []; refs = λ k. none; owner = signer })
  unfolding new get_packs packs_from
  new_lem parse_account fee_recipient signer {s} e =
      elim (Option-cases (parse_account fee_recipient)) [
        | inl bad ↦ absurd (err-ne-ok (rw (bad, new) at e))
        | inr (receiver, good) ↦
            subst
              (λ t.
                IsValid R P t
                × (view R P t ≡ record { packs = []; refs = λ k. none; owner = signer }))
              (ap (λ q. q.0) (ok-injective (rw (good, new) at e)))
              (
                record {
                  count_fits = omega arith;
                  stored = λ k lo hi. absurd (omega arith);
                  unused = λ k h. P.get-empty k;
                },
                λ i. record { packs = []; refs = fun_ext R.get-empty i; owner = signer },
              )
      ]
