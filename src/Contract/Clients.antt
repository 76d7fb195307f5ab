-- ===== src/Contract/Clients.antt =====
-- What the clients of a repository rely on: who can change it, and that no update is lost.
use near_git_storage.Prelude.{
  ◌+◌, ◌^◌, String, str_eq, eq_iff, ◌≡◌, refl, sym, ◌∙◌, ap, arith, List, [], ◌∷◌, Option, none,
  some, false, Bool-cases, inl, inr, ltb, ◌≢◌, if◌then◌else◌, Result, ok, err, ◌++◌, ok-injective,
  err-ne-ok, >>=-eq-ok, All,
}
use near_git_storage.Near.{Promise}
use near_git_storage.Contract.Collections.{RefMap, PackMap, Bytes}
use near_git_storage.Contract.{
  RefUpdate, GitStorage, assert_owner, store_pack, compare_and_swap, update_refs, push,
  clear_storage, Panic, self_delete,
}
use near_git_storage.Contract.History.{Call, push_call, clear_call, perform}

abbrev pub caller_of : Call → String
caller_of (push_call caller pack us) = caller
caller_of (clear_call caller) = caller

-- The calls that are the owner's: `delete_call` is of self_delete, on the account and by the caller.
pub data OwnedCall : Type 0 where
  stored : Call → OwnedCall
  delete_call : String → String → OwnedCall

abbrev pub owned_caller : OwnedCall → String
owned_caller (stored c) = caller_of c
owned_caller (delete_call account caller) = caller

-- The SHA that the updates leave under a name, from the one before them.
abbrev pub last_sha : String → List RefUpdate → Option String → Option String
last_sha k [] sha = sha
last_sha k (u ∷ us) sha = last_sha k us (if str_eq u.name k then some u.new_sha else sha)

module _ (R : RefMap) (P : PackMap) where
  others_perform :
      (c : Call) (s : GitStorage R P) → str_eq (caller_of c) s.owner ≡ false → perform R P c s ≡ s
  unfolding perform push clear_storage assert_owner
  others_perform (push_call caller pack us) s h = rw h refl
  others_perform (clear_call caller) s h = rw h refl

  abbrev scheduled : List Promise → Result Panic Promise → List Promise
  scheduled promises (ok p) = promises ++ (p ∷ [])
  scheduled promises (err e) = promises

  -- What a call leaves of the storage, and the promises that the runtime is to keep.
  abbrev pub perform_owned :
      OwnedCall → GitStorage R P × List Promise → GitStorage R P × List Promise
  perform_owned (stored c) (s, promises) = (perform R P c s, promises)
  perform_owned (delete_call account caller) (s, promises) =
      (s, scheduled promises (self_delete R P account caller s))

  abbrev pub replay_owned :
      List OwnedCall → GitStorage R P × List Promise → GitStorage R P × List Promise
  replay_owned [] w = w
  replay_owned (c ∷ cs) w = replay_owned cs (perform_owned c w)

  others_perform_owned :
      (c : OwnedCall) (s : GitStorage R P) (promises : List Promise)
      → str_eq (owned_caller c) s.owner ≡ false
      → perform_owned c (s, promises) ≡ (s, promises)
  unfolding self_delete assert_owner
  others_perform_owned (stored c) s promises h = ap (λ t. (t, promises)) (others_perform c s h)
  others_perform_owned (delete_call account caller) s promises h = rw h refl

  -- Calls of push, clear_storage and self_delete by others than the owner, however many, change nothing,
  -- and promise nothing: they do not delete the account.
  pub others_replay :
      (cs : List OwnedCall) (s : GitStorage R P) (promises : List Promise)
      → All (λ c. owned_caller c ≢ s.owner) cs
      → replay_owned cs (s, promises) ≡ (s, promises)
  others_replay [] s promises h = refl
  others_replay (c ∷ cs) s promises (h, hs) =
      ap (replay_owned cs)
        (others_perform_owned c s promises (ground (arith, eq_iff (owned_caller c) s.owner)))
      ∙ others_replay cs s promises hs

  compare_and_swap-ok :
      (u : RefUpdate) (old cur : Option String) (refs refs' : R.Map)
      → compare_and_swap R P u old cur refs ≡ ok refs'
      → refs' ≡ R.insert u.name u.new_sha refs
  unfolding compare_and_swap
  compare_and_swap-ok u none none refs refs' e = sym (ok-injective e)
  compare_and_swap-ok u (some old) (some cur) refs refs' e = ground arith
  compare_and_swap-ok u none (some cur) refs refs' e = absurd (err-ne-ok e)
  compare_and_swap-ok u (some old) none refs refs' e = absurd (err-ne-ok e)

  update_refs-ok :
      (us : List RefUpdate) (refs refs' : R.Map) (k : String)
      → update_refs R P us refs ≡ ok refs'
      → R.get k refs' ≡ last_sha k us (R.get k refs)
  unfolding update_refs
  update_refs-ok [] refs refs' k e = ap (R.get k) (sym (ok-injective e))
  update_refs-ok (u ∷ us) refs refs' k e =
      let (refs₁, h, e₁) =
        >>=-eq-ok (compare_and_swap R P u u.old_sha (R.get u.name refs) refs) _ e in
      update_refs-ok us refs₁ refs' k e₁
      ∙ ap (last_sha k us) (
          ap (R.get k) (compare_and_swap-ok u _ _ refs refs₁ h)
          ∙ R.get-insert u.name u.new_sha k refs)

  store_pack-refs :
      (pack : Bytes) (s s' : GitStorage R P)
      → store_pack R P pack s ≡ ok s'
      → (s'.refs ≡ s.refs) × (s'.owner ≡ s.owner)
  unfolding store_pack
  store_pack-refs [] s s' e =
      (ap (λ t. t.refs) (sym (ok-injective e)), ap (λ t. t.owner) (sym (ok-injective e)))
  store_pack-refs (b ∷ bs) s s' e = elim (Bool-cases (ltb (s.pack_count + 1) (2 ^ 32))) [
    | inl fits ↦
        let q = ok-injective (rw fits at e) in (ap (λ t. t.refs) (sym q), ap (λ t. t.owner) (sym q))
    | inr full ↦ absurd (err-ne-ok (rw full at e))
  ]

  -- A push that succeeds updates the refs that it found.
  push-inversion :
      (caller : String) (pack : Bytes) (us : List RefUpdate) (s s' : GitStorage R P)
      → push R P caller pack us s ≡ ok s'
      → update_refs R P us s.refs ≡ ok s'.refs
  unfolding push
  push-inversion caller pack us s s' e =
      let (_, _, e₁) = >>=-eq-ok (assert_owner R P caller s) _ e in
      let (s₁, h, e₂) = >>=-eq-ok (store_pack R P pack s) _ e₁ in
      let (refs, u, e₃) = >>=-eq-ok (update_refs R P us s₁.refs) _ e₂ in
      ap (update_refs R P us) (sym (store_pack-refs pack s s₁ h).0)
      ∙ u
      ∙ ap (λ t. ok t.refs) (ok-injective e₃)

  -- After a push that succeeds every ref has the SHA of the last update that names it, and a ref that
  -- none names keeps its own.
  pub push-last_sha :
      (caller : String) (pack : Bytes) (us : List RefUpdate) (s s' : GitStorage R P) (k : String)
      → push R P caller pack us s ≡ ok s'
      → R.get k s'.refs ≡ last_sha k us (R.get k s.refs)
  push-last_sha caller pack us s s' k e =
      update_refs-ok us s.refs s'.refs k (push-inversion caller pack us s s' e)

  compare_and_swap-expected :
      (u : RefUpdate) (old cur : Option String) (refs refs' : R.Map)
      → compare_and_swap R P u old cur refs ≡ ok refs'
      → old ≡ cur
  unfolding compare_and_swap
  compare_and_swap-expected u none none refs refs' e = refl
  compare_and_swap-expected u (some old) (some cur) refs refs' e = ground (arith, eq_iff old cur)
  compare_and_swap-expected u none (some cur) refs refs' e = absurd (err-ne-ok e)
  compare_and_swap-expected u (some old) none refs refs' e = absurd (err-ne-ok e)

  -- A push whose first update succeeds was made from the current SHA of that ref.
  pub push-expected :
      (caller : String) (pack : Bytes) (u : RefUpdate) (us : List RefUpdate) (s s' : GitStorage R P)
      → push R P caller pack (u ∷ us) s ≡ ok s'
      → u.old_sha ≡ R.get u.name s.refs
  unfolding update_refs
  push-expected caller pack u us s s' e =
      let (refs, h, _) =
        >>=-eq-ok (compare_and_swap R P u u.old_sha (R.get u.name s.refs) s.refs) _
          (push-inversion caller pack (u ∷ us) s s' e) in
      compare_and_swap-expected u u.old_sha (R.get u.name s.refs) s.refs refs h

  -- Two pushes expect the same SHA of a ref, the first update of each. Once the first push, of that
  -- update alone, has succeeded and moved the ref to another SHA, the second one fails, whoever sends
  -- it and whatever else it carries.
  pub racing_push :
      (caller caller' : String) (pack pack' : Bytes) (u v : RefUpdate) (us : List RefUpdate)
      (s s' t : GitStorage R P)
      → v.name ≡ u.name
      → v.old_sha ≡ u.old_sha
      → u.old_sha ≢ some u.new_sha
      → push R P caller pack (u ∷ []) s ≡ ok s'
      → push R P caller' pack' (v ∷ us) s' ≢ ok t
  racing_push caller caller' pack pack' u v us s s' t n o moved e e' = moved (
      sym o
      ∙ push-expected caller' pack' v us s' t e'
      ∙ ap (λ k. R.get k s'.refs) n
      ∙ push-last_sha caller pack (u ∷ []) s s' u.name e
      ∙ ground (arith, eq_iff u.name u.name))
