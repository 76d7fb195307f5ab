-- ===== src/Contract.antt =====
-- src/lib.rs: the storage contract of a repository. The collections of near_sdk are not in the
-- repository: they are the records `RefMap` and `PackMap`, with the laws that near_sdk documents.
pub mod Collections
pub mod Packs
pub mod Spec
pub mod Refinement
pub mod Clearing
pub mod History
pub mod Clients
pub mod Runs
use near_git_storage.Prelude.{
  ℕ, zero, suc, ◌+◌, ◌-◌, ◌^◌, String, str_eq, List, [], ◌∷◌, Option, none, some, ltb,
  if◌then◌else◌, Result, ok, err, ◌>>=◌, ◌>>◌, guard, map,
}
use near_git_storage.Near.{Promise, transfer, delete_account, from_millinear}
use Collections.{RefMap, PackMap, Bytes}

-- The messages with which a call panics. The runtime then discards every change of the call, so a
-- failed call has no new state.
pub data Panic : Type 0 where
  not_owner : Panic
  cas_failure : String → Option String → Option String → Panic
  count_overflow : Panic
  bad_fee_recipient : Panic

pub record RefUpdate : Type 0 where
  pub name : String
  pub old_sha : Option String
  pub new_sha : String

abbrev pub service_fee : ℕ
service_fee = from_millinear 100

module _ (R : RefMap) (P : PackMap) where
  pub record GitStorage : Type 0 where
    pub refs : R.Map
    pub packs : P.Map
    pub pack_count : ℕ
    pub owner : String

  -- `parse_account` is `AccountId::from_str`; the fee recipient is set at build time. The promise
  -- is scheduled when the call returns.
  pub new : (String → Option String) → String → String → Result Panic (GitStorage × Promise)
  new parse_account fee_recipient signer = elim (parse_account fee_recipient) [
    | none ↦ err bad_fee_recipient
    | some receiver ↦ ok (
      record { refs = R.empty; packs = P.empty; pack_count = 0; owner = signer },
      record { receiver = receiver; actions = transfer service_fee ∷ [] },
    )
  ]

  unfoldable pub assert_owner : String → GitStorage → Result Panic (Unit {0})
  assert_owner caller s = guard (str_eq caller s.owner) not_owner

  -- `self.pack_count += 1` panics where the u32 overflows.
  unfoldable pub store_pack : Bytes → GitStorage → Result Panic GitStorage
  store_pack [] s = ok s
  store_pack (b ∷ bs) s = do
    guard (ltb (s.pack_count + 1) (2 ^ 32)) count_overflow
    ok (record s { packs = P.insert s.pack_count (b ∷ bs) s.packs; pack_count = s.pack_count + 1 })

  -- The `match` on the expected and the current SHA.
  unfoldable pub compare_and_swap :
      RefUpdate → Option String → Option String → R.Map → Result Panic R.Map
  compare_and_swap u none none refs = ok (R.insert u.name u.new_sha refs)
  compare_and_swap u (some old) (some cur) refs =
      if str_eq old cur
      then ok (R.insert u.name u.new_sha refs)
      else err (cas_failure u.name (some old) (some cur))
  compare_and_swap u none (some cur) refs = err (cas_failure u.name none (some cur))
  compare_and_swap u (some old) none refs = err (cas_failure u.name (some old) none)

  -- `for update in &ref_updates`
  unfoldable pub update_refs : List RefUpdate → R.Map → Result Panic R.Map
  update_refs [] refs = ok refs
  update_refs (u ∷ us) refs = do
    refs' ← compare_and_swap u u.old_sha (R.get u.name refs) refs
    update_refs us refs'

  unfoldable pub push : String → Bytes → List RefUpdate → GitStorage → Result Panic GitStorage
  push caller pack_data ref_updates s = do
    assert_owner caller s
    s' ← store_pack pack_data s
    refs ← update_refs ref_updates s'.refs
    ok (record s' { refs = refs })

  pub get_refs : GitStorage → List (String × String)
  get_refs s = R.iter s.refs

  pub get_pack_count : GitStorage → ℕ
  get_pack_count s = s.pack_count

  -- `filter_map` keeps the packs that are there.
  pub keep_some : Option Bytes → List Bytes → List Bytes
  keep_some none rest = rest
  keep_some (some pack) rest = pack ∷ rest

  -- The packs at `i`, `i + 1`, …, as many indices as `left`.
  pub packs_from : ℕ → ℕ → P.Map → List Bytes
  packs_from zero i packs = []
  packs_from (suc left) i packs = keep_some (P.get i packs) (packs_from left (i + 1) packs)

  pub get_packs : ℕ → GitStorage → List Bytes
  get_packs from_index s = packs_from (s.pack_count - from_index) from_index s.packs

  pub get_owner : GitStorage → String
  get_owner s = s.owner

  -- `for i in 0..self.pack_count { self.packs.remove(&i); }`, over the indices that are left.
  pub remove_packs : ℕ → ℕ → P.Map → P.Map
  remove_packs zero i packs = packs
  remove_packs (suc left) i packs = remove_packs left (i + 1) (P.remove i packs)

  pub remove_refs : List String → R.Map → R.Map
  remove_refs [] refs = refs
  remove_refs (k ∷ ks) refs = remove_refs ks (R.remove k refs)

  pub clear_storage : String → GitStorage → Result Panic GitStorage
  clear_storage caller s = do
    assert_owner caller s
    ok (record s {
      packs = remove_packs s.pack_count 0 s.packs;
      pack_count = 0;
      refs = remove_refs (map (λ p. p.0) (R.iter s.refs)) s.refs;
    })

  pub self_delete : String → String → GitStorage → Result Panic Promise
  self_delete current_account caller s = do
    assert_owner caller s
    ok (record { receiver = current_account; actions = delete_account s.owner ∷ [] })
