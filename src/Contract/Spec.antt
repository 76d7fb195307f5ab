-- ===== src/Contract/Spec.antt =====
-- What the contract promises its clients, without near_sdk's collections: an append-only list of
-- packs, and refs that change by compare-and-swap.
use near_git_storage.Prelude.{
  ◌+◌, ◌^◌, String, str_eq, List, [], ◌∷◌, ◌++◌, Option, none, some, Bool, true, false, ltb,
  if◌then◌else◌, Result, ok, err, ◌>>=◌, ◌>>◌, guard, length,
}
use near_git_storage.Contract.Collections.{RefMap, PackMap, Bytes}
use near_git_storage.Contract.{
  Panic, not_owner, cas_failure, count_overflow, RefUpdate, GitStorage, get_packs,
}

abbrev pub Refs : Type 0
Refs = String → Option String

pub record Repo : Type 0 where
  pub packs : List Bytes
  pub refs : Refs
  pub owner : String

abbrev pub same_sha : Option String → Option String → Bool
same_sha none none = true
same_sha (some a) (some b) = str_eq a b
same_sha none (some b) = false
same_sha (some a) none = false

abbrev pub set_ref : String → String → Refs → Refs
set_ref name sha refs k = if str_eq name k then some sha else refs k

-- The updates in order, each against the refs that the ones before it left.
unfoldable pub swap_refs : List RefUpdate → Refs → Result Panic Refs
swap_refs [] refs = ok refs
swap_refs (u ∷ us) refs =
    if same_sha u.old_sha (refs u.name)
    then swap_refs us (set_ref u.name u.new_sha refs)
    else err (cas_failure u.name u.old_sha (refs u.name))

unfoldable pub append_pack : Bytes → List Bytes → Result Panic (List Bytes)
append_pack [] packs = ok packs
append_pack (b ∷ bs) packs = do
  guard (ltb (length packs + 1) (2 ^ 32)) count_overflow
  ok (packs ++ ((b ∷ bs) ∷ []))

unfoldable pub push_spec : String → Bytes → List RefUpdate → Repo → Result Panic Repo
push_spec caller pack updates r = do
  guard (str_eq caller r.owner) not_owner
  packs ← append_pack pack r.packs
  refs ← swap_refs updates r.refs
  ok (record r { packs = packs; refs = refs })

unfoldable pub clear_spec : String → Repo → Result Panic Repo
clear_spec caller r = do
  guard (str_eq caller r.owner) not_owner
  ok (record r { packs = []; refs = λ k. none })

abbrev pub map_ok {ℓ κ} : {A : Type ℓ} {B : Type κ} → (A → B) → Result Panic A → Result Panic B
map_ok f (ok a) = ok (f a)
map_ok f (err e) = err e

-- What a state of the contract stands for.
module _ (R : RefMap) (P : PackMap) where
  abbrev pub refs_of : R.Map → Refs
  refs_of m k = R.get k m

  abbrev pub view : GitStorage R P → Repo
  view s = record { packs = get_packs R P 0 s; refs = refs_of s.refs; owner = s.owner }
