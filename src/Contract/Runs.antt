-- ===== src/Contract/Runs.antt =====
-- Runs of the contract, and its laws at concrete inputs.
pub mod Maps
use near_git_storage.Prelude.{
  ℕ, ◌<◌, ◌≤◌, false, ◌≡◌, ◌≢◌, refl, arith, List, [], ◌∷◌, ◌++◌, Option, some, none, String,
  str_eq, eq_iff, ok, err, length, take, All,
}
use near_git_storage.Near.{Promise, transfer}
use near_git_storage.Contract.Collections.{Bytes}
use near_git_storage.Contract.{
  RefUpdate, service_fee, GitStorage, Panic, cas_failure, not_owner, new, push, get_packs,
  get_pack_count, get_refs, clear_storage, store_pack, compare_and_swap, update_refs, assert_owner,
  packs_from, keep_some, remove_packs, remove_refs,
}
use near_git_storage.Contract.Packs.{IsValid, length-get_packs, get_packs_rest}
use near_git_storage.Contract.Spec.{
  Repo, push_spec, clear_spec, view, map_ok, append_pack, swap_refs, refs_of,
}
use near_git_storage.Contract.Refinement.{push-refines, update_refs-refines}
use near_git_storage.Contract.Clearing.{IsCleared, clear_storage-IsCleared, clear_storage-refines}
use near_git_storage.Contract.History.{
  push_call, clear_call, Call, push-IsValid, replay, replay_spec, replay-refines, new_lem,
}
use near_git_storage.Contract.Clients.{
  OwnedCall, stored, delete_call, replay_owned, others_replay, push-last_sha, racing_push,
}
use Maps.{listed_refs, indexed_packs}

abbrev Storage : Type 0
Storage = GitStorage listed_refs indexed_packs

abbrev parse_any : String → Option String
parse_any account = some account

abbrev create_main : RefUpdate
create_main = record { name = "refs/heads/main"; old_sha = none; new_sha = "a1" }

abbrev move_main : String → RefUpdate
move_main sha = record { name = "refs/heads/main"; old_sha = some "a1"; new_sha = sha }

abbrev empty_repo : Storage
empty_repo = record { refs = []; packs = λ i. none; pack_count = 0; owner = "alice.near" }

empty_repo-IsValid : IsValid listed_refs indexed_packs empty_repo
empty_repo-IsValid = record {
  count_fits = omega arith;
  stored = λ k lo hi. absurd (omega arith);
  unused = λ i h. refl;
}

abbrev after_push : Storage
after_push = record {
  refs = ("refs/heads/main", "a1") ∷ [];
  packs = indexed_packs.insert 0 (1 ∷ 2 ∷ []) (λ i. none);
  pack_count = 1;
  owner = "alice.near";
}

first_push :
    push listed_refs indexed_packs "alice.near" (1 ∷ 2 ∷ []) (create_main ∷ []) empty_repo
    ≡ ok after_push
unfolding push assert_owner store_pack update_refs compare_and_swap
first_push = refl

-- A second push from the same state of the ref fails with the SHA that the first one left.
second_push :
    push listed_refs indexed_packs "alice.near" [] (create_main ∷ []) after_push
    ≡ err (cas_failure "refs/heads/main" none (some "a1"))
unfolding push assert_owner store_pack update_refs compare_and_swap
second_push = refl

one_pack : get_packs listed_refs indexed_packs 0 after_push ≡ (1 ∷ 2 ∷ []) ∷ []
unfolding get_packs packs_from keep_some
one_pack = refl

cleared : clear_storage listed_refs indexed_packs "alice.near" empty_repo ≡ ok empty_repo
unfolding clear_storage assert_owner remove_packs remove_refs
cleared = refl

after_push-IsValid : IsValid listed_refs indexed_packs after_push
after_push-IsValid =
    push-IsValid listed_refs indexed_packs "alice.near" (1 ∷ 2 ∷ []) (create_main ∷ []) empty_repo
      after_push empty_repo-IsValid first_push

cleared_after_push :
    (s' : Storage) × (clear_storage listed_refs indexed_packs "alice.near" after_push ≡ ok s')
unfolding clear_storage assert_owner remove_packs remove_refs
cleared_after_push = (_, refl)

abbrev calls : List Call
calls =
    push_call "alice.near" (1 ∷ 2 ∷ []) (create_main ∷ [])
    ∷ push_call "bob.near" (3 ∷ []) (move_main "b2" ∷ [])
    ∷ push_call "alice.near" (4 ∷ []) (move_main "c3" ∷ [])
    ∷ clear_call "alice.near"
    ∷ []

others_differ : (caller : String) → str_eq caller "alice.near" ≡ false → caller ≢ "alice.near"
others_differ caller h = ground (arith, eq_iff caller "alice.near")

one_le_count : 1 ≤ get_pack_count listed_refs indexed_packs after_push
unfolding get_pack_count
one_le_count = omega arith

abbrev fee_transfer : Promise
fee_transfer = record { receiver = "fees.near"; actions = transfer service_fee ∷ [] }

made :
    new listed_refs indexed_packs parse_any "fees.near" "alice.near" ≡ ok (empty_repo, fee_transfer)
unfolding new
made = refl

replay-refines_example :
    IsValid listed_refs indexed_packs (replay listed_refs indexed_packs calls empty_repo)
    × (view listed_refs indexed_packs (replay listed_refs indexed_packs calls empty_repo)
        ≡ replay_spec calls (view listed_refs indexed_packs empty_repo))
replay-refines_example =
    replay-refines listed_refs indexed_packs calls empty_repo empty_repo-IsValid

push-refines_example :
    map_ok
      (view listed_refs indexed_packs)
      (push listed_refs indexed_packs "alice.near" (4 ∷ []) (move_main "c3" ∷ []) after_push)
    ≡ push_spec "alice.near"
        (4 ∷ [])
        (move_main "c3" ∷ [])
        (view listed_refs indexed_packs after_push)
push-refines_example =
    push-refines listed_refs indexed_packs "alice.near" (4 ∷ []) (move_main "c3" ∷ []) after_push
      after_push-IsValid

clear_storage-refines_example :
    map_ok
      (view listed_refs indexed_packs)
      (clear_storage listed_refs indexed_packs "alice.near" after_push)
    ≡ clear_spec "alice.near" (view listed_refs indexed_packs after_push)
clear_storage-refines_example =
    clear_storage-refines listed_refs indexed_packs "alice.near" after_push

clear_storage-IsCleared_example :
    IsCleared listed_refs indexed_packs "alice.near" cleared_after_push.0
clear_storage-IsCleared_example =
    clear_storage-IsCleared listed_refs indexed_packs "alice.near" after_push cleared_after_push.0
      after_push-IsValid cleared_after_push.1

racing_push_example :
    push listed_refs indexed_packs "alice.near"
      (7 ∷ [])
      (record { name = "refs/heads/main"; old_sha = none; new_sha = "z9" } ∷ [])
      after_push
    ≢ ok empty_repo
racing_push_example =
    racing_push listed_refs indexed_packs "alice.near" "alice.near" (1 ∷ 2 ∷ []) (7 ∷ [])
      create_main (record { name = "refs/heads/main"; old_sha = none; new_sha = "z9" }) []
      empty_repo after_push empty_repo refl refl (λ e. cc) first_push

push-last_sha_example : listed_refs.get "refs/heads/main" after_push.refs ≡ some "a1"
push-last_sha_example =
    push-last_sha listed_refs indexed_packs "alice.near" (1 ∷ 2 ∷ []) (create_main ∷ []) empty_repo
      after_push "refs/heads/main" first_push

abbrev foreign_calls : List OwnedCall
foreign_calls =
    stored (push_call "bob.near" (3 ∷ []) (move_main "b2" ∷ []))
    ∷ delete_call "repo.near" "bob.near"
    ∷ stored (clear_call "carol.near")
    ∷ []

others_replay_example :
    replay_owned listed_refs indexed_packs foreign_calls (after_push, []) ≡ (after_push, [])
others_replay_example = others_replay listed_refs indexed_packs foreign_calls after_push [] (
  others_differ "bob.near" refl,
  (others_differ "bob.near" refl, (others_differ "carol.near" refl, tt)),
)

get_packs_rest_example :
    take 1 (get_packs listed_refs indexed_packs 0 after_push)
      ++ get_packs listed_refs indexed_packs 1 after_push
    ≡ get_packs listed_refs indexed_packs 0 after_push
get_packs_rest_example =
    get_packs_rest listed_refs indexed_packs 1 after_push after_push-IsValid one_le_count

new_lem_example :
    IsValid listed_refs indexed_packs empty_repo
    × (view listed_refs indexed_packs empty_repo
        ≡ record { packs = []; refs = λ k. none; owner = "alice.near" })
new_lem_example = new_lem listed_refs indexed_packs parse_any "fees.near" "alice.near" made
