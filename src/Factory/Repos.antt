-- ===== src/Factory/Repos.antt =====
-- The repositories that a factory creates.
use near_git_storage.Prelude.{
  ℕ, ◌≤◌, ◌≡◌, ◌∙◌, ap, sym, String, [], ◌∷◌, Option, some, Bool-cases, Option-cases, inl, inr, leb,
  leb→le, ok, ok-injective, err-ne-ok,
}
use near_git_storage.Hex.{Bytes}
use near_git_storage.Near.{
  Promise, create_account, transfer, use_global_contract, function_call, from_near, from_tgas,
}
use near_git_storage.Factory.{
  GitFactory, decode_hex, sub_account_name, create_repo, set_global_contract_hash,
}
use near_git_storage.Factory.Hashes.{set_global_contract_hash-SetTo}

-- A repository on the code with this hash: its account is made, the whole deposit goes there, and
-- its `new` is called without a deposit.
abbrev pub RepoActions : ℕ → Bytes → Promise → Type 0
RepoActions deposit hash p =
    p.actions
    ≡ create_account
      ∷ transfer deposit
      ∷ use_global_contract hash
      ∷ function_call "new" "{}" 0 (from_tgas 10)
      ∷ []

create_repo-ok :
    (parse_account : String → Option String) (account : String) (deposit : ℕ) (repo_name : String)
    (s : GitFactory) {p : Promise}
    → create_repo parse_account account deposit repo_name s ≡ ok p
    → (from_near 1 ≤ deposit)
      × (parse_account (sub_account_name repo_name account) ≡ some p.receiver)
      × RepoActions deposit s.global_contract_hash p
unfolding create_repo
create_repo-ok parse_account account deposit repo_name s {p} e =
    elim (Option-cases (parse_account (sub_account_name repo_name account))) [
      | inl bad ↦ absurd (err-ne-ok (rw (bad, create_repo) at e))
      | inr (sub_account, good) ↦ elim (Bool-cases (leb (from_near 1) deposit)) [
        | inl enough ↦
            let q = ok-injective (rw (good, create_repo, enough) at e) in
            (leb→le _ _ enough, good ∙ ap (λ r. some r.receiver) q, sym (ap (λ r. r.actions) q))
        | inr small ↦ absurd (err-ne-ok (rw (good, create_repo, small) at e))
      ]
    ]

-- A repository that is created after the owner set the hash is on the code with the hash that his
-- text reads as. Its account is the one that the name gives, a dot and the factory's account behind it, at least 1 NEAR was attached, and all of
-- it goes to the new account.
pub create_repo-set_global_contract_hash :
    (parse_account : String → Option String) (account predecessor : String) (deposit : ℕ)
    (repo_name : String) (text : Bytes) (s s' : GitFactory) {p : Promise}
    → set_global_contract_hash predecessor text s ≡ ok s'
    → create_repo parse_account account deposit repo_name s' ≡ ok p
    → (from_near 1 ≤ deposit)
      × (parse_account (sub_account_name repo_name account) ≡ some p.receiver)
      × ((hash : Bytes) × (decode_hex text ≡ ok hash) × RepoActions deposit hash p)
create_repo-set_global_contract_hash parse_account account predecessor deposit repo_name text s s'
      set created =
    let (_, set_to) = set_global_contract_hash-SetTo predecessor text s set in
    let (enough, receiver, actions) =
      create_repo-ok parse_account account deposit repo_name s' created in
    (enough, receiver, (s'.global_contract_hash, set_to.read, actions))
