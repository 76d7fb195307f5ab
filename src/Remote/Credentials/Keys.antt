-- ===== src/Remote/Credentials/Keys.antt =====
-- Whose key signs (git-remote-near/src/main.rs).
use near_git_storage.Prelude.{
  ◌≡◌, refl, sym, ap, ◌∙◌, subst, Option, none, some, true, none-ne-some, ok, >>=-eq-ok,
  ok-injective, Bool-cases, inl, inr,
}
use near_git_storage.Hex.{Bytes}
use near_git_storage.Text.{ascii}
use near_git_storage.Json.{Json, index, as_str}
use near_git_storage.Remote.{unwrap_or}
use near_git_storage.Remote.Credentials.{
  Panic, Surroundings, or_panic, contains, or_owner, signer_account, cred_path, signer_of_key,
  signer_of_file, signer_for, resolve_credentials,
}

or_panic-ok : {A : Type 0} (why : Panic) (o : Option A) {a : A} → or_panic why o ≡ ok a → o ≡ some a
or_panic-ok why none h = cc
or_panic-ok why (some b) h = ap some (ok-injective h)

module _ {Url Key Signer : Type 0} (around : Surroundings Url Key Signer) where
  -- The account that signs for a contract: the one that is set, else the contract's owner, else, where
  -- the owner cannot be read, the contract.
  pub data SignsFor (contract_id contract_id_str : Bytes) : Bytes → Type 0 where
    set :
        {account : Bytes}
        → around.var (ascii "NEAR_SIGNER_ACCOUNT") ≡ some account
        → SignsFor contract_id contract_id_str account
    owner :
        {account : Bytes}
        → around.var (ascii "NEAR_SIGNER_ACCOUNT") ≡ none
        → around.get_owner contract_id ≡ some account
        → SignsFor contract_id contract_id_str account
    itself :
        around.var (ascii "NEAR_SIGNER_ACCOUNT") ≡ none
        → around.get_owner contract_id ≡ none
        → SignsFor contract_id contract_id_str contract_id_str

  -- A signer of the key that this text is.
  pub record IsMadeOf (key : Bytes) (signer : Signer) : Type 0 where
    pub secret_key : Key
    pub parsed : around.parse_key key ≡ some secret_key
    pub made : around.from_secret_key secret_key ≡ some signer

  -- Where the key of an account comes from: the environment, else the account's own file.
  pub data HasKey (account : Bytes) (signer : Signer) : Type 0 where
    given :
        {key : Bytes}
        → around.var (ascii "NEAR_SIGNER_KEY") ≡ some key
        → IsMadeOf key signer
        → HasKey account signer
    stored :
        {text key : Bytes} {cred : Json}
        → around.var (ascii "NEAR_SIGNER_KEY") ≡ none
        → around.read_to_string (cred_path around account) ≡ some text
        → around.parse_json text ≡ some cred
        → as_str (index (ascii "private_key") cred) ≡ some key
        → IsMadeOf key signer
        → HasKey account signer

  signer_of_key-IsMadeOf :
      (key : Bytes) (signer : Signer) → signer_of_key around key ≡ ok signer → IsMadeOf key signer
  unfolding signer_of_key
  signer_of_key-IsMadeOf key signer e =
      let (secret_key, parsed, e₁) =
        >>=-eq-ok (or_panic Panic.invalid_key (around.parse_key key)) _ e in
      record { secret_key = secret_key; parsed = or_panic-ok _ _ parsed; made = or_panic-ok _ _ e₁ }

  signer_of_file-HasKey :
      (account : Bytes) (signer : Signer)
      → around.var (ascii "NEAR_SIGNER_KEY") ≡ none
      → signer_of_file around account ≡ ok signer
      → HasKey account signer
  unfolding signer_of_file
  signer_of_file-HasKey account signer unset e =
      let (text, read, e₁) =
        >>=-eq-ok (or_panic Panic.no_credentials (around.read_to_string (cred_path around account)))
          _ e in
      let (cred, parsed, e₂) = >>=-eq-ok (or_panic Panic.bad_json (around.parse_json text)) _ e₁ in
      let (key, found, e₃) =
        >>=-eq-ok (or_panic Panic.no_private_key (as_str (index (ascii "private_key") cred))) _
          e₂ in
      stored unset (or_panic-ok _ _ read) (or_panic-ok _ _ parsed) (or_panic-ok _ _ found)
        (signer_of_key-IsMadeOf key signer e₃)

  signer_for-HasKey :
      (account : Bytes) (signer : Signer) (key : Option Bytes)
      → around.var (ascii "NEAR_SIGNER_KEY") ≡ key
      → signer_for around account key ≡ ok signer
      → HasKey account signer
  signer_for-HasKey account signer none unset e = signer_of_file-HasKey account signer unset e
  signer_for-HasKey account signer (some key) is_set e =
      given is_set (signer_of_key-IsMadeOf key signer e)

  or_owner-SignsFor :
      (contract_id contract_id_str : Bytes) (account owner_of : Option Bytes)
      → around.var (ascii "NEAR_SIGNER_ACCOUNT") ≡ account
      → around.get_owner contract_id ≡ owner_of
      → SignsFor contract_id contract_id_str (or_owner around contract_id contract_id_str account)
  or_owner-SignsFor contract_id contract_id_str (some account) owner_of e o = set e
  or_owner-SignsFor contract_id contract_id_str none (some account) e o =
      subst (λ a. SignsFor contract_id contract_id_str (unwrap_or contract_id_str a)) (sym o)
        (owner e o)
  or_owner-SignsFor contract_id contract_id_str none none e o =
      subst (λ a. SignsFor contract_id contract_id_str (unwrap_or contract_id_str a)) (sym o)
        (itself e o)

  signer_account-SignsFor :
      (contract_id contract_id_str : Bytes)
      → ((text : Bytes) → contains b'@' text ≡ true → around.parse_account text ≡ none)
      → around.parse_account contract_id_str ≡ some contract_id
      → SignsFor contract_id contract_id_str (signer_account around contract_id contract_id_str)
  unfolding signer_account
  signer_account-SignsFor contract_id contract_id_str refuses parsed =
      elim (Bool-cases (contains b'@' contract_id_str)) [
        | inl at ↦ absurd (none-ne-some (sym (refuses contract_id_str at) ∙ parsed))
        | inr no_at ↦ rw no_at (
            or_owner-SignsFor contract_id contract_id_str (around.var (ascii "NEAR_SIGNER_ACCOUNT"))
              (around.get_owner contract_id) refl refl)
      ]

  -- Where AccountId refuses an at sign, and resolve_credentials does not panic: the account that signs is
  -- the one of NEAR_SIGNER_ACCOUNT, else the contract's owner, else the contract, and never the part
  -- before an at sign. Its key is the one of NEAR_SIGNER_KEY; only where that is not set it is read from a
  -- file, and then from the file of that account on the network of NEAR_ENV.
  pub resolve_credentials-HasKey :
      (contract_id_str contract_id signer_id : Bytes) (signer : Signer)
      → ((text : Bytes) → contains b'@' text ≡ true → around.parse_account text ≡ none)
      → resolve_credentials around contract_id_str ≡ ok (contract_id, signer_id, signer)
      → (account : Bytes) × (around.parse_account contract_id_str ≡ some contract_id)
        × SignsFor contract_id contract_id_str account
        × (around.parse_account account ≡ some signer_id)
        × HasKey account signer
  unfolding resolve_credentials
  resolve_credentials-HasKey contract_id_str contract_id signer_id signer refuses e =
      let (c, parsed, e₁) =
        >>=-eq-ok (or_panic Panic.invalid_contract_id (around.parse_account contract_id_str)) _ e in
      let account = signer_account around c contract_id_str in
      let (i, named, e₂) =
        >>=-eq-ok (or_panic Panic.invalid_signer_account (around.parse_account account)) _ e₁ in
      let (s, found, e₃) =
        >>=-eq-ok (signer_for around account (around.var (ascii "NEAR_SIGNER_KEY"))) _ e₂ in
      let same = ok-injective e₃ in
      let accepted = or_panic-ok Panic.invalid_contract_id _ parsed in
      (
        account,
        accepted ∙ ap (λ p. some p.0) same,
        subst (λ k. SignsFor k contract_id_str account) (ap (λ p. p.0) same)
            (signer_account-SignsFor c contract_id_str refuses accepted),
        or_panic-ok Panic.invalid_signer_account _ named ∙ ap (λ p. some p.1) same,
        subst (HasKey account) (ap (λ p. p.2) same)
            (signer_for-HasKey account s (around.var (ascii "NEAR_SIGNER_KEY")) refl found),
      )
