-- ===== src/Factory/Hashes.antt =====
-- The hash of the global contract: how it is read, who may set it and what is shown of it.
use near_git_storage.Prelude.{
  ℕ, ◌+◌, ◌*◌, ◌≤◌, ◌<◌, ◌≡◌, refl, ap, subst, arith, String, str_eq, eq_iff, [], ◌∷◌, ◌++◌, Option,
  none, some, true, Bool-cases, Option-cases, inl, inr, ◌==◌, ==_iff, ok, ◌>>=◌, ◌>>◌, guard,
  ok-injective, err-ne-ok, >>=-eq-ok, length, All, suc, ltb, ltb_false→le, none-ne-some,
}
use near_git_storage.Hex.{Bytes, format_hex, to_digit, from_str_radix, parse_loop}
use near_git_storage.Hex.RoundTrip.{from_str_radix-format_two, format_hex_two}
use near_git_storage.Factory.{
  wrong_length, GitFactory, byte_or_panic, decode_hex, new, set_global_contract_hash, format_bytes,
  get_global_contract_hash, get_owner,
}

abbrev pub IsByte : ℕ → Type 0
IsByte b = b < 256

decode_pair :
    (b : ℕ) (cs : Bytes)
    → b < 256
    → decode_hex (format_hex 2 b ++ cs) ≡ (decode_hex cs >>= λ bs. ok (b ∷ bs))
unfolding decode_hex
decode_pair b cs h =
    let parse = from_str_radix-format_two b h in
    rw (format_hex_two b h, rw (format_hex_two b h) at parse) refl

-- Numbers below 256 that are written as two hexadecimal digits each are read back.
pub decode_hex-format_bytes :
    (bytes : Bytes) → All IsByte bytes → decode_hex (format_bytes bytes) ≡ ok bytes
unfolding decode_hex format_bytes
decode_hex-format_bytes [] h = refl
decode_hex-format_bytes (b ∷ bs) (hb, h) =
    rw (decode_pair b (format_bytes bs) hb, decode_hex-format_bytes bs h)

-- A parse never exceeds the largest number of its type.
parse_loop_bound :
    (max acc : ℕ) (cs : Bytes) {n : ℕ} → acc ≤ max → parse_loop max acc cs ≡ some n → n ≤ max
unfolding parse_loop
parse_loop_bound max acc [] h e = ground arith
parse_loop_bound max acc (c ∷ cs) h e = elim (Option-cases (to_digit c)) [
  | inl bad ↦ absurd (none-ne-some (rw bad at e))
  | inr (d, good) ↦ elim (Bool-cases (ltb max (acc * 16 + d))) [
    | inl over ↦ absurd (none-ne-some (rw (good, over) at e))
    | inr fits ↦
        parse_loop_bound max (acc * 16 + d) cs (ltb_false→le _ _ fits) (rw (good, fits) at e)
  ]
]

parsed : (o : Option ℕ) {b : ℕ} → byte_or_panic o ≡ ok b → o ≡ some b
parsed none e = absurd (err-ne-ok e)
parsed (some b) e = ap some (ok-injective e)

byte_or_panic-IsByte :
    (c d : ℕ) {b : ℕ} → byte_or_panic (from_str_radix 255 (c ∷ d ∷ [])) ≡ ok b → IsByte b
unfolding from_str_radix
byte_or_panic-IsByte c d e = elim (Bool-cases (c == b'+')) [
  | inl sign ↦
      omega (arith, parse_loop_bound 255 0 (d ∷ []) (omega arith) (parsed _ (rw sign at e)))
  | inr digit ↦
      omega (arith, parse_loop_bound 255 0 (c ∷ d ∷ []) (omega arith) (parsed _ (rw digit at e)))
]

-- Where a text is read, each number of the result is below 256, and there is one for two characters.
pub decode_hex-IsByte :
    (text : Bytes) {bytes : Bytes}
    → decode_hex text ≡ ok bytes
    → All IsByte bytes × (2 * length bytes ≡ length text)
unfolding decode_hex
decode_hex-IsByte [] e = subst (λ l. All IsByte l × (2 * length l ≡ 0)) (ok-injective e) (tt, refl)
decode_hex-IsByte (c ∷ []) e = absurd (err-ne-ok e)
decode_hex-IsByte (c ∷ d ∷ cs) e =
    let (b, hb, e₁) = >>=-eq-ok (byte_or_panic (from_str_radix 255 (c ∷ d ∷ []))) _ e in
    let (bs, hbs, e₂) = >>=-eq-ok (decode_hex cs) _ e₁ in
    let (all, long) = decode_hex-IsByte cs hbs in
    subst (λ l. All IsByte l × (2 * length l ≡ suc (suc (length cs)))) (ok-injective e₂)
      ((byte_or_panic-IsByte c d hb, all), omega arith)

-- A factory holds the 32 bytes of a SHA-256 hash.
pub record IsValid (s : GitFactory) : Type 0 where
  pub long : length s.global_contract_hash ≡ 32
  pub bytes : All IsByte s.global_contract_hash

checked_hash :
    (text hash : Bytes) (t : GitFactory) {s : GitFactory}
    → decode_hex text ≡ ok hash
    → (guard (length hash == 32) wrong_length >> ok t) ≡ ok s
    → (length hash ≡ 32) × All IsByte hash × (t ≡ s)
checked_hash text hash t d e = elim (Bool-cases (length hash == 32)) [
  | inl long ↦
      ((==_iff (length hash) 32).0 long, (decode_hex-IsByte text d).0, ok-injective (rw long at e))
  | inr short ↦ absurd (err-ne-ok (rw short at e))
]

-- Where `new` does not panic, the factory is valid; its owner is who called it, and its hash is what the text
-- reads as.
pub new-IsValid :
    (predecessor : String) (text : Bytes) {s : GitFactory}
    → new predecessor text ≡ ok s
    → IsValid s × (get_owner s ≡ predecessor) × (decode_hex text ≡ ok s.global_contract_hash)
unfolding new get_owner
new-IsValid predecessor text e =
    let (hash, d, e₁) = >>=-eq-ok (decode_hex text) _ e in
    let (long, bytes, t) = checked_hash text hash _ d e₁ in
    subst (λ s. IsValid s × (s.owner ≡ predecessor) × (decode_hex text ≡ ok s.global_contract_hash))
      t (record { long = long; bytes = bytes }, refl, d)

-- What a call that sets the hash leaves, where it does not panic.
pub record SetTo (text : Bytes) (s s' : GitFactory) : Type 0 where
  pub valid : IsValid s'
  pub same_owner : get_owner s' ≡ get_owner s
  pub read : decode_hex text ≡ ok s'.global_contract_hash

-- Only the owner sets the hash. A call that does not panic was the owner's, leaves a valid factory
-- with the hash that the text reads as, and does not change the owner.
pub set_global_contract_hash-SetTo :
    (predecessor : String) (text : Bytes) (s : GitFactory) {s' : GitFactory}
    → set_global_contract_hash predecessor text s ≡ ok s'
    → (predecessor ≡ get_owner s) × SetTo text s s'
unfolding set_global_contract_hash get_owner
set_global_contract_hash-SetTo predecessor text s e =
    elim (Bool-cases (str_eq predecessor s.owner)) [
      | inl owner ↦
          let (hash, d, e₁) = >>=-eq-ok (decode_hex text) _ (rw owner at e) in
          let (long, bytes, t) = checked_hash text hash _ d e₁ in
          (
            ground (arith, eq_iff predecessor s.owner),
            subst (SetTo text s) t (record {
              valid = record { long = long; bytes = bytes };
              same_owner = refl;
              read = d;
            }),
          )
      | inr other ↦ absurd (err-ne-ok (rw other at e))
    ]

-- The owner who sets the hash that a valid factory shows gives his own factory the same hash.
pub set_global_contract_hash-get_global_contract_hash :
    (s t : GitFactory)
    → IsValid t
    → set_global_contract_hash (get_owner s) (get_global_contract_hash t) s
      ≡ ok (record s { global_contract_hash = t.global_contract_hash })
unfolding set_global_contract_hash get_owner get_global_contract_hash
set_global_contract_hash-get_global_contract_hash s t v =
    let same : str_eq s.owner s.owner ≡ true = ground (arith, eq_iff s.owner s.owner) in
    let long : (length t.global_contract_hash == 32) ≡ true = ground (arith, v.long) in
    rw (same, decode_hex-format_bytes t.global_contract_hash v.bytes, long) refl
