-- ===== src/Contract/Packs.antt =====
-- The packs of a repository: indices below the count hold a pack each, and none other does.
use near_git_storage.Prelude.{
  ℕ, zero, suc, ◌+◌, ◌-◌, ◌≤◌, ◌<◌, ◌^◌, ◌≡◌, refl, ◌≢◌, ap, ap₂, ◌∙◌, sym, arith, List, [], ◌∷◌,
  ◌++◌, Option, none, some, length, take, drop, take-append-drop,
}
use near_git_storage.Contract.Collections.{RefMap, PackMap, Bytes}
use near_git_storage.Contract.{GitStorage, keep_some, packs_from, get_packs, get_pack_count}

module _ (R : RefMap) (P : PackMap) where
  -- Each index from `i` to `j` holds a pack.
  abbrev pub Stored : ℕ → ℕ → P.Map → Type 0
  Stored i j m = (k : ℕ) → i ≤ k → k < j → (pack : Bytes) × (P.get k m ≡ some pack) × (pack ≢ [])

  pub record IsValid (s : GitStorage R P) : Type 0 where
    pub count_fits : s.pack_count < 2 ^ 32
    pub stored : Stored 0 s.pack_count s.packs
    pub unused : (i : ℕ) → s.pack_count ≤ i → P.get i s.packs ≡ none

  -- A pack behind the indices that are read does not show.
  pub packs_from-insert :
      (left i k : ℕ) (v : Bytes) (m : P.Map)
      → i + left ≤ k
      → packs_from R P left i (P.insert k v m) ≡ packs_from R P left i m
  unfolding packs_from
  packs_from-insert zero i k v m h = refl
  packs_from-insert (suc left) i k v m h =
      ground (arith, P.get-insert k i v m, packs_from-insert left (i + 1) k v m (omega arith))

  keep_some-append :
      (o : Option Bytes) (xs ys : List Bytes)
      → keep_some R P o (xs ++ ys) ≡ keep_some R P o xs ++ ys
  unfolding keep_some
  keep_some-append none xs ys = refl
  keep_some-append (some pack) xs ys = refl

  pub packs_from-snoc :
      (left i k : ℕ) (m : P.Map) {pack : Bytes}
      → k ≡ i + left
      → P.get k m ≡ some pack
      → packs_from R P (suc left) i m ≡ packs_from R P left i m ++ (pack ∷ [])
  unfolding packs_from keep_some
  packs_from-snoc zero i k m e h = let e' : k ≡ i = omega arith in rw (rw e' at h)
  packs_from-snoc (suc left) i k m {pack} e h =
      rw (packs_from-snoc left (i + 1) k m (omega arith) h)
        (keep_some-append (P.get i m) (packs_from R P left (i + 1) m) (pack ∷ []))

  pub length-packs_from :
      (left i : ℕ) (m : P.Map) → Stored i (i + left) m → length (packs_from R P left i m) ≡ left
  unfolding packs_from keep_some
  length-packs_from zero i m h = refl
  length-packs_from (suc left) i m h =
      let (pack, e, _) = h i (omega arith) (omega arith) in
      rw e (ap suc (length-packs_from left (i + 1) m (λ k lo hi. h k (omega arith) (omega arith))))

  -- Reading on from a later index drops the packs before it.
  pub drop-packs_from :
      (n all i : ℕ) (m : P.Map)
      → n ≤ all
      → Stored i (i + n) m
      → drop n (packs_from R P all i m) ≡ packs_from R P (all - n) (i + n) m
  unfolding packs_from keep_some
  drop-packs_from zero all i m le h =
      ap₂ (λ (a b : ℕ). packs_from R P a b m) {x = all} {y = all - 0} {u = i} {v = i + 0}
        (omega arith) (omega arith)
  drop-packs_from (suc n) zero i m le h = absurd (omega arith)
  drop-packs_from (suc n) (suc all) i m le h =
      let (pack, e, _) = h i (omega arith) (omega arith) in
      rw e (
        drop-packs_from n all (i + 1) m (omega arith) (λ k lo hi. h k (omega arith) (omega arith))
        ∙ ap₂ (λ (a b : ℕ). packs_from R P a b m) {x = all - n} {y = suc all - suc n}
            {u = i + 1 + n} {v = i + suc n} (omega arith) (omega arith))

  whole : (n : ℕ) (m : P.Map) → packs_from R P (n - 0) 0 m ≡ packs_from R P n 0 m
  whole n m = ap (λ (k : ℕ). packs_from R P k 0 m) {x = n - 0} {y = n} (omega arith)

  pub length-get_packs :
      (s : GitStorage R P) → IsValid s → length (get_packs R P 0 s) ≡ s.pack_count
  unfolding get_packs
  length-get_packs s v =
      rw (whole s.pack_count s.packs)
        (length-packs_from s.pack_count 0 s.packs (λ k lo hi. v.stored k lo (omega arith)))

  -- A pack that is inserted at the count is the last that is read.
  pub packs_from-insert_last :
      (n : ℕ) (pack : Bytes) (m : P.Map)
      → packs_from R P (n + 1 - 0) 0 (P.insert n pack m) ≡ packs_from R P (n - 0) 0 m ++ (pack ∷ [])
  packs_from-insert_last n pack m =
      ap (λ (k : ℕ). packs_from R P k 0 (P.insert n pack m)) {x = n + 1 - 0} {y = suc n}
        (omega arith)
      ∙ packs_from-snoc n 0 n (P.insert n pack m) (omega arith)
          (ground (arith, P.get-insert n n pack m))
      ∙ ap (λ t. t ++ (pack ∷ [])) (packs_from-insert n 0 n pack m (omega arith) ∙ sym (whole n m))

  -- In a valid state, a client that has the first `n` packs, `n` at most the count, and asks for those
  -- from index `n` on has all of them, in order.
  pub get_packs_rest :
      (n : ℕ) (s : GitStorage R P)
      → IsValid s
      → n ≤ get_pack_count R P s
      → take n (get_packs R P 0 s) ++ get_packs R P n s ≡ get_packs R P 0 s
  unfolding get_packs get_pack_count
  get_packs_rest n s v le =
      let all = packs_from R P (s.pack_count - 0) 0 s.packs in
      ap (λ r. take n all ++ r)
        (ap₂ (λ (a b : ℕ). packs_from R P a b s.packs) {x = s.pack_count - n}
            {y = s.pack_count - 0 - n} {u = n} {v = 0 + n} (omega arith) (omega arith)
          ∙ sym (
              drop-packs_from n (s.pack_count - 0) 0 s.packs (omega arith)
                (λ k lo hi. v.stored k lo (omega arith))))
      ∙ take-append-drop n all
