-- ===== src/Packfile/ComputeDelta/Matching.antt =====
-- The index of the base, and the search for a match in it.
use near_git_storage.Prelude.{
  ℕ, zero, suc, ◌+◌, ◌-◌, ◌*◌, ◌/◌, ◌≤◌, ◌≡◌, refl, ap₂, arith, List, [], ◌∷◌, ◌==◌, ==_iff, ltb,
  leb, if◌then◌else◌, length, take, drop, min, All, All-append, Bool-cases, inl, inr, leb→le, true,
  false,
}
use near_git_storage.Packfile.{Bytes}
use near_git_storage.Packfile.ComputeDelta.{
  block_size, Index, index_push, index_get, index_blocks, build_index, match_length, Match, best_of,
  find_match,
}

-- `base.len() - base_off` does not underflow at any offset of the index.
abbrev pub InBase : Bytes → List ℕ → Type 0
InBase base = All (λ o. o ≤ length base)

abbrev pub IsIndex : Bytes → Index → Type 0
IsIndex base = All (λ e. InBase base e.1)

index_push-IsIndex :
    (base : Bytes) (hash offset : ℕ) (index : Index)
    → offset ≤ length base
    → IsIndex base index
    → IsIndex base (index_push hash offset index)
unfolding index_push
index_push-IsIndex base hash offset [] h v = ((h, tt), tt)
index_push-IsIndex base hash offset ((k, offsets) ∷ rest) h (v, vs) =
    elim (Bool-cases (k == hash)) [
      | inl e ↦ rw e (All-append (λ o. o ≤ length base) offsets (offset ∷ []) v (h, tt), vs)
      | inr e ↦ rw e (v, index_push-IsIndex base hash offset rest h vs)
    ]

index_get-InBase :
    (base : Bytes) (hash : ℕ) (index : Index)
    → IsIndex base index
    → InBase base (index_get hash index)
unfolding index_get
index_get-InBase base hash [] v = tt
index_get-InBase base hash ((k, offsets) ∷ rest) (v, vs) = elim (Bool-cases (k == hash)) [
  | inl e ↦ rw e v
  | inr e ↦ rw e (index_get-InBase base hash rest vs)
]

index_blocks-IsIndex :
    (left i : ℕ) (base : Bytes) (index : Index)
    → i + block_size * left ≤ length base
    → IsIndex base index
    → IsIndex base (index_blocks left i base index)
unfolding index_blocks
index_blocks-IsIndex zero i base index h v = v
index_blocks-IsIndex (suc left) i base index h v =
    index_blocks-IsIndex left (i + block_size) base _ (omega arith)
      (index_push-IsIndex base _ i index (omega arith) v)

pub build_index-IsIndex : (base : Bytes) → IsIndex base (build_index base)
unfolding build_index
build_index-IsIndex base = elim (Bool-cases (leb block_size (length base))) [
  | inl e ↦ rw e (
      index_blocks-IsIndex ((length base - block_size) / block_size + 1) 0 base []
        (omega (arith, leb→le block_size (length base) e)) tt)
  | inr e ↦ rw e tt
]

-- The match stands in both texts, and they agree on it.
pub record IsMatch (base rest : Bytes) (m : Match) : Type 0 where
  pub in_target : m.len ≤ length rest
  pub in_base : m.offset + m.len ≤ length base
  pub same : take m.len rest ≡ take m.len (drop m.offset base)

match_length_lem :
    (left : ℕ) (xs ys : Bytes)
    → (match_length left xs ys ≤ left)
      × (take (match_length left xs ys) xs ≡ take (match_length left xs ys) ys)
unfolding match_length
match_length_lem (suc left) (x ∷ xs) (y ∷ ys) = elim (Bool-cases (x == y)) [
  | inl e ↦ rw e (
    omega (arith, (match_length_lem left xs ys).0),
    ap₂ ◌∷◌ ((==_iff x y).0 e) (match_length_lem left xs ys).1,
  )
  | inr e ↦ rw e (omega arith, refl)
]
match_length_lem zero xs ys = (omega arith, refl)
match_length_lem (suc left) [] ys = (omega arith, refl)
match_length_lem (suc left) (x ∷ xs) [] = (omega arith, refl)

best_of-IsMatch :
    (base rest : Bytes) (offsets : List ℕ) (best : Match)
    → InBase base offsets
    → IsMatch base rest best
    → IsMatch base rest (best_of base rest offsets best)
unfolding best_of
best_of-IsMatch base rest [] best h m = m
best_of-IsMatch base rest (o ∷ offsets) best (h, hs) m =
    let len = match_length (min (length rest) (length base - o)) rest (drop o base) in
    let (short, same) = match_length_lem (min (length rest) (length base - o)) rest (drop o base) in
    best_of-IsMatch base rest offsets _ hs
      (elim (ltb best.len len)
        as (λ t. IsMatch base rest (if t then record { offset = o; len = len } else best)) [
          | true ↦ record { in_target = omega arith; in_base = omega arith; same = same }
          | false ↦ m
        ])

-- With an index whose offsets lie in the base, the match that the search returns lies in the base and
-- in the rest of the target, and the two agree on it.
pub find_match-IsMatch :
    (base : Bytes) (index : Index) (rest : Bytes)
    → IsIndex base index
    → IsMatch base rest (find_match base index rest)
unfolding find_match
find_match-IsMatch base index rest v = elim (Bool-cases (leb block_size (length rest))) [
  | inl e ↦ rw e (
      best_of-IsMatch base rest _ _ (index_get-InBase base _ index v)
        (record { in_target = omega arith; in_base = omega arith; same = refl }))
  | inr e ↦ rw e (record { in_target = omega arith; in_base = omega arith; same = refl })
]
