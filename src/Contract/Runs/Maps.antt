-- ===== src/Contract/Runs/Maps.antt =====
-- The collections by functions that run: a list of pairs, of which the first with a key counts, and
-- a function on the indices.
use near_git_storage.Prelude.{
  ℕ, String, str_eq, eq_iff, ◌≡◌, refl, arith, List, [], ◌∷◌, Option, none, some, Bool-cases, inl,
  inr, ◌==◌, if◌then◌else◌,
}
use near_git_storage.Contract.Collections.{Bytes, lookup, IsDistinct, RefMap, PackMap}

abbrev pub Pairs : Type 0
Pairs = List (String × String)

abbrev pub without : String → Pairs → Pairs
without k [] = []
without k ((j, v) ∷ m) = let rest = without k m in if str_eq j k then rest else (j, v) ∷ rest

pub lookup-without :
    (k j : String) (m : Pairs) → lookup j (without k m) ≡ (if str_eq k j then none else lookup j m)
lookup-without k j [] = ground arith
lookup-without k j ((i, v) ∷ m) = elim (Bool-cases (str_eq i k)) [
  | inl same ↦ rw same (ground (arith, lookup-without k j m, eq_iff i k))
  | inr other ↦ rw other (ground (arith, lookup-without k j m, eq_iff i k, eq_iff i j, eq_iff k j))
]

abbrev pub distinct : Pairs → Pairs
distinct [] = []
distinct ((k, v) ∷ m) = (k, v) ∷ without k (distinct m)

pub lookup-distinct : (k : String) (m : Pairs) → lookup k (distinct m) ≡ lookup k m
lookup-distinct k [] = refl
lookup-distinct k ((j, v) ∷ m) =
    ground (arith, lookup-without j k (distinct m), lookup-distinct k m)

without-IsDistinct : (k : String) (m : Pairs) → IsDistinct m → IsDistinct (without k m)
without-IsDistinct k [] h = h
without-IsDistinct k ((j, v) ∷ m) (new, h) = elim (Bool-cases (str_eq j k)) [
  | inl same ↦ rw same (without-IsDistinct k m h)
  | inr other ↦ rw other (ground (arith, lookup-without k j m), without-IsDistinct k m h)
]

pub distinct-IsDistinct : (m : Pairs) → IsDistinct (distinct m)
distinct-IsDistinct [] = tt
distinct-IsDistinct ((k, v) ∷ m) = (
  ground (arith, lookup-without k k (distinct m), eq_iff k k),
  without-IsDistinct k (distinct m) (distinct-IsDistinct m),
)

abbrev pub listed_refs : RefMap
listed_refs = record {
  Map = Pairs;
  empty = [];
  get = lookup;
  insert = λ k v m. (k, v) ∷ m;
  remove = without;
  iter = distinct;
  get-empty = λ k. refl;
  get-insert = λ k v j m. refl;
  get-remove = lookup-without;
  lookup-iter = lookup-distinct;
  iter-IsDistinct = distinct-IsDistinct;
}

abbrev pub indexed_packs : PackMap
indexed_packs = record {
  Map = ℕ → Option Bytes;
  empty = λ i. none;
  get = λ i m. m i;
  insert = λ i pack m j. if i == j then some pack else m j;
  remove = λ i m j. if i == j then none else m j;
  get-empty = λ i. refl;
  get-insert = λ i j pack m. refl;
  get-remove = λ i j m. refl;
}
