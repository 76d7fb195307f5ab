-- ===== src/Contract/Collections.antt =====
-- `IterableMap<String, String>` and `LookupMap<u32, Vec<u8>>` of near_sdk::store, by what their
-- documentation promises.
use near_git_storage.Prelude.{
  ℕ, String, str_eq, ◌≡◌, List, ◌∷◌, [], Option, none, some, ◌==◌, if◌then◌else◌,
}

abbrev pub Bytes : Type 0
Bytes = List ℕ

-- The value of the first pair with the key.
abbrev pub lookup : String → List (String × String) → Option String
lookup k [] = none
lookup k ((j, v) ∷ m) = if str_eq j k then some v else lookup k m

-- No key stands twice.
abbrev pub IsDistinct : List (String × String) → Type 0
IsDistinct [] = Unit
IsDistinct ((k, v) ∷ m) = (lookup k m ≡ none) × IsDistinct m

-- A map that can list its pairs, each key once.
pub record RefMap : Type 1 where
  pub Map : Type 0
  pub empty : Map
  pub get : String → Map → Option String
  pub insert : String → String → Map → Map
  pub remove : String → Map → Map
  pub iter : Map → List (String × String)
  pub get-empty : (k : String) → get k empty ≡ none
  pub get-insert :
      (k v j : String) (m : Map) → get j (insert k v m) ≡ (if str_eq k j then some v else get j m)
  pub get-remove :
      (k j : String) (m : Map) → get j (remove k m) ≡ (if str_eq k j then none else get j m)
  pub lookup-iter : (k : String) (m : Map) → lookup k (iter m) ≡ get k m
  pub iter-IsDistinct : (m : Map) → IsDistinct (iter m)

-- A map that cannot list its keys.
pub record PackMap : Type 1 where
  pub Map : Type 0
  pub empty : Map
  pub get : ℕ → Map → Option Bytes
  pub insert : ℕ → Bytes → Map → Map
  pub remove : ℕ → Map → Map
  pub get-empty : (k : ℕ) → get k empty ≡ none
  pub get-insert :
      (k j : ℕ) (v : Bytes) (m : Map) → get j (insert k v m) ≡ (if k == j then some v else get j m)
  pub get-remove : (k j : ℕ) (m : Map) → get j (remove k m) ≡ (if k == j then none else get j m)
