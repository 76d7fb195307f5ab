-- ===== src/Packfile/Build/Sort.antt =====
-- The order in which `build_with_bases` of git-core/src/packfile.rs takes its objects.
use near_git_storage.Prelude.{
  suc, ◌≡◌, refl, ap, ◌∙◌, List, [], ◌∷◌, All, length, Bool, true, false, if◌then◌else◌,
}
use near_git_storage.Packfile.Parse.{PackObject}
use near_git_storage.Packfile.Build.{precedes, insert_sorted, sort_objects}
use mathlib.Core.List.Perm
use mathlib.Core.List.{Perm}

pub if-case {ℓ κ} :
    {A : Type ℓ} (P : A → Type κ) (test : Bool) (x y : A) → P x → P y → P (if test then x else y)
if-case P true x y hx hy = hx
if-case P false x y hx hy = hy

insert_sorted-Perm : (x : PackObject) (ys : List PackObject) → Perm (insert_sorted x ys) (x ∷ ys)
unfolding insert_sorted
insert_sorted-Perm x [] = Perm.rfl
insert_sorted-Perm x (y ∷ ys) =
    if-case (λ zs. Perm zs (x ∷ y ∷ ys)) (precedes x y) (x ∷ y ∷ ys) (y ∷ insert_sorted x ys)
      Perm.rfl (Perm.trans (Perm.cons y (insert_sorted-Perm x ys)) (Perm.swap x y ys))

-- The sort loses no object and makes none up.
pub sort_objects-Perm : (objects : List PackObject) → Perm (sort_objects objects) objects
unfolding sort_objects
sort_objects-Perm [] = Perm.rfl
sort_objects-Perm (x ∷ xs) =
    Perm.trans (insert_sorted-Perm x (sort_objects xs)) (Perm.cons x (sort_objects-Perm xs))

length-insert_sorted :
    (x : PackObject) (ys : List PackObject) → length (insert_sorted x ys) ≡ suc (length ys)
unfolding insert_sorted
length-insert_sorted x [] = refl
length-insert_sorted x (y ∷ ys) =
    if-case (λ (zs : List PackObject). length zs ≡ suc (suc (length ys))) (precedes x y) _ _ refl
      (ap suc (length-insert_sorted x ys))

pub length-sort_objects :
    (objects : List PackObject) → length (sort_objects objects) ≡ length objects
unfolding sort_objects
length-sort_objects [] = refl
length-sort_objects (x ∷ xs) =
    length-insert_sorted x (sort_objects xs) ∙ ap suc (length-sort_objects xs)

insert_sorted-All :
    (P : PackObject → Type 0) (x : PackObject) (ys : List PackObject)
    → P x
    → All P ys
    → All P (insert_sorted x ys)
unfolding insert_sorted
insert_sorted-All P x [] p all = (p, tt)
insert_sorted-All P x (y ∷ ys) p (q, all) =
    if-case (All P) (precedes x y) _ _ (p, (q, all)) (q, insert_sorted-All P x ys p all)

pub sort_objects-All :
    (P : PackObject → Type 0) (objects : List PackObject)
    → All P objects
    → All P (sort_objects objects)
unfolding sort_objects
sort_objects-All P [] all = tt
sort_objects-All P (x ∷ xs) (p, all) =
    insert_sorted-All P x (sort_objects xs) p (sort_objects-All P xs all)
