-- ===== src/Server/Merge/Applies.antt =====
-- What the deltas of an entry make of a base, for the merge of git-server/src/main.rs.
use near_git_storage.Prelude.{
  ◌≡◌, subst, ap, List, [], ◌∷◌, Option, none, some, Bool-cases, inl, inr, ok, err, ◌>>=◌,
  ok-injective, err-ne-ok, >>=-eq-ok, some-injective, none-ne-some,
}
use near_git_storage.Packfile.{Bytes, Outcome}
use near_git_storage.Packfile.Delta.{apply_delta}
use near_git_storage.Packfile.Chains.{Applies, unchanged, changed}
use near_git_storage.Packfile.Parse.{UnresolvedDelta}
use near_git_storage.Server.Merge.{is_caught, caught, and_apply, apply_chain, apply_all}

pub caught-some : {A : Type 0} (r : Outcome A) {a : A} → caught r ≡ ok (some a) → r ≡ ok a
unfolding caught
caught-some (ok b) h = ap ok (some-injective (ok-injective h))
caught-some (err e) h = elim (Bool-cases (is_caught e)) [
  | inl error ↦ absurd (none-ne-some (ok-injective (rw error at h)))
  | inr panics ↦ absurd (err-ne-ok (rw panics at h))
]

and_apply-Applies :
    (text delta out : Bytes) (next : Bytes → Outcome (Option Bytes)) (deltas : List Bytes)
    (first : Option Bytes)
    → ((current : Bytes) → next current ≡ ok (some out) → Applies current deltas out)
    → caught (apply_delta text delta) ≡ ok first
    → and_apply next first ≡ ok (some out)
    → Applies text (delta ∷ deltas) out
and_apply-Applies text delta out next deltas none h e rest =
    absurd (none-ne-some (ok-injective rest))
and_apply-Applies text delta out next deltas (some current) h e rest =
    changed (caught-some (apply_delta text delta) e) (h current rest)

next-Applies :
    (text delta out : Bytes) (next : Bytes → Outcome (Option Bytes)) (deltas : List Bytes)
    → ((current : Bytes) → next current ≡ ok (some out) → Applies current deltas out)
    → (caught (apply_delta text delta) >>= and_apply next) ≡ ok (some out)
    → Applies text (delta ∷ deltas) out
next-Applies text delta out next deltas h e =
    let (first, e₁, rest) = >>=-eq-ok (caught (apply_delta text delta)) (and_apply next) e in
    and_apply-Applies text delta out next deltas first h e₁ rest

apply_chain-Applies :
    (chain : List Bytes) (text out : Bytes)
    → apply_chain chain text ≡ ok (some out)
    → Applies text chain out
unfolding apply_chain
apply_chain-Applies [] text out e =
    subst (λ t. Applies text [] t) (some-injective (ok-injective e)) unchanged
apply_chain-Applies (d ∷ chain) text out e =
    next-Applies text d out (apply_chain chain) chain
      (λ current. apply_chain-Applies chain current out) e

pub apply_all-Applies :
    (delta : UnresolvedDelta) (text out : Bytes)
    → apply_all delta text ≡ ok (some out)
    → Applies text (delta.delta_data ∷ delta.chain) out
unfolding apply_all
apply_all-Applies delta text out e =
    next-Applies text delta.delta_data out (apply_chain delta.chain) delta.chain
      (λ current. apply_chain-Applies delta.chain current out) e
