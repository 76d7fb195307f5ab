-- ===== src/Packfile/ComputeDelta/RoundTrip.antt =====
-- `apply_delta` undoes `compute_delta`.
use near_git_storage.Prelude.{
  ℕ, zero, suc, ◌≤◌, ◌<◌, ◌^◌, ◌≡◌, refl, sym, ap, subst, arith, [], ◌∷◌, ◌++◌, leb, ok, length,
  length-drop, take, drop, take-append-drop, Bool-cases, inl, inr, append_assoc, append-nil, leb→le,
}
use near_git_storage.Packfile.{Bytes}
use near_git_storage.Packfile.Delta.{apply_delta}
use near_git_storage.Packfile.Delta.Run.{Emits, Emits-nil, Emits-append}
use near_git_storage.Packfile.Delta.Apply.{apply_delta-Emits}
use near_git_storage.Packfile.ComputeDelta.{
  Match, block_size, encode_size, Index, flush_inserts, emit_copies, find_match, build_index,
  delta_loop, compute_delta,
}
use near_git_storage.Packfile.ComputeDelta.Emit.{flush_inserts-Emits, emit_copies-Emits}
use near_git_storage.Packfile.ComputeDelta.Sizes.{read_delta_size-encode_size}
use near_git_storage.Packfile.ComputeDelta.Matching.{
  IsIndex, build_index-IsIndex, IsMatch, find_match-IsMatch,
}

-- Behind the head that the loop started with stand instructions that yield the target.
abbrev Yields : Bytes → Bytes → Bytes → Bytes → Type 0
Yields base head target delta = (ops : Bytes) × (delta ≡ head ++ ops) × Emits base ops target

Yields-cast :
    (base head : Bytes) {t t' d d' : Bytes}
    → t ≡ t'
    → d ≡ d'
    → Yields base head t d
    → Yields base head t' d'
Yields-cast base head {t'} {d} p q y =
    subst (λ z. Yields base head t' z) q (subst (λ z. Yields base head z d) p y)

match-Emits :
    (base rest : Bytes) (m : Match)
    → length base ≤ 2 ^ 32
    → IsMatch base rest m
    → Emits base (emit_copies m.len m.offset m.len) (take m.len rest)
match-Emits base rest m small found =
    rw found.same (emit_copies-Emits base m.len m.offset m.len (omega arith) found.in_base small)

regroup_copy :
    (done pending : Bytes) (n : ℕ) (rest : Bytes)
    → (done ++ (pending ++ take n rest)) ++ ([] ++ drop n rest) ≡ done ++ (pending ++ rest)
regroup_copy done pending n rest = simp (append_assoc, take-append-drop)

-- `done` is emitted by `ops`, `pending` waits in the insert buffer, `rest` has not been read.
delta_loop-Yields :
    (fuel : ℕ) (base : Bytes) (index : Index) (head ops done pending rest : Bytes)
    → length base ≤ 2 ^ 32
    → IsIndex base index
    → length rest ≤ fuel
    → Emits base ops done
    → Yields base head
        (done ++ (pending ++ rest))
        (delta_loop fuel base index rest (head ++ ops) pending)
unfolding delta_loop
delta_loop-Yields fuel base index head ops done pending [] small v h e = (
  ops ++ flush_inserts pending,
  append_assoc head ops _,
  rw append-nil (Emits-append e (flush_inserts-Emits base pending)),
)
delta_loop-Yields zero base index head ops done pending (x ∷ xs) small v h e = absurd (omega arith)
delta_loop-Yields (suc fuel) base index head ops done pending (x ∷ xs) small v h e =
    let best = find_match base index (x ∷ xs) in
    let m = find_match-IsMatch base index (x ∷ xs) v in
    elim (Bool-cases (leb block_size best.len)) [
      | inl long ↦ rw long (
          Yields-cast base head (regroup_copy done pending best.len (x ∷ xs))
            (ap (λ r. delta_loop fuel base index (drop best.len (x ∷ xs)) r [])
              (sym (
                append_assoc head ops
                  (flush_inserts pending ++ emit_copies best.len best.offset best.len))))
            (delta_loop-Yields fuel base index head _ _ [] (drop best.len (x ∷ xs)) small v
              (omega (arith, length-drop best.len (x ∷ xs), leb→le block_size best.len long))
              (Emits-append e (
                Emits-append (flush_inserts-Emits base pending)
                  (match-Emits base (x ∷ xs) best small m)))))
      | inr short ↦ rw short (
          Yields-cast base head (ap (λ t. done ++ t) (append_assoc pending (x ∷ []) xs)) refl (
            delta_loop-Yields fuel base index head ops done (pending ++ (x ∷ [])) xs small v
              (omega arith) e))
    ]

compute_delta-Yields :
    (base target : Bytes)
    → length base ≤ 2 ^ 32
    → Yields base
        (encode_size (length base) ++ encode_size (length target))
        target
        (compute_delta base target)
unfolding compute_delta
compute_delta-Yields base target small =
    subst
      (λ h.
        Yields base (encode_size (length base) ++ encode_size (length target)) target
          (delta_loop (length target) base (build_index base) target h []))
      (append-nil _)
      (delta_loop-Yields (length target) base (build_index base)
        (encode_size (length base) ++ encode_size (length target)) [] [] [] target small
        (build_index-IsIndex base) (omega arith) (Emits-nil base))

-- For a base of at most 4 GiB and a target shorter than 2 ^ 63 bytes, applying the computed delta to
-- the base succeeds and gives the target.
pub apply_delta-compute_delta :
    (base target : Bytes)
    → length base ≤ 2 ^ 32
    → length target < 2 ^ 63
    → apply_delta base (compute_delta base target) ≡ ok target
apply_delta-compute_delta base target small fits =
    let (ops, e, emits) = compute_delta-Yields base target small in
    let s₁ = encode_size (length base) in
    let s₂ = encode_size (length target) in
    rw (e, append_assoc s₁ s₂ ops)
      (apply_delta-Emits base s₁ s₂ ops target (length base)
        (read_delta_size-encode_size [] (length base) (s₂ ++ ops) (omega arith))
        (read_delta_size-encode_size s₁ (length target) ops (omega arith)) fits emits)
