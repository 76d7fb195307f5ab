-- ===== src/Packfile/Delta/Apply.antt =====
-- `apply_delta` as a whole.
use near_git_storage.Prelude.{
  ℕ, ◌+◌, ◌<◌, ◌^◌, ◌≡◌, refl, ◌∙◌, arith, [], ◌∷◌, ◌++◌, ok, ltb, length, length-append,
  length-drop, drop, drop-append_left, lt→ltb, ==_iff, append_assoc, append-nil, leb, ◌==◌, bit_and,
  Bool-cases, inl, inr,
}
use near_git_storage.Packfile.{Bytes, panic, capacity_overflow, target_size_mismatch}
use near_git_storage.Packfile.Ensures.{
  Ensures, returned, failed, Ensures-bind, Ensures-self, guard-Ensures,
}
use near_git_storage.Packfile.Delta.{join_group, size_loop, read_delta_size, run, apply_delta}
use near_git_storage.Packfile.Delta.Run.{run_enough, run-Ensures, Emits}

drop_sizes : (s₁ s₂ ops : Bytes) → drop (length s₁ + length s₂) (s₁ ++ (s₂ ++ ops)) ≡ ops
drop_sizes s₁ s₂ ops =
    rw (← append_assoc s₁ s₂ ops)
      (drop-append_left (s₁ ++ s₂) ops (length s₁ + length s₂) (omega (arith, length-append s₁ s₂)))

-- A delta whose head holds the target's size and whose instructions emit the target.
pub apply_delta-Emits :
    (source s₁ s₂ ops target : Bytes) (source_size : ℕ)
    → read_delta_size (s₁ ++ (s₂ ++ ops)) 0 ≡ ok (source_size, length s₁)
    → read_delta_size (s₁ ++ (s₂ ++ ops)) (length s₁) ≡ ok (length target, length s₂)
    → length target < 2 ^ 63
    → Emits source ops target
    → apply_delta source (s₁ ++ (s₂ ++ ops)) ≡ ok target
unfolding apply_delta
apply_delta-Emits source s₁ s₂ ops target source_size r₁ r₂ fits e =
    rw (r₁, r₂, lt→ltb _ _ fits, drop_sizes s₁ s₂ ops, runs, (==_iff _ _).1 refl)
  where
    runs : run (length (s₁ ++ (s₂ ++ ops))) source ops [] ≡ ok target
    runs =
        run_enough _ (length ops) source ops []
          (omega (arith, length-append s₁ (s₂ ++ ops), length-append s₂ ops)) (omega arith)
        ∙ unfold run in rw append-nil at (e.runs [] [])

size_loop-Ensures :
    (rest : Bytes) (size shift count : ℕ)
    → Ensures (λ (p : ℕ × ℕ). Unit {0}) (size_loop rest size shift count)
unfolding size_loop
size_loop-Ensures [] size shift count = failed (λ e. cc)
size_loop-Ensures (byte ∷ rest) size shift count = elim (Bool-cases (leb 64 shift)) [
  | inl wide ↦ rw wide (failed (λ e. cc))
  | inr narrow ↦ elim (Bool-cases (bit_and byte 0x80 == 0)) [
    | inl last ↦ rw (narrow, last) (returned tt)
    | inr more ↦
        rw (narrow, more)
          (size_loop-Ensures rest (join_group size byte shift) (shift + 7) (count + 1))
  ]
]

-- Whether it succeeds or fails, `apply_delta` ends by the code's own tests: its loops never run out
-- of the fuel of the model. A target that it returns has the size that the delta's head declares.
pub apply_delta-Ensures :
    (source delta : Bytes)
    → Ensures
        (λ (target : Bytes).
          (s n₁ n₂ : ℕ) × (read_delta_size delta 0 ≡ ok (s, n₁))
          × (read_delta_size delta n₁ ≡ ok (length target, n₂)))
        (apply_delta source delta)
unfolding apply_delta read_delta_size
apply_delta-Ensures source delta =
    Ensures-bind _ _ (Ensures-self (size_loop-Ensures (drop 0 delta) 0 0 0)) λ (s, n₁) e₁.
      Ensures-bind _ _ (Ensures-self (size_loop-Ensures (drop n₁ delta) 0 0 0)) λ (size, n₂) e₂.
        Ensures-bind _ _ (guard-Ensures (ltb size (2 ^ 63)) (panic capacity_overflow) (λ e. cc))
          λ _ _.
            Ensures-bind _ _
              (run-Ensures (length delta) source (drop (n₁ + n₂) delta) []
                (omega (arith, length-drop (n₁ + n₂) delta)))
              λ target _.
                Ensures-bind _ _
                  (guard-Ensures (length target == size) (target_size_mismatch size (length target))
                    (λ e. cc))
                  λ _ same. returned (s, n₁, n₂, e₁, rw ((==_iff (length target) size).0 same) e₂)
