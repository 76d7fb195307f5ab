-- ===== src/Packfile/Delta/Run.antt =====
-- The loop of `apply_delta` ends before its fuel does, on every input.
use near_git_storage.Prelude.{
  ℕ, zero, suc, ◌≤◌, ◌≡◌, refl, ◌∙◌, arith, [], ◌∷◌, ◌++◌, ok, length, length-append, inl, inr,
  append_assoc, append-nil,
}
use near_git_storage.Packfile.{Bytes, Outcome}
use near_git_storage.Packfile.Ensures.{Ensures, returned, Ensures-bind, Ensures-cases}
use near_git_storage.Packfile.Delta.{run, instruction_step}
use near_git_storage.Packfile.Delta.Operands.{instruction_step-Ensures}

pub run-Ensures :
    (fuel : ℕ) (source rest target : Bytes)
    → length rest ≤ fuel
    → Ensures (λ (t : Bytes). Unit {0}) (run fuel source rest target)
unfolding run
run-Ensures fuel source [] target h = returned tt
run-Ensures zero source (i ∷ rest) target h = absurd (omega arith)
run-Ensures (suc fuel) source (i ∷ rest) target h =
    Ensures-bind _ _ (instruction_step-Ensures fuel source i rest target (omega arith))
      λ (t, r) h'. run-Ensures fuel source r t h'

-- All fuel that covers the unread bytes is the same.
pub run_enough :
    (f g : ℕ) (source rest target : Bytes)
    → length rest ≤ f
    → length rest ≤ g
    → run f source rest target ≡ run g source rest target
unfolding run
run_enough f g source [] target hf hg = refl
run_enough zero g source (i ∷ rest) target hf hg = absurd (omega arith)
run_enough (suc f) zero source (i ∷ rest) target hf hg = absurd (omega arith)
run_enough (suc f) (suc g) source (i ∷ rest) target hf hg =
    elim (Ensures-cases
      (instruction_step-Ensures (length rest) source i rest target (omega arith))) [
        | inl ((t, r), e, h) ↦ rw e (run_enough f g source r t (omega arith) (omega arith))
        | inr (e, q, ne) ↦ rw q refl
      ]

-- The loop with as much fuel as it can need.
abbrev pub run_all : Bytes → Bytes → Bytes → Outcome Bytes
run_all source rest target = run (length rest) source rest target

-- Running `ops` appends `out` to the target, whatever stands behind and before.
pub record Emits (source ops out : Bytes) : Type 0 where
  pub runs :
      (rest target : Bytes)
      → run_all source (ops ++ rest) target ≡ run_all source rest (target ++ out)

pub Emits-nil : (source : Bytes) → Emits source [] []
Emits-nil source = record { runs = λ rest target. rw append-nil }

pub Emits-append :
    {source ops₁ ops₂ out₁ out₂ : Bytes}
    → Emits source ops₁ out₁
    → Emits source ops₂ out₂
    → Emits source (ops₁ ++ ops₂) (out₁ ++ out₂)
Emits-append {ops₁} {ops₂} {out₁} {out₂} e₁ e₂ = record {
  runs = λ rest target.
      rw (append_assoc ops₁ ops₂ rest, ← append_assoc target out₁ out₂)
        (e₁.runs (ops₂ ++ rest) target ∙ e₂.runs rest (target ++ out₁));
}

-- One instruction that the step function runs.
pub Emits-step :
    {source : Bytes} (instruction : ℕ) (operands out : Bytes)
    → ((rest target : Bytes)
        → instruction_step source instruction (operands ++ rest) target ≡ ok (target ++ out, rest))
    → Emits source (instruction ∷ operands) out
unfolding run
Emits-step {source} instruction operands out step = record {
  runs = λ rest target. rw step (
      run_enough _ _ source rest (target ++ out) (omega (arith, length-append operands rest))
        (omega arith));
}
