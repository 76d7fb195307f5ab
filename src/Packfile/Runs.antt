-- ===== src/Packfile/Runs.antt =====
-- Runs of the deltas, and their laws at concrete inputs.
use near_git_storage.Prelude.{ℕ, ◌≡◌, arith, [], ◌∷◌, ok, length, replicate}
use near_git_storage.Packfile.{Bytes}
use near_git_storage.Packfile.Ensures.{Ensures}
use near_git_storage.Packfile.Delta.{read_delta_size, apply_delta}
use near_git_storage.Packfile.Delta.Apply.{apply_delta-Ensures}
use near_git_storage.Packfile.ComputeDelta.{compute_delta}
use near_git_storage.Packfile.ComputeDelta.RoundTrip.{apply_delta-compute_delta}

abbrev base : Bytes
base = replicate 20 7

abbrev target : Bytes
target = 1 ∷ 2 ∷ replicate 18 7

apply_delta-compute_delta_example : apply_delta base (compute_delta base target) ≡ ok target
apply_delta-compute_delta_example =
    apply_delta-compute_delta base target (omega arith) (omega arith)

apply_delta-Ensures_example :
    Ensures
      (λ (t : Bytes).
        (s n₁ n₂ : ℕ) × (read_delta_size (2 ∷ 1 ∷ 0x91 ∷ []) 0 ≡ ok (s, n₁))
        × (read_delta_size (2 ∷ 1 ∷ 0x91 ∷ []) n₁ ≡ ok (length t, n₂)))
      (apply_delta (1 ∷ 2 ∷ []) (2 ∷ 1 ∷ 0x91 ∷ []))
apply_delta-Ensures_example = apply_delta-Ensures (1 ∷ 2 ∷ []) (2 ∷ 1 ∷ 0x91 ∷ [])
