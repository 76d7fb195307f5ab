-- ===== src/Packfile/Delta/Runs.antt =====
-- Runs of `apply_delta`.
use near_git_storage.Prelude.{◌≡◌, refl, [], ◌∷◌, err}
use near_git_storage.Packfile.{panic, index_out_of_range, delta_copy_out_of_bounds}
use near_git_storage.Packfile.Delta.{
  size_loop, read_delta_size, read_operand, copy_operands, copy_source, instruction_step, run,
  apply_delta,
}

-- A copy instruction whose operand is cut off is read beyond the end of the delta.
truncated_copy : apply_delta (1 ∷ 2 ∷ []) (2 ∷ 1 ∷ 0x91 ∷ []) ≡ err (panic index_out_of_range)
unfolding apply_delta read_delta_size size_loop run instruction_step copy_operands read_operand
truncated_copy = refl

-- A copy beyond the end of the base is an error, with its operands.
long_copy : apply_delta (1 ∷ 2 ∷ []) (2 ∷ 3 ∷ 0x90 ∷ 3 ∷ []) ≡ err (delta_copy_out_of_bounds 0 3 2)
unfolding apply_delta read_delta_size size_loop run instruction_step copy_operands read_operand
    copy_source
long_copy = refl
