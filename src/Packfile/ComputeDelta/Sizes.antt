-- ===== src/Packfile/ComputeDelta/Sizes.antt =====
-- The two sizes at the head of a delta: `read_delta_size` reads what `encode_size` wrote.
use near_git_storage.Prelude.{
  ℕ, zero, suc, ◌+◌, ◌*◌, ◌/◌, ◌%◌, ◌^◌, ◌≤◌, ◌<◌, ◌≡◌, ap, ap₂, ◌∙◌, arith, [], ◌∷◌, ◌++◌, ok,
  length,
}
use near_git_storage.Prelude.Bits.{mask_7, set_top_bit}
use near_git_storage.Packfile.{Bytes}
use near_git_storage.Packfile.Delta.{size_loop, read_delta_size}
use near_git_storage.Packfile.Delta.Groups.{last_group, inner_group, read_delta_size-append}
use native.Mathlib.Decide.{dec_lt}
use near_git_storage.Packfile.ComputeDelta.{encode_size_loop, encode_size}
use native.Mathlib.Nat.{div-add-mod}
use native.Mathlib.Numerals.{towards_suc}

pow_seven : (s : ℕ) → 2 ^ (s + 7) ≡ 128 * 2 ^ s
pow_seven s = simp towards_suc (omega arith)

-- The lowest group of `v` and the rest, both shifted by `s`.
group_sum : (v s : ℕ) → v * 2 ^ s ≡ v % 128 * 2 ^ s + v / 128 * 2 ^ (s + 7)
group_sum v s = omega (
  arith,
  ap (λ (t : ℕ). t * 2 ^ s) (div-add-mod v 128),
  ap (λ (t : ℕ). v / 128 * t) (pow_seven s),
)

group_grows : (size g p : ℕ) → size < p → g < 128 → size + g * p < 128 * p
group_grows size g p h k = grind arith

encode_size_loop_last : (rounds v : ℕ) → v < 128 → encode_size_loop (suc rounds) v ≡ v ∷ []
unfolding encode_size_loop
encode_size_loop_last rounds v h = ground (arith, mask_7 v)

encode_size_loop_inner :
    (rounds v : ℕ)
    → 128 ≤ v
    → encode_size_loop (suc rounds) v ≡ (v % 128 + 128) ∷ encode_size_loop rounds (v / 128)
unfolding encode_size_loop
encode_size_loop_inner rounds v h = ground (arith, mask_7 v, set_top_bit (v % 128) (omega arith))

-- The groups of `v` behind those of `size`, of which the last is within the 64 bits.
pub size_loop-encode :
    (rounds v size shift count : ℕ) (rest : Bytes)
    → shift + 7 * rounds < 64
    → v < 128 ^ suc rounds
    → size < 2 ^ shift
    → v * 2 ^ shift < 2 ^ 64
    → size_loop (encode_size_loop (suc rounds) v ++ rest) size shift count
      ≡ ok (size + v * 2 ^ shift, count + length (encode_size_loop (suc rounds) v))
size_loop-encode zero v size shift count rest left wide low fits =
    rw (encode_size_loop_last 0 v (omega arith))
      (last_group size v shift count rest (omega arith) (omega arith) low fits)
size_loop-encode (suc rounds) v size shift count rest left wide low fits = elim (dec_lt v 128) [
  | yes small ↦
      rw (encode_size_loop_last (suc rounds) v small)
        (last_group size v shift count rest small (omega arith) low fits)
  | no large ↦ rw (encode_size_loop_inner (suc rounds) v (omega arith)) (
      inner_group size (v % 128) shift count (encode_size_loop (suc rounds) (v / 128) ++ rest)
        (omega arith) (omega arith) low (omega (arith, group_sum v shift))
      ∙ size_loop-encode rounds (v / 128) (size + v % 128 * 2 ^ shift) (shift + 7) (count + 1) rest
          (omega arith) (omega arith)
          (omega (arith, pow_seven shift, group_grows size (v % 128) (2 ^ shift) low (omega arith)))
          (omega (arith, group_sum v shift))
      ∙ ap ok (ap₂ (λ (a b : ℕ). (a, b)) (omega (arith, group_sum v shift)) (omega arith)))
]

-- A size below 2 ^ 64 is read back with the number of its bytes, whatever precedes and follows it.
pub read_delta_size-encode_size :
    (front : Bytes) (v : ℕ) (rest : Bytes)
    → v < 2 ^ 64
    → read_delta_size (front ++ (encode_size v ++ rest)) (length front)
      ≡ ok (v, length (encode_size v))
unfolding encode_size
read_delta_size-encode_size front v rest h =
    read_delta_size-append front (encode_size v ++ rest)
    ∙ (size_loop-encode 9 v 0 0 0 rest (omega arith) (omega arith) (omega arith) (omega arith)
        ∙ ap ok (ap₂ (λ (a b : ℕ). (a, b)) (omega arith) (omega arith)))
