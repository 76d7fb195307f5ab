-- ===== src/Packfile/Delta/Groups.antt =====
-- What `read_delta_size` reads, seven bits a round.
use near_git_storage.Prelude.{
  ℕ, ◌+◌, ◌*◌, ◌%◌, ◌^◌, ◌<◌, ◌≡◌, ap, ◌∙◌, arith, ◌∷◌, ◌++◌, ok, length, drop-append_left,
}
use near_git_storage.Prelude.Bits.{mask_7, top_bit, bit_or_shl}
use near_git_storage.Packfile.{Bytes}
use near_git_storage.Packfile.Delta.{join_group, size_loop, read_delta_size}

-- Seven bits more of a number that fits 64 bits.
join_group_lem :
    (size byte g shift : ℕ)
    → byte % 128 ≡ g
    → size < 2 ^ shift
    → g * 2 ^ shift < 2 ^ 64
    → join_group size byte shift ≡ size + g * 2 ^ shift
join_group_lem size byte g shift e low fits =
    let masked = mask_7 byte ∙ e in rw masked (ground (arith, bit_or_shl shift g size low))

-- A last byte, and a byte with the top bit set.
module _ (size g shift count : ℕ) (rest : Bytes) (group : g < 128) (in_range : shift < 64)
    (low : size < 2 ^ shift) (fits : g * 2 ^ shift < 2 ^ 64) where
  pub last_group : size_loop (g ∷ rest) size shift count ≡ ok (size + g * 2 ^ shift, count + 1)
  unfolding size_loop
  last_group = ground (arith, join_group_lem size g g shift (omega arith) low fits, top_bit g)

  pub inner_group :
      size_loop ((g + 128) ∷ rest) size shift count
      ≡ size_loop rest (size + g * 2 ^ shift) (shift + 7) (count + 1)
  unfolding size_loop
  inner_group =
      ground
        (arith, join_group_lem size (g + 128) g shift (omega arith) low fits, top_bit (g + 128))

-- The read starts behind `front`.
pub read_delta_size-append :
    (front rest : Bytes) → read_delta_size (front ++ rest) (length front) ≡ size_loop rest 0 0 0
unfolding read_delta_size
read_delta_size-append front rest =
    ap (λ r. size_loop r 0 0 0) (drop-append_left front rest (length front) (omega arith))
