-- ===== src/HostResource/Layout.antt =====
-- Rounding to blocks, and where the blocks of an allocation lie.
use cuda2rocm.Base.{
  ℕ, zero, suc, ◌+◌, ◌-◌, ◌*◌, ◌/◌, ◌%◌, ◌≤◌, ◌<◌, ◌≡◌, refl, some, none, arith, size_max,
  get_elem?, ok, err, block_index, ltb, ltb→lt, if◌then◌else◌, inl, inr, Bool-cases,
}
use cuda2rocm.HostResource.Blocks.{make_blocks, block_at, Allocation}
use cuda2rocm.HostResource.Committed.{align_up}

-- Where the sum does not wrap, rounding up to a positive block size gives a multiple of it, at
-- least the request and less than a block more.
pub align_up_bounds :
    (bytes size : ℕ)
    → 0 < size
    → bytes + size ≤ size_max
    → (bytes ≤ align_up bytes size)
      × (align_up bytes size < bytes + size)
      × (align_up bytes size ≡ (bytes + size - 1) / size * size)
unfolding align_up
align_up_bounds bytes size h k =
    let e : (bytes + size - 1) / size * size + (bytes + size - 1) % size ≡ bytes + size - 1 =
      grind arith in
    let r : (bytes + size - 1) % size < size = grind arith in ground (arith)

get_elem?-make_blocks :
    (ptr size n i : ℕ)
    → i < n
    → get_elem? (make_blocks ptr size n) i ≡ some (record { ptr = ptr + i * size; bytes = size })
unfolding make_blocks
get_elem?-make_blocks ptr size zero i h = absurd (omega arith)
get_elem?-make_blocks ptr size (suc n) zero h = ground arith
get_elem?-make_blocks ptr size (suc n) (suc i) h =
    ground (arith, get_elem?-make_blocks (ptr + size) size n i)

get_elem?-make_blocks-none :
    (ptr size n i : ℕ) → n ≤ i → get_elem? (make_blocks ptr size n) i ≡ none
unfolding make_blocks
get_elem?-make_blocks-none ptr size zero i h = refl
get_elem?-make_blocks-none ptr size (suc n) zero h = absurd (omega arith)
get_elem?-make_blocks-none ptr size (suc n) (suc i) h =
    get_elem?-make_blocks-none (ptr + size) size n i (omega arith)

-- Block i of an allocation of n blocks lies i blocks into its memory and has the block size; an
-- index past the last block throws.
pub block_at-make_blocks :
    (a : Allocation) (ptr n i : ℕ)
    → a.blocks ≡ make_blocks ptr a.block_size n
    → block_at i a ≡ (
        if ltb i n
        then ok (record { ptr = ptr + i * a.block_size; bytes = a.block_size })
        else err block_index)
unfolding block_at
block_at-make_blocks a ptr n i e = elim (Bool-cases (ltb i n)) [
  | inl within ↦
      rw (e, within, block_at, get_elem?-make_blocks ptr a.block_size n i (ltb→lt i n within)) refl
  | inr past ↦
      rw (e, past, block_at, get_elem?-make_blocks-none ptr a.block_size n i (ground arith)) refl
]
