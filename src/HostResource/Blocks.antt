-- ===== src/HostResource/Blocks.antt =====
-- `block` and `multiple_blocks_allocation`: what an allocation of blocks hands out.
use cuda2rocm.Base.{
  ℕ, zero, suc, ◌+◌, Option, none, some, List, [], ◌∷◌, add_word, Result, ok, err, block_index,
  get_elem?,
}
use cuda2rocm.HostResource.Committed.{default_block_size}

-- `block`: a pointer and a size.
pub record Block : Type 0 where
  pub ptr : ℕ
  pub bytes : ℕ

-- `multiple_blocks_allocation`; `object` is the address of the handle, `arena` the reservation that
-- it was charged against.
pub record Allocation : Type 0 where
  pub object : ℕ
  pub blocks : List Block
  pub block_size : ℕ
  pub total_bytes : ℕ
  pub arena : Option ℕ

-- The blocks of one physical allocation, at multiples of the block size.
unfoldable pub make_blocks : ℕ → ℕ → ℕ → List Block
make_blocks ptr size zero = []
make_blocks ptr size (suc n) = record { ptr = ptr; bytes = size } ∷ make_blocks (ptr + size) size n

unfoldable pub empty_allocation : ℕ → Allocation
empty_allocation object = record {
  object = object;
  blocks = [];
  block_size = default_block_size;
  total_bytes = 0;
  arena = none;
}

-- `operator[]` and `at` of an allocation.
unfoldable pub block_at : ℕ → Allocation → Result Block
block_at i a = elim (get_elem? a.blocks i) [ none ↦ err block_index | some b ↦ ok b ]

-- The blocks of an allocation are dropped; the handle stays registered.
pub release_blocks : Allocation → Allocation
release_blocks a = record a { blocks = [] }

pub grow_by : ℕ → Allocation → Allocation
grow_by n a = record a { total_bytes = add_word a.total_bytes n }

pub trim_to : ℕ → Allocation → Allocation
trim_to n a = record a { total_bytes = n }
