-- ===== src/Launch.antt =====
-- The launches of cuco-rocm/include/cuco/static_set.cuh and bloom_filter.cuh: how many blocks a host
-- method asks for, and which element the thread of a block works on. `blockIdx.x * blockDim.x` is a
-- product of `unsigned int`, so the index of a thread is computed in 32 bits and widened after.
use cuda2rocm.Base.{
  ℕ, ◌+◌, ◌-◌, ◌*◌, ◌/◌, ◌%◌, ◌^◌, ◌≤◌, ◌<◌, ◌≡◌, ◌≢◌, ◌↔◌, arith, Option, none, some, ltb,
  if◌then◌else◌, word_mod, ◌==◌,
}

abbrev pub block : ℕ
block = 256

-- `(n + block - 1) / block` in `size_t`
unfoldable pub grid : ℕ → ℕ
grid n = (n + block - 1) % word_mod / block

-- The element of a thread, or none for a thread past the end.
unfoldable pub thread_element : ℕ → ℕ → ℕ → Option ℕ
thread_element n block_index thread_index =
    let idx = (block_index * block + thread_index) % 2 ^ 32 in if ltb idx n then some idx else none

-- The blocks of `fill_empty_key_kernel`, and the stride of its loop: `gridDim.x * blockDim.x`.
unfoldable pub fill_grid : ℕ → ℕ
unfolding grid
fill_grid capacity = if grid capacity == 0 then 1 else grid capacity

unfoldable pub fill_stride : ℕ → ℕ
unfolding fill_grid
fill_stride capacity = fill_grid capacity * block % 2 ^ 32

-- Up to 2 ^ 32 elements, each element is worked on by exactly one thread of the launch: the one at
-- its quotient and remainder by the block size.
pub thread_element_covers :
    (n i b t : ℕ)
    → n ≤ 2 ^ 32
    → i < n
    → b < grid n
    → t < block
    → (i / block < grid n) × ((thread_element n b t ≡ some i) ↔ ((b ≡ i / block) × (t ≡ i % block)))
unfolding grid thread_element
thread_element_covers n i b t h k l m = ground arith

-- An element past 2 ^ 32 is worked on by no thread, whatever the size of the launch.
pub thread_element_misses : (n i b t : ℕ) → 2 ^ 32 ≤ i → thread_element n b t ≢ some i
unfolding thread_element
thread_element_misses n i b t h = ground arith

-- A set of any positive multiple of 2 ^ 32 slots below 2 ^ 63 is filled with stride 0.
pub fill_stride-zero : (m : ℕ) → 0 < m → m < 2 ^ 31 → fill_stride (m * 2 ^ 32) ≡ 0
unfolding fill_stride
fill_stride-zero m h k = ground arith
