-- ===== src/DeviceBuffer.antt =====
-- The device memory of the two containers, cuco-rocm/include/cuco/static_set.cuh and
-- bloom_filter.cuh: what the constructors and destructors ask of the HIP runtime, in order. A pointer
-- is the number of its address, the null pointer none; what `hipMalloc` gives and whether the fill is
-- launched are arguments. A call that fails and does nothing is left out.
pub mod Closed
use cuda2rocm.Base.{
  ℕ, ◌/◌, ◌*◌, Bool, not, ◌&&◌, Option, none, some, List, [], ◌∷◌, ltb, ◌==◌, if◌then◌else◌,
  size_max,
}

-- Work is a kernel or an asynchronous fill on the buffer.
pub data DeviceCall : Type 0 where
  device_malloc : ℕ → DeviceCall
  work device_synchronize : DeviceCall
  device_free : ℕ → DeviceCall

-- The end of a constructor, once memory is there: the calls, and the pointer that is kept.
unfoldable pub fill_or_free : ℕ → Bool → List DeviceCall × Option ℕ
fill_or_free ptr filled =
    if filled
    then (device_malloc ptr ∷ work ∷ [], some ptr)
    else (device_malloc ptr ∷ device_free ptr ∷ [], none)

unfoldable pub allocate_and_fill : Option ℕ → Bool → List DeviceCall × Option ℕ
unfolding fill_or_free
allocate_and_fill none filled = ([], none)
allocate_and_fill (some ptr) filled = fill_or_free ptr filled

-- The constructor of a set, for keys of `key_size` bytes.
unfoldable pub construct_set : ℕ → ℕ → Option ℕ → Bool → List DeviceCall × Option ℕ
unfolding allocate_and_fill
construct_set key_size capacity allocated launched =
    if capacity == 0
    then ([], none)
    else if ltb (size_max / capacity) key_size
    then ([], none)
    else allocate_and_fill allocated launched

-- The constructor of a filter, for words of `word_size` bytes.
unfoldable pub construct_filter : ℕ → ℕ → ℕ → Option ℕ → Bool → List DeviceCall × Option ℕ
unfolding allocate_and_fill
construct_filter words_per_block word_size block_extent allocated cleared =
    let words_total = block_extent * words_per_block in
    if block_extent == 0
    then ([], none)
    else if ltb (size_max / block_extent) words_per_block
    then ([], none)
    else if not (words_total == 0) && ltb (size_max / words_total) word_size
    then ([], none)
    else allocate_and_fill allocated cleared

-- The destructors, which are the same.
unfoldable pub destroy_buffer : Option ℕ → List DeviceCall
destroy_buffer none = []
destroy_buffer (some ptr) = device_synchronize ∷ device_free ptr ∷ []
