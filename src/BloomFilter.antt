-- ===== src/BloomFilter.antt =====
-- cuco-rocm/include/cuco/bloom_filter.cuh and bloom_filter_policies.cuh: the blocked Bloom filter and
-- its two policies. A word is the list of its bits, lowest first. The hash functor is a parameter.
pub mod Words
pub mod Kernel
pub mod Bits
pub mod Exact
pub mod Sequential
pub mod Answers
pub mod NoFalseNegatives
pub mod Blocks
pub mod Construction
use cuda2rocm.Base.{
  ℕ, zero, suc, ◌+◌, ◌*◌, ◌/◌, ◌%◌, ◌^◌, Bool, true, false, List, [], ◌∷◌, ltb, ◌==◌, if◌then◌else◌,
  word_mod, mul_word, size_max, get_or, set, replicate, min, Result, ok, err, capacity_zero,
  size_overflow, malloc_failed, memset_failed, launch_failed, not, ◌&&◌,
}
use Prim.Native.Nat.{bit_or}
use Words.{Word, zero_word, one_hot, or_word, meets}

-- A policy: how many hashes it makes of a key, and the hash at an index.
pub record Policy : Type 0 where
  pub num_hash_functions : ℕ
  pub hash : ℕ → ℕ → ℕ

-- `default_filter_policy`: double hashing with an odd stride.
unfoldable pub default_filter_policy : (ℕ → ℕ) → Policy
default_filter_policy functor = record {
  num_hash_functions = 7;
  hash = λ key i. let h = functor key in (h + i * bit_or (h / 2 ^ 32) 1) % word_mod;
}

-- `arrow_filter_policy`: a stride by a constant, and the sum shifted by 5.
unfoldable pub arrow_filter_policy : (ℕ → ℕ) → Policy
arrow_filter_policy functor = record {
  num_hash_functions = 7;
  hash =
      λ key i. let h = functor key in (h + i * mul_word h 0x9E37_79B9_7F4A_7C15) % word_mod / 2 ^ 5;
}

pub record BloomFilter : Type 0 where
  pub bits : List Word
  pub num_blocks : ℕ
  pub words_per_block : ℕ
  pub bits_per_word : ℕ

-- The filter over memory that is all 0.
unfoldable pub cleared_filter : ℕ → ℕ → ℕ → BloomFilter
cleared_filter words_per_block word_size block_extent = record {
  bits = replicate (block_extent * words_per_block) (zero_word (word_size * 8));
  num_blocks = block_extent;
  words_per_block = words_per_block;
  bits_per_word = word_size * 8;
}

-- The constructor: the checks of the extent and of the byte count, `hipMalloc` and `hipMemsetAsync`
-- (which succeed or not), for words of `word_size` bytes.
unfoldable pub new_filter : ℕ → ℕ → ℕ → Bool → Bool → Result BloomFilter
new_filter words_per_block word_size block_extent allocated cleared =
    if block_extent == 0
    then err capacity_zero
    else if ltb (size_max / block_extent) words_per_block
    then err size_overflow
    else (let words_total = block_extent * words_per_block in
        if not (words_total == 0) && ltb (size_max / words_total) word_size
        then err size_overflow
        else if allocated
        then (if cleared
            then ok (cleared_filter words_per_block word_size block_extent)
            else err memset_failed)
        else err malloc_failed)

-- The hashes that a kernel uses: at most 16.
abbrev pub hash_count : Policy → ℕ
hash_count policy = min policy.num_hash_functions 16

-- `hashes[i] % bits_per_block`
unfoldable pub bit_index : Policy → BloomFilter → ℕ → ℕ → ℕ
bit_index policy f key i = policy.hash key i % (f.words_per_block * f.bits_per_word)

-- The word of hash `i` of a key: the start of its block and the word in the block.
unfoldable pub word_index : Policy → BloomFilter → ℕ → ℕ → ℕ
unfolding bit_index
word_index policy f key i =
    policy.hash key 0 % f.num_blocks * f.words_per_block
    + bit_index policy f key i / f.bits_per_word

unfoldable pub bit_offset : Policy → BloomFilter → ℕ → ℕ → ℕ
unfolding bit_index
bit_offset policy f key i = bit_index policy f key i % f.bits_per_word

-- The word at an index; out of range, a word of no bits.
abbrev pub word_at : BloomFilter → ℕ → Word
word_at f i = get_or f.bits i []

-- `atomicOr(&block[word_idx], WordT{1} << bit_offset)` for hash `i`.
unfoldable pub add_bit : Policy → ℕ → ℕ → BloomFilter → BloomFilter
add_bit policy key i f =
    let w = word_index policy f key i in
    record f {
      bits =
          set f.bits w
            (or_word (word_at f w) (one_hot f.bits_per_word (bit_offset policy f key i)));
    }

-- The loop of `bloom_probe_kernel`, with the rounds left: it stops at the first bit that is not set.
unfoldable pub probe_from : Policy → ℕ → ℕ → BloomFilter → ℕ → Bool
probe_from policy zero i f key = true
probe_from policy (suc rounds) i f key =
    let rest = probe_from policy rounds (suc i) f key in
    if meets (word_at f (word_index policy f key i))
      (one_hot f.bits_per_word (bit_offset policy f key i))
    then rest
    else false

unfoldable pub contains : Policy → BloomFilter → ℕ → Bool
unfolding probe_from
contains policy f key = probe_from policy (hash_count policy) 0 f key

-- The kernel over a range of keys: one answer for each.
pub bloom_probe_kernel : Policy → BloomFilter → List ℕ → List Bool
unfolding contains
bloom_probe_kernel policy f [] = []
bloom_probe_kernel policy f (key ∷ keys) = contains policy f key ∷ bloom_probe_kernel policy f keys

-- No launch for an empty range; a launch succeeds or not.
pub contains_async : Policy → Bool → BloomFilter → List ℕ → Result (List Bool)
contains_async policy launched f [] = ok []
contains_async policy launched f (key ∷ keys) =
    if launched then ok (bloom_probe_kernel policy f (key ∷ keys)) else err launch_failed
