-- ===== src/BloomFilter/Construction.antt =====
-- What the constructor of a Bloom filter returns, and when it throws.
use cuda2rocm.Base.{
  ℕ, zero, suc, ◌*◌, ◌/◌, ◌≤◌, ◌<◌, ◌≡◌, refl, arith, get_or, true, false, ok, size_max,
  length-replicate, replicate, List, [], Bool,
}
use cuda2rocm.BloomFilter.{
  BloomFilter, Policy, word_index, bit_offset, probe_from, contains, hash_count, word_at,
  new_filter, cleared_filter,
}
use cuda2rocm.BloomFilter.Words.{zero_word, meets, meets-zero_word, one_hot}
use cuda2rocm.BloomFilter.Blocks.{IsShaped, word_index-lt}

get_or-replicate_lt : (n i : ℕ) (a d : List Bool) → i < n → get_or (replicate n a) i d ≡ a
get_or-replicate_lt zero i a d h = absurd (omega arith)
get_or-replicate_lt (suc n) zero a d h = refl
get_or-replicate_lt (suc n) (suc i) a d h = get_or-replicate_lt n i a d (omega arith)

mul-le_of_le-div : (m a b : ℕ) → b ≤ m / a → a * b ≤ m
mul-le_of_le-div m a b h = grind arith

-- A probe whose first bit is clear ends at once.
probe_from-clear :
    (policy : Policy) (rounds : ℕ) (f : BloomFilter) (key : ℕ)
    → 0 < rounds
    → meets
        (word_at f (word_index policy f key 0))
        (one_hot f.bits_per_word (bit_offset policy f key 0))
      ≡ false
    → probe_from policy rounds 0 f key ≡ false
unfolding probe_from
probe_from-clear policy zero f key h e = absurd (omega arith)
probe_from-clear policy (suc rounds) f key h e = ground arith

module _ (words_per_block word_size block_extent : ℕ) where
  cleared_filter-IsShaped :
      0 < words_per_block
      → 0 < word_size
      → 0 < block_extent
      → IsShaped (cleared_filter words_per_block word_size block_extent)
  unfolding cleared_filter
  cleared_filter-IsShaped h k l = record {
    some_blocks = l;
    some_words = h;
    some_bits = omega arith;
    size = length-replicate (block_extent * words_per_block) (zero_word (word_size * 8));
    width = λ i lt.
        rw
          (get_or-replicate_lt (block_extent * words_per_block) i (zero_word (word_size * 8)) [] (
            omega (
              arith,
              length-replicate (block_extent * words_per_block) (zero_word (word_size * 8)),
            )))
          (length-replicate (word_size * 8) false);
  }

  contains-cleared_filter :
      (policy : Policy) (key : ℕ)
      → 0 < words_per_block
      → 0 < word_size
      → 0 < block_extent
      → 0 < policy.num_hash_functions
      → contains policy (cleared_filter words_per_block word_size block_extent) key ≡ false
  unfolding contains cleared_filter
  contains-cleared_filter policy key h k l m =
      let f = cleared_filter words_per_block word_size block_extent in
      let size = block_extent * words_per_block in
      let w = word_index policy f key 0 in
      let shaped = cleared_filter-IsShaped h k l in
      let within : w < size = omega (
        arith,
        word_index-lt policy f shaped key 0,
        length-replicate size (zero_word (word_size * 8)),
      ) in
      probe_from-clear policy (hash_count policy) f key (omega arith) (
        rw (get_or-replicate_lt size w (zero_word (word_size * 8)) [] within)
          (meets-zero_word (word_size * 8) _))

  new_filter-ok :
      (f : BloomFilter)
      → new_filter words_per_block word_size block_extent true true ≡ ok f
      → (f ≡ cleared_filter words_per_block word_size block_extent)
        × (0 < block_extent)
        × (block_extent * words_per_block * word_size ≤ size_max)
  unfolding new_filter
  new_filter-ok f e = (
    ground arith,
    ground arith,
    ground (
      arith,
      mul-le_of_le-div size_max block_extent words_per_block,
      mul-le_of_le-div size_max (block_extent * words_per_block) word_size,
    ),
  )

  -- A filter that the constructor returns, for a positive word count, word size and number of
  -- hashes, has the shape that its kernels rely on, its bytes fit in a size_t, and it answers for
  -- every key that the key is absent.
  pub new_filter-IsShaped :
      (policy : Policy) (key : ℕ) (f : BloomFilter)
      → 0 < words_per_block
      → 0 < word_size
      → 0 < policy.num_hash_functions
      → new_filter words_per_block word_size block_extent true true ≡ ok f
      → IsShaped f
        × (block_extent * words_per_block * word_size ≤ size_max)
        × (contains policy f key ≡ false)
  new_filter-IsShaped policy key f h k m e =
      let (same, some_extent, small) = new_filter-ok f e in
      (
        rw same (cleared_filter-IsShaped h k some_extent),
        small,
        rw same (contains-cleared_filter policy key h k some_extent m),
      )
