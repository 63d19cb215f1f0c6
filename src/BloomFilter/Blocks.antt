-- ===== src/BloomFilter/Blocks.antt =====
-- The words and bits that the hashes of a key name.
use cuda2rocm.Base.{ℕ, ◌+◌, ◌*◌, ◌/◌, ◌%◌, ◌≤◌, ◌<◌, ◌≡◌, arith, [], length, get_or}
use native.Mathlib.Nat.{mod-lt}
use cuda2rocm.BloomFilter.{BloomFilter, Policy, bit_index, word_index, bit_offset}

-- Words of the right width, as many as the blocks have; no extent is 0.
pub record IsShaped (f : BloomFilter) : Type 0 where
  pub some_blocks : 0 < f.num_blocks
  pub some_words : 0 < f.words_per_block
  pub some_bits : 0 < f.bits_per_word
  pub size : length f.bits ≡ f.num_blocks * f.words_per_block
  pub width : (i : ℕ) → i < length f.bits → length (get_or f.bits i []) ≡ f.bits_per_word

module _ (policy : Policy) (f : BloomFilter) (v : IsShaped f) (key i : ℕ) where
  -- The word within the block.
  word_in_block : bit_index policy f key i / f.bits_per_word < f.words_per_block
  unfolding bit_index
  word_in_block =
      let a = v.some_bits in
      let b = v.some_words in
      let pos : 0 < f.words_per_block * f.bits_per_word = grind arith in
      let m : policy.hash key i % (f.words_per_block * f.bits_per_word)
          < f.words_per_block * f.bits_per_word =
        mod-lt _ pos in
      grind arith

  pub word_index-lt : word_index policy f key i < length f.bits
  unfolding word_index
  word_index-lt =
      let w = word_in_block in
      let b : policy.hash key 0 % f.num_blocks < f.num_blocks = mod-lt _ v.some_blocks in
      let s = v.size in grind arith

  pub bit_offset-lt : bit_offset policy f key i < f.bits_per_word
  unfolding bit_offset
  bit_offset-lt = mod-lt _ v.some_bits

  -- Every hash of a key names a word of a well-shaped filter and a bit of that word, in the one
  -- block that the key's first hash chooses.
  pub word_index-block :
      (word_index policy f key i < length f.bits)
      × (bit_offset policy f key i < f.bits_per_word)
      × (f.words_per_block * (policy.hash key 0 % f.num_blocks) ≤ word_index policy f key i)
      × (word_index policy f key i
          < f.words_per_block * (policy.hash key 0 % f.num_blocks) + f.words_per_block)
  unfolding word_index
  word_index-block =
      let w = word_in_block in (word_index-lt, bit_offset-lt, grind arith, grind arith)
