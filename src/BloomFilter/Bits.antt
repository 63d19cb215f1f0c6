-- ===== src/BloomFilter/Bits.antt =====
-- The single bits of a filter, and those that the hashes of keys name.
use cuda2rocm.Base.{
  ℕ, zero, suc, ◌<◌, ◌≡◌, refl, arith, Bool, false, ◌&&◌, ◌||◌, [], ◌∷◌, get_or, get_or-set_self,
  get_or-set_ne, length, ◌==◌,
}
use native.Mathlib.Decide.{ℕ_discrete}
use cuda2rocm.BloomFilter.{BloomFilter, Policy, word_index, bit_offset, add_bit, word_at}
use cuda2rocm.BloomFilter.Words.{Word, one_hot, or_word, meets, zero_word}
use cuda2rocm.BloomFilter.Blocks.{IsShaped, word_index-lt, bit_offset-lt}

-- The bit of a word at an offset.
abbrev pub bit_of : Word → ℕ → Bool
bit_of w b = get_or w b false

abbrev pub bit_at : BloomFilter → ℕ → ℕ → Bool
bit_at f w b = bit_of (word_at f w) b

or_word-zero_word : (a : Word) (width : ℕ) → or_word a (zero_word width) ≡ a
unfolding or_word
or_word-zero_word [] width = refl
or_word-zero_word (x ∷ a) zero = refl
or_word-zero_word (x ∷ a) (suc width) = ground (arith, or_word-zero_word a width)

meets-zero_word_right : (a : Word) (width : ℕ) → meets a (zero_word width) ≡ false
unfolding meets
meets-zero_word_right [] width = refl
meets-zero_word_right (x ∷ a) zero = refl
meets-zero_word_right (x ∷ a) (suc width) = ground (arith, meets-zero_word_right a width)

bit_of-or_word-one_hot :
    (a : Word) (width offset b : ℕ)
    → length a ≡ width
    → offset < width
    → bit_of (or_word a (one_hot width offset)) b ≡ (bit_of a b || (offset == b))
unfolding one_hot or_word
bit_of-or_word-one_hot [] width offset b l h = absurd (omega arith)
bit_of-or_word-one_hot (x ∷ a) zero offset b l h = absurd (omega arith)
bit_of-or_word-one_hot (x ∷ a) (suc width) zero zero l h = ground arith
bit_of-or_word-one_hot (x ∷ a) (suc width) zero (suc b) l h =
    rw (or_word-zero_word a width) (ground arith)
bit_of-or_word-one_hot (x ∷ a) (suc width) (suc offset) zero l h = ground arith
bit_of-or_word-one_hot (x ∷ a) (suc width) (suc offset) (suc b) l h =
    ground (arith, bit_of-or_word-one_hot a width offset b)

-- A word meets the word of one bit exactly where it has that bit.
pub meets-one_hot :
    (a : Word) (width offset : ℕ)
    → length a ≡ width
    → offset < width
    → meets a (one_hot width offset) ≡ bit_of a offset
unfolding meets one_hot
meets-one_hot [] width offset l h = absurd (omega arith)
meets-one_hot (x ∷ a) zero offset l h = absurd (omega arith)
meets-one_hot (x ∷ a) (suc width) zero l h = ground (arith, meets-zero_word_right a width)
meets-one_hot (x ∷ a) (suc width) (suc offset) l h = ground (arith, meets-one_hot a width offset)

module _ (policy : Policy) where
  -- Hash `i` of a key names the bit at an offset of a word.
  abbrev pub names : BloomFilter → ℕ → ℕ → ℕ → ℕ → Bool
  names f key i w b = (word_index policy f key i == w) && (bit_offset policy f key i == b)

  -- One of its first hashes does.
  abbrev pub marks : BloomFilter → ℕ → ℕ → ℕ → ℕ → Bool
  marks f key zero w b = false
  marks f key (suc n) w b = marks f key n w b || names f key n w b

  pub bit_at-add_bit :
      (f : BloomFilter) (key i w b : ℕ)
      → IsShaped f
      → bit_at (add_bit policy key i f) w b ≡ (bit_at f w b || names f key i w b)
  unfolding add_bit
  bit_at-add_bit f key i w b v =
      let at = word_index policy f key i in
      let lt = word_index-lt policy f v key i in
      let new = or_word (word_at f at) (one_hot f.bits_per_word (bit_offset policy f key i)) in
      elim (ℕ_discrete at w) [
        | yes same ↦
            let e =
              bit_of-or_word-one_hot (word_at f at) f.bits_per_word (bit_offset policy f key i) b
                (v.width at lt) (bit_offset-lt policy f v key i) in
            let put = get_or-set_self f.bits at new [] lt in rw (← same, put, e) (ground arith)
        | no other ↦ rw (get_or-set_ne f.bits at w new [] other) (ground arith)
      ]
