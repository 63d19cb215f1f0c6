-- ===== src/BloomFilter/Answers.antt =====
-- What a probe answers after an insertion kernel: false positives are the keys all of whose bits others
-- have set, and there are no others.
use cuda2rocm.Base.{
  ℕ, zero, suc, ◌+◌, ◌≤◌, ◌<◌, ◌≡◌, ◌↔◌, ◌∙◌, sym, arith, Bool, true, ◌||◌, List, length, IsFairFor,
}
use native.Mathlib.Decide.{ℕ_discrete}
use cuda2rocm.BloomFilter.{
  BloomFilter, Policy, word_index, bit_offset, word_at, hash_count, contains, probe_from,
}
use cuda2rocm.BloomFilter.Words.{meets, one_hot}
use cuda2rocm.BloomFilter.Blocks.{IsShaped, word_index-lt, bit_offset-lt}
use cuda2rocm.BloomFilter.Bits.{bit_at, meets-one_hot}
use cuda2rocm.BloomFilter.Kernel.{run, launch}
use cuda2rocm.BloomFilter.NoFalseNegatives.{IsSetAt, IsSetUpTo, contains-IsSet}
use cuda2rocm.BloomFilter.Exact.{IsExact, places-SameShape}
use cuda2rocm.BloomFilter.Sequential.{key_marks, run-key_marks}

module _ (policy : Policy) where
  probe_from-true :
      (rounds i : ℕ) (f : BloomFilter) (key : ℕ)
      → probe_from policy rounds i f key ≡ true
      → (j : ℕ) → i ≤ j
      → j < i + rounds
      → IsSetAt policy f key j
  unfolding probe_from
  probe_from-true zero i f key h j a b = absurd (omega arith)
  probe_from-true (suc rounds) i f key h j a b = elim (ℕ_discrete i j) [
    | yes same ↦ rw (← same) (ground (arith, h))
    | no other ↦
        probe_from-true rounds (suc i) f key (ground (arith, h)) j (omega arith) (omega arith)
  ]

  -- A probe answers true exactly where the bits of all hashes are set.
  contains-IsSetUpTo :
      (f : BloomFilter) (key : ℕ)
      → (contains policy f key ≡ true) ↔ IsSetUpTo policy f key (hash_count policy)
  unfolding contains
  contains-IsSetUpTo f key = (
    λ h i lt. probe_from-true (hash_count policy) 0 f key h i (omega arith) (omega arith),
    contains-IsSet policy f key,
  )

  -- The bit of a hash of a key, set before or named by a hash of one of some keys.
  abbrev pub IsCovered : BloomFilter → List ℕ → ℕ → ℕ → Type 0
  IsCovered f keys x i =
      (bit_at f (word_index policy f x i) (bit_offset policy f x i)
        || key_marks policy f keys (word_index policy f x i) (bit_offset policy f x i))
      ≡ true

  -- Whether the bit of a hash is set in a filter of which all bits are known.
  IsSetAt-IsExact :
      (f g : BloomFilter) (bits : ℕ → ℕ → Bool) (x i : ℕ)
      → IsExact f bits g
      → meets
          (word_at g (word_index policy g x i))
          (one_hot g.bits_per_word (bit_offset policy g x i))
        ≡ bits (word_index policy f x i) (bit_offset policy f x i)
  IsSetAt-IsExact f g bits x i (v, s, e) =
      meets-one_hot _ g.bits_per_word _ (v.width _ (word_index-lt policy g v x i))
        (bit_offset-lt policy g v x i)
      ∙ e _ _
      ∙ (let (word, bit) = places-SameShape policy f g x i s in cc (word, bit))

  -- After an insertion kernel on a well-shaped filter, under every schedule that gives each thread
  -- a turn for each hash, a probe answers true exactly where each bit of the key was set before or
  -- is named by a hash of one of the keys that were inserted.
  pub run-contains :
      (schedule keys : List ℕ) (f : BloomFilter) (x : ℕ)
      → IsShaped f
      → IsFairFor (hash_count policy) (length keys) schedule
      → (contains policy (run policy schedule f (launch keys)).0 x ≡ true)
        ↔ ((i : ℕ) → i < hash_count policy → IsCovered f keys x i)
  run-contains schedule keys f x v fair =
      let exact = run-key_marks policy schedule keys f v fair in
      let (to, from) = contains-IsSetUpTo (run policy schedule f (launch keys)).0 x in
      (
        λ h i lt. sym (IsSetAt-IsExact f _ _ x i exact) ∙ to h i lt,
        λ h. from (λ i lt. IsSetAt-IsExact f _ _ x i exact ∙ h i lt),
      )
