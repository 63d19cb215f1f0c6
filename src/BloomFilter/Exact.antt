-- ===== src/BloomFilter/Exact.antt =====
-- The bits that an insertion kernel leaves, whatever the order of its atomic operations.
use cuda2rocm.Base.{
  ℕ, zero, suc, ◌≡◌, refl, ◌∙◌, arith, Bool, false, ◌||◌, List, [], ◌∷◌, ltb, Bool-cases, inl, inr,
}
use cuda2rocm.BloomFilter.{
  BloomFilter, Policy, word_index, bit_offset, bit_index, add_bit, hash_count,
}
use cuda2rocm.BloomFilter.Blocks.{IsShaped}
use cuda2rocm.BloomFilter.Bits.{bit_at, names, marks, bit_at-add_bit}
use cuda2rocm.BloomFilter.Kernel.{Thread, turn, run}
use cuda2rocm.BloomFilter.NoFalseNegatives.{add_bit-IsShaped}

-- The same blocks of words of the same width.
abbrev pub SameShape : BloomFilter → BloomFilter → Type 0
SameShape f g =
    (g.num_blocks ≡ f.num_blocks)
    × (g.words_per_block ≡ f.words_per_block)
    × (g.bits_per_word ≡ f.bits_per_word)

-- The filter has the shape of another one, and exactly some bits.
abbrev pub IsExact : BloomFilter → (ℕ → ℕ → Bool) → BloomFilter → Type 0
IsExact f bits g = IsShaped g × SameShape f g × ((w b : ℕ) → bit_at g w b ≡ bits w b)

module _ (policy : Policy) where
  -- The places that a hash names depend on the shape alone.
  pub places-SameShape :
      (f g : BloomFilter) (key i : ℕ)
      → SameShape f g
      → (word_index policy g key i ≡ word_index policy f key i)
        × (bit_offset policy g key i ≡ bit_offset policy f key i)
  unfolding word_index bit_offset bit_index
  places-SameShape f g key i (blocks, words, bits) =
      (rw (blocks, words, bits) refl, rw (words, bits) refl)

  names-SameShape :
      (f g : BloomFilter) (key i w b : ℕ)
      → SameShape f g
      → names policy g key i w b ≡ names policy f key i w b
  names-SameShape f g key i w b same =
      let (word, bit) = places-SameShape f g key i same in rw (word, bit) refl

  add_bit-SameShape : (f : BloomFilter) (key i : ℕ) → SameShape f (add_bit policy key i f)
  unfolding add_bit
  add_bit-SameShape f key i = (refl, refl, refl)

  -- One more bit.
  pub add_bit-IsExact :
      (f g : BloomFilter) (bits : ℕ → ℕ → Bool) (key i : ℕ)
      → IsExact f bits g
      → IsExact f (λ w b. bits w b || names policy f key i w b) (add_bit policy key i g)
  add_bit-IsExact f g bits key i (v, same, e) =
      let (blocks, words, width) = add_bit-SameShape g key i in
      (
        add_bit-IsShaped policy g key i v,
        (blocks ∙ same.0, words ∙ same.1, width ∙ same.2),
        λ w b.
            bit_at-add_bit policy g key i w b v
            ∙ rw (names-SameShape f g key i w b same, e w b) refl,
      )

  -- The bits that the threads have gone through, on the shape of a filter.
  abbrev pub all_marks : BloomFilter → List Thread → ℕ → ℕ → Bool
  all_marks f [] w b = false
  all_marks f (t ∷ ts) w b = marks policy f t.key t.next w b || all_marks f ts w b

  -- The same bits, written in another way.
  pub IsExact-eq :
      (f g : BloomFilter) (bits bits' : ℕ → ℕ → Bool)
      → ((w b : ℕ) → bits w b ≡ bits' w b)
      → IsExact f bits g
      → IsExact f bits' g
  IsExact-eq f g bits bits' h (v, same, e) = (v, same, λ w b. e w b ∙ h w b)

  turn-IsExact :
      (i : ℕ) (f g : BloomFilter) (ts : List Thread) (bits : ℕ → ℕ → Bool)
      → IsExact f (λ w b. bits w b || all_marks f ts w b) g
      → IsExact f (λ w b. bits w b || all_marks f (turn policy i g ts).1 w b) (turn policy i g ts).0
  unfolding turn
  turn-IsExact i f g [] bits e = e
  turn-IsExact zero f g (t ∷ ts) bits e = elim (Bool-cases (ltb t.next (hash_count policy))) [
    | inr past ↦ rw (past, turn) e
    | inl more ↦
        rw (more, turn)
          (IsExact-eq f _ _ _ (λ w b. ground arith) (add_bit-IsExact f g _ t.key t.next e))
  ]
  turn-IsExact (suc i) f g (t ∷ ts) bits e =
      IsExact-eq f _ _ _ (λ w b. ground arith)
        (turn-IsExact i f g ts (λ w b. bits w b || marks policy f t.key t.next w b)
          (IsExact-eq f g _ _ (λ w b. ground arith) e))

  pub run-IsExact :
      (schedule : List ℕ) (f g : BloomFilter) (ts : List Thread) (bits : ℕ → ℕ → Bool)
      → IsExact f (λ w b. bits w b || all_marks f ts w b) g
      → IsExact f
          (λ w b. bits w b || all_marks f (run policy schedule g ts).1 w b)
          (run policy schedule g ts).0
  unfolding run
  run-IsExact [] f g ts bits e = e
  run-IsExact (i ∷ schedule) f g ts bits e =
      run-IsExact schedule f (turn policy i g ts).0 (turn policy i g ts).1 bits
        (turn-IsExact i f g ts bits e)
