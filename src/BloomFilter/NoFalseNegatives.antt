-- ===== src/BloomFilter/NoFalseNegatives.antt =====
-- The bits that the threads of an insertion kernel have set.
use cuda2rocm.Base.{
  ℕ, zero, suc, ◌+◌, ◌≤◌, ◌<◌, ◌≡◌, ◌⊎◌, refl, ◌∙◌, arith, List, [], ◌∷◌, get_or, set, true,
  length-set, get_or-set_self, get_or-set_ne, Bool-cases, inl, inr, ltb,
}
use native.Mathlib.Decide.{ℕ_discrete, dec_lt}
use cuda2rocm.BloomFilter.{
  BloomFilter, Policy, word_index, bit_offset, add_bit, word_at, probe_from, contains, hash_count,
}
use cuda2rocm.BloomFilter.Words.{
  Word, one_hot, or_word, meets, meets-or_word, meets-or_word-one_hot, length-or_word,
}
use cuda2rocm.BloomFilter.Blocks.{IsShaped, word_index-lt, bit_offset-lt}
use cuda2rocm.BloomFilter.Kernel.{Thread, turn, run, launch}

module _ (policy : Policy) where
  -- The bit of a hash of a key is set.
  abbrev pub IsSetAt : BloomFilter → ℕ → ℕ → Type 0
  IsSetAt f key i =
      meets (word_at f (word_index policy f key i))
        (one_hot f.bits_per_word (bit_offset policy f key i))
      ≡ true

  -- The bits of the first hashes of a key are set.
  abbrev pub IsSetUpTo : BloomFilter → ℕ → ℕ → Type 0
  IsSetUpTo f key n = (i : ℕ) → i < n → IsSetAt f key i

  probe_from-IsSet :
      (rounds i : ℕ) (f : BloomFilter) (key : ℕ)
      → ((j : ℕ) → i ≤ j → j < i + rounds → IsSetAt f key j)
      → probe_from policy rounds i f key ≡ true
  unfolding probe_from
  probe_from-IsSet zero i f key h = refl
  probe_from-IsSet (suc rounds) i f key h = ground (
    arith,
    h i (omega arith) (omega arith),
    probe_from-IsSet rounds (suc i) f key (λ j a b. h j (omega arith) (omega arith)),
  )

  pub contains-IsSet :
      (f : BloomFilter) (key : ℕ)
      → IsSetUpTo f key (hash_count policy)
      → contains policy f key ≡ true
  unfolding contains
  contains-IsSet f key h = probe_from-IsSet (hash_count policy) 0 f key (λ j a b. h j (omega arith))

  -- Where the hashes of a key point does not change with the bits.
  IsSetAt-bits :
      (f : BloomFilter) (bits : List Word) (key i : ℕ)
      → meets
          (get_or bits (word_index policy f key i) [])
          (one_hot f.bits_per_word (bit_offset policy f key i))
        ≡ true
      → IsSetAt (record f { bits = bits }) key i
  unfolding word_index bit_offset
  IsSetAt-bits f bits key i h = h

  add_bit-IsSetAt_self :
      (f : BloomFilter) (key i : ℕ) → IsShaped f → IsSetAt (add_bit policy key i f) key i
  unfolding add_bit
  add_bit-IsSetAt_self f key i v =
      let w = word_index policy f key i in
      IsSetAt-bits f _ key i (
        rw
          (get_or-set_self f.bits w
            (or_word (word_at f w) (one_hot f.bits_per_word (bit_offset policy f key i))) []
            (word_index-lt policy f v key i))
          (meets-or_word-one_hot (word_at f w) f.bits_per_word (bit_offset policy f key i)
            (v.width w (word_index-lt policy f v key i)) (bit_offset-lt policy f v key i)))

  -- A bit once set stays set.
  add_bit-IsSetAt :
      (f : BloomFilter) (key i key' i' : ℕ)
      → IsShaped f
      → IsSetAt f key' i'
      → IsSetAt (add_bit policy key i f) key' i'
  unfolding add_bit
  add_bit-IsSetAt f key i key' i' v h =
      let w = word_index policy f key i in
      let w' = word_index policy f key' i' in
      let new = or_word (word_at f w) (one_hot f.bits_per_word (bit_offset policy f key i)) in
      IsSetAt-bits f (set f.bits w new) key' i' (elim (ℕ_discrete w w') [
        | yes same ↦
            rw (← same, get_or-set_self f.bits w new [] (word_index-lt policy f v key i))
              (meets-or_word (word_at f w) _ _ (rw (← same) at h))
        | no other ↦ rw (get_or-set_ne f.bits w w' new [] other) h
      ])

  pub add_bit-IsShaped :
      (f : BloomFilter) (key i : ℕ) → IsShaped f → IsShaped (add_bit policy key i f)
  unfolding add_bit
  add_bit-IsShaped f key i v =
      let w = word_index policy f key i in
      let new = or_word (word_at f w) (one_hot f.bits_per_word (bit_offset policy f key i)) in
      record {
        some_blocks = v.some_blocks;
        some_words = v.some_words;
        some_bits = v.some_bits;
        size = length-set f.bits w new ∙ v.size;
        width = λ j lt. elim (ℕ_discrete w j) [
          | yes same ↦
              rw (← same, get_or-set_self f.bits w new [] (word_index-lt policy f v key i))
                (length-or_word (word_at f w) _ ∙ v.width w (word_index-lt policy f v key i))
          | no other ↦
              rw (get_or-set_ne f.bits w j new [] other)
                (v.width j (omega (arith, length-set f.bits w new)))
        ];
      }

  -- Each thread has set the bits of the hashes that it has gone through.
  abbrev pub AllSet : BloomFilter → List Thread → Type 0
  AllSet f [] = Unit {0}
  AllSet f (t ∷ ts) = IsSetUpTo f t.key t.next × AllSet f ts

  AllSet-add_bit :
      (f : BloomFilter) (key i : ℕ) (ts : List Thread)
      → IsShaped f
      → AllSet f ts
      → AllSet (add_bit policy key i f) ts
  AllSet-add_bit f key i [] v a = tt
  AllSet-add_bit f key i (t ∷ ts) v a =
      (λ j lt. add_bit-IsSetAt f key i t.key j v (a.0 j lt), AllSet-add_bit f key i ts v a.1)

  abbrev pub Grows : BloomFilter → BloomFilter → Type 0
  Grows f g = (key i : ℕ) → IsSetAt f key i → IsSetAt g key i

  -- A turn sets bits, keeps the shape, and each thread's bits are set.
  turn-AllSet :
      (i : ℕ) (f : BloomFilter) (ts : List Thread)
      → IsShaped f
      → AllSet f ts
      → Grows f (turn policy i f ts).0
        × IsShaped (turn policy i f ts).0
        × AllSet (turn policy i f ts).0 (turn policy i f ts).1
  unfolding turn
  turn-AllSet i f [] v a = (λ k j h. h, v, tt)
  turn-AllSet zero f (t ∷ ts) v a = elim (Bool-cases (ltb t.next (hash_count policy))) [
    | inr past ↦ rw (past, turn) (λ k j h. h, v, a)
    | inl more ↦
        rw (more, turn)
          (
            λ k j h. add_bit-IsSetAt f t.key t.next k j v h,
            add_bit-IsShaped f t.key t.next v,
            (
              λ j lt. elim (ℕ_discrete j t.next) [
                | yes same ↦ rw same (add_bit-IsSetAt_self f t.key t.next v)
                | no other ↦ add_bit-IsSetAt f t.key t.next t.key j v (a.0 j (omega arith))
              ],
              AllSet-add_bit f t.key t.next ts v a.1,
            ),
          )
  ]
  turn-AllSet (suc i) f (t ∷ ts) v a =
      let (g, v', a') = turn-AllSet i f ts v a.1 in (g, v', (λ j lt. g t.key j (a.0 j lt), a'))

  -- Under every schedule, bits once set stay set and the bits that the threads have gone through
  -- are set.
  pub run-AllSet :
      (schedule : List ℕ) (f : BloomFilter) (ts : List Thread)
      → IsShaped f
      → AllSet f ts
      → Grows f (run policy schedule f ts).0
        × IsShaped (run policy schedule f ts).0
        × AllSet (run policy schedule f ts).0 (run policy schedule f ts).1
  unfolding run
  run-AllSet [] f ts v a = (λ k j h. h, v, a)
  run-AllSet (i ∷ schedule) f ts v a =
      let (g, v', a') = turn-AllSet i f ts v a in
      let (g', v'', a'') = run-AllSet schedule _ _ v' a' in (λ k j h. g' k j (g k j h), v'', a'')

  AllSet-launch : (f : BloomFilter) (keys : List ℕ) → AllSet f (launch keys)
  AllSet-launch f [] = tt
  AllSet-launch f (k ∷ keys) = (λ j lt. absurd (omega arith), AllSet-launch f keys)

  -- The keys of threads that are through are found.
  abbrev pub AllFound : BloomFilter → List Thread → Type 0
  AllFound f [] = Unit {0}
  AllFound f (t ∷ ts) =
      ((t.next < hash_count policy) ⊎ (contains policy f t.key ≡ true)) × AllFound f ts

  AllFound-AllSet : (f : BloomFilter) (ts : List Thread) → AllSet f ts → AllFound f ts
  AllFound-AllSet f [] a = tt
  AllFound-AllSet f (t ∷ ts) a = (
    elim (dec_lt t.next (hash_count policy)) [
      | yes more ↦ inl more
      | no over ↦ inr (contains-IsSet f t.key (λ i lt. a.0 i (omega arith)))
    ],
    AllFound-AllSet f ts a.1,
  )

  -- However the threads of an insertion kernel interleave on a well-shaped filter, the key of each
  -- thread that is through is found.
  pub run-AllFound :
      (schedule : List ℕ) (f : BloomFilter) (keys : List ℕ)
      → IsShaped f
      → let (g, ts) = run policy schedule f (launch keys) in AllFound g ts
  run-AllFound schedule f keys v =
      let (grows, v', a) = run-AllSet schedule f (launch keys) v (AllSet-launch f keys) in
      AllFound-AllSet _ _ a

  -- A key whose bits are all set in a well-shaped filter is found after every insertion kernel,
  -- under every schedule.
  pub run-still_found :
      (schedule : List ℕ) (f : BloomFilter) (keys : List ℕ) (key : ℕ)
      → IsShaped f
      → IsSetUpTo f key (hash_count policy)
      → contains policy (run policy schedule f (launch keys)).0 key ≡ true
  run-still_found schedule f keys key v h =
      let (grows, v', a) = run-AllSet schedule f (launch keys) v (AllSet-launch f keys) in
      contains-IsSet _ key (λ i lt. grows key i (h i lt))
