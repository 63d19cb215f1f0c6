-- ===== src/Tests/Gpu.antt =====
-- The hash set, the Bloom filter and the launches at concrete inputs.
use cuda2rocm.Base.{
  ℕ, zero, suc, length, get_or, ◌+◌, ◌*◌, ◌/◌, ◌%◌, ◌≤◌, ◌<◌, ◌≡◌, ◌≢◌, ◌↔◌, refl, some, List, [],
  ◌∷◌, arith, true, false, ok, size_max,
}
use cuda2rocm.Launch.{block, grid, thread_element, thread_element_covers}
use cuda2rocm.StaticSet.{StaticSet}
use cuda2rocm.StaticSet.Kernel.{run, launch}
use cuda2rocm.StaticSet.Rounds.{IsShaped}
use cuda2rocm.StaticSet.Concurrent.{NonEmpty, Answers, run-Answers}
use cuda2rocm.StaticSet.Progress.{AllSlots, AllKeys}
use cuda2rocm.BloomFilter.{
  BloomFilter, Policy, cleared_filter, new_filter, word_index, bit_offset, hash_count, bit_index,
}
use cuda2rocm.BloomFilter.Words.{meets, one_hot}
use cuda2rocm.BloomFilter.Blocks.{word_index-block}
use cuda2rocm.BloomFilter.Construction.{new_filter-IsShaped}
use cuda2rocm.BloomFilter.NoFalseNegatives.{AllFound, IsSetUpTo, run-AllFound}
use cuda2rocm.BloomFilter
use cuda2rocm.BloomFilter.Blocks
use cuda2rocm.BloomFilter.Kernel

-- A hash that sends every key to the first slot.
abbrev collide : ℕ → ℕ
collide key = 0

abbrev four_slots : StaticSet
four_slots = record { slots = 0 ∷ 0 ∷ 0 ∷ 0 ∷ []; capacity = 4; empty_key = 0 }

four_slots-IsShaped : IsShaped four_slots
four_slots-IsShaped = record { some_slots = omega arith; shape = refl }

abbrev some_keys : List ℕ
some_keys = 21 ∷ 22 ∷ 21 ∷ []

some_keys-NonEmpty : NonEmpty four_slots some_keys
some_keys-NonEmpty = (λ e. omega arith, (λ e. omega arith, (λ e. omega arith, tt)))

abbrev some_turns : List ℕ
some_turns = 2 ∷ 0 ∷ 1 ∷ 1 ∷ 0 ∷ []

run-Answers_example :
    Answers collide
      (run collide some_turns four_slots (launch some_keys)).0
      (run collide some_turns four_slots (launch some_keys)).1
run-Answers_example =
    run-Answers collide some_turns four_slots some_keys four_slots-IsShaped some_keys-NonEmpty

four_slots-without : AllSlots (λ x. x ≢ 23) four_slots
four_slots-without zero e = omega arith
four_slots-without (suc zero) e = omega arith
four_slots-without (suc (suc zero)) e = omega arith
four_slots-without (suc (suc (suc zero))) e = omega arith
four_slots-without (suc (suc (suc (suc i)))) e = omega arith

some_keys-without : AllKeys (λ x. x ≢ 23) (launch some_keys)
some_keys-without = (λ e. omega arith, (λ e. omega arith, (λ e. omega arith, tt)))

-- A policy of two hashes, and a filter of two blocks of two words of eight bits.
abbrev two_hashes : Policy
two_hashes = record { num_hash_functions = 2; hash = λ key i. key + 5 * i }

abbrev two_blocks : BloomFilter
two_blocks = cleared_filter 2 1 2

two_blocks-ok : new_filter 2 1 2 true true ≡ ok two_blocks
unfolding new_filter
two_blocks-ok = refl

two_blocks-IsShaped : Blocks.IsShaped two_blocks
two_blocks-IsShaped =
    (new_filter-IsShaped 2 1 2 two_hashes 9 two_blocks (omega arith) (omega arith) (omega arith)
      two_blocks-ok).0

run-AllFound_example :
    let (g, ts) = Kernel.run two_hashes some_turns two_blocks (Kernel.launch some_keys) in
    AllFound two_hashes g ts
run-AllFound_example = run-AllFound two_hashes some_turns two_blocks some_keys two_blocks-IsShaped

-- The same filter with every bit set.
abbrev full_filter : BloomFilter
full_filter = record {
  bits = (true ∷ true ∷ []) ∷ (true ∷ true ∷ []) ∷ [];
  num_blocks = 1;
  words_per_block = 2;
  bits_per_word = 2;
}

full_filter-IsShaped : Blocks.IsShaped full_filter
full_filter-IsShaped = record {
  some_blocks = omega arith;
  some_words = omega arith;
  some_bits = omega arith;
  size = refl;
  width = width;
}
  where
    width : (i : ℕ) → i < 2 → length (get_or full_filter.bits i []) ≡ 2
    width zero h = refl
    width (suc zero) h = refl
    width (suc (suc i)) h = absurd (omega arith)

full_filter-IsSet : IsSetUpTo two_hashes full_filter 6 2
unfolding meets one_hot word_index bit_offset bit_index
full_filter-IsSet zero h = refl
full_filter-IsSet (suc zero) h = refl
full_filter-IsSet (suc (suc i)) h = absurd (omega arith)

new_filter-IsShaped_example :
    Blocks.IsShaped two_blocks
    × (2 * 2 * 1 ≤ size_max)
    × (BloomFilter.contains two_hashes two_blocks 9 ≡ false)
new_filter-IsShaped_example =
    new_filter-IsShaped 2 1 2 two_hashes 9 two_blocks (omega arith) (omega arith) (omega arith)
      two_blocks-ok

grid-two : 1 < grid 1000
unfolding grid
grid-two = omega arith

thread_element_covers_example :
    (300 / block < grid 1000)
    × ((thread_element 1000 1 44 ≡ some 300) ↔ ((1 ≡ 300 / block) × (44 ≡ 300 % block)))
thread_element_covers_example =
    thread_element_covers 1000 300 1 44 (omega arith) (omega arith) grid-two (omega arith)
