-- ===== src/StaticSet/Default.antt =====
-- A set with the default hash function of its keys.
use cuda2rocm.Base.{ℕ, ◌^◌, ◌≤◌, ◌<◌, ◌≡◌, ◌≢◌, ◌↔◌, true, some, List, ok, length, Among, word_mod}
use cuda2rocm.HashFunction.{xxhash_64}
use cuda2rocm.HashFunction.Bounds.{default_hash_function, xxhash_64-default}
use cuda2rocm.StaticSet.{StaticSet, new_set, contains}
use cuda2rocm.StaticSet.Fill.{fill_slots}
use cuda2rocm.StaticSet.Kernel.{run, launch}
use cuda2rocm.StaticSet.Abstract.{IsFair}
use cuda2rocm.StaticSet.Construction.{new_set-contains}

-- A set of 2 ^ k slots, k at most 31, whose hash function is the default one: for each key the hash
-- reads the key's bytes to the end and is a word; and in a set from the constructor the kernel that fills
-- the slots ends, and the set that one launch then fills with at most as many keys, none of them the empty key, under any schedule that gives each
-- thread one turn more than there are slots, answers true for a key other than the empty one exactly
-- where it is among the keys of the launch.
pub default-contains :
    (k key_size empty fuel : ℕ) (memory schedule keys : List ℕ) (s : StaticSet) (x : ℕ)
    → new_set key_size (2 ^ k) empty memory true true ≡ ok s
    → length memory ≡ 2 ^ k
    → k ≤ 31
    → 2 ≤ fuel
    → ((y : ℕ) → Among y keys → y ≢ empty)
    → length keys ≤ 2 ^ k
    → IsFair (2 ^ k) (length keys) schedule
    → x ≢ empty
    → ((y : ℕ)
        → (xxhash_64 key_size y ≡ some (default_hash_function key_size y))
          × (default_hash_function key_size y < word_mod))
      × ((s' : StaticSet) × (fill_slots fuel s ≡ some s')
          × ((contains
                  (default_hash_function key_size)
                  (run (default_hash_function key_size) schedule s' (launch keys)).0
                  x
                ≡ true)
              ↔ Among x keys))
default-contains k key_size empty fuel memory schedule keys s x built l fits two n room fair ne = (
  xxhash_64-default key_size,
  new_set-contains (default_hash_function key_size) k key_size empty fuel memory schedule keys s x
      built l fits two n room fair ne,
)
