-- ===== src/BloomFilter/Kernel.antt =====
-- `bloom_add_kernel`: the threads of one launch, which share the words and go one `atomicOr` at a
-- time, in the order of a schedule.
use cuda2rocm.Base.{ℕ, zero, suc, List, [], ◌∷◌, ltb, if◌then◌else◌}
use cuda2rocm.BloomFilter.{BloomFilter, Policy, hash_count, add_bit}

-- A thread: its key, and the hash that is next.
pub record Thread : Type 0 where
  pub key : ℕ
  pub next : ℕ

-- The thread at an index sets the bit of its next hash, if one is left.
unfoldable pub turn : Policy → ℕ → BloomFilter → List Thread → BloomFilter × List Thread
turn policy i f [] = (f, [])
turn policy zero f (t ∷ ts) =
    if ltb t.next (hash_count policy)
    then (add_bit policy t.key t.next f, record { key = t.key; next = suc t.next } ∷ ts)
    else (f, t ∷ ts)
turn policy (suc i) f (t ∷ ts) = let (f', rest) = turn policy i f ts in (f', t ∷ rest)

unfoldable pub run : Policy → List ℕ → BloomFilter → List Thread → BloomFilter × List Thread
run policy [] f ts = (f, ts)
run policy (i ∷ schedule) f ts = let (f', rest) = turn policy i f ts in run policy schedule f' rest

-- `add_async`: a thread for each key of the range, of at most 2 ^ 32 keys, for which the 32-bit index
-- of a thread does not wrap (Launch).
abbrev pub launch : List ℕ → List Thread
launch [] = []
launch (key ∷ keys) = record { key = key; next = 0 } ∷ launch keys
