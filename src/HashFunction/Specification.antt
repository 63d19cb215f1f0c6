-- ===== src/HashFunction/Specification.antt =====
-- xxHash64 as its specification describes it, in plain arithmetic: with primes and rotation amounts of
-- its own, four accumulators each over its own column of the words, and no position. Nothing here is
-- taken from the code but the cutting of bytes into words, which Reference has.
use cuda2rocm.Base.{ℕ, ◌+◌, ◌-◌, ◌*◌, ◌/◌, ◌%◌, ◌^◌, List, [], ◌∷◌, length, get_or}
use Prim.Native.Nat.{bit_xor}
use cuda2rocm.HashFunction.Reference.{word_of, words, rest, loose_words}

abbrev pub p1 : ℕ
p1 = 11400714785074694791

abbrev pub p2 : ℕ
p2 = 14029467366897019727

abbrev pub p3 : ℕ
p3 = 1609587929392839161

abbrev pub p4 : ℕ
p4 = 9650029242287828579

abbrev pub p5 : ℕ
p5 = 2870177450012600261

-- The bits that leave a 64-bit word on the left come back on the right.
unfoldable pub rotate : ℕ → ℕ → ℕ
rotate x r = x % 2 ^ (64 - r) * 2 ^ r + x / 2 ^ (64 - r)

unfoldable pub accumulate : ℕ → ℕ → ℕ
unfolding rotate
accumulate acc lane = rotate ((acc + lane * p2) % 2 ^ 64) 31 * p1 % 2 ^ 64

unfoldable pub accumulate_all : ℕ → List ℕ → ℕ
unfolding accumulate
accumulate_all acc [] = acc
accumulate_all acc (lane ∷ lanes) = accumulate_all (accumulate acc lane) lanes

-- Every fourth word, from one of the first four on, of the whole stripes.
unfoldable pub column : ℕ → List ℕ → List ℕ
column j (a ∷ b ∷ c ∷ d ∷ ws) = get_or (a ∷ b ∷ c ∷ d ∷ []) j 0 ∷ column j ws
column j _ = []

unfoldable pub merge_accumulator : ℕ → ℕ → ℕ
unfolding accumulate
merge_accumulator acc a = (bit_xor acc (accumulate 0 a) * p1 + p4) % 2 ^ 64

-- The accumulators at the end of the stripes, converged.
unfoldable pub converge : ℕ → ℕ → ℕ → ℕ → ℕ
unfolding rotate merge_accumulator
converge a b c d =
    let acc = (rotate a 1 + rotate b 7 + rotate c 12 + rotate d 18) % 2 ^ 64 in
    merge_accumulator (merge_accumulator (merge_accumulator (merge_accumulator acc a) b) c) d

unfoldable pub initial : ℕ → List ℕ → ℕ
unfolding converge accumulate_all column
initial seed (a ∷ b ∷ c ∷ d ∷ ws) =
    let ws' = a ∷ b ∷ c ∷ d ∷ ws in
    converge (accumulate_all ((seed + p1 + p2) % 2 ^ 64) (column 0 ws'))
      (accumulate_all ((seed + p2) % 2 ^ 64) (column 1 ws')) (accumulate_all seed (column 2 ws'))
      (accumulate_all ((seed + 2 ^ 64 - p1) % 2 ^ 64) (column 3 ws'))
initial seed _ = (seed + p5) % 2 ^ 64

-- The words, the half word and the bytes that are left.
unfoldable pub consume_words : ℕ → List ℕ → ℕ
unfolding rotate accumulate
consume_words acc [] = acc
consume_words acc (w ∷ ws) =
    consume_words ((rotate (bit_xor acc (accumulate 0 w)) 27 * p1 + p4) % 2 ^ 64) ws

unfoldable pub consume_bytes : ℕ → List ℕ → ℕ
unfolding rotate
consume_bytes acc [] = acc
consume_bytes acc (b ∷ bs) =
    consume_bytes (rotate (bit_xor acc (b * p5 % 2 ^ 64)) 11 * p1 % 2 ^ 64) bs

unfoldable pub consume_rest : ℕ → List ℕ → ℕ
unfolding rotate consume_bytes
consume_rest acc (a ∷ b ∷ c ∷ d ∷ bs) =
    let half = word_of 0 (a ∷ b ∷ c ∷ d ∷ []) * p1 % 2 ^ 64 in
    consume_bytes ((rotate (bit_xor acc half) 23 * p2 + p3) % 2 ^ 64) bs
consume_rest acc bs = consume_bytes acc bs

unfoldable pub finish : ℕ → ℕ
finish acc =
    let a = bit_xor acc (acc / 8589934592) * p2 % 2 ^ 64 in
    let b = bit_xor a (a / 536870912) * p3 % 2 ^ 64 in bit_xor b (b / 4294967296)

unfoldable pub xxhash64 : List ℕ → ℕ → ℕ
xxhash64 bs seed =
    let acc = (initial seed (words bs) + length bs) % 2 ^ 64 in
    finish (consume_rest (consume_words acc (loose_words (words bs))) (rest bs))
