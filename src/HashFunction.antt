-- ===== src/HashFunction.antt =====
-- cuco-rocm/include/cuco/hash_functions.cuh: xxHash64 over the bytes of a key. A pointer into the
-- buffer is a position; a read outside of it is none. The reads of a word are one function of its
-- number of bytes.
pub mod Reference
pub mod Tail
pub mod Stripes
pub mod Bounds
pub mod Specification
pub mod Rotation
pub mod Agreement
use cuda2rocm.Base.{
  ℕ, zero, suc, ◌+◌, ◌-◌, ◌*◌, ◌/◌, ◌%◌, ◌^◌, Option, none, some, List, [], ◌∷◌, ltb, leb,
  if◌then◌else◌, word_mod, add_word, mul_word, sub_word, length, get_elem?, ◌>>=◌,
}
use Prim.Native.Nat.{bit_or, bit_xor}

abbrev pub prime1 : ℕ
prime1 = 0x9E37_79B1_85EB_CA87

abbrev pub prime2 : ℕ
prime2 = 0xC2B2_AE3D_27D4_EB4F

abbrev pub prime3 : ℕ
prime3 = 0x1656_67B1_9E37_79F9

abbrev pub prime4 : ℕ
prime4 = 0x85EB_CA77_C2B2_AE63

abbrev pub prime5 : ℕ
prime5 = 0x27D4_EB2F_1656_67C5

-- `(x << r) | (x >> (64 - r))`
unfoldable pub rotl : ℕ → ℕ → ℕ
rotl x r = bit_or (x * 2 ^ r % word_mod) (x / 2 ^ (64 - r))

-- `rotl(v + w * PRIME2, 31) * PRIME1`
unfoldable pub round : ℕ → ℕ → ℕ
unfolding rotl
round v w = mul_word (rotl (add_word v (mul_word w prime2)) 31) prime1

-- `h` after the word `w` of the tail, after its half word and after one of its bytes.
unfoldable pub mix_word : ℕ → ℕ → ℕ
unfolding rotl round
mix_word h w = add_word (mul_word (rotl (bit_xor h (round 0 w)) 27) prime1) prime4

unfoldable pub mix_half : ℕ → ℕ → ℕ
unfolding rotl
mix_half h w = add_word (mul_word (rotl (bit_xor h (mul_word w prime1)) 23) prime2) prime3

unfoldable pub mix_byte : ℕ → ℕ → ℕ
unfolding rotl
mix_byte h b = mul_word (rotl (bit_xor h (mul_word b prime5)) 11) prime1

unfoldable pub avalanche : ℕ → ℕ
avalanche h =
    let a = mul_word (bit_xor h (h / 2 ^ 33)) prime2 in
    let b = mul_word (bit_xor a (a / 2 ^ 29)) prime3 in bit_xor b (b / 2 ^ 32)

pub record Lanes : Type 0 where
  pub v1 : ℕ
  pub v2 : ℕ
  pub v3 : ℕ
  pub v4 : ℕ

unfoldable pub new_lanes : ℕ → Lanes
new_lanes seed = record {
  v1 = add_word (add_word seed prime1) prime2;
  v2 = add_word seed prime2;
  v3 = seed;
  v4 = sub_word seed prime1;
}

-- `h` from the lanes.
unfoldable pub merge_lane : ℕ → ℕ → ℕ
unfolding round
merge_lane h v = add_word (mul_word (bit_xor h (round 0 v)) prime1) prime4

unfoldable pub merge : Lanes → ℕ
unfolding rotl merge_lane
merge l =
    let h =
      add_word (add_word (add_word (rotl l.v1 1) (rotl l.v2 7)) (rotl l.v3 12)) (rotl l.v4 18) in
    merge_lane (merge_lane (merge_lane (merge_lane h l.v1) l.v2) l.v3) l.v4

-- `d[0] | d[1] << 8 | …` for some bytes from a position on, with the shift of the first.
unfoldable pub read_bytes : ℕ → ℕ → List ℕ → ℕ → Option ℕ
read_bytes zero shift bs p = some 0
read_bytes (suc n) shift bs p = do
  d ← get_elem? bs p
  rest ← read_bytes n (shift + 8) bs (suc p)
  some (bit_or (d * 2 ^ shift) rest)

unfoldable pub read64 : List ℕ → ℕ → Option ℕ
unfolding read_bytes
read64 bs p = read_bytes 8 0 bs p

unfoldable pub read32 : List ℕ → ℕ → Option ℕ
unfolding read_bytes
read32 bs p = read_bytes 4 0 bs p

-- One stripe of 32 bytes.
unfoldable pub stripe : List ℕ → ℕ → Lanes → Option Lanes
unfolding round
stripe bs p l = do
  a ← read64 bs p
  b ← read64 bs (p + 8)
  c ← read64 bs (p + 16)
  d ← read64 bs (p + 24)
  some (record { v1 = round l.v1 a; v2 = round l.v2 b; v3 = round l.v3 c; v4 = round l.v4 d })

-- The loop over stripes: at least one round, and on while `p <= limit`. None of the rounds is left
-- where the fuel is 0.
unfoldable pub stripes : ℕ → List ℕ → ℕ → Lanes → Option (Lanes × ℕ)
stripes zero bs p l = none
stripes (suc fuel) bs p l = do
  l' ← stripe bs p l
  if leb (p + 32) (length bs - 32) then stripes fuel bs (p + 32) l' else some (l', p + 32)

-- The loop over the words that are left.
unfoldable pub tail_words : ℕ → List ℕ → ℕ → ℕ → Option (ℕ × ℕ)
tail_words zero bs p h = if leb (p + 8) (length bs) then none else some (h, p)
tail_words (suc fuel) bs p h =
    let more = (do w ← read64 bs p; tail_words fuel bs (p + 8) (mix_word h w)) in
    if leb (p + 8) (length bs) then more else some (h, p)

unfoldable pub tail_half : List ℕ → ℕ → ℕ → Option (ℕ × ℕ)
tail_half bs p h =
    if leb (p + 4) (length bs)
    then (do w ← read32 bs p; some (mix_half h w, p + 4))
    else some (h, p)

unfoldable pub tail_bytes : ℕ → List ℕ → ℕ → ℕ → Option ℕ
tail_bytes zero bs p h = if ltb p (length bs) then none else some h
tail_bytes (suc fuel) bs p h =
    let more = (do b ← get_elem? bs p; tail_bytes fuel bs (suc p) (mix_byte h b)) in
    if ltb p (length bs) then more else some h

-- `h` and the position after the stripes.
unfoldable pub start : List ℕ → ℕ → Option (ℕ × ℕ)
start bs seed =
    if leb 32 (length bs)
    then (do (l, p) ← stripes (length bs) bs 0 (new_lanes seed); some (merge l, p))
    else some (add_word seed prime5, 0)

-- No loop has more rounds than there are bytes, which is the fuel.
unfoldable pub xxh64 : List ℕ → ℕ → Option ℕ
xxh64 bs seed = do
  (h, p) ← start bs seed
  (h, p) ← tail_words (length bs) bs p (add_word h (length bs))
  (h, p) ← tail_half bs p h
  h ← tail_bytes (length bs) bs p h
  some (avalanche h)

-- The bytes in which a key of some size lies in memory, lowest first.
unfoldable pub key_bytes : ℕ → ℕ → List ℕ
key_bytes zero key = []
key_bytes (suc size) key = key % 256 ∷ key_bytes size (key / 256)

-- `xxhash_64` and `default_hash_function` on a key of some size.
unfoldable pub xxhash_64 : ℕ → ℕ → Option ℕ
unfolding key_bytes xxh64
xxhash_64 size key = xxh64 (key_bytes size key) 0
