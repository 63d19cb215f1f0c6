-- ===== src/Tests/Hash.antt =====
-- The hash function at published test vectors and at concrete keys.
use cuda2rocm.Base.{ℕ, ◌≡◌, refl, some, List, [], ◌∷◌}
use cuda2rocm.HashFunction.{
  rotl, round, mix_word, mix_half, mix_byte, avalanche, new_lanes, merge_lane, merge, read_bytes,
  read64, read32, stripe, stripes, tail_words, tail_half, tail_bytes, start, xxh64, key_bytes,
  xxhash_64,
}
use cuda2rocm.HashFunction.Specification.{xxhash64}
use cuda2rocm.HashFunction.Agreement.{xxh64-xxhash64}

abbrev abc : List ℕ
abc = 0x61 ∷ 0x62 ∷ 0x63 ∷ []

-- "Nobody inspects the spammish repetition", 39 bytes: one stripe, a half word and three bytes.
abbrev nobody : List ℕ
nobody =
    0x4E ∷ 0x6F ∷ 0x62 ∷ 0x6F ∷ 0x64 ∷ 0x79 ∷ 0x20 ∷ 0x69 ∷ 0x6E ∷ 0x73 ∷ 0x70 ∷ 0x65 ∷ 0x63 ∷ 0x74
    ∷ 0x73 ∷ 0x20 ∷ 0x74 ∷ 0x68 ∷ 0x65 ∷ 0x20 ∷ 0x73 ∷ 0x70 ∷ 0x61 ∷ 0x6D ∷ 0x6D ∷ 0x69 ∷ 0x73
    ∷ 0x68 ∷ 0x20 ∷ 0x72 ∷ 0x65 ∷ 0x70 ∷ 0x65 ∷ 0x74 ∷ 0x69 ∷ 0x74 ∷ 0x69 ∷ 0x6F ∷ 0x6E ∷ []

vector_empty : xxh64 [] 0 ≡ some 0xEF46_DB37_51D8_E999
unfolding rotl round mix_word mix_half mix_byte avalanche new_lanes merge_lane merge read_bytes
    read64 read32 stripe stripes tail_words tail_half tail_bytes start xxh64
vector_empty = refl

vector_abc : xxh64 abc 0 ≡ some 0x44BC_2CF5_AD77_0999
unfolding rotl round mix_word mix_half mix_byte avalanche new_lanes merge_lane merge read_bytes
    read64 read32 stripe stripes tail_words tail_half tail_bytes start xxh64
vector_abc = refl

vector_nobody : xxh64 nobody 0 ≡ some 0xFBCE_A83C_8A37_8BF1
unfolding rotl round mix_word mix_half mix_byte avalanche new_lanes merge_lane merge read_bytes
    read64 read32 stripe stripes tail_words tail_half tail_bytes start xxh64
vector_nobody = refl

-- A key of three bytes, the lowest first.
xxhash_64-abc : xxhash_64 3 0x63_6261 ≡ xxh64 abc 0
unfolding key_bytes xxhash_64
xxhash_64-abc = refl

xxh64-xxhash64_example : xxh64 nobody 7 ≡ some (xxhash64 nobody 7)
xxh64-xxhash64_example = xxh64-xxhash64 nobody 7
