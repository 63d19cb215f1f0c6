-- ===== src/HashFunction/Agreement.antt =====
-- The steps of the code against those of the specification, and the whole hash.
use cuda2rocm.Base.{
  ℕ, ◌+◌, ◌*◌, ◌%◌, ◌^◌, ◌<◌, ◌≡◌, refl, ap, ◌∙◌, some, List, [], ◌∷◌, length, add_word, mul_word,
  arith,
}
use Prim.Native.Nat.{bit_xor}
use cuda2rocm.HashFunction.{
  Lanes, new_lanes, rotl, round, merge, merge_lane, mix_word, mix_half, mix_byte, avalanche, xxh64,
  prime2,
}
use cuda2rocm.HashFunction.Reference.{
  word_of, words, rest, loose_words, all_lanes, first_hash, mix_words, mix_bytes, mix_rest, hash,
}
use cuda2rocm.HashFunction.Specification.{
  p1, p2, p3, p4, p5, rotate, accumulate, accumulate_all, column, merge_accumulator, converge,
  initial, consume_words, consume_bytes, consume_rest, finish, xxhash64,
}
use cuda2rocm.HashFunction.Bounds.{bit_xor-lt}
use cuda2rocm.HashFunction.Stripes.{xxh64-hash}
use cuda2rocm.HashFunction.Rotation.{rotl-rotate}

-- Each step of the code is the one of the specification, on words.
round-accumulate : (v w : ℕ) → round v w ≡ accumulate v w
unfolding round accumulate
round-accumulate v w =
    let y = (v + w * p2) % 2 ^ 64 in
    let e : add_word v (mul_word w prime2) ≡ y = omega arith in
    rw e (ap (λ x. x * p1 % 2 ^ 64) (rotl-rotate 31 y (omega arith) (omega arith)))

round-lt : (v w : ℕ) → round v w < 2 ^ 64
unfolding round
round-lt v w = omega arith

merge_lane-merge_accumulator : (h v : ℕ) → merge_lane h v ≡ merge_accumulator h v
unfolding merge_lane merge_accumulator
merge_lane-merge_accumulator h v = rw (round-accumulate 0 v) (omega arith)

mix_word-lt : (h w : ℕ) → mix_word h w < 2 ^ 64
unfolding mix_word
mix_word-lt h w = omega arith

mix_word-step :
    (h w : ℕ)
    → h < 2 ^ 64
    → mix_word h w ≡ (rotate (bit_xor h (accumulate 0 w)) 27 * p1 + p4) % 2 ^ 64
unfolding mix_word
mix_word-step h w lt =
    let y = bit_xor h (round 0 w) in
    let small = bit_xor-lt 64 h (round 0 w) lt (round-lt 0 w) in
    rw (← round-accumulate 0 w)
      (rw (rotl-rotate 27 y (omega arith) (omega (arith, small))) (omega arith))

mix_words-consume_words :
    (ws : List ℕ) (h : ℕ)
    → h < 2 ^ 64
    → (mix_words h ws ≡ consume_words h ws) × (mix_words h ws < 2 ^ 64)
unfolding mix_words consume_words
mix_words-consume_words [] h lt = (refl, lt)
mix_words-consume_words (w ∷ ws) h lt =
    let (same, small) = mix_words-consume_words ws (mix_word h w) (mix_word-lt h w) in
    (same ∙ ap (λ g. consume_words g ws) (mix_word-step h w lt), small)

mix_half-step :
    (h w : ℕ)
    → h < 2 ^ 64
    → mix_half h w ≡ (rotate (bit_xor h (w * p1 % 2 ^ 64)) 23 * p2 + p3) % 2 ^ 64
unfolding mix_half
mix_half-step h w lt =
    let small = bit_xor-lt 64 h (w * p1 % 2 ^ 64) lt (omega arith) in
    rw (rotl-rotate 23 (bit_xor h (w * p1 % 2 ^ 64)) (omega arith) (omega (arith, small)))
      (omega arith)

mix_byte-step :
    (h b : ℕ) → h < 2 ^ 64 → mix_byte h b ≡ rotate (bit_xor h (b * p5 % 2 ^ 64)) 11 * p1 % 2 ^ 64
unfolding mix_byte
mix_byte-step h b lt =
    let small = bit_xor-lt 64 h (b * p5 % 2 ^ 64) lt (omega arith) in
    rw (rotl-rotate 11 (bit_xor h (b * p5 % 2 ^ 64)) (omega arith) (omega (arith, small))) refl

mix_byte-lt : (h b : ℕ) → mix_byte h b < 2 ^ 64
unfolding mix_byte
mix_byte-lt h b = omega arith

mix_half-lt : (h w : ℕ) → mix_half h w < 2 ^ 64
unfolding mix_half
mix_half-lt h w = omega arith

mix_bytes-consume_bytes : (bs : List ℕ) (h : ℕ) → h < 2 ^ 64 → mix_bytes h bs ≡ consume_bytes h bs
unfolding mix_bytes consume_bytes
mix_bytes-consume_bytes [] h lt = refl
mix_bytes-consume_bytes (b ∷ bs) h lt =
    mix_bytes-consume_bytes bs (mix_byte h b) (mix_byte-lt h b)
    ∙ ap (λ g. consume_bytes g bs) (mix_byte-step h b lt)

mix_rest-consume_rest : (bs : List ℕ) (h : ℕ) → h < 2 ^ 64 → mix_rest h bs ≡ consume_rest h bs
unfolding mix_rest consume_rest
mix_rest-consume_rest [] h lt = mix_bytes-consume_bytes [] h lt
mix_rest-consume_rest (a ∷ []) h lt = mix_bytes-consume_bytes (a ∷ []) h lt
mix_rest-consume_rest (a ∷ b ∷ []) h lt = mix_bytes-consume_bytes (a ∷ b ∷ []) h lt
mix_rest-consume_rest (a ∷ b ∷ c ∷ []) h lt = mix_bytes-consume_bytes (a ∷ b ∷ c ∷ []) h lt
mix_rest-consume_rest (a ∷ b ∷ c ∷ d ∷ bs) h lt =
    let w = word_of 0 (a ∷ b ∷ c ∷ d ∷ []) in
    mix_bytes-consume_bytes bs (mix_half h w) (mix_half-lt h w)
    ∙ ap (λ g. consume_bytes g bs) (mix_half-step h w lt)

avalanche-finish : (h : ℕ) → avalanche h ≡ finish h
unfolding avalanche finish
avalanche-finish h = refl

-- The lanes against the columns.
all_lanes-columns :
    (ws : List ℕ) (l : Lanes)
    → all_lanes l ws ≡ record {
      v1 = accumulate_all l.v1 (column 0 ws);
      v2 = accumulate_all l.v2 (column 1 ws);
      v3 = accumulate_all l.v3 (column 2 ws);
      v4 = accumulate_all l.v4 (column 3 ws);
    }
unfolding all_lanes accumulate_all column
all_lanes-columns [] l = refl
all_lanes-columns (a ∷ []) l = refl
all_lanes-columns (a ∷ b ∷ []) l = refl
all_lanes-columns (a ∷ b ∷ c ∷ []) l = refl
all_lanes-columns (a ∷ b ∷ c ∷ d ∷ ws) l =
    rw
      (
        round-accumulate l.v1 a,
        round-accumulate l.v2 b,
        round-accumulate l.v3 c,
        round-accumulate l.v4 d,
      )
      (all_lanes-columns ws _)

abbrev AllSmall : Lanes → Type 0
AllSmall l = (l.v1 < 2 ^ 64) × (l.v2 < 2 ^ 64) × (l.v3 < 2 ^ 64) × (l.v4 < 2 ^ 64)

all_lanes-AllSmall : (ws : List ℕ) (l : Lanes) → AllSmall l → AllSmall (all_lanes l ws)
unfolding all_lanes
all_lanes-AllSmall [] l v = v
all_lanes-AllSmall (a ∷ []) l v = v
all_lanes-AllSmall (a ∷ b ∷ []) l v = v
all_lanes-AllSmall (a ∷ b ∷ c ∷ []) l v = v
all_lanes-AllSmall (a ∷ b ∷ c ∷ d ∷ ws) l v =
    all_lanes-AllSmall ws _ (round-lt l.v1 a, round-lt l.v2 b, round-lt l.v3 c, round-lt l.v4 d)

merge-converge : (l : Lanes) → AllSmall l → merge l ≡ converge l.v1 l.v2 l.v3 l.v4
unfolding merge converge
merge-converge l (s1, s2, s3, s4) =
    let sum : add_word (add_word (add_word (rotl l.v1 1) (rotl l.v2 7)) (rotl l.v3 12))
          (rotl l.v4 18)
        ≡ (rotate l.v1 1 + rotate l.v2 7 + rotate l.v3 12 + rotate l.v4 18) % 2 ^ 64 =
      omega (
        arith,
        rotl-rotate 1 l.v1 (omega arith) (omega arith),
        rotl-rotate 7 l.v2 (omega arith) (omega arith),
        rotl-rotate 12 l.v3 (omega arith) (omega arith),
        rotl-rotate 18 l.v4 (omega arith) (omega arith),
      ) in
    rw
      (
        sum,
        merge_lane-merge_accumulator _ l.v1,
        merge_lane-merge_accumulator _ l.v2,
        merge_lane-merge_accumulator _ l.v3,
        merge_lane-merge_accumulator _ l.v4,
      )
      refl

first_hash-initial : (seed : ℕ) (ws : List ℕ) → first_hash seed ws ≡ initial seed ws
unfolding first_hash initial new_lanes all_lanes
first_hash-initial seed [] = refl
first_hash-initial seed (a ∷ []) = refl
first_hash-initial seed (a ∷ b ∷ []) = refl
first_hash-initial seed (a ∷ b ∷ c ∷ []) = refl
first_hash-initial seed (a ∷ b ∷ c ∷ d ∷ ws) =
    let ws' = a ∷ b ∷ c ∷ d ∷ ws in
    let l = new_lanes seed in
    let small : AllSmall (all_lanes l ws') =
      all_lanes-AllSmall ws _
        (round-lt l.v1 a, round-lt l.v2 b, round-lt l.v3 c, round-lt l.v4 d) in
    let v1 : l.v1 ≡ (seed + p1 + p2) % 2 ^ 64 = omega arith in
    merge-converge (all_lanes l ws') small ∙ rw (all_lanes-columns ws' l, v1) refl

-- For every buffer and seed the loops end within as many rounds as there are bytes, no read is out
-- of the buffer, and the result is what the specification of xxHash64 gives, which is written out
-- over lists of words with its own primes, rotations and steps.
pub xxh64-xxhash64 : (bs : List ℕ) (seed : ℕ) → xxh64 bs seed ≡ some (xxhash64 bs seed)
unfolding hash xxhash64
xxh64-xxhash64 bs seed =
    let h = add_word (first_hash seed (words bs)) (length bs) in
    let (same, small) = mix_words-consume_words (loose_words (words bs)) h (omega arith) in
    let end = mix_rest-consume_rest (rest bs) (mix_words h (loose_words (words bs))) small in
    xxh64-hash bs seed ∙ rw (avalanche-finish _, end, same, first_hash-initial seed (words bs)) refl
