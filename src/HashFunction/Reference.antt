-- ===== src/HashFunction/Reference.antt =====
-- The code's steps over lists: the bytes cut into words, with no position and no fuel.
use cuda2rocm.Base.{ℕ, ◌+◌, ◌*◌, ◌^◌, List, [], ◌∷◌, add_word, length}
use Prim.Native.Nat.{bit_or}
use cuda2rocm.HashFunction.{
  Lanes, new_lanes, round, merge, mix_word, mix_half, mix_byte, avalanche, prime5,
}

-- The word of some bytes, lowest first, with the shift of the first.
unfoldable pub word_of : ℕ → List ℕ → ℕ
word_of shift [] = 0
word_of shift (d ∷ ds) = bit_or (d * 2 ^ shift) (word_of (shift + 8) ds)

-- The words of eight bytes.
unfoldable pub words : List ℕ → List ℕ
words (a ∷ b ∷ c ∷ d ∷ e ∷ f ∷ g ∷ h ∷ bs) =
    word_of 0 (a ∷ b ∷ c ∷ d ∷ e ∷ f ∷ g ∷ h ∷ []) ∷ words bs
words _ = []

-- The bytes after them.
unfoldable pub rest : List ℕ → List ℕ
rest (a ∷ b ∷ c ∷ d ∷ e ∷ f ∷ g ∷ h ∷ bs) = rest bs
rest bs = bs

unfoldable pub all_lanes : Lanes → List ℕ → Lanes
all_lanes l (a ∷ b ∷ c ∷ d ∷ ws) =
    all_lanes
      (record { v1 = round l.v1 a; v2 = round l.v2 b; v3 = round l.v3 c; v4 = round l.v4 d }) ws
all_lanes l _ = l

-- The words that are left after the stripes.
unfoldable pub loose_words : List ℕ → List ℕ
loose_words (a ∷ b ∷ c ∷ d ∷ ws) = loose_words ws
loose_words ws = ws

unfoldable pub first_hash : ℕ → List ℕ → ℕ
first_hash seed (a ∷ b ∷ c ∷ d ∷ ws) = merge (all_lanes (new_lanes seed) (a ∷ b ∷ c ∷ d ∷ ws))
first_hash seed _ = add_word seed prime5

unfoldable pub mix_words : ℕ → List ℕ → ℕ
mix_words h [] = h
mix_words h (w ∷ ws) = mix_words (mix_word h w) ws

unfoldable pub mix_bytes : ℕ → List ℕ → ℕ
mix_bytes h [] = h
mix_bytes h (b ∷ bs) = mix_bytes (mix_byte h b) bs

unfoldable pub mix_rest : ℕ → List ℕ → ℕ
mix_rest h (a ∷ b ∷ c ∷ d ∷ bs) = mix_bytes (mix_half h (word_of 0 (a ∷ b ∷ c ∷ d ∷ []))) bs
mix_rest h bs = mix_bytes h bs

unfoldable pub hash : List ℕ → ℕ → ℕ
hash bs seed =
    let h = add_word (first_hash seed (words bs)) (length bs) in
    avalanche (mix_rest (mix_words h (loose_words (words bs))) (rest bs))
