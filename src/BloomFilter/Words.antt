-- ===== src/BloomFilter/Words.antt =====
-- Words as lists of bits.
use cuda2rocm.Base.{
  ℕ, zero, suc, ◌<◌, ◌≡◌, refl, Bool, true, false, ◌||◌, ◌&&◌, List, [], ◌∷◌, replicate, length,
  arith, ap, if◌then◌else◌, length-replicate,
}

abbrev pub Word : Type 0
Word = List Bool

abbrev pub zero_word : ℕ → Word
zero_word width = replicate width false

-- `WordT{1} << offset`, of a width; a bit past the width is lost.
unfoldable pub one_hot : ℕ → ℕ → Word
one_hot zero offset = []
one_hot (suc width) zero = true ∷ zero_word width
one_hot (suc width) (suc offset) = false ∷ one_hot width offset

-- `a | b`
unfoldable pub or_word : Word → Word → Word
or_word [] bs = []
or_word (a ∷ as_) [] = a ∷ as_
or_word (a ∷ as_) (b ∷ bs) = (a || b) ∷ or_word as_ bs

-- `(a & b) != 0`
unfoldable pub meets : Word → Word → Bool
meets [] bs = false
meets (a ∷ as_) [] = false
meets (a ∷ as_) (b ∷ bs) = if a && b then true else meets as_ bs

pub length-one_hot : (width offset : ℕ) → length (one_hot width offset) ≡ width
unfolding one_hot
length-one_hot zero offset = refl
length-one_hot (suc width) zero = ap suc (length-replicate width false)
length-one_hot (suc width) (suc offset) = ap suc (length-one_hot width offset)

pub length-or_word : (a b : Word) → length (or_word a b) ≡ length a
unfolding or_word
length-or_word [] b = refl
length-or_word (x ∷ a) [] = refl
length-or_word (x ∷ a) (y ∷ b) = ap suc (length-or_word a b)

-- A bit that has been set is met.
pub meets-or_word-one_hot :
    (a : Word) (width offset : ℕ)
    → length a ≡ width
    → offset < width
    → meets (or_word a (one_hot width offset)) (one_hot width offset) ≡ true
unfolding meets or_word one_hot
meets-or_word-one_hot [] width offset l h = absurd (omega arith)
meets-or_word-one_hot (x ∷ a) zero offset l h = absurd (omega arith)
meets-or_word-one_hot (x ∷ a) (suc width) zero l h = ground arith
meets-or_word-one_hot (x ∷ a) (suc width) (suc offset) l h =
    ground (arith, meets-or_word-one_hot a width offset)

-- Setting more bits keeps those that are met.
pub meets-or_word : (a b c : Word) → meets a c ≡ true → meets (or_word a b) c ≡ true
unfolding meets or_word
meets-or_word [] b c h = h
meets-or_word (x ∷ a) [] c h = h
meets-or_word (x ∷ a) (y ∷ b) [] h = h
meets-or_word (x ∷ a) (y ∷ b) (z ∷ c) h = ground (arith, meets-or_word a b c)

pub meets-zero_word : (width : ℕ) (c : Word) → meets (zero_word width) c ≡ false
unfolding meets
meets-zero_word zero c = refl
meets-zero_word (suc width) [] = refl
meets-zero_word (suc width) (z ∷ c) = meets-zero_word width c
