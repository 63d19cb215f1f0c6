-- ===== src/Base/Words.antt =====
-- Machine words. A `std::size_t` or `std::uint64_t` is a number below 2 ^ 64; what wraps in the
-- source is written with `% word_mod`. An `std::int64_t` is its bit pattern.
use Prim.Native.Nat.{ℕ, ◌+◌, ◌-◌, ◌*◌, ◌%◌, ◌^◌}
use mathlib.Core.Bool.{Bool}
use cuda2rocm.Base.Tests.{leb, ltb}

abbrev pub word_mod : ℕ
word_mod = 2 ^ 64

-- `SIZE_MAX`
abbrev pub size_max : ℕ
size_max = 2 ^ 64 - 1

abbrev pub add_word : ℕ → ℕ → ℕ
add_word a b = (a + b) % word_mod

abbrev pub sub_word : ℕ → ℕ → ℕ
sub_word a b = (a + word_mod - b) % word_mod

abbrev pub mul_word : ℕ → ℕ → ℕ
mul_word a b = a * b % word_mod

-- Signed comparison of two bit patterns of 64 bits.
abbrev pub signed_rank : ℕ → ℕ
signed_rank a = (a + 2 ^ 63) % word_mod

abbrev pub signed_le : ℕ → ℕ → Bool
signed_le a b = leb (signed_rank a) (signed_rank b)

abbrev pub signed_lt : ℕ → ℕ → Bool
signed_lt a b = ltb (signed_rank a) (signed_rank b)
