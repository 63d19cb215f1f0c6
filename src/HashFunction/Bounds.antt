-- ===== src/HashFunction/Bounds.antt =====
-- The hash is a word of 64 bits.
use cuda2rocm.Base.{ℕ, zero, suc, ◌/◌, ◌%◌, ◌^◌, ◌<◌, ◌≡◌, some, List, arith, word_mod}
use Prim.Native.Nat.{bit_xor, bit_xor-bitwise, digits, differ}
use native.Mathlib.Nat.{pow-suc}
use cuda2rocm.HashFunction.{avalanche, xxhash_64, key_bytes}
use cuda2rocm.HashFunction.Reference.{hash}
use cuda2rocm.HashFunction.Stripes.{xxh64-hash}

differ-lt : (x y : ℕ) → x < 2 → y < 2 → differ x y < 2
differ-lt zero y h k = k
differ-lt (suc x) zero h k = h
differ-lt (suc zero) (suc zero) h k = omega arith
differ-lt (suc zero) (suc (suc y)) h k = absurd (omega arith)
differ-lt (suc (suc x)) (suc y) h k = absurd (omega arith)

-- Digit by digit, an exclusive or has no more bits than its arguments.
digits-lt : (n k a b : ℕ) → a < 2 ^ k → b < 2 ^ k → digits (λ y. y) differ n a b < 2 ^ k
digits-lt zero k a b p q = q
digits-lt (suc n) k zero b p q = q
digits-lt (suc n) zero (suc a) b p q = absurd (omega arith)
digits-lt (suc n) (suc k) (suc a) b p q =
    let two = pow-suc 2 k in
    let ih = digits-lt n k (suc a / 2) (b / 2) (omega (arith, two)) (omega (arith, two)) in
    let bit = differ-lt (suc a % 2) (b % 2) (omega arith) (omega arith) in
    omega (arith, two, ih, bit)

pub bit_xor-lt : (k a b : ℕ) → a < 2 ^ k → b < 2 ^ k → bit_xor a b < 2 ^ k
bit_xor-lt k a b p q = simp bit_xor-bitwise (digits-lt a k a b p q)

avalanche-lt : (h : ℕ) → avalanche h < word_mod
unfolding avalanche
avalanche-lt h =
    let last : (b : ℕ) → b < 2 ^ 64 → bit_xor b (b / 2 ^ 32) < 2 ^ 64 =
      λ b small. bit_xor-lt 64 b (b / 2 ^ 32) small (omega arith) in
    last _ (omega arith)

pub hash-lt : (bs : List ℕ) (seed : ℕ) → hash bs seed < word_mod
unfolding hash
hash-lt bs seed = avalanche-lt _

-- `default_hash_function` on a key of some size.
unfoldable pub default_hash_function : ℕ → ℕ → ℕ
default_hash_function size key = hash (key_bytes size key) 0

pub xxhash_64-default :
    (size key : ℕ)
    → (xxhash_64 size key ≡ some (default_hash_function size key))
      × (default_hash_function size key < word_mod)
unfolding xxhash_64 default_hash_function
xxhash_64-default size key = (xxh64-hash (key_bytes size key) 0, hash-lt (key_bytes size key) 0)
