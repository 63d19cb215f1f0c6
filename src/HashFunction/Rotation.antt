-- ===== src/HashFunction/Rotation.antt =====
-- Rotations as sums: an or of numbers without a common bit.
use cuda2rocm.Base.{
  ℕ, zero, suc, ◌+◌, ◌-◌, ◌*◌, ◌/◌, ◌%◌, ◌^◌, ◌≤◌, ◌<◌, ◌≡◌, refl, sym, max, arith,
}
use Prim.Native.Nat.{bit_or, bit_or-bitwise, digits}
use native.Mathlib.Nat.{pow-suc, mul_assoc}
use cuda2rocm.HashFunction.{rotl}
use cuda2rocm.HashFunction.Specification.{rotate}

-- An or, bit by bit.
or_digits-fuel :
    (n m a b : ℕ) → a ≤ n → a ≤ m → digits (λ y. y) max n a b ≡ digits (λ y. y) max m a b
or_digits-fuel zero zero a b p q = refl
or_digits-fuel zero (suc m) zero b p q = refl
or_digits-fuel zero (suc m) (suc a) b p q = absurd (omega arith)
or_digits-fuel (suc n) zero zero b p q = refl
or_digits-fuel (suc n) zero (suc a) b p q = absurd (omega arith)
or_digits-fuel (suc n) (suc m) zero b p q = refl
or_digits-fuel (suc n) (suc m) (suc a) b p q =
    omega (arith, or_digits-fuel n m (suc a / 2) (b / 2) (omega arith) (omega arith))

zero-bit_or : (b : ℕ) → bit_or 0 b ≡ b
zero-bit_or b = bit_or-bitwise 0 b

bit_or_step : (a b : ℕ) → bit_or a b ≡ bit_or (a / 2) (b / 2) * 2 + max (a % 2) (b % 2)
bit_or_step zero b = ground (arith, zero-bit_or b, zero-bit_or (b / 2))
bit_or_step (suc a) b = omega (
  arith,
  bit_or-bitwise (suc a) b,
  bit_or-bitwise (suc a / 2) (b / 2),
  or_digits-fuel a (suc a / 2) (suc a / 2) (b / 2) (omega arith) (omega arith),
)

bit_or-zero : (n a : ℕ) → a ≤ n → bit_or a 0 ≡ a
bit_or-zero n zero h = zero-bit_or 0
bit_or-zero zero (suc a) h = absurd (omega arith)
bit_or-zero (suc n) (suc a) h =
    omega (arith, bit_or_step (suc a) 0, bit_or-zero n (suc a / 2) (omega arith))

-- Numbers without a common bit are added.
bit_or-disjoint : (r a b : ℕ) → b < 2 ^ r → bit_or (a * 2 ^ r) b ≡ a * 2 ^ r + b
bit_or-disjoint zero a zero lt = omega (arith, bit_or-zero (a * 1) (a * 1) (omega arith))
bit_or-disjoint zero a (suc b) lt = absurd (omega arith)
bit_or-disjoint (suc r) a b lt =
    let x = a * 2 ^ r in
    let twice : a * 2 ^ suc r ≡ x * 2 = rw (pow-suc 2 r) (sym (mul_assoc a (2 ^ r) 2)) in
    let half : x * 2 / 2 ≡ x = omega arith in
    let step = bit_or_step (x * 2) b in
    let ih = bit_or-disjoint r a (b / 2) (omega (arith, pow-suc 2 r)) in
    rw twice (omega (arith, rw half at step, ih))

pub rotl-rotate :
    (r x : ℕ)
    → x * 2 ^ r % 2 ^ 64 ≡ x % 2 ^ (64 - r) * 2 ^ r
    → x / 2 ^ (64 - r) < 2 ^ r
    → rotl x r ≡ rotate x r
unfolding rotl rotate
rotl-rotate r x e lt = rw e (bit_or-disjoint r (x % 2 ^ (64 - r)) (x / 2 ^ (64 - r)) lt)
