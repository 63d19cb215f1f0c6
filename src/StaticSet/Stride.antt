-- ===== src/StaticSet/Stride.antt =====
-- The probe sequence over a number of slots that is a power of two.
use cuda2rocm.Base.{
  ℕ, zero, suc, ◌+◌, ◌*◌, ◌/◌, ◌%◌, ◌^◌, ◌≤◌, ◌<◌, ◌≡◌, refl, sym, ap, ◌∙◌, ◌-◌, arith, word_mod,
  ◌⊎◌, inl, inr,
}
use native.Mathlib.Nat.{
  add-mul-mod_self_right, mod-eq_of_lt, pow-suc, dvd_refl, dvd-mul_right_of_dvd, mod-mod_of_dvd,
}
use Prim.Native.Nat.{◌∣◌, bit_or, max, bit_or-bitwise, digits}
use mathlib.Core.Path.{subst}
use cuda2rocm.StaticSet.{double_hashing, slot_index}

-- A number is even or odd.
parity : (n : ℕ) → (m : ℕ) × ((n ≡ m * 2) ⊎ (n ≡ m * 2 + 1))
parity zero = (0, inl refl)
parity (suc n) =
    let (m, e) = parity n in
    elim e [
      | inl even ↦ (m, inr (omega (arith, even)))
      | inr odd ↦ (suc m, inl (omega (arith, odd)))
    ]

-- Some probe of the sequence from `h` by strides of `t` is at `j`, up to multiples of `q`.
abbrev Reaches : ℕ → ℕ → ℕ → ℕ → Type 0
Reaches q h t j = (p : ℕ) × (a : ℕ) × (b : ℕ) × (p < q) × (h + p * t + a * q ≡ j + b * q)

Reaches-double : (q h u j : ℕ) → Reaches q h (u * 2 + 1) j → Reaches (q * 2) h (u * 2 + 1) j
Reaches-double q h u j (p, a, b, lt, e) =
    let (c, x) = parity a in
    let (d, y) = parity b in
    elim x [
      | inl i ↦ elim y [
        | inl k ↦ (p, c, d, omega arith, omega (arith, rw (i, k) at e))
        | inr k ↦ (p + q, c, d + u + 1, omega arith, omega (arith, rw (i, k) at e))
      ]
      | inr i ↦ elim y [
        | inl k ↦ (p + q, c, d + u, omega arith, omega (arith, rw (i, k) at e))
        | inr k ↦ (p, c, d, omega arith, omega (arith, rw (i, k) at e))
      ]
    ]

Reaches-pow : (k h u j : ℕ) → Reaches (2 ^ k) h (u * 2 + 1) j
Reaches-pow zero h u j = (0, j, h, omega arith, omega arith)
Reaches-pow (suc k) h u j = rw pow-suc (Reaches-double (2 ^ k) h u j (Reaches-pow k h u j))

bit_or-odd : (n : ℕ) → (u : ℕ) × (bit_or n 1 ≡ u * 2 + 1)
bit_or-odd zero = (0, refl)
bit_or-odd (suc n) = (digits (λ b. b) max n (suc n / 2) 0, simp bit_or-bitwise (ground arith))

pow-dvd : (d k : ℕ) → 2 ^ k ∣ 2 ^ (d + k)
pow-dvd zero k = subst (λ n. 2 ^ k ∣ 2 ^ n) (omega arith) (dvd_refl (2 ^ k))
pow-dvd (suc d) k =
    let e : 2 ^ (d + k) * 2 ≡ 2 ^ (suc d + k) =
      sym (pow-suc 2 (d + k)) ∙ ap (λ n. 2 ^ n) (omega arith) in
    subst (λ n. 2 ^ k ∣ n) e (dvd-mul_right_of_dvd (2 ^ k) (pow-dvd d k) 2)

mod-word_mod : (x k : ℕ) → k ≤ 64 → x % word_mod % 2 ^ k ≡ x % 2 ^ k
mod-word_mod x k fits =
    let e : 64 - k + k ≡ 64 = omega arith in
    mod-mod_of_dvd (2 ^ k) x (subst (λ n. 2 ^ k ∣ 2 ^ n) e (pow-dvd (64 - k) k))

mod_of_multiples : (q x a j b : ℕ) → j < q → x + a * q ≡ j + b * q → x % q ≡ j
mod_of_multiples q x a j b lt e =
    sym (add-mul-mod_self_right x a q)
    ∙ ap (λ y. y % q) e
    ∙ add-mul-mod_self_right j b q
    ∙ mod-eq_of_lt lt

-- With a power of two of slots, at most 2 ^ 64, each slot is at one of the probes of each key.
pub slot_index_covers :
    (hash : ℕ → ℕ) (k key j : ℕ)
    → k ≤ 64
    → j < 2 ^ k
    → (p : ℕ) × (p < 2 ^ k) × (slot_index hash (2 ^ k) key p ≡ j)
unfolding slot_index double_hashing
slot_index_covers hash k key j fits lt =
    let (u, odd) = bit_or-odd (hash key / 2 ^ 32) in
    let (p, a, b, low, e) = Reaches-pow k (hash key) u j in
    (p, low, rw odd (mod-word_mod _ k fits ∙ mod_of_multiples (2 ^ k) _ a j b lt e))
