-- ===== src/Topology/Scan.antt =====
-- Which device a scan settles on.
use cuda2rocm.Base.{
  ℕ, zero, suc, ◌+◌, ◌≤◌, ◌<◌, ◌≡◌, ◌⊎◌, inl, inr, refl, Bool, true, Option, none, some, arith,
  Bool-cases, Option-cases,
}
use native.Mathlib.Decide.{ℕ_discrete}
use cuda2rocm.Topology.{scan}

module _ {ℓ} {A : Type ℓ} (matches : ℕ → Bool) (read : ℕ → Option A) where
  -- No device from `i` up to `n` that matches can be read.
  abbrev pub NoneBefore : ℕ → ℕ → Type ℓ
  NoneBefore i n = (j : ℕ) → i ≤ j → j < n → matches j ≡ true → read j ≡ none

  -- The result is of a device that matches, and no earlier one could be read.
  pub record IsFirst (i n : ℕ) (r : Option A) : Type ℓ where
    pub device : ℕ
    pub value : A
    pub at_least : i ≤ device
    pub below : device < n
    pub matched : matches device ≡ true
    pub opened : read device ≡ some value
    pub result : r ≡ some value
    pub earlier : NoneBefore i device

  abbrev pub Outcome : ℕ → ℕ → Option A → Type ℓ
  Outcome i n r = ((r ≡ none) × NoneBefore i n) ⊎ IsFirst i n r

  skip :
      (rounds i : ℕ)
      → (matches i ≡ true → read i ≡ none)
      → Outcome (suc i) (suc i + rounds) (scan matches read rounds (suc i))
      → Outcome i (i + suc rounds) (scan matches read rounds (suc i))
  skip rounds i unread (inl (e, h)) = inl (
    e,
    λ j le lt m. elim (ℕ_discrete i j) [
      | yes same ↦ rw same at (unread (rw same m))
      | no other ↦ h j (omega arith) (omega arith) m
    ],
  )
  skip rounds i unread (inr f) = inr (record {
    device = f.device;
    value = f.value;
    at_least = omega (arith, f.at_least);
    below = omega (arith, f.below);
    matched = f.matched;
    opened = f.opened;
    result = f.result;
    earlier = λ j le lt m. elim (ℕ_discrete i j) [
      | yes same ↦ rw same at (unread (rw same m))
      | no other ↦ f.earlier j (omega arith) lt m
    ];
  })

  pub scan-Outcome : (rounds i : ℕ) → Outcome i (i + rounds) (scan matches read rounds i)
  unfolding scan
  scan-Outcome zero i = inl (refl, λ j le lt m. absurd (omega arith))
  scan-Outcome (suc rounds) i = elim (Bool-cases (matches i)) [
    | inr e ↦ rw e (skip rounds i (λ m. cc) (scan-Outcome rounds (suc i)))
    | inl e ↦ elim (Option-cases (read i)) [
      | inl n ↦ rw (e, n) (skip rounds i (λ m. n) (scan-Outcome rounds (suc i)))
      | inr (a, s) ↦
          rw (e, s)
            (inr (record {
              device = i;
              value = a;
              at_least = omega arith;
              below = omega arith;
              matched = e;
              opened = s;
              result = refl;
              earlier = λ j le lt m. absurd (omega arith);
            }))
    ]
  ]
