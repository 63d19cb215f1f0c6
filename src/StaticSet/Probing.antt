-- ===== src/StaticSet/Probing.antt =====
-- The probe sequence of a key: where its key may lie, and what the probe loop answers.
use cuda2rocm.Base.{ℕ, zero, suc, ◌+◌, ◌≤◌, ◌<◌, ◌≡◌, ◌≢◌, refl, true, false, get_or, arith}
use native.Mathlib.Decide.{ℕ_discrete}
use cuda2rocm.StaticSet.{StaticSet, slot_index, contains_from, contains}

module _ (hash : ℕ → ℕ) where
  -- The contents of the slot at a probe of a key.
  abbrev pub probed : StaticSet → ℕ → ℕ → ℕ
  probed s key probe = get_or s.slots (slot_index hash s.capacity key probe) s.empty_key

  -- Every probe before `p` meets another key.
  abbrev pub Passed : StaticSet → ℕ → ℕ → Type 0
  Passed s key p = (q : ℕ) → q < p → (probed s key q ≢ s.empty_key) × (probed s key q ≢ key)

  -- The key lies at one of its probes, behind other keys alone.
  abbrev pub Placed : StaticSet → ℕ → Type 0
  Placed s key = (p : ℕ) × (p < s.capacity) × (probed s key p ≡ key) × Passed s key p

  contains_from-Placed :
      (rounds probe : ℕ) (s : StaticSet) (key p : ℕ)
      → probe ≤ p
      → p < probe + rounds
      → probed s key p ≡ key
      → Passed s key p
      → contains_from hash rounds probe s key ≡ true
  unfolding contains_from
  contains_from-Placed zero probe s key p le lt hit pass = absurd (omega arith)
  contains_from-Placed (suc rounds) probe s key p le lt hit pass = elim (ℕ_discrete probe p) [
    | yes same ↦ ground (arith)
    | no other ↦ ground (
      arith,
      pass probe (omega arith),
      contains_from-Placed rounds (suc probe) s key p (omega arith) (omega arith) hit pass,
    )
  ]

  pub contains-Placed : (s : StaticSet) (key : ℕ) → Placed s key → contains hash s key ≡ true
  unfolding contains
  contains-Placed s key (p, lt, hit, pass) =
      contains_from-Placed s.capacity 0 s key p (omega arith) (omega arith) hit pass

  -- A key that meets only other keys is reported as absent.
  contains_from-Passed :
      (rounds probe : ℕ) (s : StaticSet) (key : ℕ)
      → Passed s key (probe + rounds)
      → contains_from hash rounds probe s key ≡ false
  unfolding contains_from
  contains_from-Passed zero probe s key pass = refl
  contains_from-Passed (suc rounds) probe s key pass = ground (
    arith,
    pass probe (omega arith),
    contains_from-Passed rounds (suc probe) s key (λ q lt. pass q (omega arith)),
  )

  pub contains-Passed :
      (s : StaticSet) (key : ℕ) → Passed s key s.capacity → contains hash s key ≡ false
  unfolding contains
  contains-Passed s key pass =
      contains_from-Passed s.capacity 0 s key (λ q lt. pass q (omega arith))

  contains_from-true :
      (rounds probe : ℕ) (s : StaticSet) (key : ℕ)
      → contains_from hash rounds probe s key ≡ true
      → (p : ℕ) × (probed s key p ≡ key)
  unfolding contains_from
  contains_from-true zero probe s key h = cc
  contains_from-true (suc rounds) probe s key h = elim (ℕ_discrete (probed s key probe) key) [
    | yes hit ↦ (probe, hit)
    | no miss ↦ contains_from-true rounds (suc probe) s key (ground arith)
  ]

  -- A positive answer names a slot that holds the key.
  pub contains-true :
      (s : StaticSet) (key : ℕ)
      → contains hash s key ≡ true
      → (i : ℕ) × (get_or s.slots i s.empty_key ≡ key)
  unfolding contains
  contains-true s key h =
      let (p, e) = contains_from-true s.capacity 0 s key h in (slot_index hash s.capacity key p, e)
