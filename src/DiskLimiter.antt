-- ===== src/DiskLimiter.antt =====
-- cucascade-rocm/include/cucascade/memory/disk_access_limiter.hpp: a counting gate over an atomic
-- counter, with its two loops run alone and by any number of threads.
use cuda2rocm.Base.{
  ℕ, zero, suc, ◌+◌, ◌-◌, ◌≤◌, ◌<◌, ◌≡◌, refl, Bool, true, false, Option, none, some, List, [], ◌∷◌,
  ltb, if◌then◌else◌, arith, word_mod, ◌⊎◌, add_word,
}
use cuda2rocm.Atomic.{Thread, Phase, ready, holding, stored, refused, run}
use cuda2rocm.Atomic.Interleaving.{
  AllThreads, AllAgree, Agrees, Keeps, Grows, gain, gains, run-Keeps, run-gains, run-AllThreads,
}

pub record DiskLimiter : Type 0 where
  pub max : ℕ
  pub current : ℕ

-- A round of the loop in `try_acquire`.
unfoldable pub propose_acquire : ℕ → ℕ → Option ℕ
propose_acquire max cur = if ltb cur max then some (add_word cur 1) else none

-- A round of the loop in `release`.
unfoldable pub propose_release : ℕ → Option ℕ
propose_release cur = if ltb 0 cur then some (cur - 1) else none

unfoldable pub try_acquire : DiskLimiter → DiskLimiter × Bool
unfolding propose_acquire
try_acquire d = elim (propose_acquire d.max d.current) [
  | none ↦ (d, false)
  | some next ↦ (record d { current = next }, true)
]

unfoldable pub release : DiskLimiter → DiskLimiter
unfolding propose_release
release d = elim (propose_release d.current) [ none ↦ d | some next ↦ record d { current = next } ]

-- The gate is acquired exactly while there is room, which uses up one place; a release gives a
-- place back, never goes below none in use, and undoes an acquisition.
pub try_acquire-release :
    (d : DiskLimiter)
    → d.max < word_mod
    → let (d', got) = try_acquire d in
      (((d.current < d.max) × (got ≡ true) × (d'.current ≡ d.current + 1) × (release d' ≡ d))
        ⊎ ((d.max ≤ d.current) × (got ≡ false) × (d' ≡ d)))
      × ((release d).current ≡ d.current - 1)
unfolding try_acquire release
try_acquire-release d h = ground arith

-- Threads that each try to acquire once.
abbrev pub acquirers : ℕ → ℕ → List Thread
acquirers max zero = []
acquirers max (suc n) = record { propose = propose_acquire max; phase = ready } ∷ acquirers max n

-- One for a thread that has stored.
abbrev pub got : Phase → ℕ
got ready = 0
got (holding seen) = 0
got (stored old new) = 1
got (refused seen) = 0

-- How many threads were granted access.
abbrev pub granted : List Thread → ℕ
granted [] = 0
granted (t ∷ ts) = got t.phase + granted ts

propose_acquire-Keeps : (max : ℕ) → max < word_mod → Keeps (λ c. c ≤ max) (propose_acquire max)
unfolding propose_acquire
propose_acquire-Keeps max h c n q e = ground arith

propose_acquire-Grows : (max : ℕ) → max < word_mod → Grows (propose_acquire max)
unfolding propose_acquire
propose_acquire-Grows max h c n b e = ground arith

acquirers-All :
    (P : (ℕ → Option ℕ) → Type 0) (max n : ℕ)
    → P (propose_acquire max)
    → AllThreads P (acquirers max n)
acquirers-All P max zero p = tt
acquirers-All P max (suc n) p = (p, acquirers-All P max n p)

acquirers-AllAgree : (max n : ℕ) → AllAgree (acquirers max n)
acquirers-AllAgree max zero = tt
acquirers-AllAgree max (suc n) = (tt, acquirers-AllAgree max n)

gains-acquirers : (max n : ℕ) → gains (acquirers max n) ≡ 0
gains-acquirers max zero = refl
gains-acquirers max (suc n) = omega (arith, gains-acquirers max n)

-- A thread that acquired raised the counter by one.
acquired_one :
    (max old new : ℕ) → max < word_mod → propose_acquire max old ≡ some new → new - old ≡ 1
unfolding propose_acquire
acquired_one max old new h e = ground arith

gain-got :
    (max : ℕ) (propose : ℕ → Option ℕ) (ph : Phase)
    → max < word_mod
    → propose ≡ propose_acquire max
    → Agrees propose ph
    → gain ph ≡ got ph
gain-got max propose ready h p a = refl
gain-got max propose (holding seen) h p a = refl
gain-got max propose (stored old new) h p a = acquired_one max old new h (rw p at a)
gain-got max propose (refused seen) h p a = refl

gains-granted :
    (max : ℕ) (ts : List Thread)
    → max < word_mod
    → AllThreads (λ p. p ≡ propose_acquire max) ts
    → AllAgree ts
    → gains ts ≡ granted ts
gains-granted max [] h p a = refl
gains-granted max (t ∷ ts) h p a =
    omega (arith, gain-got max t.propose t.phase h p.0 a.0, gains-granted max ts h p.1 a.1)

-- Under every schedule of threads that acquire, from a counter within a limit that is a word, the
-- counter is what it was plus the number of threads that were granted access, and it never exceeds
-- the limit.
pub run-granted :
    (max n current : ℕ) (schedule : List (ℕ × Bool))
    → max < word_mod
    → current ≤ max
    → let (c, ts) = run schedule current (acquirers max n) in (c ≡ current + granted ts) × (c ≤ max)
run-granted max n current schedule h q =
    let (le, agree) =
      run-Keeps (λ c. c ≤ max) schedule current (acquirers max n)
        (acquirers-All _ max n (propose_acquire-Keeps max h)) (acquirers-AllAgree max n) q in
    (
      omega (
        arith,
        gains-acquirers max n,
        gains-granted max (run schedule current (acquirers max n)).1 h
            (run-AllThreads (λ p. p ≡ propose_acquire max) schedule current (acquirers max n)
              (acquirers-All _ max n refl))
            agree,
        run-gains schedule current (acquirers max n)
            (acquirers-All _ max n (propose_acquire-Grows max h)) (omega arith),
      ),
      le,
    )
