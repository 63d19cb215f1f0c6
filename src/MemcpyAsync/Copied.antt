-- ===== src/MemcpyAsync/Copied.antt =====
-- What the threads of a copy have copied, step by step.
use cuda2rocm.Base.{
  ℕ, zero, suc, ◌+◌, ◌≤◌, ◌<◌, ◌≡◌, ◌⊎◌, refl, ◌∙◌, arith, List, [], ◌∷◌, ltb, ◌==◌, Bool-cases,
  inl, inr,
}
use native.Mathlib.Decide.{ℕ_discrete}
use cuda2rocm.MemcpyAsync.{
  Phase, copying, waiting, Thread, Copy, write, copy_byte, proceed, turn, run, memcpy_async,
}

-- The two ranges do not meet.
abbrev pub IsApart : Copy → Type 0
IsApart c = (c.dst + c.n ≤ c.src) ⊎ (c.src + c.n ≤ c.dst)

-- Memory as it was but for the destination.
abbrev Elsewhere : Copy → (ℕ → ℕ) → (ℕ → ℕ) → Type 0
Elsewhere c before mem = (a : ℕ) → ((a < c.dst) ⊎ (c.dst + c.n ≤ a)) → mem a ≡ before a

-- The bytes that have been copied, up to an index.
abbrev pub CopiedTo : Copy → (ℕ → ℕ) → (ℕ → ℕ) → ℕ → Type 0
CopiedTo c before mem k = (j : ℕ) → j < k → j < c.n → mem (c.dst + j) ≡ before (c.src + j)

-- How far a thread has copied.
abbrev reached : Copy → Phase → ℕ
reached c (copying i) = i
reached c waiting = c.n

abbrev pub AllCopied : Copy → (ℕ → ℕ) → (ℕ → ℕ) → List Thread → Type 0
AllCopied c before mem [] = Unit {0}
AllCopied c before mem (t ∷ ts) =
    (t.x ≡ 0 → CopiedTo c before mem (reached c t.phase)) × AllCopied c before mem ts

module _ (c : Copy) (apart : IsApart c) (before : ℕ → ℕ) where
  -- What a step changes: bytes of the destination, each to its byte of the source.
  abbrev Copies : (ℕ → ℕ) → (ℕ → ℕ) → Type 0
  Copies mem mem' =
      Elsewhere c before mem'
      × ((j : ℕ)
          → j < c.n
          → mem (c.dst + j) ≡ before (c.src + j)
          → mem' (c.dst + j) ≡ before (c.src + j))

  AllCopied-Copies :
      (mem mem' : ℕ → ℕ) (ts : List Thread)
      → Copies mem mem'
      → AllCopied c before mem ts
      → AllCopied c before mem' ts
  AllCopied-Copies mem mem' [] k a = tt
  AllCopied-Copies mem mem' (t ∷ ts) k a = (
    λ first j lt within. k.1 j within (a.0 first j lt within),
    AllCopied-Copies mem mem' ts k a.1,
  )

  pub source :
      (mem : ℕ → ℕ) (i : ℕ)
      → Elsewhere c before mem
      → i < c.n
      → mem (c.src + i) ≡ before (c.src + i)
  source mem i e lt = elim apart [
    | inl above ↦ e (c.src + i) (inr (omega arith))
    | inr below ↦ e (c.src + i) (inl (omega arith))
  ]

  write_other :
      (mem : ℕ → ℕ) (i byte a : ℕ)
      → i < c.n
      → ((a < c.dst) ⊎ (c.dst + c.n ≤ a))
      → write (c.dst + i) byte mem a ≡ mem a
  unfolding write
  write_other mem i byte a lt (inl low) = ground arith
  write_other mem i byte a lt (inr high) = ground arith

  write-Copies :
      (mem : ℕ → ℕ) (i : ℕ)
      → Elsewhere c before mem
      → i < c.n
      → Copies mem (write (c.dst + i) (mem (c.src + i)) mem)
  unfolding write
  write-Copies mem i e lt = (
    λ a out. write_other mem i (mem (c.src + i)) a lt out ∙ e a out,
    λ j within h. elim (ℕ_discrete j i) [
      | yes same ↦ rw same (ground (arith, source mem i e lt))
      | no other ↦ ground (arith, h)
    ],
  )

  write_self :
      (mem : ℕ → ℕ) (i : ℕ)
      → Elsewhere c before mem
      → i < c.n
      → write (c.dst + i) (mem (c.src + i)) mem (c.dst + i) ≡ before (c.src + i)
  unfolding write
  write_self mem i e lt = ground (arith, source mem i e lt)

  stays : (mem : ℕ → ℕ) → Elsewhere c before mem → Copies mem mem
  stays mem e = (e, λ j within h. h)

  -- A step of a thread copies, and the thread has copied as far as it says.
  abbrev Steps : ℕ → (ℕ → ℕ) → (ℕ → ℕ) × Phase → Type 0
  Steps x mem r = Copies mem r.0 × (x ≡ 0 → CopiedTo c before r.0 (reached c r.1))

  copy_byte-Steps :
      (i : ℕ) (mem : ℕ → ℕ)
      → Elsewhere c before mem
      → CopiedTo c before mem i
      → Steps 0 mem (copy_byte c i mem)
  unfolding copy_byte
  copy_byte-Steps i mem e done = elim (Bool-cases (ltb i c.n)) [
    | inr over ↦
        rw (over, copy_byte) (stays mem e, λ first j lt within. done j (ground arith) within)
    | inl more ↦
        let lt : i < c.n = ground arith in
        let copies = write-Copies mem i e lt in
        rw (more, copy_byte)
          (
            copies,
            λ first j below within. elim (ℕ_discrete j i) [
              | yes same ↦ rw same (write_self mem i e lt)
              | no other ↦ copies.1 j within (done j (omega arith) within)
            ],
          )
  ]

  proceed-Steps :
      (x : ℕ) (p : Phase) (mem : ℕ → ℕ)
      → Elsewhere c before mem
      → (x ≡ 0 → CopiedTo c before mem (reached c p))
      → Steps x mem (proceed c x p mem)
  unfolding proceed
  proceed-Steps x waiting mem e done = (stays mem e, done)
  proceed-Steps x (copying i) mem e done = elim (Bool-cases (x == 0)) [
    | inr other ↦ rw (other, proceed) (stays mem e, λ first. absurd (ground arith))
    | inl same ↦
        let first : x ≡ 0 = ground arith in
        let (copies, copied) = copy_byte-Steps i mem e (done first) in
        rw (same, proceed) (copies, λ h. copied refl)
  ]

  turn-AllCopied :
      (i : ℕ) (mem : ℕ → ℕ) (ts : List Thread)
      → Elsewhere c before mem
      → AllCopied c before mem ts
      → Copies mem (turn c i mem ts).0 × AllCopied c before (turn c i mem ts).0 (turn c i mem ts).1
  unfolding turn
  turn-AllCopied i mem [] e a = (stays mem e, tt)
  turn-AllCopied zero mem (t ∷ ts) e a =
      let (copies, copied) = proceed-Steps t.x t.phase mem e a.0 in
      (copies, (copied, AllCopied-Copies mem _ ts copies a.1))
  turn-AllCopied (suc i) mem (t ∷ ts) e a =
      let (copies, copied) = turn-AllCopied i mem ts e a.1 in
      (copies, (λ first j lt within. copies.1 j within (a.0 first j lt within), copied))

  pub run-AllCopied :
      (schedule : List ℕ) (mem : ℕ → ℕ) (ts : List Thread)
      → Elsewhere c before mem
      → AllCopied c before mem ts
      → Elsewhere c before (run c schedule mem ts).0
        × AllCopied c before (run c schedule mem ts).0 (run c schedule mem ts).1
  unfolding run
  run-AllCopied [] mem ts e a = (e, a)
  run-AllCopied (i ∷ schedule) mem ts e a =
      let (copies, a') = turn-AllCopied i mem ts e a in
      run-AllCopied schedule (turn c i mem ts).0 (turn c i mem ts).1 copies.0 a'

  pub AllCopied-memcpy_async : (xs : List ℕ) → AllCopied c before before (memcpy_async xs)
  AllCopied-memcpy_async [] = tt
  AllCopied-memcpy_async (x ∷ xs) =
      (λ first j lt within. absurd (omega arith), AllCopied-memcpy_async xs)
