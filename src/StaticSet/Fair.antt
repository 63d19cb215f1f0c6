-- ===== src/StaticSet/Fair.antt =====
-- Schedules that let each insertion thread go often enough.
use cuda2rocm.Base.{ℕ, suc, ◌≡◌, List, [], ◌∷◌, length, arith}
use cuda2rocm.StaticSet.{StaticSet}
use cuda2rocm.StaticSet.Kernel.{Phase, probing, placed, dropped, Thread, run, launch}
use cuda2rocm.StaticSet.Progress.{rounds_left, rounds_left_at, run-rounds_left}
use cuda2rocm.StaticSet.Abstract.{IsFair, rounds_left_at-launch}

-- The thread has left the kernel.
abbrev pub Returned : Phase → Type 0
Returned (probing p) = ⊥
Returned placed = Unit {0}
Returned dropped = Unit {0}

abbrev pub AllReturned : List Thread → Type 0
AllReturned [] = Unit {0}
AllReturned (t ∷ ts) = Returned t.phase × AllReturned ts

rounds_left-Returned : (capacity : ℕ) (ph : Phase) → rounds_left capacity ph ≡ 0 → Returned ph
rounds_left-Returned capacity (probing p) e = absurd (omega arith)
rounds_left-Returned capacity placed e = tt
rounds_left-Returned capacity dropped e = tt

rounds_left-AllReturned :
    (capacity : ℕ) (ts : List Thread)
    → ((i : ℕ) → rounds_left_at capacity i ts ≡ 0)
    → AllReturned ts
rounds_left-AllReturned capacity [] e = tt
rounds_left-AllReturned capacity (t ∷ ts) e = (
  rounds_left-Returned capacity t.phase (e 0),
  rounds_left-AllReturned capacity ts (λ i. e (suc i)),
)

-- Whatever the capacity and the keys, under every schedule that gives each thread of a launch one
-- turn more than there are slots, each thread leaves the kernel: its key is placed or it is out of
-- probes.
pub run-AllReturned :
    (hash : ℕ → ℕ) (schedule : List ℕ) (s : StaticSet) (keys : List ℕ)
    → IsFair s.capacity (length keys) schedule
    → AllReturned (run hash schedule s (launch keys)).1
run-AllReturned hash schedule s keys fair = rounds_left-AllReturned s.capacity _ (λ i. omega (
  arith,
  run-rounds_left hash schedule i s (launch keys),
  rounds_left_at-launch s.capacity i keys schedule fair,
))
