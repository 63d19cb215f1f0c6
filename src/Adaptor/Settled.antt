-- ===== src/Adaptor/Settled.antt =====
-- Threads that allocate and free with enough turns: each is through, and its bytes are given back.
use cuda2rocm.Base.{
  ℕ, zero, suc, ◌+◌, ◌-◌, ◌≤◌, ◌<◌, ◌≡◌, refl, Option, none, some, List, [], ◌∷◌, ◌==◌,
  if◌then◌else◌, arith, word_mod, length, turns, IsFairFor,
}
use cuda2rocm.Adaptor.{Adaptor, Memory}
use cuda2rocm.Adaptor.Streams.{current_bytes}
use cuda2rocm.Adaptor.Traffic.{
  Phase, asking, admitted, holding, freed, refused, Thread, proceed, turn, run,
}
use cuda2rocm.Adaptor.Charges.{held_in, all_held, all_due, held, due, run-Charged}

-- The steps that a thread has before it.
abbrev steps_left : Phase → ℕ
steps_left asking = 3
steps_left admitted = 2
steps_left (holding m) = 1
steps_left freed = 0
steps_left refused = 0

abbrev steps_left_at : ℕ → List Thread → ℕ
steps_left_at i [] = 0
steps_left_at zero (t ∷ ts) = steps_left t.phase
steps_left_at (suc i) (t ∷ ts) = steps_left_at i ts

proceed-steps_left :
    (stream bytes : ℕ) (memory : Option Memory) (p : Phase) (s : Adaptor)
    → steps_left (proceed stream bytes memory p s).1 ≤ steps_left p - 1
unfolding proceed
proceed-steps_left stream bytes memory asking s = ground arith
proceed-steps_left stream bytes none admitted s = omega arith
proceed-steps_left stream bytes (some m) admitted s = omega arith
proceed-steps_left stream bytes memory (holding m) s = omega arith
proceed-steps_left stream bytes memory freed s = omega arith
proceed-steps_left stream bytes memory refused s = omega arith

turn-steps_left :
    (i j : ℕ) (s : Adaptor) (ts : List Thread)
    → steps_left_at j (turn i s ts).1 ≤ steps_left_at j ts - (if i == j then 1 else 0)
unfolding turn
turn-steps_left i j s [] = omega arith
turn-steps_left zero zero s (t ∷ ts) = proceed-steps_left t.stream t.bytes t.memory t.phase s
turn-steps_left zero (suc j) s (t ∷ ts) = ground arith
turn-steps_left (suc i) zero s (t ∷ ts) = ground arith
turn-steps_left (suc i) (suc j) s (t ∷ ts) = ground (arith, turn-steps_left i j s ts)

run-steps_left :
    (schedule : List ℕ) (j : ℕ) (s : Adaptor) (ts : List Thread)
    → steps_left_at j (run schedule s ts).1 ≤ steps_left_at j ts - turns j schedule
unfolding run
run-steps_left [] j s ts = omega arith
run-steps_left (i ∷ schedule) j s ts =
    omega
      (arith, turn-steps_left i j s ts, run-steps_left schedule j (turn i s ts).0 (turn i s ts).1)

-- The thread has freed its memory, or got an exception.
abbrev pub IsSettled : Phase → Type 0
IsSettled freed = Unit {0}
IsSettled refused = Unit {0}
IsSettled _ = ⊥

abbrev pub AllSettled : List Thread → Type 0
AllSettled [] = Unit {0}
AllSettled (t ∷ ts) = IsSettled t.phase × AllSettled ts

steps_left-IsSettled : (p : Phase) → steps_left p ≡ 0 → IsSettled p
steps_left-IsSettled asking e = absurd (omega arith)
steps_left-IsSettled admitted e = absurd (omega arith)
steps_left-IsSettled (holding m) e = absurd (omega arith)
steps_left-IsSettled freed e = tt
steps_left-IsSettled refused e = tt

steps_left-AllSettled : (ts : List Thread) → ((i : ℕ) → steps_left_at i ts ≡ 0) → AllSettled ts
steps_left-AllSettled [] e = tt
steps_left-AllSettled (t ∷ ts) e =
    (steps_left-IsSettled t.phase (e 0), steps_left-AllSettled ts (λ i. e (suc i)))

IsSettled-held : (n : ℕ) (p : Phase) → IsSettled p → held_in n p ≡ 0
IsSettled-held n asking a = absurd a
IsSettled-held n admitted a = absurd a
IsSettled-held n (holding m) a = absurd a
IsSettled-held n freed a = refl
IsSettled-held n refused a = refl

AllSettled-held : (y : ℕ) (ts : List Thread) → AllSettled ts → (held y ts ≡ 0) × (all_held ts ≡ 0)
AllSettled-held y [] a = (refl, refl)
AllSettled-held y (t ∷ ts) a =
    let (h, all) = AllSettled-held y ts a.1 in
    let none_here = IsSettled-held t.bytes t.phase a.0 in
    (ground (arith, h, none_here), omega (arith, all, none_here))

-- The calls of some clients: the stream, the bytes and what the tiers will give.
abbrev pub calls : List (ℕ × ℕ × Option Memory) → List Thread
calls [] = []
calls ((stream, bytes, memory) ∷ cs) =
    record { stream = stream; bytes = bytes; memory = memory; phase = asking } ∷ calls cs

-- The sum of what they ask for.
abbrev pub asked : List (ℕ × ℕ × Option Memory) → ℕ
asked [] = 0
asked ((stream, bytes, memory) ∷ cs) = bytes + asked cs

calls-held :
    (y : ℕ) (cs : List (ℕ × ℕ × Option Memory))
    → (held y (calls cs) ≡ 0) × (all_held (calls cs) ≡ 0)
calls-held y [] = (refl, refl)
calls-held y ((stream, bytes, memory) ∷ cs) =
    let (h, all) = calls-held y cs in (ground (arith, h), omega (arith, all))

calls-due :
    (y : ℕ) (cs : List (ℕ × ℕ × Option Memory))
    → (due y (calls cs) ≤ asked cs) × (all_due (calls cs) ≡ asked cs)
calls-due y [] = (omega arith, refl)
calls-due y ((stream, bytes, memory) ∷ cs) =
    let (d, all) = calls-due y cs in (ground (arith, d), omega (arith, all))

steps_left-calls :
    (i : ℕ) (cs : List (ℕ × ℕ × Option Memory)) (n : ℕ)
    → (i < length cs → 3 ≤ n)
    → steps_left_at i (calls cs) ≤ n
steps_left-calls i [] n h = omega arith
steps_left-calls zero ((stream, bytes, memory) ∷ cs) n h = h (omega arith)
steps_left-calls (suc i) ((stream, bytes, memory) ∷ cs) n h =
    steps_left-calls i cs n (λ lt. h (omega arith))

-- No byte is lost: however the critical sections of threads that allocate and then free interleave,
-- whatever tier gives each its memory and whichever are refused, where the sums do not wrap and
-- each thread has three turns, every thread is through, and in the end the bytes of every stream
-- and the total are what they were.
pub run-repaid :
    (schedule : List ℕ) (s : Adaptor) (cs : List (ℕ × ℕ × Option Memory))
    → ((y : ℕ) → current_bytes y s.stream_tracker + asked cs < word_mod)
    → s.total_allocated + asked cs < word_mod
    → IsFairFor 3 (length cs) schedule
    → let (s', ts) = run schedule s (calls cs) in
      AllSettled ts
      × ((y : ℕ) → current_bytes y s'.stream_tracker ≡ current_bytes y s.stream_tracker)
      × (s'.total_allocated ≡ s.total_allocated)
run-repaid schedule s cs room all_room fair =
    let settled = steps_left-AllSettled (run schedule s (calls cs)).1 (λ i. omega (
      arith,
      run-steps_left schedule i s (calls cs),
      steps_left-calls i cs (turns i schedule) (fair i),
    )) in
    let kept = λ (y : ℕ). run-Charged schedule y s (calls cs) (
      omega (arith, (calls-held y cs).0),
      omega (arith, room y, (calls-due y cs).0),
      omega (arith, (calls-held y cs).1),
      omega (arith, all_room, (calls-due y cs).1),
    ) in
    let over = λ (y : ℕ). AllSettled-held y (run schedule s (calls cs)).1 settled in
    (
      settled,
      λ y. omega (arith, (kept y).0, (over y).0, (calls-held y cs).0),
      omega (arith, (kept 0).2, (over 0).1, (calls-held 0 cs).1),
    )
