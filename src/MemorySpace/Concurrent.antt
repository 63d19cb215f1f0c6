-- ===== src/MemorySpace/Concurrent.antt =====
-- Threads that reserve and release on one memory space at once.
use cuda2rocm.Base.{ℕ, ◌≤◌, ◌<◌, Bool, Option, List, [], ◌∷◌, arith, word_mod}
use cuda2rocm.Atomic.{Thread, ready, run}
use cuda2rocm.Atomic.Interleaving.{AllThreads, AllAgree, Keeps, run-Keeps}
use cuda2rocm.MemorySpace.{propose_charge, propose_upto, propose_release}

-- What a thread runs: one of the loops of the class.
pub data Job : Type 0 where
  charges charges_upto releases : ℕ → Job

abbrev pub loop : ℕ → Job → ℕ → Option ℕ
loop max (charges n) = propose_charge max n
loop max (charges_upto n) = propose_upto max n
loop max (releases n) = propose_release n

abbrev pub start : ℕ → List Job → List Thread
start max [] = []
start max (j ∷ js) = record { propose = loop max j; phase = ready } ∷ start max js

loop-Keeps : (max : ℕ) (j : Job) → max < word_mod → Keeps (λ c. c ≤ max) (loop max j)
unfolding propose_charge propose_upto propose_release
loop-Keeps max (charges n) h c m q e = ground arith
loop-Keeps max (charges_upto n) h c m q e = ground arith
loop-Keeps max (releases n) h c m q e = ground arith

start-Keeps :
    (max : ℕ) (js : List Job) → max < word_mod → AllThreads (Keeps (λ c. c ≤ max)) (start max js)
start-Keeps max [] h = tt
start-Keeps max (j ∷ js) h = (loop-Keeps max j h, start-Keeps max js h)

start-AllAgree : (max : ℕ) (js : List Job) → AllAgree (start max js)
start-AllAgree max [] = tt
start-AllAgree max (j ∷ js) = (tt, start-AllAgree max js)

-- However the steps of threads that reserve and release interleave, and whichever exchanges fail,
-- the counter never exceeds the limit of the space, and every loop that has ended took effect at
-- the value that it replaced, or gave up at a value at which its operation refuses.
pub concurrent-le-max :
    (max : ℕ) (js : List Job) (schedule : List (ℕ × Bool)) (reserved : ℕ)
    → max < word_mod
    → reserved ≤ max
    → ((run schedule reserved (start max js)).0 ≤ max)
      × AllAgree (run schedule reserved (start max js)).1
concurrent-le-max max js schedule reserved h q =
    run-Keeps (λ c. c ≤ max) schedule reserved (start max js) (start-Keeps max js h)
      (start-AllAgree max js) q
