-- ===== src/Atomic.antt =====
-- The compare-and-swap loops of the memory components (memory_space.hpp, disk_access_limiter.hpp,
-- fixed_size_host_memory_resource.hpp and reservation_aware_resource_adaptor.hpp, all under
-- cucascade-rocm/include/cucascade/memory): threads that run such loops on one shared counter, in
-- any order of their steps. A thread's loop is given by what a round proposes for the value it saw:
-- a new value, or `none` where the loop ends without a write.
pub mod Interleaving
use cuda2rocm.Base.{
  ℕ, zero, suc, Bool, true, false, not, ◌&&◌, Option, none, some, List, [], ◌∷◌, ◌==◌,
  if◌then◌else◌,
}

-- Where a thread stands: before the load, with a value loaded whose proposal it will try to store,
-- after a store of the second value over the first, or given up at a value.
pub data Phase : Type 0 where
  ready : Phase
  holding : ℕ → Phase
  stored : ℕ → ℕ → Phase
  refused : ℕ → Phase

pub record Thread : Type 0 where
  pub propose : ℕ → Option ℕ
  pub phase : Phase

-- The test of a round, on the value that the load or the failed exchange has put into `cur`.
judge : (ℕ → Option ℕ) → ℕ → Phase
judge propose seen = elim (propose seen) [ none ↦ refused seen | some _ ↦ holding seen ]

-- `compare_exchange_weak(cur, next)`: it stores where the counter still holds `cur`, unless it fails
-- spuriously, and a failure reloads `cur`.
exchange : (ℕ → Option ℕ) → Bool → ℕ → ℕ → ℕ × Phase
unfolding judge
exchange propose spurious counter seen =
    if counter == seen && not spurious
    then elim (propose seen) [
      | none ↦ (counter, refused seen)
      | some next ↦ (next, stored seen next)
    ]
    else (counter, judge propose counter)

-- One step of a thread: the load, or one exchange. A thread that has left the loop stays.
pub advance : (ℕ → Option ℕ) → Bool → ℕ → Phase → ℕ × Phase
unfolding exchange judge
advance propose spurious counter ready = (counter, judge propose counter)
advance propose spurious counter (holding seen) = exchange propose spurious counter seen
advance propose spurious counter (stored old new) = (counter, stored old new)
advance propose spurious counter (refused seen) = (counter, refused seen)

-- The scheduler lets the thread at an index take one step.
pub turn : ℕ → Bool → ℕ → List Thread → ℕ × List Thread
unfolding advance
turn i spurious counter [] = (counter, [])
turn zero spurious counter (t ∷ ts) =
    let (c, phase) = advance t.propose spurious counter t.phase in
    (c, record { propose = t.propose; phase = phase } ∷ ts)
turn (suc i) spurious counter (t ∷ ts) = let (c, rest) = turn i spurious counter ts in (c, t ∷ rest)

-- A schedule: whose turn it is, and whether its exchange fails spuriously.
pub run : List (ℕ × Bool) → ℕ → List Thread → ℕ × List Thread
unfolding turn
run [] counter ts = (counter, ts)
run ((i, spurious) ∷ schedule) counter ts =
    let (c, rest) = turn i spurious counter ts in run schedule c rest
