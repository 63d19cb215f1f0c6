-- ===== src/Base/Schedules.antt =====
-- Schedules: lists of the indices of threads, in the order in which they go.
use Prim.Native.Nat.{ℕ, ◌+◌, ◌≤◌, ◌<◌}
use mathlib.Core.List.{List, [], ◌∷◌}
use cuda2rocm.Base.Tests.{◌==◌, if◌then◌else◌}

-- How often a schedule lets the thread at an index go.
abbrev pub turns : ℕ → List ℕ → ℕ
turns i [] = 0
turns i (j ∷ schedule) = (if j == i then 1 else 0) + turns i schedule

-- Each of the first threads goes a number of times at least.
abbrev pub IsFairFor : ℕ → ℕ → List ℕ → Type 0
IsFairFor rounds threads schedule = (i : ℕ) → i < threads → rounds ≤ turns i schedule
