-- ===== src/MemorySpace.antt =====
-- cucascade-rocm/include/cucascade/memory/memory_space.hpp and memory_reservation.hpp: the capacity
-- accounting of a memory space, and the reservation handle with its release callback. Each operation
-- below is its compare-and-swap loop run with no other thread in between (Atomic has the loops under
-- interleavings, and MemorySpace.Concurrent those of this class).
pub mod Accounting
pub mod Concurrent
pub mod Resources
use cuda2rocm.Base.{
  ℕ, ◌+◌, ◌-◌, ◌<◌, Bool, true, false, ◌&&◌, Option, none, some, List, [], ◌∷◌, ltb, leb, ◌==◌, min,
  if◌then◌else◌, add_word, size_max, Result, ok, err, insufficient_memory,
}

-- `Tier`, without the count `SIZE`.
pub data Tier : Type 0 where
  gpu host disk : Tier

pub record MemorySpace : Type 0 where
  pub tier : Tier
  pub device_id : ℕ
  pub max_memory : ℕ
  pub reserved_memory : ℕ

-- A reservation on a space: the bytes that its release callback captured, and the size of its arena,
-- which `grow_by` may raise.
pub record Reservation : Type 0 where
  pub captured : ℕ
  pub arena_size : ℕ

unfoldable pub same_tier : Tier → Tier → Bool
same_tier gpu gpu = true
same_tier host host = true
same_tier disk disk = true
same_tier _ _ = false

-- `memory_space(tier, device_id, …)`: both counters start at 0.
unfoldable pub new_space : Tier → ℕ → MemorySpace
new_space tier device_id = record {
  tier = tier;
  device_id = device_id;
  max_memory = 0;
  reserved_memory = 0;
}

unfoldable pub set_max_memory : ℕ → MemorySpace → MemorySpace
set_max_memory bytes s = record s { max_memory = bytes }

-- `max > reserved ? max - reserved : 0`
unfoldable pub available : ℕ → ℕ → ℕ
available max reserved = if ltb reserved max then max - reserved else 0

unfoldable pub get_available_memory : MemorySpace → ℕ
unfolding available
get_available_memory s = available s.max_memory s.reserved_memory

-- A round of the loop in `make_reservation` and `make_reservation_or_null`.
unfoldable pub propose_charge : ℕ → ℕ → ℕ → Option ℕ
unfolding available
propose_charge max bytes cur =
    if ltb (available max cur) bytes then none else some (add_word cur bytes)

-- A round of the loop in `make_reservation_upto`.
unfoldable pub propose_upto : ℕ → ℕ → ℕ → Option ℕ
unfolding available
propose_upto max bytes cur =
    let actual = min bytes (available max cur) in
    if actual == 0 then none else some (add_word cur actual)

-- A round of the loop in `release_reservation`.
unfoldable pub propose_release : ℕ → ℕ → Option ℕ
propose_release bytes cur = if leb bytes cur then some (cur - bytes) else none

new_reservation : ℕ → Reservation
new_reservation bytes = record { captured = bytes; arena_size = bytes }

unfoldable pub make_reservation_or_null : ℕ → MemorySpace → MemorySpace × Option Reservation
unfolding propose_charge new_reservation
make_reservation_or_null bytes s = elim (propose_charge s.max_memory bytes s.reserved_memory) [
  | none ↦ (s, none)
  | some charged ↦ (record s { reserved_memory = charged }, some (new_reservation bytes))
]

unfoldable pub make_reservation : ℕ → MemorySpace → MemorySpace × Result Reservation
unfolding propose_charge new_reservation
make_reservation bytes s = elim (propose_charge s.max_memory bytes s.reserved_memory) [
  | none ↦ (s, err insufficient_memory)
  | some charged ↦ (record s { reserved_memory = charged }, ok (new_reservation bytes))
]

unfoldable pub make_reservation_upto : ℕ → MemorySpace → MemorySpace × Option Reservation
unfolding propose_upto new_reservation available
make_reservation_upto bytes s = elim (propose_upto s.max_memory bytes s.reserved_memory) [
  | none ↦ (s, none)
  | some charged ↦ (
    record s { reserved_memory = charged },
    some (new_reservation (min bytes (available s.max_memory s.reserved_memory))),
  )
]

unfoldable pub release_reservation : ℕ → MemorySpace → MemorySpace
unfolding propose_release
release_reservation bytes s = elim (propose_release bytes s.reserved_memory) [
  | none ↦ s
  | some left ↦ record s { reserved_memory = left }
]

-- `simple_arena::grow_by`, which saturates.
unfoldable pub grow_arena : ℕ → ℕ → ℕ
grow_arena n bytes = if ltb (size_max - bytes) n then size_max else bytes + n

unfoldable pub grow_by : ℕ → Reservation → Reservation
unfolding grow_arena
grow_by n r = record r { arena_size = grow_arena n r.arena_size }

-- `~reservation()`: the release callback gives back what it captured.
unfoldable pub destroy_reservation : Reservation → MemorySpace → MemorySpace
unfolding release_reservation
destroy_reservation r s = release_reservation r.captured s
