-- ===== src/HostResource.antt =====
-- cucascade-rocm/include/cucascade/memory/fixed_size_host_memory_resource.hpp: the pinned host pool.
-- HostResource.Committed is the single committed-bytes counter, HostResource.Trackers the maps of live
-- reservations and live allocations; this file has the public operations. What the heap and
-- `hipMallocHost` return (the address of a new arena or handle, the memory or a failure) is an
-- argument of the operation that asks for it.
pub mod Committed
pub mod Blocks
pub mod Trackers
pub mod Layout
pub mod System
pub mod Ledger
pub mod Tracking
pub mod Invariant
pub mod Rollback
pub mod Small
pub mod Reuse
use cuda2rocm.Base.{
  ℕ, zero, suc, ◌+◌, ◌-◌, ◌*◌, ◌/◌, Option, none, some, List, [], ◌∷◌, ltb, ◌==◌, if◌then◌else◌,
  sub_word, add_word, length, Result, ok, err, reservation_too_large, reservation_freed,
  out_of_memory, malloc_host_failed, block_index, not, ◌&&◌, get_elem?,
}
use Committed.{Counter, do_reserve, do_release, align_up, default_block_size, available}
use Blocks.{Allocation, make_blocks, empty_allocation}
use Trackers.{
  Entry, LiveAlloc, find, add_used, sub_used, erase, emplace, find_alloc, erase_alloc,
  overflow_charge, overflow_credit, unconsumed, sizes,
}

pub record HostResource : Type 0 where
  pub counter : Counter
  pub open counter use *
  pub block_size : ℕ
  pub active_reservations : List Entry
  pub live_allocs : List LiveAlloc

unfoldable pub new_resource : ℕ → ℕ → HostResource
new_resource mem_limit block_size = record {
  counter = record { mem_limit = mem_limit; total_allocated = 0; peak_allocated = 0 };
  block_size = if block_size == 0 then default_block_size else block_size;
  active_reservations = [];
  live_allocs = [];
}

pub get_available_memory : HostResource → ℕ
get_available_memory s = available s.mem_limit s.total_allocated

pub get_free_blocks : HostResource → ℕ
unfolding get_available_memory
get_free_blocks s = get_available_memory s / s.block_size

pub get_total_blocks : HostResource → ℕ
get_total_blocks s = s.total_allocated / s.block_size

pub get_total_reserved_bytes : HostResource → ℕ
get_total_reserved_bytes s = sizes s.active_reservations

pub get_active_reservation_count : HostResource → ℕ
get_active_reservation_count s = length s.active_reservations

-- `reserve`, where the new arena lies at the address `arena`: the handle is that address, or null
-- where the capacity is full.
unfoldable pub reserve : ℕ → ℕ → HostResource → HostResource × Result (Option ℕ)
reserve arena request s =
    let bytes = align_up request s.block_size in
    if not (s.mem_limit == 0) && ltb s.mem_limit bytes
    then (s, err reservation_too_large)
    else elim (do_reserve bytes s.counter) [
      | none ↦ (s, ok none)
      | some charged ↦ (
        record s {
          counter = charged;
          active_reservations = emplace arena bytes s.active_reservations;
        },
        ok (some arena),
      )
    ]

-- The counter charge, `hipMallocHost` (`none` where it fails) and the registration, with the charge
-- of the reservation's tracker already made in `charged`, and taken back on both error paths.
unfoldable pub commit :
    ℕ
    → Option ℕ
    → ℕ
    → Option ℕ
    → ℕ
    → List Entry
    → List Entry
    → HostResource
    → HostResource × Result Allocation
commit object memory bytes arena upstream charged rolled_back s =
    elim (do_reserve upstream s.counter) [
      | none ↦ (record s { active_reservations = rolled_back }, err out_of_memory)
      | some counter ↦ elim memory [
        | none ↦ (
          record s { counter = do_release upstream counter; active_reservations = rolled_back },
          err malloc_host_failed,
        )
        | some ptr ↦ (
          record s {
            counter = counter;
            active_reservations = charged;
            live_allocs = record { object = object; ptr = ptr; bytes = bytes } ∷ s.live_allocs;
          },
          ok (record {
            object = object;
            blocks = make_blocks ptr s.block_size (bytes / s.block_size);
            block_size = s.block_size;
            total_bytes = bytes;
            arena = arena;
          }),
        )
      ]
    ]

-- `alloc_bytes`: whole blocks.
abbrev pub rounded : ℕ → ℕ → ℕ
rounded request block_size = align_up request block_size / block_size * block_size

-- The tracker lookup and charge for a reservation.
unfoldable pub charge_tracker :
    ℕ → Option ℕ → ℕ → ℕ → HostResource → HostResource × Result Allocation
unfolding commit
charge_tracker object memory bytes arena s = elim (find arena s.active_reservations) [
  | none ↦ (s, err reservation_freed)
  | some entry ↦
      let charged = add_used arena bytes s.active_reservations in
      commit object memory bytes (some arena)
        (overflow_charge entry.arena_size entry.allocated_bytes bytes) charged
        (sub_used arena bytes charged) s
]

unfoldable pub allocate_multiple_blocks :
    ℕ → Option ℕ → ℕ → Option ℕ → HostResource → HostResource × Result Allocation
unfolding empty_allocation charge_tracker commit
allocate_multiple_blocks object memory request res s =
    if request == 0
    then (s, ok (empty_allocation object))
    else let bytes = rounded request s.block_size in
      elim res [
        | none ↦ commit object memory bytes none bytes s.active_reservations s.active_reservations s
        | some arena ↦ charge_tracker object memory bytes arena s
      ]

-- The credit of a freed allocation of `bytes` that was charged against `arena`, and the trackers.
unfoldable pub credit : Option ℕ → ℕ → List Entry → ℕ × List Entry
credit none bytes active = (bytes, active)
credit (some arena) bytes active = elim (find arena active) [
  | none ↦ (bytes, active)
  | some entry ↦
      (overflow_credit entry.arena_size entry.allocated_bytes bytes, sub_used arena bytes active)
]

-- A handle that is not registered, such as the empty one, is just destroyed.
unfoldable pub deallocate_multiple_blocks : ℕ → Option ℕ → HostResource → HostResource
unfolding credit
deallocate_multiple_blocks object arena s = elim (find_alloc object s.live_allocs) [
  | none ↦ s
  | some live ↦
      let (owed, active) = credit arena live.bytes s.active_reservations in
      record s {
        counter = do_release owed s.counter;
        active_reservations = active;
        live_allocs = erase_alloc object s.live_allocs;
      }
]

-- The release callback of a reservation: only what it has not consumed is credited.
unfoldable pub release_reservation : ℕ → HostResource → HostResource
release_reservation arena s = elim (find arena s.active_reservations) [
  | none ↦ s
  | some entry ↦ record s {
    counter = do_release (unconsumed entry.arena_size entry.allocated_bytes) s.counter;
    active_reservations = erase arena s.active_reservations;
  }
]

-- The unmanaged single allocation, charged in full; `none` for no bytes is the null pointer.
unfoldable pub allocate : Option ℕ → ℕ → HostResource → HostResource × Result (Option ℕ)
allocate memory bytes s = if bytes == 0 then (s, ok none) else elim (do_reserve bytes s.counter) [
  | none ↦ (s, err out_of_memory)
  | some counter ↦ elim memory [
    | none ↦ (record s { counter = do_release bytes counter }, err malloc_host_failed)
    | some ptr ↦ (record s { counter = counter }, ok (some ptr))
  ]
]

unfoldable pub deallocate : Option ℕ → ℕ → HostResource → HostResource
deallocate none bytes s = s
deallocate (some ptr) bytes s = record s { counter = do_release bytes s.counter }
