-- ===== src/HostResource/System.antt =====
-- The pool together with the allocations that its clients hold, and the calls that they make.
use cuda2rocm.Base.{
  ℕ, ◌<◌, ◌≡◌, Option, none, some, List, [], ◌∷◌, ◌==◌, if◌then◌else◌, ◌^◌, ◌+◌, Result, ok, err,
}
use cuda2rocm.HostResource.{
  HostResource, reserve, allocate_multiple_blocks, deallocate_multiple_blocks, release_reservation,
  rounded,
}
use cuda2rocm.HostResource.Blocks.{Allocation}
use cuda2rocm.HostResource.Committed.{IsBounded}
use cuda2rocm.HostResource.Trackers.{LiveAlloc, find}
use cuda2rocm.HostResource.Ledger.{Held, costs, loose, Distinct, Tracks, Unnamed}

pub record System : Type 0 where
  pub pool : HostResource
  pub held : List Held

-- The calls, with what the heap and the driver answer: the address of the arena or of the handle,
-- and the pinned memory or none.
pub data Call : Type 0 where
  reserves : ℕ → ℕ → Call
  allocates : ℕ → Option ℕ → ℕ → Option ℕ → Call
  deallocates : ℕ → Call
  releases : ℕ → Call

abbrev pub to_held : Allocation → Held
to_held a = record { object = a.object; bytes = a.total_bytes; arena = a.arena }

-- An allocation of no bytes is not registered, and is not counted as held.
abbrev pub hold : ℕ → Result Allocation → List Held → List Held
hold request (err e) hs = hs
hold request (ok a) hs = if request == 0 then hs else to_held a ∷ hs

-- The allocation with a handle, and the others.
unfoldable pub take_held : ℕ → List Held → Option (Held × List Held)
take_held o [] = none
take_held o (h ∷ hs) =
    if h.object == o
    then some (h, hs)
    else elim (take_held o hs) [ none ↦ none | some (x, left) ↦ some (x, h ∷ left) ]

unfoldable pub call : System → Call → System
call s (reserves arena bytes) = record s { pool = (reserve arena bytes s.pool).0 }
call s (allocates object memory bytes res) =
    let (pool, a) = allocate_multiple_blocks object memory bytes res s.pool in
    record { pool = pool; held = hold bytes a s.held }
call s (deallocates object) = elim (take_held object s.held) [
  | none ↦ s
  | some (h, left) ↦ record { pool = deallocate_multiple_blocks object h.arena s.pool; held = left }
]
call s (releases arena) = record s { pool = release_reservation arena s.pool }

-- The live allocations of the pool are those that clients hold.
abbrev pub Registered : List LiveAlloc → List Held → Type 0
Registered [] [] = Unit {0}
Registered [] (h ∷ hs) = ⊥
Registered (l ∷ ls) [] = ⊥
Registered (l ∷ ls) (h ∷ hs) = (l.object ≡ h.object) × (l.bytes ≡ h.bytes) × Registered ls hs

-- The counter is exactly what the live reservations commit and what is held outside of them, each
-- byte counted once; the limit is one that an `int64_t` holds.
pub record IsAccounted (s : System) : Type 0 where
  pub bounded : IsBounded s.pool.counter
  pub small : s.pool.mem_limit < 2 ^ 63
  pub exact :
      s.pool.total_allocated
      ≡ costs s.pool.active_reservations + loose s.pool.active_reservations s.held
  pub distinct : Distinct s.pool.active_reservations
  pub tracks : Tracks s.held s.pool.active_reservations
  pub registered : Registered s.pool.live_allocs s.held

-- The heap gives a new arena an address that no live reservation has, and that no allocation in
-- hand still names; a request and the limit together are within an `int64_t`.
abbrev pub Fresh : System → Call → Type 0
Fresh s (reserves arena bytes) =
    (find arena s.pool.active_reservations ≡ none) × Unnamed arena s.held
Fresh s (allocates object memory bytes res) =
    rounded bytes s.pool.block_size + s.pool.mem_limit < 2 ^ 63
Fresh s (deallocates object) = Unit {0}
Fresh s (releases arena) = Unit {0}

unfoldable pub history : System → List Call → System
unfolding call
history s [] = s
history s (c ∷ cs) = history (call s c) cs

abbrev pub AllFresh : System → List Call → Type 0
AllFresh s [] = Unit {0}
AllFresh s (c ∷ cs) = Fresh s c × AllFresh (call s c) cs
