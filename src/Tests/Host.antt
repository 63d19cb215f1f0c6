-- ===== src/Tests/Host.antt =====
-- The pinned host pool at concrete inputs.
use cuda2rocm.Base.{◌+◌, ◌≡◌, refl, none, some, List, [], ◌∷◌, arith}
use cuda2rocm.HostResource.{HostResource, reserve, allocate_multiple_blocks}
use cuda2rocm.HostResource.Blocks.{Allocation, make_blocks}
use cuda2rocm.HostResource.Committed.{Counter, IsBounded, align_up, do_reserve}
use cuda2rocm.HostResource.Trackers.{emplace, find}
use cuda2rocm.HostResource.System.{
  System, Call, reserves, allocates, deallocates, releases, call, history, IsAccounted, AllFresh,
}
use cuda2rocm.HostResource.Invariant.{history-IsAccounted}
use cuda2rocm.HostResource.Reuse.{reuse, reuse-total_allocated}

-- A pool of 8000 bytes in blocks of 1000.
abbrev small_pool : System
small_pool = record {
  pool = record {
    counter = record { mem_limit = 8000; total_allocated = 0; peak_allocated = 0 };
    block_size = 1000;
    active_reservations = [];
    live_allocs = [];
  };
  held = [];
}

-- An allocation that straddles the end of its reservation, and outlives it.
abbrev straddle : List Call
straddle =
    reserves 100 2000
    ∷ allocates 7 (some 4096) 1500 (some 100)
    ∷ allocates 8 (some 8192) 900 (some 100)
    ∷ allocates 9 none 900 none
    ∷ releases 100
    ∷ deallocates 7
    ∷ []

small_pool-IsAccounted : IsAccounted small_pool
small_pool-IsAccounted = record {
  bounded = record {
    limited = omega arith;
    word = omega arith;
    within = omega arith;
    peaked = omega arith;
  };
  small = omega arith;
  exact = refl;
  distinct = tt;
  tracks = tt;
  registered = tt;
}

straddle-AllFresh : AllFresh small_pool straddle
unfolding call find reserve align_up do_reserve emplace allocate_multiple_blocks
straddle-AllFresh = ((refl, tt), (ground arith, (ground arith, (ground arith, (tt, (tt, tt))))))

history-IsAccounted_example : IsAccounted (history small_pool straddle)
history-IsAccounted_example =
    history-IsAccounted small_pool straddle small_pool-IsAccounted straddle-AllFresh

abbrev half_full : Counter
half_full = record { mem_limit = 100; total_allocated = 60; peak_allocated = 80 }

half_full-IsBounded : IsBounded half_full
half_full-IsBounded = record {
  limited = omega arith;
  word = omega arith;
  within = omega arith;
  peaked = omega arith;
}

abbrev three_blocks : Allocation
three_blocks = record {
  object = 7;
  blocks = make_blocks 4096 1000 3;
  block_size = 1000;
  total_bytes = 3000;
  arena = none;
}

-- A pool in use, and two blocks that are reserved twice at one address.
abbrev used_pool : HostResource
used_pool = record {
  counter = record { mem_limit = 8000; total_allocated = 3000; peak_allocated = 3000 };
  block_size = 1000;
  active_reservations = [];
  live_allocs = [];
}

whole_blocks : align_up 2000 1000 ≡ 2000
unfolding align_up
whole_blocks = refl

none_active : find 100 [] ≡ none
unfolding find
none_active = refl

reuse-total_allocated_example :
    let p' = reuse 100 7 4096 2000 used_pool in
    (p'.total_allocated ≡ 3000 + 2000) × (p'.active_reservations ≡ []) × (p'.live_allocs ≡ [])
reuse-total_allocated_example =
    reuse-total_allocated 100 7 4096 2000 used_pool (omega arith) whole_blocks refl (omega arith)
      (omega arith) none_active
