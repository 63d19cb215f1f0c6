-- ===== src/Tests/Launches.antt =====
-- Whole launches of the Bloom filter, copies by a block, chains of settings,
-- allocations that throw and device memory, at concrete inputs.
use cuda2rocm.Base.{
  ℕ, ◌+◌, ◌*◌, ◌≤◌, ◌<◌, ◌≡◌, ◌↔◌, ◌⊎◌, refl, some, none, List, [], ◌∷◌, arith, true, false, inl,
  err, out_of_memory,
}
use cuda2rocm.Tests.Threads.{rounds, rounds-fair}
use cuda2rocm.BloomFilter.{Policy, hash_count, contains}
use cuda2rocm.BloomFilter.Blocks.{IsShaped}
use cuda2rocm.BloomFilter.Construction.{new_filter-IsShaped}
use cuda2rocm.BloomFilter.Sequential.{add_keys, run-add_keys}
use cuda2rocm.BloomFilter.Answers.{IsCovered, run-contains}
use cuda2rocm.BloomFilter
use cuda2rocm.BloomFilter.Kernel
use cuda2rocm.Configurator.{build}
use cuda2rocm.Configurator.Settings.{
  Setting, set_number_of_gpus, set_per_host_capacity, track_reservation_per_stream, configure,
}
use cuda2rocm.Configurator.Wanted.{wanted, build-wanted}
use cuda2rocm.HostResource.{HostResource, new_resource, allocate_multiple_blocks, commit}
use cuda2rocm.HostResource.Committed.{align_up, do_reserve}
use cuda2rocm.HostResource.Rollback.{Undone, allocate_multiple_blocks-Undone}
use cuda2rocm.HostResource.Small.{Call, takes, frees, calls, new_client, in_hand, calls-new_client}
use cuda2rocm.MemcpyAsync.{Copy, memcpy_async, all_waiting}
use cuda2rocm.MemcpyAsync
use cuda2rocm.MemcpyAsync.Barrier.{run-copied}
use cuda2rocm.StaticSet.{new_set}
use cuda2rocm.BloomFilter.{new_filter}
use cuda2rocm.DeviceBuffer.{construct_set, construct_filter}
use cuda2rocm.DeviceBuffer.Closed.{IsClosed, construct-IsClosed}

abbrev two_hashes : Policy
two_hashes = record { num_hash_functions = 2; hash = λ key i. key + i * 3 }

abbrev two_blocks : BloomFilter.BloomFilter
two_blocks = BloomFilter.cleared_filter 2 1 2

two_blocks-IsShaped : IsShaped two_blocks
unfolding BloomFilter.new_filter
two_blocks-IsShaped =
    (new_filter-IsShaped 2 1 2 two_hashes 9 two_blocks (omega arith) (omega arith) (omega arith)
      refl).0

abbrev two_keys : List ℕ
two_keys = 21 ∷ 22 ∷ []

run-add_keys_example :
    (Kernel.run two_hashes (rounds 2) two_blocks (Kernel.launch two_keys)).0
    ≡ add_keys two_hashes two_keys two_blocks
run-add_keys_example =
    run-add_keys two_hashes (rounds 2) two_keys two_blocks two_blocks-IsShaped (rounds-fair 2)

run-contains_example :
    (contains two_hashes (Kernel.run two_hashes (rounds 2) two_blocks (Kernel.launch two_keys)).0 9
      ≡ true)
    ↔ ((i : ℕ) → i < hash_count two_hashes → IsCovered two_hashes two_blocks two_keys 9 i)
run-contains_example =
    run-contains two_hashes (rounds 2) two_keys two_blocks 9 two_blocks-IsShaped (rounds-fair 2)

-- The capacity is set twice, and a setting that `build` does not read once.
abbrev some_settings : List Setting
some_settings =
    set_number_of_gpus 2
    ∷ set_per_host_capacity 500
    ∷ track_reservation_per_stream true
    ∷ set_per_host_capacity 700
    ∷ []

build-wanted_example : build 8 (configure some_settings) ≡ wanted 8 some_settings
build-wanted_example = build-wanted 8 some_settings

-- A pool of 100 bytes in blocks of 16, of which 112 are asked for.
abbrev small_pool : HostResource
small_pool = new_resource 100 16

small_pool-throws :
    (allocate_multiple_blocks 7 (some 1000) 112 none small_pool).1 ≡ err out_of_memory
unfolding allocate_multiple_blocks commit new_resource align_up do_reserve
small_pool-throws = refl

allocate_multiple_blocks-Undone_example :
    Undone small_pool (allocate_multiple_blocks 7 (some 1000) 112 none small_pool).0
unfolding new_resource
allocate_multiple_blocks-Undone_example =
    allocate_multiple_blocks-Undone 7 (some 1000) 112 none small_pool out_of_memory (omega arith)
      (omega arith) (omega arith) tt small_pool-throws

abbrev some_calls : List Call
some_calls = takes (some 1000) 30 ∷ takes none 20 ∷ takes (some 2000) 50 ∷ frees 1 ∷ []

calls-new_client_example :
    let c = calls some_calls (new_client 100 16) in
    (c.pool.total_allocated ≡ in_hand c.hand) × (c.pool.total_allocated ≤ c.pool.mem_limit)
calls-new_client_example = calls-new_client some_calls 100 16 (omega arith) (omega arith)

abbrev three_bytes : Copy
three_bytes = record { dst = 10; src = 20; n = 3 }

-- Two threads, of which the first is first in x.
run-copied_example :
    let (mem', ts) = MemcpyAsync.run three_bytes (rounds 4) (λ a. a) (memcpy_async (0 ∷ 1 ∷ [])) in
    (all_waiting ts ≡ true)
    × ((j : ℕ) → j < 3 → mem' (10 + j) ≡ 20 + j)
    × ((a : ℕ) → ((a < 10) ⊎ (10 + 3 ≤ a)) → mem' a ≡ a)
run-copied_example =
    run-copied three_bytes (rounds 4) (0 ∷ 1 ∷ []) (λ a. a) (inl (omega arith)) (inl refl)
      (rounds-fair 4)

-- Memory is given, but the fill fails.
construct-IsClosed_example :
    IsClosed 2 (construct_set 8 16 (some 4096) false) (new_set 8 16 0 [] true false)
    × IsClosed 2 (construct_filter 4 8 16 (some 4096) false) (new_filter 4 8 16 true false)
construct-IsClosed_example = construct-IsClosed 8 16 0 4 2 [] (some 4096) false
