-- ===== src/Lib.antt =====
-- A model of the C++ libraries of this repository that stand in for cuCascade and cuco on ROCm, with
-- the theorems that make them correct.
--
-- The parts. cucascade-rocm manages memory tiers: a reservation manager owns memory spaces, a client
-- reserves bytes of one through it, and the space counts them. Under a space lie the two allocators
-- that do their own accounting, the device allocator with its fallbacks and the pinned host pool,
-- and a pool of streams. The number of devices comes from a discovery of the machine's topology.
-- Data batches, on representations that a registry of converters turns into each other, move through
-- a repository of partitions. cuco-rocm has two GPU containers, an open-addressing hash set and a
-- blocked Bloom filter, whose kernels share memory through atomic operations, and the hash function
-- that they use.
--
-- The files, with the code they model (hpp files under cucascade-rocm/include/cucascade, cuh files
-- under cuco-rocm/include/cuco):
--   HostResource   memory/fixed_size_host_memory_resource.hpp: Committed is do_reserve, do_release
--                  and the rounding, Blocks what an allocation hands out, Trackers the two maps,
--                  System the pool with its clients; Ledger, Tracking and Invariant have the
--                  accounting, Layout the places of blocks, Reuse two cases apart from it, Rollback
--                  what an allocation that throws leaves; Small is
--                  memory/small_pinned_host_memory_resource.hpp.
--   MemorySpace    memory/memory_space.hpp and memory_reservation.hpp: each operation is its loop run
--                  alone; Accounting has sequences of calls, Concurrent threads, Resources the
--                  accessors of what a space owns.
--   Atomic         the compare-and-swap loops of these classes: a thread proposes a value for the
--                  one that it saw, and a schedule says who goes and whether an exchange fails
--                  spuriously. All atomic accesses of the code are to one counter at a time, so
--                  that their relaxed order is the order of the counter's modifications.
--   DiskLimiter    memory/disk_access_limiter.hpp.
--   Manager        memory/memory_reservation_manager.hpp; Concurrent has requests and releases by
--                  threads, Holdings and Counted what they hold, Settled their end, Races two runs of
--                  them; Setup is what it makes of the configurator's configurations.
--   Configurator   memory/reservation_manager_configurator.hpp; Settings is its setters, LastWins what a
--                  chain of them leaves, Wanted what is built from it.
--   Adaptor        memory/reservation_aware_resource_adaptor.hpp and oom_handling_policy.hpp;
--                  Concurrent has allocations whose critical sections interleave, Traffic also frees,
--                  Charges and Settled what becomes of their bytes.
--   StreamPool     memory/stream_pool.hpp: Exclusive has the streams that clients hold, Lifetime a pool
--                  from its constructor to its destructor.
--   DiskTable      memory/disk_table.hpp and data/disk_data_representation.hpp; Paths reads the names of
--                  the files back.
--   Topology       memory/topology_discovery.hpp: Types is its data, Texts the comparison of bus ids,
--                  Pci when two of them match, Scan and Nodes the files that are read, Peers and
--                  Discovered what a discovery leaves.
--   Converters     data/representation_converter.hpp: Lookup is the registry as a map, Conversion when
--                  a conversion succeeds.
--   HostTable      cudf/host_table.hpp, host_data_representation.hpp, gpu_data_representation.hpp and
--                  builtin_converters.hpp: Copies and Overrun are the places of the copies, Cloning
--                  what a clone holds, Ownership the pointers to the allocations.
--   Event          cuda/event.hpp and the writer event of data/common.hpp.
--   DataBatch      data/data_batch.hpp; Conversion is its clones through the registry.
--   DataRepository data/data_repository.hpp.
--   RepositoryManager
--                  data/data_repository_manager.hpp.
--   StaticSet      static_set.cuh: Fill is the kernel that the constructor launches, Kernel the
--                  insertion, Probing and Rounds what a thread knows, Concurrent and Progress whole
--                  launches; Stride is the probes over a power of two of slots, Occupied how many
--                  slots fill, Abstract the set of keys, Fair the end of a launch, Narrow a stride
--                  that is a multiple of the capacity, Construction a set from its constructor on,
--                  Default one with the default hash function.
--   HashFunction   hash_functions.cuh; Specification is xxHash64 as it is specified, Reference the code's
--                  steps over lists, which Tail and Stripes relate to the loops and Agreement to the
--                  specification; Bounds is the range of the hash.
--   BloomFilter    bloom_filter.cuh and bloom_filter_policies.cuh, in the same way: Bits and Exact are
--                  the bits that are set, Sequential the keys one after another, Answers the probes.
--   MemcpyAsync    cuda-compat-shims/include/cooperative_groups/memcpy_async.h: Copied is the bytes,
--                  Barrier the threads at the end.
--   DeviceBuffer   the device memory of both containers; Closed is its life.
--   Launch         the grids and thread indices of both containers.
--   Base, Tests    shared helpers, and the theorems at concrete inputs.
--
-- State is a record, an operation a function from the state to the state after and what it returns; an
-- exception is `err` with one error for each `throw`. A pointer is the number of its address. What the
-- heap, the HIP runtime, the upstream resource and a client's policy answer is an argument. A size_t
-- is a number below 2 ^ 64 and wraps where the source's does; an int64_t is its bit pattern.
--
-- Bounds and fuel. The probe loops run on the rounds that the source's own loop bound leaves, so
-- that they need no fuel. The loops of the hash function have as much fuel as there are bytes, and
-- an end of the fuel is none. Two rounds of each thread are enough for the kernel that fills a set
-- of up to 2 ^ 31 slots. A size_t is printed with fuel for the 20 digits that it can have. The
-- accounting theorems of the host pool assume a limit below 2 ^ 63, which the source's casts to
-- int64_t need. The kernels' theorems are about launches of at most 2 ^ 32 keys, for which each key
-- has its thread (Launch).
--
-- Not modelled: a call of the manager or of the device allocator is one step outside of their
-- modules on threads; the limit policies that a reservation may carry, which the code stores and
-- never asks. The containers take their hash function as a parameter, for which StaticSet.Default
-- puts in the default one. Of a cudf table there are the rows, sizes and addresses of its columns,
-- and of a copy the place, the source and the bytes, not the data. Left out are the other headers
-- of cuda-compat-shims, which rename, and the types without operations.
pub mod Base
pub mod Atomic
pub mod MemorySpace
pub mod DiskLimiter
pub mod DiskTable
pub mod DeviceBuffer
pub mod HostResource
pub mod Manager
pub mod Configurator
pub mod Adaptor
pub mod StreamPool
pub mod Topology
pub mod Converters
pub mod HostTable
pub mod Event
pub mod DataBatch
pub mod DataRepository
pub mod RepositoryManager
pub mod StaticSet
pub mod HashFunction
pub mod Launch
pub mod MemcpyAsync
pub mod BloomFilter
pub mod Tests
