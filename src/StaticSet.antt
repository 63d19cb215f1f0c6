-- ===== src/StaticSet.antt =====
-- cuco-rocm/include/cuco/static_set.cuh: the open-addressing hash set. Keys are the numbers of
-- `KeyT`; the hash functor is a parameter. A kernel's threads run in any order, one atomic operation
-- at a time; StaticSet.Kernel has that schedule.
pub mod Probing
pub mod Kernel
pub mod Fill
pub mod Rounds
pub mod Concurrent
pub mod Progress
pub mod Stride
pub mod Occupied
pub mod Abstract
pub mod Fair
pub mod Narrow
pub mod Construction
pub mod Default
use cuda2rocm.Base.{
  ℕ, zero, suc, ◌+◌, ◌*◌, ◌/◌, ◌%◌, ◌^◌, Bool, true, false, ◌||◌, Option, none, some, List, [], ◌∷◌,
  ltb, ◌==◌, if◌then◌else◌, word_mod, size_max, get_or, set, replicate, Result, ok, err,
  capacity_zero, size_overflow, malloc_failed, launch_failed,
}
use Prim.Native.Nat.{bit_or}

pub record StaticSet : Type 0 where
  pub slots : List ℕ
  pub capacity : ℕ
  pub empty_key : ℕ

-- `double_hashing::operator()`: `(h1 + probe * h2)` in 64 bits, with an odd stride.
unfoldable pub double_hashing : (ℕ → ℕ) → ℕ → ℕ → ℕ
double_hashing hash key probe = let h = hash key in (h + probe * bit_or (h / 2 ^ 32) 1) % word_mod

-- The slot of a probe.
unfoldable pub slot_index : (ℕ → ℕ) → ℕ → ℕ → ℕ → ℕ
slot_index hash capacity key probe = double_hashing hash key probe % capacity

-- The constructor: the checks of the capacity and of the byte count, `hipMalloc`, which gives the
-- memory or fails, and the launch, which succeeds or not, of the kernel that fills the slots; what
-- the kernel then does is in Fill. Keys have `key_size` bytes.
unfoldable pub new_set : ℕ → ℕ → ℕ → List ℕ → Bool → Bool → Result StaticSet
new_set key_size capacity empty memory allocated launched =
    if capacity == 0
    then err capacity_zero
    else if ltb (size_max / capacity) key_size
    then err size_overflow
    else if allocated
    then (if launched
        then ok (record { slots = memory; capacity = capacity; empty_key = empty })
        else err launch_failed)
    else err malloc_failed

module _ (hash : ℕ → ℕ) where
  -- The probe loop of `set_ref::operator()`, `contains` and `set_probe_kernel`, with the rounds left.
  unfoldable pub contains_from : ℕ → ℕ → StaticSet → ℕ → Bool
  contains_from zero probe s key = false
  contains_from (suc rounds) probe s key =
      let slot = get_or s.slots (slot_index hash s.capacity key probe) s.empty_key in
      let rest = contains_from rounds (suc probe) s key in
      if slot == key then true else if slot == s.empty_key then false else rest

  unfoldable pub contains : StaticSet → ℕ → Bool
  unfolding contains_from
  contains s key = contains_from s.capacity 0 s key

  -- `set_probe_kernel` over a range of keys: one answer for each.
  pub set_probe_kernel : StaticSet → List ℕ → List Bool
  unfolding contains
  set_probe_kernel s [] = []
  set_probe_kernel s (key ∷ keys) = contains s key ∷ set_probe_kernel s keys

  -- `contains_async`: no launch for an empty range.
  unfoldable pub contains_async : StaticSet → List ℕ → List Bool
  unfolding set_probe_kernel
  contains_async s [] = []
  contains_async s (key ∷ keys) = set_probe_kernel s (key ∷ keys)
