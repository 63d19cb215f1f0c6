-- ===== src/DataRepository.antt =====
-- cucascade-rocm/include/cucascade/data/data_repository.hpp: batches by partition. A `shared_ptr` to a
-- batch is a reference with the batch's id, or none. DataRepository.Partition has one partition's
-- vector.
pub mod Partition
pub mod Contents
use cuda2rocm.Base.{
  ℕ, zero, suc, ◌+◌, Bool, true, false, Option, none, some, List, [], ◌∷◌, ◌++◌, if◌then◌else◌,
  add_word, length, get_or, set, leb, ltb, ◌-◌, replicate, ◌==◌,
}
use Partition.{BatchRef, Slots, pop_front, pop_id, find_id, batch_ids, is_empty}

-- `partitions_`
abbrev pub Repository : Type 0
Repository = List Slots

-- `partitions_.resize(partition_idx + 1)` where the index is out of range.
unfoldable pub resize_to : ℕ → Repository → Repository
resize_to p r = if leb (length r) p then r ++ replicate (suc p - length r) [] else r

-- The partition at an index, and an empty one out of range.
abbrev pub partition : ℕ → Repository → Slots
partition p r = get_or r p []

unfoldable pub add_data_batch : Option BatchRef → ℕ → Repository → Repository
unfolding resize_to
add_data_batch b p r = let grown = resize_to p r in set grown p (partition p grown ++ b ∷ [])

unfoldable pub pop_next_data_batch : ℕ → Repository → Repository × Option BatchRef
pop_next_data_batch p r =
    if leb (length r) p
    then (r, none)
    else (let (rest, b) = pop_front (partition p r) in (set r p rest, b))

unfoldable pub pop_data_batch_by_id : ℕ → ℕ → Repository → Repository × Option BatchRef
pop_data_batch_by_id id p r =
    if leb (length r) p
    then (r, none)
    else (let (rest, b) = pop_id id (partition p r) in (set r p rest, b))

unfoldable pub get_data_batch_by_id : ℕ → ℕ → Repository → Option BatchRef
get_data_batch_by_id id p r = if leb (length r) p then none else find_id id (partition p r)

unfoldable pub get_batch_ids : ℕ → Repository → List ℕ
get_batch_ids p r = if ltb p (length r) then batch_ids (partition p r) else []

unfoldable pub size : ℕ → Repository → ℕ
size p r = if ltb p (length r) then length (partition p r) else 0

unfoldable pub empty : ℕ → Repository → Bool
unfolding size
empty p r = size p r == 0

unfoldable pub total_size : Repository → ℕ
total_size [] = 0
total_size (s ∷ r) = length s + total_size r

unfoldable pub all_empty : Repository → Bool
all_empty [] = true
all_empty (s ∷ r) = if is_empty s then all_empty r else false
