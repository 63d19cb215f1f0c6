-- ===== src/Tests/Data.antt =====
-- Batches and their repository at concrete inputs.
use cuda2rocm.Converters.{Registry, convert_to}
use cuda2rocm.Converters.Conversion.{Gives}
use cuda2rocm.DataBatch.Conversion.{clone_to-Gives}
use cuda2rocm.Base.{ℕ, suc, ◌↔◌, ◌≡◌, refl, none, some, [], ◌∷◌, ok, if◌then◌else◌, ◌==◌}
use cuda2rocm.DataBatch.{DataBatch, make_batch, clone_to, idle}
use cuda2rocm.DataRepository.{Repository, partition, pop_data_batch_by_id, get_data_batch_by_id}
use cuda2rocm.DataRepository.Partition.{Takes}
use cuda2rocm.DataRepository.Contents.{partition-pop_by_id}
use cuda2rocm.RepositoryManager.{RepositoryManager, PortKey, add_to_targets, get_repository}
use cuda2rocm.RepositoryManager.Delivery.{NonNull, times, add_times, add_to_targets-add_times}

abbrev fresh : DataBatch
fresh = record {
  batch_id = 3;
  state = idle;
  data_ref = some 40;
  space = none;
  subscriber_count = 0;
}

abbrev two_partitions : Repository
two_partitions =
    (some (record { object = 1; batch_id = 10 }) ∷ some (record { object = 2; batch_id = 11 }) ∷ [])
    ∷ []
    ∷ []

partition-pop_by_id_example :
    let (r', b) = pop_data_batch_by_id 11 0 two_partitions in
    (b ≡ get_data_batch_by_id 11 0 two_partitions)
    × Takes 11 (partition 0 two_partitions) (partition 0 r') b
    × (partition 1 r' ≡ (if 0 == 1 then partition 0 r' else partition 1 two_partitions))
partition-pop_by_id_example = partition-pop_by_id 11 0 1 two_partitions

abbrev left : PortKey
left = record { operator_id = 1; port_name = 5 }

abbrev right : PortKey
right = record { operator_id = 1; port_name = 6 }

abbrev two_ports : RepositoryManager
two_ports = record {
  repos =
      record { key = left; repository = some two_partitions }
      ∷ record { key = right; repository = some [] }
      ∷ [];
  next_batch_id = 12;
}

two_ports-NonNull : NonNull two_ports.repos
two_ports-NonNull = (λ e. cc, (λ e. cc, tt))

get_repository-right : get_repository right two_ports.repos ≡ some []
unfolding get_repository
get_repository-right = refl

add_to_targets-add_times_example :
    (m' : RepositoryManager) × (add_to_targets none (left ∷ right ∷ right ∷ []) two_ports ≡ some m')
    × (get_repository right m'.repos
        ≡ some (add_times (times right (left ∷ right ∷ right ∷ [])) none []))
    × (m'.next_batch_id ≡ 12)
add_to_targets-add_times_example =
    add_to_targets-add_times none right (left ∷ right ∷ right ∷ []) two_ports [] two_ports-NonNull
      get_repository-right

-- Representations are numbers of their type, and the one converter gives the next number.
abbrev next_type : Registry ℕ
next_type = (record { src = 3; target = 4 }, λ source space. ok (some (suc source))) ∷ []

clone_to-Gives_example :
    (clone_to
        (λ d t. convert_to ℕ (λ n. n) (λ n t. n == t) d 4 t next_type)
        8
        (some 1)
        (record { data_ref = some 3; space = none; batch_id = 7 })
      ≡ ok (make_batch 8 (some 4) (some 1)))
    ↔ ((x : ℕ) × Gives (λ n. n) (λ n t. n == t) 3 4 (some 1) next_type x
        × (make_batch 8 (some 4) (some 1) ≡ make_batch 8 (some x) (some 1)))
clone_to-Gives_example =
    clone_to-Gives (λ n. n) (λ n t. n == t) 4 next_type 8 3 7 (some 1) none
      (make_batch 8 (some 4) (some 1))
