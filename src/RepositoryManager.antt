-- ===== src/RepositoryManager.antt =====
-- cucascade-rocm/include/cucascade/data/data_repository_manager.hpp: the repositories of operators'
-- ports. The hash map is a list of its entries, whose order stands for the map's order of iteration; a
-- port name is the number of its string, and a null repository is none.
pub mod Delivery
use cuda2rocm.Base.{
  ℕ, ◌+◌, Bool, true, false, ◌&&◌, Option, none, some, List, [], ◌∷◌, ◌==◌, if◌then◌else◌, add_word,
}
use cuda2rocm.DataRepository.{Repository, add_data_batch, total_size, all_empty}
use cuda2rocm.DataRepository.Partition.{BatchRef}

-- `operator_port_key`
pub record PortKey : Type 0 where
  pub operator_id : ℕ
  pub port_name : ℕ

pub record Port : Type 0 where
  pub key : PortKey
  pub repository : Option Repository

pub record RepositoryManager : Type 0 where
  pub repos : List Port
  pub next_batch_id : ℕ

-- `leaked_repository_info`
pub record LeakedRepositoryInfo : Type 0 where
  pub key : PortKey
  pub batch_count : ℕ

abbrev pub same_key : PortKey → PortKey → Bool
same_key a b = (a.operator_id == b.operator_id) && (a.port_name == b.port_name)

-- `repos_[key] = std::move(repo)`
unfoldable pub put : PortKey → Option Repository → List Port → List Port
put k r [] = record { key = k; repository = r } ∷ []
put k r (p ∷ ps) = if same_key p.key k then record p { repository = r } ∷ ps else p ∷ put k r ps

pub add_new_repository : PortKey → Option Repository → RepositoryManager → RepositoryManager
unfolding put
add_new_repository k r m = record m { repos = put k r m.repos }

-- The delivery to one port: a port without an entry is passed over, and `none` is the use of a null
-- repository.
unfoldable pub deliver : Option BatchRef → PortKey → List Port → Option (List Port)
deliver b k [] = some []
deliver b k (p ∷ ps) =
    let rest = deliver b k ps in
    if same_key p.key k
    then elim p.repository [
      | none ↦ none
      | some r ↦ some (record p { repository = some (add_data_batch b 0 r) } ∷ ps)
    ]
    else elim rest [ none ↦ none | some qs ↦ some (p ∷ qs) ]

unfoldable pub deliver_all : Option BatchRef → List PortKey → List Port → Option (List Port)
deliver_all b [] ps = some ps
deliver_all b (k ∷ ks) ps = elim (deliver b k ps) [ none ↦ none | some qs ↦ deliver_all b ks qs ]

-- `add_data_batch`
unfoldable pub add_to_targets :
    Option BatchRef → List PortKey → RepositoryManager → Option RepositoryManager
unfolding deliver_all
add_to_targets b targets m = elim (deliver_all b targets m.repos) [
  | none ↦ none
  | some ps ↦ some (record m { repos = ps })
]

-- The repository under a key; none where there is no entry or a null one.
unfoldable pub get_repository : PortKey → List Port → Option Repository
get_repository k [] = none
get_repository k (p ∷ ps) = if same_key p.key k then p.repository else get_repository k ps

-- The id, and the manager after.
pub get_next_data_batch_id : RepositoryManager → RepositoryManager × ℕ
get_next_data_batch_id m =
    (record m { next_batch_id = add_word m.next_batch_id 1 }, m.next_batch_id)

-- The repositories that still hold batches.
unfoldable pub leaks : List Port → List LeakedRepositoryInfo
leaks [] = []
leaks (p ∷ ps) =
    let rest = leaks ps in
    elim p.repository [
      | none ↦ rest
      | some r ↦
          if all_empty r then rest else record { key = p.key; batch_count = total_size r } ∷ rest
    ]

unfoldable pub clear_all_repositories :
    RepositoryManager → RepositoryManager × List LeakedRepositoryInfo
unfolding leaks
clear_all_repositories m = (record m { repos = [] }, leaks m.repos)

-- `get_repositories`, and the order in which `for_each_repository` calls.
pub get_repositories : List Port → List Repository
get_repositories [] = []
get_repositories (p ∷ ps) = elim p.repository [
  | none ↦ get_repositories ps
  | some r ↦ r ∷ get_repositories ps
]
