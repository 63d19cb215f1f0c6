-- ===== src/Configurator.antt =====
-- cucascade-rocm/include/cucascade/memory/reservation_manager_configurator.hpp: the settings and the
-- configurations that `build` makes of them. A string is a number, and the empty one is none; a
-- double is its bit pattern, a factory the number of its function. A device id, which is an int32_t, is
-- its bit pattern too.
pub mod Settings
pub mod LastWins
pub mod Wanted
use cuda2rocm.Base.{
  ℕ, zero, suc, Bool, Option, none, some, List, [], ◌∷◌, ◌++◌, ◌%◌, ◌^◌, ltb, if◌then◌else◌, false,
  map, ◌||◌,
}
use cuda2rocm.Manager.{Config, gpu_config, host_config, disk_config}

pub record Configurator : Type 0 where
  pub num_gpus : ℕ
  pub gpu_ids : List ℕ
  pub gpu_usage_limit : ℕ
  pub gpu_usage_ratio : ℕ
  pub gpu_reservation_limit : ℕ
  pub gpu_reservation_fraction : ℕ
  pub gpu_downgrade : ℕ × ℕ
  pub host_reservation_limit : ℕ
  pub host_reservation_fraction : ℕ
  pub host_downgrade : ℕ × ℕ
  pub total_host_capacity : ℕ
  pub per_host_capacity : ℕ
  pub host_per_gpu : Bool
  pub host_per_numa : Bool
  pub host_portable : Bool
  pub host_block_size : ℕ
  pub host_pool_size : ℕ
  pub host_initial_pools : ℕ
  pub disk_id : ℕ
  pub disk_capacity : ℕ
  pub disk_root : Option ℕ
  pub track_per_stream : Bool
  pub gpu_factory : Option ℕ
  pub host_factory : Option ℕ

abbrev pub new_configurator : Configurator
new_configurator = record {
  num_gpus = 0;
  gpu_ids = [];
  gpu_usage_limit = 0;
  gpu_usage_ratio = 0;
  gpu_reservation_limit = 0;
  gpu_reservation_fraction = 0;
  gpu_downgrade = (0, 0);
  host_reservation_limit = 0;
  host_reservation_fraction = 0;
  host_downgrade = (0, 0);
  total_host_capacity = 0;
  per_host_capacity = 0;
  host_per_gpu = false;
  host_per_numa = false;
  host_portable = false;
  host_block_size = 2 ^ 20;
  host_pool_size = 2 ^ 24;
  host_initial_pools = 4;
  disk_id = 0;
  disk_capacity = 0;
  disk_root = none;
  track_per_stream = false;
  gpu_factory = none;
  host_factory = none;
}

-- `static_cast<int32_t>(i)` from one index on, in order.
abbrev pub ids_from : ℕ → ℕ → List ℕ
ids_from i zero = []
ids_from i (suc n) = i % 2 ^ 32 ∷ ids_from (suc i) n

-- The devices: those that were set, or as many as were set or as the topology has.
unfoldable pub device_ids : ℕ → Configurator → List ℕ
device_ids topology_gpus c = elim c.gpu_ids [
  | [] ↦ ids_from 0 (if ltb 0 c.num_gpus then c.num_gpus else topology_gpus)
  | i ∷ is ↦ i ∷ is
]

unfoldable pub host_configs : Configurator → List Config
host_configs c =
    if ltb 0 c.total_host_capacity || ltb 0 c.per_host_capacity
    then host_config 0
        (if ltb 0 c.total_host_capacity then c.total_host_capacity else c.per_host_capacity)
        c.host_portable
      ∷ []
    else []

unfoldable pub disk_configs : Configurator → List Config
disk_configs c = elim c.disk_root [
  | none ↦ []
  | some mount ↦ disk_config mount c.disk_capacity ∷ []
]

-- `build`, for a topology of some number of GPUs.
unfoldable pub build : ℕ → Configurator → List Config
unfolding device_ids host_configs disk_configs
build topology_gpus c =
    map (λ i. gpu_config i c.gpu_usage_limit c.gpu_reservation_limit) (device_ids topology_gpus c)
    ++ (host_configs c ++ disk_configs c)
