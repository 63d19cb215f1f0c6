-- ===== src/Configurator/Settings.antt =====
-- The setters of the configurator, each a constructor, and a chain of calls of them.
use cuda2rocm.Base.{ℕ, Bool, true, Option, List, [], ◌∷◌}
use cuda2rocm.Configurator.{Configurator, new_configurator}

pub data Setting : Type 0 where
  set_number_of_gpus : ℕ → Setting
  set_gpu_ids : List ℕ → Setting
  set_gpu_usage_limit : ℕ → Setting
  set_usage_limit_ratio_per_gpu : ℕ → Setting
  set_reservation_limit_per_gpu : ℕ → Setting
  set_reservation_fraction_per_gpu : ℕ → Setting
  set_downgrade_fractions_per_gpu : ℕ → ℕ → Setting
  set_reservation_limit_per_host : ℕ → Setting
  set_reservation_fraction_per_host : ℕ → Setting
  set_downgrade_fractions_per_host : ℕ → ℕ → Setting
  set_total_host_capacity : ℕ → Setting
  set_per_host_capacity : ℕ → Setting
  use_host_per_gpu : Setting
  use_host_per_numa : Setting
  set_host_portability : Bool → Setting
  set_host_pool_features : ℕ → ℕ → ℕ → Setting
  set_disk_mounting_point : ℕ → ℕ → Option ℕ → Setting
  track_reservation_per_stream : Bool → Setting
  set_gpu_memory_resource_factory : Option ℕ → Setting
  set_host_memory_resource_factory : Option ℕ → Setting

unfoldable pub apply : Setting → Configurator → Configurator
apply (set_number_of_gpus n) c = record c { num_gpus = n }
apply (set_gpu_ids ids) c = record c { gpu_ids = ids }
apply (set_gpu_usage_limit limit) c = record c { gpu_usage_limit = limit }
apply (set_usage_limit_ratio_per_gpu ratio) c = record c { gpu_usage_ratio = ratio }
apply (set_reservation_limit_per_gpu limit) c = record c { gpu_reservation_limit = limit }
apply (set_reservation_fraction_per_gpu frac) c = record c { gpu_reservation_fraction = frac }
apply (set_downgrade_fractions_per_gpu trigger stop) c = record c {
  gpu_downgrade = (trigger, stop);
}
apply (set_reservation_limit_per_host limit) c = record c { host_reservation_limit = limit }
apply (set_reservation_fraction_per_host frac) c = record c { host_reservation_fraction = frac }
apply (set_downgrade_fractions_per_host trigger stop) c = record c {
  host_downgrade = (trigger, stop);
}
apply (set_total_host_capacity bytes) c = record c { total_host_capacity = bytes }
apply (set_per_host_capacity bytes) c = record c { per_host_capacity = bytes }
apply use_host_per_gpu c = record c { host_per_gpu = true }
apply use_host_per_numa c = record c { host_per_numa = true }
apply (set_host_portability port) c = record c { host_portable = port }
apply (set_host_pool_features block pool initial) c = record c {
  host_block_size = block;
  host_pool_size = pool;
  host_initial_pools = initial;
}
apply (set_disk_mounting_point id capacity root) c = record c {
  disk_id = id;
  disk_capacity = capacity;
  disk_root = root;
}
apply (track_reservation_per_stream track) c = record c { track_per_stream = track }
apply (set_gpu_memory_resource_factory fn) c = record c { gpu_factory = fn }
apply (set_host_memory_resource_factory fn) c = record c { host_factory = fn }

-- A chain of calls on a configurator, the first of the list first.
unfoldable pub configure_from : Configurator → List Setting → Configurator
unfolding apply
configure_from c [] = c
configure_from c (s ∷ ss) = configure_from (apply s c) ss

unfoldable pub configure : List Setting → Configurator
unfolding configure_from
configure ss = configure_from new_configurator ss
