-- ===== src/Topology.antt =====
-- cucascade-rocm/include/cucascade/memory/topology_discovery.hpp: the GPUs of the machine, from what
-- the HIP runtime and the files under /sys answer. A text is the list of its bytes.
mod Types
mod Texts
pub mod Pci
pub mod Scan
pub mod Nodes
pub mod Peers
pub mod Discovered
unfoldable pub use Types.*
unfoldable pub use Texts.*
use cuda2rocm.Base.{
  ℕ, zero, suc, ◌+◌, ◌-◌, Bool, true, false, not, ◌&&◌, Option, none, some, List, [], ◌∷◌, ◌==◌,
  if◌then◌else◌, max, length,
}

-- The first device among some rounds that matches and whose file opens gives the result.
unfoldable pub scan {ℓ} : {A : Type ℓ} → (ℕ → Bool) → (ℕ → Option A) → ℕ → ℕ → Option A
scan matches read zero i = none
scan matches read (suc rounds) i =
    let rest = scan matches read rounds (suc i) in
    if matches i then (elim (read i) [ some a ↦ some a | none ↦ rest ]) else rest

-- `numa_nodes_seen.insert`, for a node that is one.
unfoldable pub has_node : ℤ → List ℤ → Bool
unfolding int_eq
has_node n [] = false
has_node n (m ∷ seen) = if int_eq n m then true else has_node n seen

unfoldable pub see_node : ℤ → List ℤ → List ℤ
unfolding is_node has_node
see_node n seen = if is_node n && not (has_node n seen) then n ∷ seen else seen

-- `-1` where no file opens, and where the number of the one that does is not one.
abbrev pub node_or_unknown : Option (Option ℤ) → ℤ
node_or_unknown none = negsuc 0
node_or_unknown (some none) = negsuc 0
node_or_unknown (some (some node)) = node

module _ (sys : System) where
  -- `matches_gpu_pci` and `matches_card_pci`, which differ in the path of the file.
  unfoldable pub matches_pci : Device → ℕ → Bool
  unfolding slot_name pci_buses_match
  matches_pci d gpu = elim (sys.bus_id gpu) [
    | none ↦ false
    | some gpu_pci ↦ elim (sys.uevent d) [
      | none ↦ false
      | some lines ↦ elim (slot_name lines) [
        | [] ↦ false
        | c ∷ rest ↦ pci_buses_match (some gpu_pci) (some (c ∷ rest))
      ]
    ]
  ]

  abbrev pub matches_gpu_pci : ℕ → ℕ → Bool
  matches_gpu_pci r gpu = matches_pci (render r) gpu

  abbrev pub matches_card_pci : ℕ → ℕ → Bool
  matches_card_pci c gpu = matches_pci (card c) gpu

  -- The file of a device of the GPU: render devices 128 to 199, and cards 0 to 31 after them.
  unfoldable pub read_sysfs {ℓ} : {A : Type ℓ} → (Device → Option A) → ℕ → Option A
  unfolding scan
  read_sysfs file gpu = elim (scan (λ r. matches_gpu_pci r gpu) (λ r. file (render r)) 72 128) [
    | some a ↦ some a
    | none ↦ scan (λ c. matches_card_pci c gpu) (λ c. file (card c)) 32 0
  ]

  unfoldable pub read_sysfs_numa_node : ℕ → ℤ
  unfolding read_sysfs
  read_sysfs_numa_node gpu = node_or_unknown (read_sysfs sys.numa_file gpu)

  unfoldable pub read_sysfs_cpulist : ℕ → Text
  unfolding read_sysfs
  read_sysfs_cpulist gpu = elim (read_sysfs sys.cpulist_file gpu) [ none ↦ [] | some cpus ↦ cpus ]

  unfoldable pub detect_interconnect_type : ℕ → ℕ → Interconnect
  unfolding read_sysfs_numa_node is_node int_eq
  detect_interconnect_type a b =
      let numa_a = read_sysfs_numa_node a in
      let numa_b = read_sysfs_numa_node b in
      if sys.peer_flag a b && (sys.peer_flag b a && (is_node numa_a && int_eq numa_a numa_b))
      then xgmi
      else pcie

  -- The peers of a GPU among some devices, and how it is connected to them.
  unfoldable pub peers_from : ℕ → ℕ → ℕ → List ℕ × List Interconnect
  unfolding detect_interconnect_type
  peers_from zero j i = ([], [])
  peers_from (suc rounds) j i =
      let rest = peers_from rounds (suc j) i in
      if j == i
      then rest
      else if sys.peer_succeeds i j && sys.peer_flag i j
      then (j ∷ rest.0, detect_interconnect_type i j ∷ rest.1)
      else rest

  -- A GPU of a machine with `count` of them.
  unfoldable pub gpu_info : ℕ → ℕ → GpuTopologyInfo
  unfolding read_sysfs_numa_node read_sysfs_cpulist peers_from
  gpu_info count i =
      let peers = peers_from count 0 i in
      record {
        id = i;
        name = elim (sys.properties i) [ none ↦ [] | some p ↦ p.0 ];
        numa_node = read_sysfs_numa_node i;
        pci_bus_id = elim (sys.bus_id i) [ none ↦ [] | some b ↦ b ];
        total_memory = elim (sys.properties i) [ none ↦ 0 | some p ↦ p.1 ];
        peer_devices = peers.0;
        cpu_affinity_list = read_sysfs_cpulist i;
        peer_interconnect_types = peers.1;
      }

  -- The loop over the GPUs, with the nodes that were seen before.
  unfoldable pub gpus_from : ℕ → ℕ → ℕ → List ℤ → List GpuTopologyInfo × List ℤ
  unfolding gpu_info see_node
  gpus_from count zero i seen = ([], seen)
  gpus_from count (suc rounds) i seen =
      let gpu = gpu_info count i in
      let (rest, seen') = gpus_from count rounds (suc i) (see_node gpu.numa_node seen) in
      (gpu ∷ rest, seen')

  -- A discovery with an answer of `hipGetDeviceCount`.
  abbrev pub discover_count : Option ℕ → TopologyDiscovery → TopologyDiscovery × Bool
  discover_count none d = (d, false)
  discover_count (some zero) d = (d, false)
  discover_count (some (suc n)) d =
      let (gpus, seen) = gpus_from (suc n) (suc n) 0 [] in
      (
        record {
          topology = record d.topology {
            num_gpus = suc n;
            num_numa_nodes = max (length seen) 1;
            hostname = sys.host;
            gpus = gpus;
          };
          discovered = true;
        },
        true,
      )

  unfoldable pub discover : TopologyDiscovery → TopologyDiscovery × Bool
  discover d = discover_count sys.device_count d
