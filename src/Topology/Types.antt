-- ===== src/Topology/Types.antt =====
-- The data of topology_discovery.hpp, and what the machine answers.
use cuda2rocm.Base.{ℕ, Bool, true, false, Option, List, ◌==◌}

abbrev pub Text : Type 0
Text = List ℕ

-- `std::int32_t`, as far as it is used here.
pub data ℤ : Type 0 where
  pos : ℕ → ℤ
  negsuc : ℕ → ℤ

-- A node of /sys/class/drm.
pub data Device : Type 0 where
  render : ℕ → Device
  card : ℕ → Device

-- What the machine answers. A call of HIP that fails and a file that does not open are none.
pub record System : Type 0 where
  -- `hipGetDeviceCount`
  pub device_count : Option ℕ
  -- `hipGetDeviceProperties`: the name and the bytes of memory.
  pub properties : ℕ → Option (Text × ℕ)
  -- `hipDeviceGetPCIBusId`
  pub bus_id : ℕ → Option Text
  -- `hipDeviceCanAccessPeer`: whether it succeeds, and the flag that it leaves.
  pub peer_succeeds : ℕ → ℕ → Bool
  pub peer_flag : ℕ → ℕ → Bool
  -- The lines of device/uevent.
  pub uevent : Device → Option (List Text)
  -- device/numa_node: its number, none where that does not parse.
  pub numa_file : Device → Option (Option ℤ)
  -- The first line of device/local_cpulist.
  pub cpulist_file : Device → Option Text
  -- `gethostname`
  pub host : Text

pub data StorageDriveType : Type 0 where
  nvme : StorageDriveType
  sata_ssd : StorageDriveType
  hdd : StorageDriveType
  unknown : StorageDriveType

-- "XGMI" or "PCIe".
pub data Interconnect : Type 0 where
  xgmi : Interconnect
  pcie : Interconnect

pub record GpuTopologyInfo : Type 0 where
  pub id : ℕ
  pub name : Text
  pub numa_node : ℤ
  pub pci_bus_id : Text
  pub total_memory : ℕ
  pub peer_devices : List ℕ
  pub cpu_affinity_list : Text
  pub peer_interconnect_types : List Interconnect

pub record NetworkDeviceInfo : Type 0 where
  pub name : Text
  pub ip_address : Text
  pub is_active : Bool

pub record StorageDeviceInfo : Type 0 where
  pub mount_point : Text
  pub drive_type : StorageDriveType
  pub capacity : ℕ

pub record SystemTopologyInfo : Type 0 where
  pub num_gpus : ℕ
  pub num_numa_nodes : ℕ
  pub hostname : Text
  pub gpus : List GpuTopologyInfo
  pub network_devices : List NetworkDeviceInfo
  pub storage_devices : List StorageDeviceInfo

pub record TopologyDiscovery : Type 0 where
  pub topology : SystemTopologyInfo
  pub discovered : Bool

unfoldable pub int_eq : ℤ → ℤ → Bool
int_eq (pos a) (pos b) = a == b
int_eq (negsuc a) (negsuc b) = a == b
int_eq (pos a) (negsuc b) = false
int_eq (negsuc a) (pos b) = false

-- `n >= 0`
unfoldable pub is_node : ℤ → Bool
is_node (pos n) = true
is_node (negsuc n) = false
