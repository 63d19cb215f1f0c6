-- ===== src/Tests/Machine.antt =====
-- Topology discovery on a machine with two GPUs.
use cuda2rocm.Base.{
  ℕ, zero, suc, ◌≡◌, refl, true, false, Option, none, some, List, [], ◌∷◌, ◌++◌, ◌==◌,
  if◌then◌else◌, arith,
}
use cuda2rocm.Topology.{
  Text, ℤ, pos, Device, render, card, System, TopologyDiscovery, starts_with, slot_name, text_eq,
  rfind, without_function, pci_buses_match, slot_prefix, scan, matches_pci, read_sysfs,
  read_sysfs_numa_node, discover,
}
use cuda2rocm.Topology.Nodes.{Source, read_sysfs-Source}
use cuda2rocm.Topology.Discovered.{Describes, discover-Describes}

-- "0:1" and "0:2"
abbrev bus_one : Text
bus_one = 0x30 ∷ 0x3A ∷ 0x31 ∷ []

abbrev bus_two : Text
bus_two = 0x30 ∷ 0x3A ∷ 0x32 ∷ []

abbrev function : ℕ → Text
function n = 0x2E ∷ n ∷ []

abbrev bus_of : ℕ → Option Text
bus_of zero = some (bus_one ++ function 0x30)
bus_of (suc zero) = some (bus_two ++ function 0x30)
bus_of (suc (suc i)) = none

abbrev uevent_of : Device → Option (List Text)
uevent_of (render r) =
    if r == 128
    then some ((slot_prefix ++ (bus_one ++ function 0x31)) ∷ [])
    else if r == 129
    then some ((slot_prefix ++ (bus_two ++ function 0x31)) ∷ [])
    else none
uevent_of (card c) = none

abbrev numa_of : Device → Option (Option ℤ)
numa_of (render r) =
    if r == 128 then some (some (pos 0)) else if r == 129 then some (some (pos 1)) else none
numa_of (card c) = none

abbrev machine : Option ℕ → System
machine count = record {
  device_count = count;
  properties = λ i. none;
  bus_id = bus_of;
  peer_succeeds = λ i j. true;
  peer_flag = λ i j. true;
  uevent = uevent_of;
  numa_file = numa_of;
  cpulist_file = λ d. none;
  host = [];
}

abbrev nothing : TopologyDiscovery
nothing = record {
  topology = record {
    num_gpus = 0;
    num_numa_nodes = 0;
    hostname = [];
    gpus = [];
    network_devices = [];
    storage_devices = [];
  };
  discovered = false;
}

node_one : read_sysfs_numa_node (machine (some 2)) 1 ≡ pos 1
unfolding starts_with slot_name text_eq rfind without_function pci_buses_match scan matches_pci
    read_sysfs read_sysfs_numa_node
node_one = refl

read_sysfs-Source_example :
    Source (machine (some 2)) numa_of 1 (read_sysfs (machine (some 2)) numa_of 1)
read_sysfs-Source_example = read_sysfs-Source (machine (some 2)) numa_of 1

discover-Describes_example :
    ((discover (machine (some 2)) nothing).1 ≡ true)
    × Describes (machine (some 2)) 2 (discover (machine (some 2)) nothing).0
discover-Describes_example = discover-Describes (machine (some 2)) nothing 2 refl (omega arith)

no_gpus : (discover (machine none) nothing).1 ≡ false
unfolding discover
no_gpus = refl
