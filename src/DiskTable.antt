-- ===== src/DiskTable.antt =====
-- cucascade-rocm/include/cucascade/memory/disk_table.hpp and data/disk_data_representation.hpp:
-- the files of tables on disk and the representation that owns one. A text is the list of its bytes,
-- and a null pointer is none.
pub mod Paths
use cuda2rocm.Base.{
  ℕ, zero, suc, ◌+◌, ◌/◌, ◌%◌, Option, none, some, List, [], ◌∷◌, ◌++◌, ltb, if◌then◌else◌, Result,
  ok, err, no_table, not_implemented,
}
use cuda2rocm.Topology.{Text}

pub record DiskTableAllocation : Type 0 where
  pub file_path : Text
  pub size_bytes : ℕ

-- `std::to_string` on a size_t, with the number of its digits as fuel: 20 are enough for 64 bits.
unfoldable pub digits : ℕ → ℕ → Text
digits zero n = []
digits (suc fuel) n =
    let rest = digits fuel (n / 10) in
    if ltb n 10 then (0x30 + n) ∷ [] else rest ++ ((0x30 + n % 10) ∷ [])

abbrev pub to_string : ℕ → Text
to_string n = digits 20 n

-- "/cucascade_disk_", the slash apart, and ".bin".
abbrev pub file_prefix : Text
file_prefix =
    0x63 ∷ 0x75 ∷ 0x63 ∷ 0x61 ∷ 0x73 ∷ 0x63 ∷ 0x61 ∷ 0x64 ∷ 0x65 ∷ 0x5F ∷ 0x64 ∷ 0x69 ∷ 0x73 ∷ 0x6B
    ∷ 0x5F ∷ []

abbrev pub file_suffix : Text
file_suffix = 0x2E ∷ 0x62 ∷ 0x69 ∷ 0x6E ∷ []

unfoldable pub generate_disk_file_path : Text → ℕ → Text
generate_disk_file_path base idx = base ++ (0x2F ∷ (file_prefix ++ (to_string idx ++ file_suffix)))

-- A representation on disk: the allocation that it owns, and its space.
pub record DiskDataRepresentation : Type 0 where
  pub alloc : Option DiskTableAllocation
  pub space : ℕ

unfoldable pub get_disk_table : DiskDataRepresentation → Result DiskTableAllocation
get_disk_table r = elim r.alloc [ none ↦ err no_table | some alloc ↦ ok alloc ]

pub disk_clone : DiskDataRepresentation → Result DiskDataRepresentation
disk_clone r = err not_implemented
