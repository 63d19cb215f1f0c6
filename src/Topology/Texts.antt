-- ===== src/Topology/Texts.antt =====
-- The comparison of PCI bus ids in topology_discovery.hpp, on texts.
use cuda2rocm.Base.{
  ℕ, suc, Bool, true, false, ◌&&◌, Option, none, some, List, [], ◌∷◌, ◌==◌, if◌then◌else◌, take,
  drop,
}
use cuda2rocm.Topology.Types.{Text}

unfoldable pub text_eq : Text → Text → Bool
text_eq [] [] = true
text_eq [] (y ∷ ys) = false
text_eq (x ∷ xs) [] = false
text_eq (x ∷ xs) (y ∷ ys) = x == y && text_eq xs ys

-- `rfind`: the last position of a byte.
unfoldable pub rfind : ℕ → Text → Option ℕ
rfind c [] = none
rfind c (x ∷ xs) = elim (rfind c xs) [
  | some i ↦ some (suc i)
  | none ↦ if x == c then some 0 else none
]

-- `line.rfind(prefix, 0) == 0`
unfoldable pub starts_with : Text → Text → Bool
starts_with [] line = true
starts_with (p ∷ prefix) [] = false
starts_with (p ∷ prefix) (x ∷ line) = x == p && starts_with prefix line

-- "PCI_SLOT_NAME="
abbrev pub slot_prefix : Text
slot_prefix =
    0x50 ∷ 0x43 ∷ 0x49 ∷ 0x5F ∷ 0x53 ∷ 0x4C ∷ 0x4F ∷ 0x54 ∷ 0x5F ∷ 0x4E ∷ 0x41 ∷ 0x4D ∷ 0x45 ∷ 0x3D
    ∷ []

-- The rest of the first line that starts with the prefix, empty where there is none.
unfoldable pub slot_name : List Text → Text
unfolding starts_with
slot_name [] = []
slot_name (line ∷ lines) = if starts_with slot_prefix line then drop 14 line else slot_name lines

-- A bus id up to its last dot, all of it where it has none.
unfoldable pub without_function : Text → Text
unfolding rfind
without_function id = elim (rfind 0x2E id) [ none ↦ id | some dot ↦ take dot id ]

-- A null pointer is none.
unfoldable pub pci_buses_match : Option Text → Option Text → Bool
unfolding without_function text_eq
pci_buses_match none b = false
pci_buses_match (some a) none = false
pci_buses_match (some a) (some b) = text_eq (without_function a) (without_function b)
