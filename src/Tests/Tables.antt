-- ===== src/Tests/Tables.antt =====
-- The converter registry, host tables and events at concrete inputs.
use cuda2rocm.Base.{ℕ, zero, suc, ◌≡◌, refl, true, some, List, [], ◌∷◌, ◌++◌, ltb, ok, arith}
use cuda2rocm.HostResource.Blocks.{Block, make_blocks}
use cuda2rocm.Converters.{Key, Converter, Registry, find}
use cuda2rocm.Converters.Lookup.{Call, registers, unregisters, history, latest, find-history}
use cuda2rocm.HostTable.{HostTable, Column, clone}
use cuda2rocm.HostTable.Overrun.{Overruns, clone-Overruns}
use cuda2rocm.HostTable.Cloning.{Settled, Holds, clone-Settled}
use cuda2rocm.HostTable.Ownership.{Store, convert_pointer, drop_pointer, convert_pointer_twice}
use cuda2rocm.Event.{Events, success, other}
use cuda2rocm.Event.Owners
use cuda2rocm.Event.Owners.{
  IsOwned, creates, destroys, move_assigns, represents, records, history-IsOwned,
}
use cuda2rocm.DiskTable.{generate_disk_file_path, digits, file_prefix, file_suffix}
use cuda2rocm.DiskTable.Paths.{generate_disk_file_path-injective}

-- Representations are numbers of their type.
abbrev up : Converter ℕ
up source space = ok (some (suc source))

abbrev key : Key
key = record { src = 3; target = 4 }

abbrev one_entry : Registry ℕ
one_entry = (key, up) ∷ []

abbrev changes : List (Call ℕ)
changes = registers key up ∷ unregisters (record { src = 7; target = 8 }) ∷ []

find-history_example : find ℕ key (history changes []) ≡ latest key changes (find ℕ key [])
find-history_example = find-history key changes [] tt

abbrev two_columns : List Column
two_columns =
    record { rows = 4; alloc_size = 16; address = 1000 }
    ∷ record { rows = 4; alloc_size = 32; address = 2000 }
    ∷ []

abbrev two_blocks : List Block
two_blocks = record { ptr = 1000; bytes = 16 } ∷ record { ptr = 2000; bytes = 32 } ∷ []

abbrev host : HostTable
host = record { allocation = some two_blocks; columns = []; total_bytes = 48 }

clone-Settled_example :
    Settled
      (some 5000)
      (clone (some 5000) (λ i. ltb i 1) (record { table = some host; space = 1 })).result
      (clone (some 5000) (λ i. ltb i 1) (record { table = some host; space = 1 })).freed
    × Holds 48 [] 1
        (clone (some 5000) (λ i. ltb i 1) (record { table = some host; space = 1 })).result
clone-Settled_example = clone-Settled (some 5000) (λ i. ltb i 1) host 1

-- A table of 100 bytes on one block of 1 MiB.
clone-Overruns_example :
    Overruns 100
      (clone
        (some 5000)
        (λ i. true)
        (record {
          table = some (record {
            allocation = some (make_blocks 4096 1048576 1);
            columns = [];
            total_bytes = 100;
          });
          space = 1;
        })).copies
clone-Overruns_example =
    clone-Overruns 5000 4096 1048576 1 100 1 [] (omega arith) (omega arith) (omega arith)
      (omega arith)

abbrev empty_store : Store
empty_store = record {
  destroyed = λ o. 0;
  owned = λ c. 0;
  uses = λ c. 0;
  next_object = 0;
  next_control = 0;
}

convert_pointer_twice_example :
    ((convert_pointer empty_store).0.destroyed (convert_pointer empty_store).1.object ≡ 1)
    × ((drop_pointer
            (convert_pointer empty_store).1.control
            (convert_pointer empty_store).0).destroyed
          (convert_pointer empty_store).1.object
        ≡ 2)
convert_pointer_twice_example = convert_pointer_twice empty_store

abbrev no_events : Events
no_events = record { handles = []; destroyed = []; next_event = 0 }

abbrev calls : List Owners.Call
calls =
    creates success
    ∷ creates success
    ∷ move_assigns 0 1
    ∷ represents
    ∷ records success other 2
    ∷ destroys 2
    ∷ []

no_events-IsOwned : IsOwned no_events
no_events-IsOwned zero = refl
no_events-IsOwned (suc n) = ground arith

history-IsOwned_example : IsOwned (Owners.history calls no_events)
history-IsOwned_example = history-IsOwned calls no_events no_events-IsOwned

-- "/a"
abbrev mount : List ℕ
mount = 0x2F ∷ 0x61 ∷ []

path-mount :
    generate_disk_file_path mount 205
    ≡ mount ++ (0x2F ∷ (file_prefix ++ (0x32 ∷ 0x30 ∷ 0x35 ∷ file_suffix)))
unfolding generate_disk_file_path digits
path-mount = refl

generate_disk_file_path-injective_example : (mount ≡ mount) × (◌≡◌ {A = ℕ} 205 205)
generate_disk_file_path-injective_example =
    generate_disk_file_path-injective mount mount 205 205 (omega arith) (omega arith) refl
