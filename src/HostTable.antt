-- ===== src/HostTable.antt =====
-- cucascade-rocm/include/cucascade/cudf: host_table.hpp, host_data_representation.hpp and the
-- converters of builtin_converters.hpp. A column of a cudf table is its rows, the bytes of its
-- allocation and the address of its data (0 is the null pointer); a copy is the place in the new
-- buffer, the address it is from and its bytes.
pub mod Ownership
pub mod Copies
pub mod Overrun
pub mod Cloning
use cuda2rocm.Base.{
  ℕ, zero, suc, ◌+◌, Bool, true, false, not, ◌&&◌, Option, none, some, List, [], ◌∷◌, map, ◌==◌,
  if◌then◌else◌, add_word, get_or, length, ltb, Result, ok, err, out_of_memory, copy_failed,
  no_table, needs_space, not_implemented, ◌>>=◌,
}
use cuda2rocm.HostResource.Blocks.{Block}

-- `column_metadata`, of which only the rows are set.
pub record ColumnMetadata : Type 0 where
  pub num_rows : ℕ

-- `host_table_allocation`, with the blocks of its allocation, none where that is null.
pub record HostTable : Type 0 where
  pub allocation : Option (List Block)
  pub columns : List ColumnMetadata
  pub total_bytes : ℕ

unfoldable pub create : Option (List Block) → List ColumnMetadata → ℕ → HostTable
create alloc cols offset = record { allocation = alloc; columns = cols; total_bytes = offset }

pub num_columns : HostTable → ℕ
num_columns t = length t.columns

-- 0 past the last column.
pub column_size : ℕ → HostTable → ℕ
column_size i t = (get_or t.columns i (record { num_rows = 0 })).num_rows

-- `host_data_representation`
pub record HostRepresentation : Type 0 where
  pub table : Option HostTable
  pub space : ℕ

unfoldable pub get_size_in_bytes : HostRepresentation → ℕ
get_size_in_bytes r = elim r.table [ none ↦ 0 | some t ↦ t.total_bytes ]

pub record Column : Type 0 where
  pub rows : ℕ
  pub alloc_size : ℕ
  pub address : ℕ

-- `gpu_table_representation`
pub record GpuRepresentation : Type 0 where
  pub table : Option (List Column)
  pub space : ℕ

pub record Copy : Type 0 where
  pub offset : ℕ
  pub source : ℕ
  pub bytes : ℕ

-- What a call returns, the copies that it has issued, and the buffers that it has freed again.
pub record Attempt (A : Type 0) : Type 0 where
  pub result : Result A
  pub copies : List Copy
  pub freed : List ℕ

-- The loop of `hipMemcpyAsync` over pieces of memory; `copied` says which copies the driver takes.
-- The flag is false where one was refused.
unfoldable pub copy_pieces : (ℕ → Bool) → ℕ → ℕ → List Block → List Copy × Bool
copy_pieces copied i offset [] = ([], true)
copy_pieces copied i offset (b ∷ bs) =
    let skipped = copy_pieces copied (suc i) offset bs in
    let (rest, done) = copy_pieces copied (suc i) (offset + b.bytes) bs in
    if not (b.ptr == 0) && not (b.bytes == 0)
    then (if copied i
        then (record { offset = offset; source = b.ptr; bytes = b.bytes } ∷ rest, done)
        else ([], false))
    else skipped

-- The columns as pieces of memory, and the sum of their sizes.
abbrev pub pieces : List Column → List Block
pieces [] = []
pieces (c ∷ cs) = record { ptr = c.address; bytes = c.alloc_size } ∷ pieces cs

unfoldable pub total_size : List Column → ℕ
total_size [] = 0
total_size (c ∷ cs) = add_word c.alloc_size (total_size cs)

unfoldable pub metadata : List Column → List ColumnMetadata
metadata [] = []
metadata (c ∷ cs) = record { num_rows = c.rows } ∷ metadata cs

-- `gpu_table_representation::get_size_in_bytes`
unfoldable pub gpu_size_in_bytes : GpuRepresentation → ℕ
unfolding total_size
gpu_size_in_bytes r = elim r.table [ none ↦ 0 | some cols ↦ total_size cols ]

-- A representation of a new table.
unfoldable pub new_host : List Block → List ColumnMetadata → ℕ → ℕ → HostRepresentation
unfolding create
new_host blocks cols total space = record {
  table = some (create (some blocks) cols total);
  space = space;
}

-- A buffer of `total` bytes from `hipMallocHost`, which answers with its address, filled from some
-- pieces and made the one block of a table; nothing is allocated where there are no bytes.
unfoldable pub fill :
    Option ℕ → (ℕ → Bool) → List Block → List ColumnMetadata → ℕ → ℕ → Attempt HostRepresentation
unfolding new_host copy_pieces
fill malloc copied from cols total space =
    if total == 0
    then record { result = ok (new_host [] cols total space); copies = []; freed = [] }
    else elim malloc [
      | none ↦ record { result = err out_of_memory; copies = []; freed = [] }
      | some buffer ↦
          let (copies, done) = copy_pieces copied 0 0 from in
          if done
          then record {
            result = ok (new_host (record { ptr = buffer; bytes = total } ∷ []) cols total space);
            copies = copies;
            freed = [];
          }
          else record { result = err copy_failed; copies = copies; freed = buffer ∷ [] }
    ]

-- `host_data_representation::clone`; the buffer of a table without an allocation is zeroed.
unfoldable pub clone : Option ℕ → (ℕ → Bool) → HostRepresentation → Attempt HostRepresentation
unfolding fill
clone malloc copied r = elim r.table [
  | none ↦ record { result = ok r; copies = []; freed = [] }
  | some t ↦ elim t.allocation [
    | none ↦ fill malloc copied [] t.columns t.total_bytes r.space
    | some blocks ↦ fill malloc copied blocks t.columns t.total_bytes r.space
  ]
]

-- The converter of a GPU table to a host table.
unfoldable pub gpu_to_host :
    Option ℕ → (ℕ → Bool) → ℕ → GpuRepresentation → Attempt HostRepresentation
unfolding fill total_size metadata
gpu_to_host malloc copied target r = elim r.table [
  | none ↦ record { result = err no_table; copies = []; freed = [] }
  | some cols ↦ fill malloc copied (pieces cols) (metadata cols) (total_size cols) target
]

-- The converter of a host table to a GPU table: an empty table for an empty one, and nothing else.
unfoldable pub host_to_gpu : HostRepresentation → Result GpuRepresentation
host_to_gpu r = elim r.table [
  | none ↦ ok (record { table = some []; space = r.space })
  | some t ↦ elim t.allocation [
    | none ↦ ok (record { table = some []; space = r.space })
    | some blocks ↦
        if t.total_bytes == 0
        then ok (record { table = some []; space = r.space })
        else err not_implemented
  ]
]

-- The constructor from a view and its owner, which keeps neither.
pub gpu_from_view : List Column → ℕ → GpuRepresentation
gpu_from_view view space = record { table = none; space = space }

-- `release_table`: the table is handed out, and the representation has none.
unfoldable pub release_table : GpuRepresentation → GpuRepresentation × Option (List Column)
release_table r = (record r { table = none }, r.table)

-- `gpu_table_representation::clone`, with the columns that `cudf::copy` makes of some.
unfoldable pub gpu_clone : (List Column → List Column) → GpuRepresentation → GpuRepresentation
gpu_clone copy r = elim r.table [
  | none ↦ record { table = none; space = r.space }
  | some cols ↦ record { table = some (copy cols); space = r.space }
]

-- `host_table_packed_allocation`, none where it is null, and its clone.
pub record PackedRepresentation : Type 0 where
  pub total_bytes : Option ℕ
  pub space : ℕ

unfoldable pub packed_size : PackedRepresentation → ℕ
packed_size r = elim r.total_bytes [ none ↦ 0 | some n ↦ n ]

unfoldable pub packed_clone : PackedRepresentation → PackedRepresentation
unfolding packed_size
packed_clone r = record { total_bytes = some (packed_size r); space = r.space }
