-- ===== src/HostTable/Cloning.antt =====
-- What a clone of a host table and a converted GPU table have of their source, and what is left of
-- the new buffer where the call throws.
use cuda2rocm.Base.{
  ℕ, ◌≡◌, refl, Bool, Option, none, some, List, [], ◌∷◌, Result, ok, err, out_of_memory,
  copy_failed,
}
use cuda2rocm.HostResource.Blocks.{Block}
use cuda2rocm.HostTable.{
  HostTable, HostRepresentation, ColumnMetadata, Column, Attempt, new_host, create,
  get_size_in_bytes, gpu_size_in_bytes, pieces, total_size, metadata, fill, clone, gpu_to_host,
}
use cuda2rocm.HostTable.Copies.{Ending, empty, unallocated, filled, refused, fill-Ending}

-- A call that throws has freed the buffer that it got, and one that returns has freed none.
abbrev pub Settled : Option ℕ → Result HostRepresentation → List ℕ → Type 0
Settled malloc (ok r) freed = freed ≡ []
Settled none (err e) freed = (freed ≡ []) × (e ≡ out_of_memory)
Settled (some buffer) (err e) freed = (freed ≡ buffer ∷ []) × (e ≡ copy_failed)

-- What is returned has the size, the columns and the space.
abbrev pub Holds : ℕ → List ColumnMetadata → ℕ → Result HostRepresentation → Type 0
Holds size cols space (ok r) =
    (get_size_in_bytes r ≡ size)
    × (r.space ≡ space)
    × ((t : HostTable) × (r.table ≡ some t) × (t.columns ≡ cols))
Holds size cols space (err e) = Unit {0}

module _ (malloc : Option ℕ) (copied : ℕ → Bool) (bs : List Block) (cols : List ColumnMetadata)
    (total space : ℕ) where
  Ending-Settled :
      (a : Attempt HostRepresentation)
      → Ending malloc copied bs cols total space a
      → Settled malloc a.result a.freed
  Ending-Settled a (empty z) = refl
  Ending-Settled a (unallocated m) = rw m (refl, refl)
  Ending-Settled a (filled b m d) = refl
  Ending-Settled a (refused b m d) = rw m (refl, refl)

  Ending-Holds :
      (a : Attempt HostRepresentation)
      → Ending malloc copied bs cols total space a
      → Holds total cols space a.result
  unfolding new_host create get_size_in_bytes
  Ending-Holds a (empty z) = (refl, refl, (_, refl, refl))
  Ending-Holds a (unallocated m) = tt
  Ending-Holds a (filled b m d) = (refl, refl, (_, refl, refl))
  Ending-Holds a (refused b m d) = tt

  fill-Settled :
      Settled malloc
        (fill malloc copied bs cols total space).result
        (fill malloc copied bs cols total space).freed
  fill-Settled = Ending-Settled _ (fill-Ending malloc copied bs cols total space)

  fill-Holds : Holds total cols space (fill malloc copied bs cols total space).result
  fill-Holds = Ending-Holds _ (fill-Ending malloc copied bs cols total space)

module _ (malloc : Option ℕ) (copied : ℕ → Bool) where
  table-Settled :
      (alloc : Option (List Block)) (cols : List ColumnMetadata) (total space : ℕ)
      → let a = clone malloc copied (record {
        table = some (record { allocation = alloc; columns = cols; total_bytes = total });
        space = space;
      }) in
        Settled malloc a.result a.freed × Holds total cols space a.result
  unfolding clone
  table-Settled none cols total space =
      (fill-Settled malloc copied [] cols total space, fill-Holds malloc copied [] cols total space)
  table-Settled (some bs) cols total space =
      (fill-Settled malloc copied bs cols total space, fill-Holds malloc copied bs cols total space)

  -- Cloning a host table either throws, and then has freed the buffer that it got and no other, or
  -- returns a representation in the same space with the table's size and columns, and then has
  -- freed nothing.
  pub clone-Settled :
      (t : HostTable) (space : ℕ)
      → Settled malloc
          (clone malloc copied (record { table = some t; space = space })).result
          (clone malloc copied (record { table = some t; space = space })).freed
        × Holds t.total_bytes t.columns space
            (clone malloc copied (record { table = some t; space = space })).result
  clone-Settled t space = table-Settled t.allocation t.columns t.total_bytes space

  -- The same of the conversion of a GPU table.
  pub gpu_to_host-Settled :
      (cols : List Column) (space target : ℕ)
      → Settled malloc
          (gpu_to_host malloc copied target (record { table = some cols; space = space })).result
          (gpu_to_host malloc copied target (record { table = some cols; space = space })).freed
        × Holds
            (gpu_size_in_bytes (record { table = some cols; space = space }))
            (metadata cols)
            target
            (gpu_to_host malloc copied target (record { table = some cols; space = space })).result
  unfolding gpu_to_host gpu_size_in_bytes
  gpu_to_host-Settled cols space target = (
    fill-Settled malloc copied (pieces cols) (metadata cols) (total_size cols) target,
    fill-Holds malloc copied (pieces cols) (metadata cols) (total_size cols) target,
  )
