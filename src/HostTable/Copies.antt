-- ===== src/HostTable/Copies.antt =====
-- Where the copies of a clone and of a conversion go in the new buffer.
use cuda2rocm.Base.{
  ℕ, suc, ◌+◌, ◌≤◌, ◌<◌, ◌≡◌, refl, ap, Bool, true, false, not, ◌&&◌, Option, none, some, List, [],
  ◌∷◌, ◌==◌, arith, Bool-cases, ==_iff, ok, err, out_of_memory, copy_failed, inl, inr, word_mod,
}
use mathlib.Core.Path.{subst}
use cuda2rocm.HostResource.Blocks.{Block}
use cuda2rocm.HostTable.{
  HostRepresentation, Column, Copy, Attempt, copy_pieces, pieces, total_size, metadata,
  ColumnMetadata, new_host, fill, clone, gpu_to_host,
}

abbrev pub sum_bytes : List Block → ℕ
sum_bytes [] = 0
sum_bytes (b ∷ bs) = b.bytes + sum_bytes bs

-- Each copy ends within the first `n` bytes, and starts where the one before it ends, the first at
-- `offset`.
abbrev pub Fill : ℕ → ℕ → List Copy → Type 0
Fill n offset [] = Unit {0}
Fill n offset (c ∷ cs) =
    (c.offset ≡ offset) × (c.offset + c.bytes ≤ n) × Fill n (c.offset + c.bytes) cs

copy_pieces-Fill :
    (copied : ℕ → Bool) (i offset n : ℕ) (bs : List Block)
    → offset + sum_bytes bs ≤ n
    → Fill n offset (copy_pieces copied i offset bs).0
unfolding copy_pieces
copy_pieces-Fill copied i offset n [] h = tt
copy_pieces-Fill copied i offset n (b ∷ bs) h =
    elim (Bool-cases (not (b.ptr == 0) && not (b.bytes == 0))) [
      | inr e ↦ rw (copy_pieces, e) (copy_pieces-Fill copied (suc i) offset n bs (omega (arith, h)))
      | inl e ↦ elim (Bool-cases (copied i)) [
        | inr f ↦ rw (copy_pieces, e, f) tt
        | inl t ↦
            rw (copy_pieces, e, t)
              (
                refl,
                omega (arith, h),
                copy_pieces-Fill copied (suc i) (offset + b.bytes) n bs (omega (arith, h)),
              )
      ]
    ]

-- The ways in which filling a buffer ends.
module _ (malloc : Option ℕ) (copied : ℕ → Bool) (bs : List Block) (cols : List ColumnMetadata)
    (total space : ℕ) where
  pub data Ending : Attempt HostRepresentation → Type 0 where
    empty :
        total ≡ 0
        → Ending (record { result = ok (new_host [] cols total space); copies = []; freed = [] })
    unallocated :
        malloc ≡ none → Ending (record { result = err out_of_memory; copies = []; freed = [] })
    filled :
        (buffer : ℕ)
        → malloc ≡ some buffer
        → (copy_pieces copied 0 0 bs).1 ≡ true
        → Ending (record {
          result = ok (new_host (record { ptr = buffer; bytes = total } ∷ []) cols total space);
          copies = (copy_pieces copied 0 0 bs).0;
          freed = [];
        })
    refused :
        (buffer : ℕ)
        → malloc ≡ some buffer
        → (copy_pieces copied 0 0 bs).1 ≡ false
        → Ending (record {
          result = err copy_failed;
          copies = (copy_pieces copied 0 0 bs).0;
          freed = buffer ∷ [];
        })

  Ending-Fill :
      (a : Attempt HostRepresentation) → Ending a → sum_bytes bs ≤ total → Fill total 0 a.copies
  Ending-Fill a (empty z) h = tt
  Ending-Fill a (unallocated m) h = tt
  Ending-Fill a (filled buffer m d) h = copy_pieces-Fill copied 0 0 total bs (omega (arith, h))
  Ending-Fill a (refused buffer m d) h = copy_pieces-Fill copied 0 0 total bs (omega (arith, h))

pub fill-Ending :
    (malloc : Option ℕ) (copied : ℕ → Bool) (bs : List Block) (cols : List ColumnMetadata)
    (total space : ℕ)
    → Ending malloc copied bs cols total space (fill malloc copied bs cols total space)
unfolding fill
fill-Ending none copied bs cols total space = elim (Bool-cases (total == 0)) [
  | inl z ↦ rw (fill, z) (empty ((==_iff total 0).0 z))
  | inr z ↦ rw (fill, z) (unallocated refl)
]
fill-Ending (some buffer) copied bs cols total space = elim (Bool-cases (total == 0)) [
  | inl z ↦ rw (fill, z) (empty ((==_iff total 0).0 z))
  | inr z ↦ elim (Bool-cases (copy_pieces copied 0 0 bs).1) [
    | inl d ↦ rw (fill, z, d) (filled buffer refl d)
    | inr d ↦ rw (fill, z, d) (refused buffer refl d)
  ]
]

fill-Fill :
    (malloc : Option ℕ) (copied : ℕ → Bool) (bs : List Block) (cols : List ColumnMetadata)
    (total space : ℕ)
    → sum_bytes bs ≤ total
    → Fill total 0 (fill malloc copied bs cols total space).copies
fill-Fill malloc copied bs cols total space h =
    Ending-Fill malloc copied bs cols total space _ (fill-Ending malloc copied bs cols total space)
      h

abbrev pub column_bytes : List Column → ℕ
column_bytes [] = 0
column_bytes (c ∷ cs) = c.alloc_size + column_bytes cs

total_size-column_bytes :
    (cols : List Column) → column_bytes cols < word_mod → total_size cols ≡ column_bytes cols
unfolding total_size
total_size-column_bytes [] h = refl
total_size-column_bytes (c ∷ cs) h =
    rw (total_size-column_bytes cs (omega (arith, h))) (omega (arith, h))

sum_bytes-pieces : (cols : List Column) → sum_bytes (pieces cols) ≡ column_bytes cols
sum_bytes-pieces [] = refl
sum_bytes-pieces (c ∷ cs) = ap (λ n. c.alloc_size + n) (sum_bytes-pieces cs)

-- The copies of a conversion lie one after the other within the buffer.
pub gpu_to_host-Fill :
    (malloc : Option ℕ) (copied : ℕ → Bool) (target : ℕ) (cols : List Column) (space : ℕ)
    → column_bytes cols < word_mod
    → Fill
        (column_bytes cols)
        0
        (gpu_to_host malloc copied target (record { table = some cols; space = space })).copies
unfolding gpu_to_host
gpu_to_host-Fill malloc copied target cols space h =
    let same = total_size-column_bytes cols h in
    subst
      (λ n.
        Fill n 0 (fill malloc copied (pieces cols) (metadata cols) (total_size cols) target).copies)
      same
      (fill-Fill malloc copied (pieces cols) (metadata cols) (total_size cols) target
        (omega (arith, sum_bytes-pieces cols, same)))

-- So do those of a clone, where the blocks have no more bytes than the table.
pub clone-Fill :
    (malloc : Option ℕ) (copied : ℕ → Bool) (blocks : List Block) (cols : List ColumnMetadata)
    (total space : ℕ)
    → sum_bytes blocks ≤ total
    → Fill total 0
        (clone malloc copied (record {
          table = some (record { allocation = some blocks; columns = cols; total_bytes = total });
          space = space;
        })).copies
unfolding clone
clone-Fill malloc copied blocks cols total space h =
    fill-Fill malloc copied blocks cols total space h
