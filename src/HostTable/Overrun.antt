-- ===== src/HostTable/Overrun.antt =====
-- A clone of a table whose blocks have more bytes than the table.
use cuda2rocm.Base.{
  ℕ, zero, suc, ◌+◌, ◌*◌, ◌≤◌, ◌<◌, ◌≡◌, refl, true, not, ◌&&◌, some, List, ◌==◌, Among, arith, inl,
  inr,
}
use native.Mathlib.Decide.{dec_le}
use cuda2rocm.HostResource.Blocks.{make_blocks}
use cuda2rocm.HostTable.{HostRepresentation, Copy, Attempt, copy_pieces, ColumnMetadata, clone}
use cuda2rocm.HostTable.Copies.{Ending, empty, unallocated, filled, refused, fill-Ending}

-- Some copy ends past the first `n` bytes.
abbrev pub Overruns : ℕ → List Copy → Type 0
Overruns n cs = (c : Copy) × Among c cs × (n < c.offset + c.bytes)

-- The copies of the blocks of one allocation, of which the driver takes all.
make_blocks-Overruns :
    (i offset ptr size n limit : ℕ)
    → 0 < ptr
    → 0 < size
    → limit < offset + n * size
    → offset ≤ limit
    → Overruns limit (copy_pieces (λ _. true) i offset (make_blocks ptr size n)).0
unfolding copy_pieces make_blocks
make_blocks-Overruns i offset ptr size zero limit p q over le = absurd (omega (arith, over, le))
make_blocks-Overruns i offset ptr size (suc n) limit p q over le =
    let there : (not (ptr == 0) && not (size == 0)) ≡ true = ground (arith, p, q) in
    elim (dec_le (offset + size) limit) [
      | no past ↦
          rw (copy_pieces, there)
            (record { offset = offset; source = ptr; bytes = size }, inl refl, omega (arith, past))
      | yes within ↦
          let (c, m, o) =
            make_blocks-Overruns (suc i) (offset + size) (ptr + size) size n limit
              (omega (arith, p)) q (omega (arith, over)) within in
          rw (copy_pieces, there) (c, inr m, o)
    ]

-- Where a host table of some bytes lies on blocks of one allocation that have more bytes together,
-- and the driver takes all copies, cloning it issues a copy that ends past the buffer it has
-- allocated.
pub clone-Overruns :
    (buffer ptr size n total space : ℕ) (cols : List ColumnMetadata)
    → 0 < ptr
    → 0 < size
    → 0 < total
    → total < n * size
    → Overruns total
        (clone
          (some buffer)
          (λ _. true)
          (record {
            table = some (record {
              allocation = some (make_blocks ptr size n);
              columns = cols;
              total_bytes = total;
            });
            space = space;
          })).copies
unfolding clone
clone-Overruns buffer ptr size n total space cols p q r over =
    over_copies _ (fill-Ending (some buffer) (λ _. true) (make_blocks ptr size n) cols total space)
  where
    over_copies :
        (a : Attempt HostRepresentation)
        → Ending (some buffer) (λ _. true) (make_blocks ptr size n) cols total space a
        → Overruns total a.copies
    over_copies a (empty z) = absurd (omega (arith, z, r))
    over_copies a (unallocated m) = cc
    over_copies a (filled b m d) =
        make_blocks-Overruns 0 0 ptr size n total p q (omega (arith, over)) (omega arith)
    over_copies a (refused b m d) =
        make_blocks-Overruns 0 0 ptr size n total p q (omega (arith, over)) (omega arith)
