-- ===== src/MemcpyAsync.antt =====
-- cuda-compat-shims/include/cooperative_groups/memcpy_async.h: the copy by the threads of a block that
-- are first in x, and the barrier after it. Memory is a function from addresses to bytes; the threads
-- go one byte at a time, in the order of a schedule, and `__syncthreads` lets them on once all have
-- come to it.
pub mod Copied
pub mod Barrier
use cuda2rocm.Base.{
  ℕ, zero, suc, ◌+◌, Bool, true, false, ◌&&◌, List, [], ◌∷◌, ltb, ◌==◌, if◌then◌else◌,
}

-- In the loop of `copy_bytes` with the index that is next, or at the barrier.
pub data Phase : Type 0 where
  copying : ℕ → Phase
  waiting : Phase

pub record Thread : Type 0 where
  pub x : ℕ
  pub phase : Phase

-- The destination, the source and the bytes.
pub record Copy : Type 0 where
  pub dst : ℕ
  pub src : ℕ
  pub n : ℕ

unfoldable pub write : ℕ → ℕ → (ℕ → ℕ) → ℕ → ℕ
write at byte mem a = if a == at then byte else mem a

-- A round of the loop in `copy_bytes`.
unfoldable pub copy_byte : Copy → ℕ → (ℕ → ℕ) → (ℕ → ℕ) × Phase
unfolding write
copy_byte c i mem =
    if ltb i c.n then (write (c.dst + i) (mem (c.src + i)) mem, copying (suc i)) else (mem, waiting)

-- A thread whose index in x is not 0 goes to the barrier at once.
unfoldable pub proceed : Copy → ℕ → Phase → (ℕ → ℕ) → (ℕ → ℕ) × Phase
unfolding copy_byte
proceed c x (copying i) mem = if x == 0 then copy_byte c i mem else (mem, waiting)
proceed c x waiting mem = (mem, waiting)

unfoldable pub turn : Copy → ℕ → (ℕ → ℕ) → List Thread → (ℕ → ℕ) × List Thread
unfolding proceed
turn c i mem [] = (mem, [])
turn c zero mem (t ∷ ts) =
    let (mem', p) = proceed c t.x t.phase mem in (mem', record { x = t.x; phase = p } ∷ ts)
turn c (suc i) mem (t ∷ ts) = let (mem', rest) = turn c i mem ts in (mem', t ∷ rest)

unfoldable pub run : Copy → List ℕ → (ℕ → ℕ) → List Thread → (ℕ → ℕ) × List Thread
run c [] mem ts = (mem, ts)
run c (i ∷ schedule) mem ts = let (mem', rest) = turn c i mem ts in run c schedule mem' rest

-- `memcpy_async` by the threads of a block with some indices in x.
abbrev pub memcpy_async : List ℕ → List Thread
memcpy_async [] = []
memcpy_async (x ∷ xs) = record { x = x; phase = copying 0 } ∷ memcpy_async xs

-- `__syncthreads` lets the threads on.
unfoldable pub all_waiting : List Thread → Bool
all_waiting [] = true
all_waiting (t ∷ ts) = elim t.phase [ waiting ↦ true | copying i ↦ false ] && all_waiting ts
