-- ===== src/StreamPool.antt =====
-- cucascade-rocm/include/cucascade/memory/stream_pool.hpp: the exclusive stream pool and the borrowed
-- streams. A stream handle is a number; whether the HIP runtime creates a stream, and with which
-- handle, is an argument.
pub mod Flags
pub mod Exclusive
pub mod Lifetime
use cuda2rocm.Base.{
  ℕ, zero, suc, ◌%◌, ◌+◌, Bool, true, false, ◌&&◌, Option, none, some, List, [], ◌∷◌, ◌++◌, ltb,
  ◌==◌, if◌then◌else◌, length, set,
}

pub record StreamPool : Type 0 where
  pub streams : List ℕ
  pub free : List Bool

pub data AcquirePolicy : Type 0 where
  grow block : AcquirePolicy

-- Whether a stream is created with the highest priority: the even ones, where priorities exist and
-- the highest is not 0.
unfoldable pub high_priority : Bool → Bool → ℕ → Bool
high_priority supported max_nonzero index = supported && (index % 2 == 0) && max_nonzero

-- The constructor: a free stream for each that the runtime creates.
unfoldable pub new_pool : List (Option ℕ) → StreamPool
new_pool [] = record { streams = []; free = [] }
new_pool (none ∷ created) = new_pool created
new_pool (some h ∷ created) =
    let p = new_pool created in record { streams = h ∷ p.streams; free = true ∷ p.free }

-- The first free index.
unfoldable pub find_free : List Bool → Option ℕ
find_free [] = none
find_free (true ∷ fs) = some 0
find_free (false ∷ fs) = elim (find_free fs) [ none ↦ none | some i ↦ some (suc i) ]

-- The growth: a new stream that is not free.
unfoldable pub grow_pool : Option ℕ → StreamPool → StreamPool × Option ℕ
grow_pool none p = (p, none)
grow_pool (some h) p =
    (record { streams = p.streams ++ h ∷ []; free = p.free ++ false ∷ [] }, some (length p.streams))

-- The pool after, and the index of the borrowed stream; `none` is the per-thread default stream,
-- which belongs to no pool.
unfoldable pub acquire_stream : AcquirePolicy → Option ℕ → StreamPool → StreamPool × Option ℕ
acquire_stream policy created p = elim (find_free p.free) [
  | some i ↦ (record p { free = set p.free i false }, some i)
  | none ↦ elim policy [ grow ↦ grow_pool created p | block ↦ (p, none) ]
]

unfoldable pub return_stream : ℕ → StreamPool → StreamPool
return_stream i p = if ltb i (length p.free) then record p { free = set p.free i true } else p

-- A borrowed stream: the index in its pool, or none once it is released or moved from.
unfoldable pub release : Option ℕ → StreamPool → StreamPool × Option ℕ
unfolding return_stream
release none p = (p, none)
release (some i) p = (return_stream i p, none)

-- The move constructor: the new owner and the source.
unfoldable pub move_from : Option ℕ → Option ℕ × Option ℕ
move_from source = (source, none)

-- The move assignment from another stream: the pool, the target and the source.
unfoldable pub move_assign : Option ℕ → Option ℕ → StreamPool → StreamPool × Option ℕ × Option ℕ
unfolding release
move_assign target source p = ((release target p).0, source, none)

-- What the destructor asks of the runtime, which answers nothing that it reads.
pub data RuntimeCall : Type 0 where
  stream_synchronize stream_destroy : ℕ → RuntimeCall

-- The loop of the destructor over the streams; the null handle is 0.
unfoldable pub destroy_streams : List ℕ → List RuntimeCall
destroy_streams [] = []
destroy_streams (h ∷ streams) =
    let rest = destroy_streams streams in
    if h == 0 then rest else stream_synchronize h ∷ stream_destroy h ∷ rest

unfoldable pub destroy_pool : StreamPool → List RuntimeCall
destroy_pool p = destroy_streams p.streams
