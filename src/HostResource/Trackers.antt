-- ===== src/HostResource/Trackers.antt =====
-- The maps of the pinned host pool: the trackers of live reservations, by the address of the arena,
-- and the live allocations, by the address of the handle. An entry also holds the size of the arena
-- that lies at its address; `allocated_bytes` is an `int64_t`.
use cuda2rocm.Base.{
  ℕ, ◌+◌, ◌-◌, ◌≤◌, ◌<◌, ◌≡◌, Option, none, some, List, [], ◌∷◌, ltb, ◌==◌, if◌then◌else◌, add_word,
  sub_word, signed_le, signed_lt, size_max, arith, max, ◌^◌,
}

pub record Entry : Type 0 where
  pub arena : ℕ
  pub arena_size : ℕ
  pub allocated_bytes : ℕ

pub record LiveAlloc : Type 0 where
  pub object : ℕ
  pub ptr : ℕ
  pub bytes : ℕ

unfoldable pub find : ℕ → List Entry → Option Entry
find a [] = none
find a (e ∷ es) = if e.arena == a then some e else find a es

-- `fetch_add` and `fetch_sub` on the tracker that `find` returns.
unfoldable pub add_used : ℕ → ℕ → List Entry → List Entry
add_used a n [] = []
add_used a n (e ∷ es) =
    if e.arena == a
    then record e { allocated_bytes = add_word e.allocated_bytes n } ∷ es
    else e ∷ add_used a n es

unfoldable pub sub_used : ℕ → ℕ → List Entry → List Entry
sub_used a n [] = []
sub_used a n (e ∷ es) =
    if e.arena == a
    then record e { allocated_bytes = sub_word e.allocated_bytes n } ∷ es
    else e ∷ sub_used a n es

unfoldable pub erase : ℕ → List Entry → List Entry
erase a [] = []
erase a (e ∷ es) = if e.arena == a then es else e ∷ erase a es

-- `try_emplace` of a new arena: a tracker that is there already stays.
unfoldable pub emplace : ℕ → ℕ → List Entry → List Entry
unfolding find
emplace a size es = elim (find a es) [
  | none ↦ record { arena = a; arena_size = size; allocated_bytes = 0 } ∷ es
  | some e ↦
      record { arena = a; arena_size = size; allocated_bytes = e.allocated_bytes } ∷ erase a es
]

-- `reserved_arena_bytes::grow_by`, through a reservation's `grow_by`.
unfoldable pub grow_by : ℕ → ℕ → List Entry → List Entry
grow_by a n [] = []
grow_by a n (e ∷ es) =
    if e.arena == a
    then record e {
      arena_size = if ltb (size_max - e.arena_size) n then size_max else e.arena_size + n;
    }
      ∷ es
    else e ∷ grow_by a n es

unfoldable pub find_alloc : ℕ → List LiveAlloc → Option LiveAlloc
find_alloc o [] = none
find_alloc o (l ∷ ls) = if l.object == o then some l else find_alloc o ls

unfoldable pub erase_alloc : ℕ → List LiveAlloc → List LiveAlloc
erase_alloc o [] = []
erase_alloc o (l ∷ ls) = if l.object == o then ls else l ∷ erase_alloc o ls

-- `upstream_tracked_bytes` of an allocation of `bytes` under a reservation of `size` bytes whose
-- tracker held `pre`.
unfoldable pub overflow_charge : ℕ → ℕ → ℕ → ℕ
overflow_charge size pre bytes =
    let post = add_word pre bytes in
    if signed_le post size then 0 else if signed_lt pre size then sub_word post size else bytes

-- `tracked_bytes` of a freed allocation of `bytes`, where the tracker held `pre`.
unfoldable pub overflow_credit : ℕ → ℕ → ℕ → ℕ
overflow_credit size pre bytes =
    let post = sub_word pre bytes in
    if signed_le pre size then 0 else if signed_lt post size then sub_word pre size else bytes

-- `reclaimed_bytes` of a reservation that is released.
unfoldable pub unconsumed : ℕ → ℕ → ℕ
unconsumed size used =
    let current = if signed_lt used 0 then 0 else used in
    if signed_lt current size then sub_word size current else 0

-- The bytes that all live reservations were made for.
unfoldable pub sizes : List Entry → ℕ
sizes [] = 0
sizes (e ∷ es) = add_word e.arena_size (sizes es)

-- Below 2 ^ 63 the casts to `int64_t` keep the value. Then the charge and the credit are what raises
-- and lowers the larger of the size and the bytes in use.
pub overflow_charge_lem :
    (size pre bytes : ℕ)
    → size < 2 ^ 63
    → pre + bytes < 2 ^ 63
    → overflow_charge size pre bytes + max size pre ≡ max size (pre + bytes)
unfolding overflow_charge
overflow_charge_lem size pre bytes h k = ground arith

pub overflow_credit_lem :
    (size pre bytes : ℕ)
    → size < 2 ^ 63
    → pre < 2 ^ 63
    → bytes ≤ pre
    → overflow_credit size pre bytes + max size (pre - bytes) ≡ max size pre
unfolding overflow_credit
overflow_credit_lem size pre bytes h k l = ground arith

pub unconsumed_lem :
    (size used : ℕ) → size < 2 ^ 63 → used < 2 ^ 63 → unconsumed size used ≡ size - used
unfolding unconsumed
unconsumed_lem size used h k = ground arith
