-- ===== src/HostResource/Small.antt =====
-- cucascade-rocm/include/cucascade/memory/small_pinned_host_memory_resource.hpp: a pool with small
-- blocks, whose calls go to the unmanaged ones of the pinned host pool.
use cuda2rocm.Base.{
  ℕ, ◌+◌, ◌^◌, ◌≤◌, ◌<◌, ◌≡◌, refl, Option, none, some, List, [], ◌∷◌, zero, suc, get_elem?,
  Option-cases, Bool-cases, ◌==◌, max, arith, word_mod, Result, ok, err, inl, inr,
}
use cuda2rocm.HostResource.{HostResource, new_resource, allocate, deallocate}
use cuda2rocm.HostResource.Committed.{
  Counter, IsBounded, do_release, do_reserve_outcome, do_release_lem,
}

abbrev pub max_slab_size : ℕ
max_slab_size = 2 ^ 20

unfoldable pub new_small : ℕ → ℕ → HostResource
new_small mem_limit slab_size = new_resource mem_limit slab_size

unfoldable pub small_allocate : Option ℕ → ℕ → HostResource → HostResource × Result (Option ℕ)
small_allocate memory bytes s = allocate memory bytes s

unfoldable pub small_deallocate : Option ℕ → ℕ → HostResource → HostResource
small_deallocate ptr bytes s = deallocate ptr bytes s

-- Calls on a resource: an allocation with what the driver answers, and a free of the allocation at an
-- index among those in hand.
pub data Call : Type 0 where
  takes : Option ℕ → ℕ → Call
  frees : ℕ → Call

-- The bytes of the allocations in hand, the last first.
pub record Client : Type 0 where
  pub pool : HostResource
  pub hand : List (ℕ × ℕ)

drop_at : ℕ → List (ℕ × ℕ) → List (ℕ × ℕ)
drop_at i [] = []
drop_at zero (x ∷ xs) = xs
drop_at (suc i) (x ∷ xs) = x ∷ drop_at i xs

keep : ℕ → HostResource × Result (Option ℕ) → List (ℕ × ℕ) → Client
keep bytes (s, ok (some ptr)) hand = record { pool = s; hand = (ptr, bytes) ∷ hand }
keep bytes (s, ok none) hand = record { pool = s; hand = hand }
keep bytes (s, err e) hand = record { pool = s; hand = hand }

pub call : Call → Client → Client
unfolding keep drop_at
call (takes memory bytes) c = keep bytes (small_allocate memory bytes c.pool) c.hand
call (frees i) c = elim (get_elem? c.hand i) [
  | none ↦ c
  | some (ptr, bytes) ↦ record {
    pool = small_deallocate (some ptr) bytes c.pool;
    hand = drop_at i c.hand;
  }
]

pub calls : List Call → Client → Client
unfolding call
calls [] c = c
calls (x ∷ xs) c = calls xs (call x c)

abbrev pub in_hand : List (ℕ × ℕ) → ℕ
in_hand [] = 0
in_hand ((ptr, bytes) ∷ xs) = bytes + in_hand xs

-- The counter is the sum of the bytes in hand, not of whole slabs, and within the limit.
pub record IsExact (c : Client) : Type 0 where
  pub bounded : IsBounded c.pool.counter
  pub sum : c.pool.total_allocated ≡ in_hand c.hand

in_hand-drop_at :
    (i ptr bytes : ℕ) (xs : List (ℕ × ℕ))
    → get_elem? xs i ≡ some (ptr, bytes)
    → in_hand (drop_at i xs) + bytes ≡ in_hand xs
unfolding drop_at
in_hand-drop_at i ptr bytes [] e = cc
in_hand-drop_at zero ptr bytes ((p, b) ∷ xs) e = ground arith
in_hand-drop_at (suc i) ptr bytes ((p, b) ∷ xs) e = ground (arith, in_hand-drop_at i ptr bytes xs)

released-IsBounded : (bytes : ℕ) (c : Counter) → IsBounded c → IsBounded (do_release bytes c)
released-IsBounded bytes c v = rw (do_release_lem bytes c) (record {
  limited = v.limited;
  word = v.word;
  within = omega (arith, v.within);
  peaked = omega (arith, v.peaked);
})

reserved-IsBounded :
    (bytes : ℕ) (c : Counter)
    → IsBounded c
    → c.total_allocated + bytes ≤ c.mem_limit
    → IsBounded (record c {
      total_allocated = c.total_allocated + bytes;
      peak_allocated = max c.peak_allocated (c.total_allocated + bytes);
    })
reserved-IsBounded bytes c v fits = record {
  limited = v.limited;
  word = v.word;
  within = fits;
  peaked = omega arith;
}

takes-IsExact :
    (memory : Option ℕ) (bytes : ℕ) (c : Client) → IsExact c → IsExact (call (takes memory bytes) c)
unfolding call keep small_allocate allocate
takes-IsExact memory bytes c v = elim (Bool-cases (bytes == 0)) [
  | inl nothing ↦ rw (nothing, call, small_allocate, allocate) v
  | inr more ↦ elim (do_reserve_outcome bytes c.pool.counter v.bounded) [
    | inr (full, e) ↦ rw (more, e, call, small_allocate, allocate) v
    | inl (fits, e) ↦
        let w = reserved-IsBounded bytes c.pool.counter v.bounded fits in
        let before = v.sum in
        elim (Option-cases memory) [
          | inl failed ↦
              rw (more, e, failed, call, small_allocate, allocate)
                (record {
                  bounded = released-IsBounded bytes _ w;
                  sum = rw (do_release_lem bytes) (omega arith);
                })
          | inr (ptr, got) ↦
              rw (more, e, got, call, small_allocate, allocate)
                (record { bounded = w; sum = omega arith })
        ]
  ]
]

frees-IsExact : (i : ℕ) (c : Client) → IsExact c → IsExact (call (frees i) c)
unfolding call small_deallocate deallocate
frees-IsExact i c v = elim (Option-cases (get_elem? c.hand i)) [
  | inl nothing ↦ rw (nothing, call) v
  | inr ((ptr, bytes), got) ↦
      let left = in_hand-drop_at i ptr bytes c.hand got in
      let sum = v.sum in
      rw (got, call)
        (record {
          bounded = released-IsBounded bytes c.pool.counter v.bounded;
          sum = rw (do_release_lem bytes c.pool.counter) (omega (arith, left, sum));
        })
]

calls-IsExact : (xs : List Call) (c : Client) → IsExact c → IsExact (calls xs c)
unfolding calls
calls-IsExact [] c v = v
calls-IsExact (takes memory bytes ∷ xs) c v = calls-IsExact xs _ (takes-IsExact memory bytes c v)
calls-IsExact (frees i ∷ xs) c v = calls-IsExact xs _ (frees-IsExact i c v)

abbrev pub new_client : ℕ → ℕ → Client
new_client mem_limit slab_size = record { pool = new_small mem_limit slab_size; hand = [] }

new_client-IsExact :
    (mem_limit slab_size : ℕ)
    → 0 < mem_limit
    → mem_limit < word_mod
    → IsExact (new_client mem_limit slab_size)
unfolding new_small new_resource
new_client-IsExact mem_limit slab_size pos small = record {
  bounded = record { limited = pos; word = small; within = omega arith; peaked = omega arith };
  sum = refl;
}

-- After any sequence of allocations and frees on a new resource with a limit, with any failures of
-- the driver: the counter of the pool is exactly the sum of the bytes that were asked for and are
-- still in hand, whatever the size of a slab, and it is within the limit.
pub calls-new_client :
    (xs : List Call) (mem_limit slab_size : ℕ)
    → 0 < mem_limit
    → mem_limit < word_mod
    → let c = calls xs (new_client mem_limit slab_size) in
      (c.pool.total_allocated ≡ in_hand c.hand) × (c.pool.total_allocated ≤ c.pool.mem_limit)
calls-new_client xs mem_limit slab_size pos small =
    let v = calls-IsExact xs _ (new_client-IsExact mem_limit slab_size pos small) in
    (v.sum, v.bounded.within)
