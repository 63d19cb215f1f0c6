-- ===== src/HostResource/Reuse.antt =====
-- An arena address that is used again while an old allocation still names it, and an arena that grows.
use cuda2rocm.Base.{
  ℕ, ◌+◌, ◌-◌, ◌*◌, ◌/◌, ◌<◌, ◌≤◌, ◌≡◌, refl, ◌∙◌, max, sub_word, add_word, false, true, ◌==◌, none,
  some, arith, ◌^◌, List, [], ◌∷◌,
}
use cuda2rocm.HostResource.{
  HostResource, reserve, allocate_multiple_blocks, deallocate_multiple_blocks, release_reservation,
  credit, charge_tracker, commit,
}
use cuda2rocm.HostResource.Committed.{align_up, do_reserve, do_release, do_release_lem}
use cuda2rocm.HostResource.Trackers.{
  Entry, LiveAlloc, find, find_alloc, erase_alloc, overflow_credit, unconsumed, unconsumed_lem,
  grow_by, sub_used, add_used, emplace, erase, overflow_charge,
}

-- A reservation of whole blocks that an allocation fills and outlives, a second one whose arena the
-- heap puts at the same address, the free of the allocation and the release of the second one.
abbrev pub reuse : ℕ → ℕ → ℕ → ℕ → HostResource → HostResource
reuse arena object ptr n p =
    let p = (reserve arena n p).0 in
    let p = (allocate_multiple_blocks object (some ptr) n (some arena) p).0 in
    let p = release_reservation arena p in
    let p = (reserve arena n p).0 in
    let p = deallocate_multiple_blocks object (some arena) p in release_reservation arena p

-- The pool with its counter raised by some bytes, at a peak, and with some entries.
abbrev at_total : HostResource → ℕ → ℕ → List Entry → List LiveAlloc → HostResource
at_total p total peak es ls = record {
  counter = record { mem_limit = p.mem_limit; total_allocated = total; peak_allocated = peak };
  block_size = p.block_size;
  active_reservations = es;
  live_allocs = ls;
}

abbrev entry : ℕ → ℕ → ℕ → Entry
entry arena n used = record { arena = arena; arena_size = n; allocated_bytes = used }

reserve-at_total :
    (arena n total peak : ℕ) (p : HostResource) (es : List Entry) (ls : List LiveAlloc)
    → 0 < n
    → align_up n p.block_size ≡ n
    → p.mem_limit < 2 ^ 63
    → total + n ≤ p.mem_limit
    → find arena es ≡ none
    → (reserve arena n (at_total p total peak es ls)).0
      ≡ at_total p (total + n) (max peak (total + n)) (entry arena n 0 ∷ es) ls
unfolding reserve do_reserve emplace
reserve-at_total arena n total peak p es ls pos whole small fits new = ground (arith, whole, new)

release-at_total :
    (arena n used total peak : ℕ) (p : HostResource) (es : List Entry) (ls : List LiveAlloc)
    → release_reservation arena (at_total p total peak (entry arena n used ∷ es) ls)
      ≡ at_total p (total - unconsumed n used) peak es ls
unfolding release_reservation do_release find erase
release-at_total arena n used total peak p es ls = ground arith

abbrev live : ℕ → ℕ → ℕ → LiveAlloc
live object ptr n = record { object = object; ptr = ptr; bytes = n }

overflow_charge-full : (n : ℕ) → n < 2 ^ 63 → overflow_charge n 0 n ≡ 0
unfolding overflow_charge
overflow_charge-full n small = ground arith

charge_tracker-at_total :
    (arena object ptr n total peak : ℕ) (p : HostResource) (es : List Entry) (ls : List LiveAlloc)
    → n < 2 ^ 63
    → (charge_tracker object (some ptr) n arena (at_total p total peak (entry arena n 0 ∷ es) ls)).0
      ≡ at_total p total peak (entry arena n n ∷ es) (live object ptr n ∷ ls)
unfolding charge_tracker commit do_reserve find add_used
charge_tracker-at_total arena object ptr n total peak p es ls small =
    let itself : (arena == arena) ≡ true = ground arith in
    let kept : add_word 0 n ≡ n = omega arith in
    rw (itself, charge_tracker, find, overflow_charge-full n small, add_used, itself, kept) refl

allocate-at_total :
    (arena object ptr n total peak : ℕ) (p : HostResource) (es : List Entry) (ls : List LiveAlloc)
    → 0 < n
    → align_up n p.block_size ≡ n
    → n / p.block_size * p.block_size ≡ n
    → n < 2 ^ 63
    → (allocate_multiple_blocks object
        (some ptr)
        n
        (some arena)
        (at_total p total peak (entry arena n 0 ∷ es) ls)).0
      ≡ at_total p total peak (entry arena n n ∷ es) (live object ptr n ∷ ls)
unfolding allocate_multiple_blocks
allocate-at_total arena object ptr n total peak p es ls pos whole blocks small =
    let some_bytes : (n == 0) ≡ false = ground arith in
    rw (some_bytes, allocate_multiple_blocks, whole, blocks)
      (charge_tracker-at_total arena object ptr n total peak p es ls small)

deallocate-at_total :
    (arena object ptr n total peak : ℕ) (p : HostResource) (es : List Entry) (ls : List LiveAlloc)
    → n < 2 ^ 63
    → deallocate_multiple_blocks object
        (some arena)
        (at_total p total peak (entry arena n 0 ∷ es) (live object ptr n ∷ ls))
      ≡ at_total p total peak (entry arena n (sub_word 0 n) ∷ es) ls
unfolding deallocate_multiple_blocks credit do_release find find_alloc erase_alloc sub_used
    overflow_credit
deallocate-at_total arena object ptr n total peak p es ls small = ground arith

unconsumed-wrapped : (n : ℕ) → 0 < n → n < 2 ^ 63 → unconsumed n (sub_word 0 n) ≡ n
unfolding unconsumed
unconsumed-wrapped n pos small = ground arith

unconsumed-full : (n : ℕ) → n < 2 ^ 63 → unconsumed n n ≡ 0
unfolding unconsumed
unconsumed-full n small = ground arith

-- On a pool with a limit below 2 ^ 63 and room for twice the bytes, which are whole blocks: a
-- reservation is filled by an allocation that outlives it, a second reservation has its arena at
-- the same address, then the allocation is freed and the second reservation released. Neither
-- reservation nor allocation is left, but the bytes stay committed.
pub reuse-total_allocated :
    (arena object ptr n : ℕ) (p : HostResource)
    → 0 < n
    → align_up n p.block_size ≡ n
    → n / p.block_size * p.block_size ≡ n
    → p.mem_limit < 2 ^ 63
    → p.total_allocated + n + n ≤ p.mem_limit
    → find arena p.active_reservations ≡ none
    → let p' = reuse arena object ptr n p in
      (p'.total_allocated ≡ p.total_allocated + n)
      × (p'.active_reservations ≡ p.active_reservations)
      × (p'.live_allocs ≡ p.live_allocs)
reuse-total_allocated arena object ptr n p pos whole blocks small room new =
    let es = p.active_reservations in
    let ls = p.live_allocs in
    let t = p.total_allocated in
    let peak = p.peak_allocated in
    let peak' = max peak (t + n) in
    let ls' = live object ptr n ∷ ls in
    let size : n < 2 ^ 63 = omega arith in
    let first = reserve-at_total arena n t peak p es ls pos whole small (omega arith) new in
    let second = allocate-at_total arena object ptr n (t + n) peak' p es ls pos whole blocks size in
    let kept : t + n - unconsumed n n ≡ t + n = omega (arith, unconsumed-full n size) in
    let third : release_reservation arena (at_total p (t + n) peak' (entry arena n n ∷ es) ls')
        ≡ at_total p (t + n) peak' es ls' =
      release-at_total arena n n (t + n) peak' p es ls' ∙ rw kept refl in
    let fourth =
      reserve-at_total arena n (t + n) peak' p es ls' pos whole small (omega arith) new in
    let peak'' = max peak' (t + n + n) in
    let fifth = deallocate-at_total arena object ptr n (t + n + n) peak'' p es ls size in
    let sixth = release-at_total arena n (sub_word 0 n) (t + n + n) peak'' p es ls in
    rw (first, second, third, fourth, fifth, sixth, unconsumed-wrapped n pos size)
      (omega arith, refl, refl)

find-grow_by :
    (a n : ℕ) (es : List Entry) (e : Entry)
    → find a es ≡ some e
    → e.arena_size + n < 2 ^ 63
    → find a (grow_by a n es) ≡ some (record e { arena_size = e.arena_size + n })
unfolding find grow_by
find-grow_by a n [] e f h = cc
find-grow_by a n (x ∷ es) e f h = ground (arith, find-grow_by a n es e)

-- Where the grown size is within an int64_t, growing the arena of an unused reservation charges
-- nothing, and its release credits the grown size.
pub release-grow_by :
    (s : HostResource) (a n : ℕ) (e : Entry)
    → find a s.active_reservations ≡ some e
    → e.allocated_bytes ≡ 0
    → e.arena_size + n < 2 ^ 63
    → (release_reservation a
        (record s { active_reservations = grow_by a n s.active_reservations })).total_allocated
      ≡ s.total_allocated - (e.arena_size + n)
unfolding release_reservation
release-grow_by s a n e f unused small = ground (
  arith,
  find-grow_by a n s.active_reservations e f,
  unconsumed_lem (e.arena_size + n) 0,
  do_release_lem (unconsumed (e.arena_size + n) 0) s.counter,
)
