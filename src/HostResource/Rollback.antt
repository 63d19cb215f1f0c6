-- ===== src/HostResource/Rollback.antt =====
-- What an allocation that throws leaves behind.
use cuda2rocm.Base.{
  ℕ, ◌+◌, ◌≤◌, ◌<◌, ◌≡◌, refl, Option, none, some, List, [], ◌∷◌, ◌==◌, arith, word_mod, err, Error,
  Bool-cases, Option-cases, inl, inr,
}
use native.Mathlib.Nat.{div-mul-le_self}
use cuda2rocm.HostResource.{
  HostResource, allocate_multiple_blocks, allocate, commit, charge_tracker, rounded,
}
use cuda2rocm.HostResource.Committed.{Counter, do_reserve, do_release, align_up}
use cuda2rocm.HostResource.Trackers.{Entry, find, add_used, sub_used, overflow_charge}

-- Each tracker is a word.
abbrev pub AllWords : List Entry → Type 0
AllWords [] = Unit {0}
AllWords (e ∷ es) = (e.allocated_bytes < word_mod) × AllWords es

-- A charge of a tracker is taken back.
sub_used-add_used_word :
    (a n : ℕ) (es : List Entry) → n < word_mod → AllWords es → sub_used a n (add_used a n es) ≡ es
unfolding add_used sub_used
sub_used-add_used_word a n [] h w = refl
sub_used-add_used_word a n (e ∷ es) h w = ground (arith, sub_used-add_used_word a n es)

-- Of the counter all but the peak is as before, and the peak is no less.
abbrev pub Restores : Counter → Counter → Type 0
Restores c d =
    (d.mem_limit ≡ c.mem_limit)
    × (d.total_allocated ≡ c.total_allocated)
    × (c.peak_allocated ≤ d.peak_allocated)

do_reserve-Restores :
    (n : ℕ) (c d : Counter)
    → 0 < c.mem_limit
    → c.mem_limit < word_mod
    → do_reserve n c ≡ some d
    → Restores c (do_release n d)
unfolding do_reserve do_release
do_reserve-Restores n c d pos fits e = (ground arith, ground arith, ground arith)

rounded-lt : (n size : ℕ) → n < word_mod → rounded n size < word_mod
unfolding align_up
rounded-lt n size h =
    let small : align_up n size < word_mod = ground arith in
    omega (arith, div-mul-le_self (align_up n size) size, small)

-- The pool but for its counter's peak.
abbrev pub Undone : HostResource → HostResource → Type 0
Undone s t =
    Restores s.counter t.counter
    × (t.block_size ≡ s.block_size)
    × (t.active_reservations ≡ s.active_reservations)
    × (t.live_allocs ≡ s.live_allocs)

commit-Undone :
    (object : ℕ) (memory : Option ℕ) (bytes : ℕ) (arena : Option ℕ) (upstream : ℕ)
    (charged rolled_back : List Entry) (s : HostResource) (x : Error)
    → 0 < s.mem_limit
    → s.mem_limit < word_mod
    → rolled_back ≡ s.active_reservations
    → (commit object memory bytes arena upstream charged rolled_back s).1 ≡ err x
    → Undone s (commit object memory bytes arena upstream charged rolled_back s).0
unfolding commit
commit-Undone object memory bytes arena upstream charged rolled_back s x pos fits same e =
    elim (Option-cases (do_reserve upstream s.counter)) [
      | inl full ↦ rw (full, commit) ((refl, refl, omega arith), refl, same, refl)
      | inr (c, reserved) ↦ elim (Option-cases memory) [
        | inl failed ↦
            rw (reserved, failed, commit)
              (do_reserve-Restores upstream s.counter c pos fits reserved, refl, same, refl)
        | inr (ptr, got) ↦ ground (arith, reserved, got)
      ]
    ]

charge_tracker-Undone :
    (object : ℕ) (memory : Option ℕ) (bytes arena : ℕ) (s : HostResource) (x : Error)
    → 0 < s.mem_limit
    → s.mem_limit < word_mod
    → bytes < word_mod
    → AllWords s.active_reservations
    → (charge_tracker object memory bytes arena s).1 ≡ err x
    → Undone s (charge_tracker object memory bytes arena s).0
unfolding charge_tracker
charge_tracker-Undone object memory bytes arena s x pos fits small w e =
    elim (Option-cases (find arena s.active_reservations)) [
      | inl freed ↦ rw (freed, charge_tracker) ((refl, refl, omega arith), refl, refl, refl)
      | inr (t, live) ↦
          rw (live, charge_tracker)
            (commit-Undone object memory bytes (some arena)
              (overflow_charge t.arena_size t.allocated_bytes bytes)
              (add_used arena bytes s.active_reservations)
              (sub_used arena bytes (add_used arena bytes s.active_reservations)) s x pos fits
              (sub_used-add_used_word arena bytes s.active_reservations small w)
              (rw (live, charge_tracker) at e))
    ]

-- Where an allocation throws, under a reservation or not, by a released reservation, a full pool or
-- a failure of the driver: the pool with a limit is as it was, its counter, its trackers and its
-- live allocations, but for the peak, which may have risen.
pub allocate_multiple_blocks-Undone :
    (object : ℕ) (memory : Option ℕ) (request : ℕ) (res : Option ℕ) (s : HostResource) (x : Error)
    → 0 < s.mem_limit
    → s.mem_limit < word_mod
    → request < word_mod
    → AllWords s.active_reservations
    → (allocate_multiple_blocks object memory request res s).1 ≡ err x
    → Undone s (allocate_multiple_blocks object memory request res s).0
unfolding allocate_multiple_blocks
allocate_multiple_blocks-Undone object memory request none s x pos fits small w e =
    elim (Bool-cases (request == 0)) [
      | inl nothing ↦ ground (arith, nothing)
      | inr more ↦
          rw (more, allocate_multiple_blocks)
            (commit-Undone object memory (rounded request s.block_size) none
              (rounded request s.block_size) s.active_reservations s.active_reservations s x pos
              fits refl (rw (more, allocate_multiple_blocks) at e))
    ]
allocate_multiple_blocks-Undone object memory request (some arena) s x pos fits small w e =
    elim (Bool-cases (request == 0)) [
      | inl nothing ↦ ground (arith, nothing)
      | inr more ↦
          rw (more, allocate_multiple_blocks)
            (charge_tracker-Undone object memory (rounded request s.block_size) arena s x pos fits
              (rounded-lt request s.block_size small) w (rw (more, allocate_multiple_blocks) at e))
    ]

-- The peak counts an allocation that the driver refused.
pub allocate-peak :
    (bytes : ℕ) (s : HostResource)
    → 0 < bytes
    → s.total_allocated + bytes ≤ s.mem_limit
    → s.mem_limit < word_mod
    → s.peak_allocated < s.total_allocated + bytes
    → ((allocate none bytes s).0.total_allocated ≡ s.total_allocated)
      × ((allocate none bytes s).0.peak_allocated ≡ s.total_allocated + bytes)
unfolding allocate do_reserve do_release
allocate-peak bytes s pos room fits low = (ground arith, ground arith)
