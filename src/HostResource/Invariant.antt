-- ===== src/HostResource/Invariant.antt =====
-- The accounting of the pinned host pool under every sequence of calls.
use cuda2rocm.Base.{
  ℕ, ◌+◌, ◌≤◌, ◌<◌, ◌≡◌, refl, Option, none, some, List, [], ◌∷◌, ◌==◌, arith, ◌^◌, inl, inr, max,
  Option-cases, Bool-cases, Result,
}
use cuda2rocm.HostResource.{
  HostResource, reserve, allocate_multiple_blocks, deallocate_multiple_blocks, release_reservation,
  commit, charge_tracker, credit, rounded,
}
use cuda2rocm.HostResource.Blocks.{Allocation}
use cuda2rocm.HostResource.Committed.{Counter, do_reserve_outcome, do_release_lem, align_up}
use cuda2rocm.HostResource.Trackers.{
  Entry, find, add_used, sub_used, emplace, overflow_charge, overflow_credit, unconsumed,
  overflow_charge_lem, overflow_credit_lem, unconsumed_lem,
}
use cuda2rocm.HostResource.Ledger.{
  cost, share, under, find-cost-le, find-under, costs-add_used, costs-sub_used, costs-erase,
  loose_bytes-add_used, loose-add_used, loose-sub_used, Distinct-add_used, Distinct-sub_used,
  Distinct-erase, loose-erase,
}
use cuda2rocm.HostResource.Tracking.{
  Tracks-hold_none, Tracks-add_used, under-take_held, loose-take_held, Tracks-drop, Tracks-sub_used,
  Tracks-erase, under-Unnamed, loose-Unnamed, Registered-take,
}
use cuda2rocm.HostResource.System.{
  System, Call, reserves, allocates, deallocates, releases, call, history, IsAccounted, Fresh,
  AllFresh, hold,
}

reserve-IsAccounted :
    (s : System) (a n : ℕ)
    → IsAccounted s
    → Fresh s (reserves a n)
    → IsAccounted (call s (reserves a n))
unfolding call reserve emplace
reserve-IsAccounted s a n v f = ground (
  arith,
  do_reserve_outcome (align_up n s.pool.block_size) s.pool.counter v.bounded,
  under-Unnamed a s.held f.1,
  loose-Unnamed
      (record { arena = a; arena_size = align_up n s.pool.block_size; allocated_bytes = 0 })
      s.pool.active_reservations s.held f.1,
)

-- The tracker of a live reservation is within the limit.
used-le-limit :
    (s : System) (a : ℕ) (e : Entry)
    → IsAccounted s
    → find a s.pool.active_reservations ≡ some e
    → cost e ≤ s.pool.mem_limit
used-le-limit s a e v f = omega (arith, find-cost-le a s.pool.active_reservations e f)

sub_used-add_used :
    (a n : ℕ) (es : List Entry)
    → ((e : Entry) → find a es ≡ some e → e.allocated_bytes + n < 2 ^ 63)
    → sub_used a n (add_used a n es) ≡ es
unfolding find sub_used add_used
sub_used-add_used a n [] k = refl
sub_used-add_used a n (e ∷ es) k = elim (Bool-cases (e.arena == a)) [
  | inl q ↦ ground (arith, k e)
  | inr q ↦ ground (arith, sub_used-add_used a n es (λ x f. k x (ground arith)))
]

-- The counter after a charge that fits.
abbrev charged_by : ℕ → Counter → Counter
charged_by n c = record c {
  total_allocated = c.total_allocated + n;
  peak_allocated = max c.peak_allocated (c.total_allocated + n);
}

module _ (s : System) (v : IsAccounted s) (o : ℕ) (m : Option ℕ) (n : ℕ) where
  abbrev after : HostResource × Result Allocation → System
  after r = record { pool = r.0; held = hold 1 r.1 s.held }

  commit-unmanaged :
      IsAccounted
        (after (commit o m n none n s.pool.active_reservations s.pool.active_reservations s.pool))
  unfolding commit
  commit-unmanaged = ground (
    arith,
    do_reserve_outcome n s.pool.counter v.bounded,
    do_release_lem n (charged_by n s.pool.counter),
    Tracks-hold_none (record { object = o; bytes = n; arena = none }) s.held
        s.pool.active_reservations refl v.tracks,
  )

  module _ (a : ℕ) (e : Entry) (found : find a s.pool.active_reservations ≡ some e) where
    abbrev charge : ℕ
    charge = overflow_charge e.arena_size e.allocated_bytes n

    commit-managed :
        n + s.pool.mem_limit < 2 ^ 63
        → IsAccounted (
            after (
              commit o m n
                (some a)
                charge
                (add_used a n s.pool.active_reservations)
                s.pool.active_reservations
                s.pool))
    unfolding commit
    commit-managed small = ground (
      arith,
      used-le-limit s a e v found,
      do_reserve_outcome charge s.pool.counter v.bounded,
      do_release_lem charge (charged_by charge s.pool.counter),
      overflow_charge_lem e.arena_size e.allocated_bytes n,
      costs-add_used a n s.pool.active_reservations e found,
      Distinct-add_used a n s.pool.active_reservations v.distinct,
      loose-add_used a n s.pool.active_reservations s.held,
      loose_bytes-add_used a n s.pool.active_reservations
          (record { object = o; bytes = n; arena = some a }),
      Tracks-add_used a (record { object = o; bytes = n; arena = some a }) s.held
          s.pool.active_reservations refl (λ x f. ground (arith, used-le-limit s a x v f))
          v.distinct v.tracks,
    )

-- A request for some bytes.
allocate-IsAccounted :
    (s : System) (o : ℕ) (m : Option ℕ) (b : ℕ) (res : Option ℕ)
    → IsAccounted s
    → Fresh s (allocates o m b res)
    → IsAccounted (call s (allocates o m b res))
unfolding call allocate_multiple_blocks charge_tracker
allocate-IsAccounted s o m b none v f =
    ground (arith, commit-unmanaged s v o m (rounded b s.pool.block_size))
allocate-IsAccounted s o m b (some a) v f =
    elim (Option-cases (find a s.pool.active_reservations)) [
      | inl p ↦ ground arith
      | inr (e, p) ↦ ground (
        arith,
        sub_used-add_used a (rounded b s.pool.block_size) s.pool.active_reservations
            (λ x q. ground (arith, used-le-limit s a x v q)),
        commit-managed s v o m (rounded b s.pool.block_size) a e p f,
      )
    ]

deallocate-IsAccounted : (s : System) (o : ℕ) → IsAccounted s → IsAccounted (call s (deallocates o))
unfolding call deallocate_multiple_blocks credit
deallocate-IsAccounted s o v = elim (Registered-take o s.pool.live_allocs s.held v.registered) [
  | inl (f, t) ↦ ground arith
  | inr (l, h, left, (f, t, same, r)) ↦
      let es = s.pool.active_reservations in
      let u : (a : ℕ) → under a s.held ≡ share a h + under a left =
        λ a. under-take_held a o s.held h left t in
      elim (Option-cases h.arena) [
        | inl p ↦ ground (
          arith,
          do_release_lem l.bytes s.pool.counter,
          loose-take_held es o s.held h left t,
          Tracks-drop h s.held left es u (λ a q. cc) v.tracks,
        )
        | inr (a, p) ↦ elim (Option-cases (find a es)) [
          | inl q ↦ ground (
            arith,
            do_release_lem l.bytes s.pool.counter,
            loose-take_held es o s.held h left t,
            Tracks-drop h s.held left es u (λ b w. ground arith) v.tracks,
          )
          | inr (e, q) ↦ ground (
            arith,
            used-le-limit s a e v q,
            find-under s.held a es e v.tracks q,
            u a,
            do_release_lem (overflow_credit e.arena_size e.allocated_bytes l.bytes) s.pool.counter,
            overflow_credit_lem e.arena_size e.allocated_bytes l.bytes,
            costs-sub_used a l.bytes es e q,
            Distinct-sub_used a l.bytes es v.distinct,
            loose-sub_used a l.bytes es left,
            loose-take_held es o s.held h left t,
            Tracks-sub_used a h s.held left es p u (λ x w. ground (arith, used-le-limit s a x v w))
                v.distinct v.tracks,
          )
        ]
      ]
]

release-IsAccounted : (s : System) (a : ℕ) → IsAccounted s → IsAccounted (call s (releases a))
unfolding call release_reservation
release-IsAccounted s a v = elim (Option-cases (find a s.pool.active_reservations)) [
  | inl p ↦ ground arith
  | inr (e, p) ↦
      let es = s.pool.active_reservations in
      ground (
        arith,
        used-le-limit s a e v p,
        find-under s.held a es e v.tracks p,
        do_release_lem (unconsumed e.arena_size e.allocated_bytes) s.pool.counter,
        unconsumed_lem e.arena_size e.allocated_bytes,
        costs-erase a es e p,
        Distinct-erase a es v.distinct,
        loose-erase a es e s.held v.distinct p,
        Tracks-erase a s.held es v.tracks,
      )
]

-- Every call keeps the pool accounted.
pub call-IsAccounted : (s : System) (c : Call) → IsAccounted s → Fresh s c → IsAccounted (call s c)
call-IsAccounted s (reserves a n) v f = reserve-IsAccounted s a n v f
call-IsAccounted s (allocates o m b res) v f = allocate-IsAccounted s o m b res v f
call-IsAccounted s (deallocates o) v f = deallocate-IsAccounted s o v
call-IsAccounted s (releases a) v f = release-IsAccounted s a v

-- After any sequence of reservations, allocations under them or not, frees and releases, in any
-- order and with any failures of the driver, from an accounted pool with a limit, with fresh arena
-- addresses and sizes within an int64_t, each byte is counted once: the counter is what the live
-- reservations commit (the larger of size and bytes in use) plus what is held outside of them, each
-- tracker counts the bytes held under its arena, and the counter is within the limit.
pub history-IsAccounted :
    (s : System) (cs : List Call) → IsAccounted s → AllFresh s cs → IsAccounted (history s cs)
unfolding history
history-IsAccounted s [] v f = v
history-IsAccounted s (c ∷ cs) v f =
    history-IsAccounted (call s c) cs (call-IsAccounted s c v f.0) f.1
