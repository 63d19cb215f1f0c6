-- ===== src/Manager/Counted.antt =====
-- What the threads on one manager hold, against the counters of its spaces and its own.
use cuda2rocm.Base.{
  ℕ, zero, suc, true, ◌+◌, ◌≤◌, ◌<◌, ◌≡◌, refl, false, none, some, List, [], ◌∷◌, set, get_elem?,
  arith, word_mod, Bool-cases, Option-cases, inl, inr, leb, ◌&&◌, length, ok,
}
use cuda2rocm.MemorySpace.{
  MemorySpace, Reservation, get_available_memory, make_reservation, make_reservation_or_null,
  destroy_reservation,
}
use cuda2rocm.MemorySpace.Accounting.{IsWithin}
use cuda2rocm.Manager.{Manager, Strategy, Handle, matches}
use cuda2rocm.Manager.Requests.{AllWithin, charged, handle}
use cuda2rocm.Manager.Concurrent.{
  Phase, scanning, charging, retrying, counting, holding, testing, uncounting, finished, refused,
  failed, Thread, scan, charge, retry, give_back, proceed, turn, run,
}
use cuda2rocm.Manager.Holdings.{
  held_in, counted_in, due_in, held, counted, due, reserved_at, reserved_at-set, AllWithin-set,
  AllWithin-get, reserves, reserves_or_null,
}

-- A step from a phase: the spaces gain what the thread comes to hold, the count what it comes to
-- count, and neither passes its limit.
abbrev Kept : Manager → Phase → Manager × Phase → Type 0
Kept m p r =
    ((y : ℕ) → reserved_at y r.0.spaces + held_in y p ≡ reserved_at y m.spaces + held_in y r.1)
    × AllWithin r.0.spaces
    × (r.0.is_shutdown ≡ false)
    × (r.0.active_reservations + counted_in p ≡ m.active_reservations + counted_in r.1)
    × (r.0.active_reservations + due_in r.1 ≤ m.active_reservations + due_in p)

charge-made :
    (bytes i : ℕ) (m : Manager) (s : MemorySpace)
    → get_elem? m.spaces i ≡ some s
    → make_reservation bytes s
      ≡ (charged bytes s, ok (record { captured = bytes; arena_size = bytes }))
    → charge bytes i m
      ≡ (record m { spaces = set m.spaces i (charged bytes s) }, counting (handle i bytes))
unfolding charge
charge-made bytes i m s e made = ground (arith, e, made)

retry-made :
    (strategy : Strategy) (bytes i : ℕ) (m : Manager) (s : MemorySpace)
    → get_elem? m.spaces i ≡ some s
    → matches strategy s ≡ true
    → make_reservation_or_null bytes s
      ≡ (charged bytes s, some (record { captured = bytes; arena_size = bytes }))
    → retry strategy bytes i m
      ≡ (record m { spaces = set m.spaces i (charged bytes s) }, counting (handle i bytes))
unfolding retry
retry-made strategy bytes i m s e match made = ground (arith, e, match, made)

reserved_at-none : (ss : List MemorySpace) (y : ℕ) → get_elem? ss y ≡ none → reserved_at y ss ≡ 0
reserved_at-none [] y e = refl
reserved_at-none (s ∷ ss) zero e = cc
reserved_at-none (s ∷ ss) (suc y) e = reserved_at-none ss y e

reserved_at-some :
    (ss : List MemorySpace) (y : ℕ) (s : MemorySpace)
    → get_elem? ss y ≡ some s
    → reserved_at y ss ≡ s.reserved_memory
reserved_at-some [] y s e = cc
reserved_at-some (x ∷ ss) zero s e = ground arith
reserved_at-some (x ∷ ss) (suc y) s e = reserved_at-some ss y s e

-- A space that holds at least what a reservation captured gets it back.
returned :
    (r : Reservation) (s : MemorySpace)
    → IsWithin s
    → r.captured ≤ s.reserved_memory
    → (destroy_reservation r s).reserved_memory + r.captured ≡ s.reserved_memory
unfolding destroy_reservation
returned r s w fits = ground arith

returned-IsWithin :
    (r : Reservation) (s : MemorySpace) → IsWithin s → IsWithin (destroy_reservation r s)
unfolding destroy_reservation
returned-IsWithin r s w = record { word = ground arith; within = ground arith }

module _ (m : Manager) (v : AllWithin m.spaces) (on : m.is_shutdown ≡ false) where
  scan-Kept : (strategy : Strategy) (bytes i : ℕ) → Kept m (scanning i) (scan strategy bytes i m)
  unfolding scan
  scan-Kept strategy bytes i = elim (Option-cases (get_elem? m.spaces i)) [
    | inl e ↦ rw (e, scan) (λ y. refl, v, on, refl, omega arith)
    | inr (s, e) ↦ elim (Bool-cases (matches strategy s && leb bytes (get_available_memory s))) [
      | inl yes_ ↦ rw (e, scan, yes_) (λ y. refl, v, on, refl, omega arith)
      | inr no_ ↦ rw (e, scan, no_) (λ y. refl, v, on, refl, omega arith)
    ]
  ]

  -- A charge at an index, with the reservation that it makes.
  charged-Kept :
      (bytes i : ℕ) (s : MemorySpace) (p : Phase)
      → ((y : ℕ) → held_in y p ≡ 0)
      → counted_in p ≡ 0
      → due_in p ≡ 1
      → get_elem? m.spaces i ≡ some s
      → IsWithin (charged bytes s)
      → Kept m p (record m { spaces = set m.spaces i (charged bytes s) }, counting (handle i bytes))
  charged-Kept bytes i s p no_bytes no_count one e w = (
    λ y. ground (arith, no_bytes y, reserved_at-set m.spaces i y s (charged bytes s) e),
    AllWithin-set m.spaces i (charged bytes s) v w,
    on,
    omega (arith, no_count),
    omega (arith, one),
  )

  charge-Kept : (bytes i : ℕ) → Kept m (charging i) (charge bytes i m)
  unfolding charge
  charge-Kept bytes i = elim (Option-cases (get_elem? m.spaces i)) [
    | inl e ↦ rw (e, charge) (λ y. refl, v, on, refl, omega arith)
    | inr (s, e) ↦ elim (reserves bytes s (AllWithin-get m.spaces i s v e)) [
      | inl none_left ↦ rw (e, charge, none_left) (λ y. refl, v, on, refl, omega arith)
      | inr (made, w) ↦
          rw (charge-made bytes i m s e made)
            (charged-Kept bytes i s (charging i) (λ y. refl) refl refl e w)
    ]
  ]

  retry-Kept : (strategy : Strategy) (bytes i : ℕ) → Kept m (retrying i) (retry strategy bytes i m)
  unfolding retry
  retry-Kept strategy bytes i = elim (Option-cases (get_elem? m.spaces i)) [
    | inl e ↦ rw (e, retry) (λ y. refl, v, on, refl, omega arith)
    | inr (s, e) ↦ elim (Bool-cases (matches strategy s)) [
      | inr other ↦ rw (e, retry, other) (λ y. refl, v, on, refl, omega arith)
      | inl match ↦ elim (reserves_or_null bytes s (AllWithin-get m.spaces i s v e)) [
        | inl none_left ↦ rw (e, retry, match, none_left) (λ y. refl, v, on, refl, omega arith)
        | inr (made, w) ↦
            rw (retry-made strategy bytes i m s e match made)
              (charged-Kept bytes i s (retrying i) (λ y. refl) refl refl e w)
      ]
    ]
  ]

  give_back-Kept :
      (h : Handle)
      → ((y : ℕ) → held_in y (holding h) ≤ reserved_at y m.spaces)
      → Kept m (holding h) (give_back h m)
  unfolding give_back
  give_back-Kept h fits = elim (Option-cases (get_elem? m.spaces h.space)) [
    | inl e ↦
        rw (e, give_back)
          (
            λ y. ground (arith, fits h.space, reserved_at-none m.spaces h.space e),
            v,
            on,
            refl,
            omega arith,
          )
    | inr (s, e) ↦
        let w = AllWithin-get m.spaces h.space s v e in
        let enough : h.reservation.captured ≤ s.reserved_memory =
          ground (arith, fits h.space, reserved_at-some m.spaces h.space s e) in
        rw (e, give_back)
          (
            λ y. ground (
              arith,
              returned h.reservation s w enough,
              reserved_at-set m.spaces h.space y s (destroy_reservation h.reservation s) e,
            ),
            AllWithin-set m.spaces h.space _ v (returned-IsWithin h.reservation s w),
            on,
            refl,
            omega arith,
          )
  ]

-- What a thread holds is reserved and counted, and the count has room for what is to come.
abbrev Covers : Manager → (ℕ → ℕ) → ℕ → ℕ → Type 0
Covers m bytes count more =
    ((y : ℕ) → bytes y ≤ reserved_at y m.spaces)
    × (count ≤ m.active_reservations)
    × (m.active_reservations + more < word_mod)

proceed-Kept :
    (strategy : Strategy) (bytes : ℕ) (p : Phase) (m : Manager)
    → AllWithin m.spaces
    → m.is_shutdown ≡ false
    → Covers m (λ y. held_in y p) (counted_in p) (due_in p)
    → Kept m p (proceed strategy bytes p m)
unfolding proceed
proceed-Kept strategy bytes (scanning i) m v on c = scan-Kept m v on strategy bytes i
proceed-Kept strategy bytes (charging i) m v on c = charge-Kept m v on bytes i
proceed-Kept strategy bytes (retrying i) m v on c = retry-Kept m v on strategy bytes i
proceed-Kept strategy bytes (counting h) m v on c =
    (λ y. refl, v, on, ground (arith, c.2), ground (arith, c.2))
proceed-Kept strategy bytes (holding h) m v on c = give_back-Kept m v on h c.0
proceed-Kept strategy bytes testing m v on c = rw on (λ y. refl, v, refl, refl, omega arith)
proceed-Kept strategy bytes uncounting m v on c =
    (λ y. refl, v, on, ground (arith, c.1, c.2), ground (arith, c.1, c.2))
proceed-Kept strategy bytes finished m v on c = (λ y. refl, v, on, refl, omega arith)
proceed-Kept strategy bytes refused m v on c = (λ y. refl, v, on, refl, omega arith)
proceed-Kept strategy bytes failed m v on c = (λ y. refl, v, on, refl, omega arith)

-- The same for all threads.
abbrev Counts : Manager → List Thread → Manager × List Thread → Type 0
Counts m ts r =
    ((y : ℕ) → reserved_at y r.0.spaces + held y ts ≡ reserved_at y m.spaces + held y r.1)
    × AllWithin r.0.spaces
    × (r.0.is_shutdown ≡ false)
    × (r.0.active_reservations + counted ts ≡ m.active_reservations + counted r.1)
    × (r.0.active_reservations + due r.1 ≤ m.active_reservations + due ts)

turn-Counts :
    (i : ℕ) (m : Manager) (ts : List Thread)
    → AllWithin m.spaces
    → m.is_shutdown ≡ false
    → Covers m (λ y. held y ts) (counted ts) (due ts)
    → Counts m ts (turn i m ts)
unfolding turn
turn-Counts i m [] v on c = (λ y. refl, v, on, refl, omega arith)
turn-Counts zero m (t ∷ ts) v on c =
    let (e, v', on', n, le) =
      proceed-Kept t.strategy t.bytes t.phase m v on
        (λ y. omega (arith, c.0 y), omega (arith, c.1), omega (arith, c.2)) in
    (λ y. omega (arith, e y), v', on', omega (arith, n), omega (arith, le))
turn-Counts (suc i) m (t ∷ ts) v on c =
    let (e, v', on', n, le) =
      turn-Counts i m ts v on (λ y. omega (arith, c.0 y), omega (arith, c.1), omega (arith, c.2)) in
    (λ y. omega (arith, e y), v', on', omega (arith, n), omega (arith, le))

run-Counts :
    (schedule : List ℕ) (m : Manager) (ts : List Thread)
    → AllWithin m.spaces
    → m.is_shutdown ≡ false
    → Covers m (λ y. held y ts) (counted ts) (due ts)
    → Counts m ts (run schedule m ts)
unfolding run
run-Counts [] m ts v on c = (λ y. refl, v, on, refl, omega arith)
run-Counts (i ∷ schedule) m ts v on c =
    let (e, v', on', n, le) = turn-Counts i m ts v on c in
    let (e', v'', on'', n', le') =
      run-Counts schedule (turn i m ts).0 (turn i m ts).1 v' on'
        (λ y. omega (arith, c.0 y, e y), omega (arith, c.1, n), omega (arith, c.2, le)) in
    (λ y. omega (arith, e y, e' y), v'', on'', omega (arith, n, n'), omega (arith, le, le'))

-- The threads of some requests, at the start.
abbrev pub requests : List (Strategy × ℕ) → List Thread
requests [] = []
requests ((strategy, bytes) ∷ rs) =
    record { strategy = strategy; bytes = bytes; phase = scanning 0 } ∷ requests rs

held-requests : (y : ℕ) (rs : List (Strategy × ℕ)) → held y (requests rs) ≡ 0
held-requests y [] = refl
held-requests y ((strategy, bytes) ∷ rs) = omega (arith, held-requests y rs)

counted-requests : (rs : List (Strategy × ℕ)) → counted (requests rs) ≡ 0
counted-requests [] = refl
counted-requests ((strategy, bytes) ∷ rs) = omega (arith, counted-requests rs)

due-requests : (rs : List (Strategy × ℕ)) → due (requests rs) ≡ length rs
due-requests [] = refl
due-requests ((strategy, bytes) ∷ rs) = omega (arith, due-requests rs)

-- However requests and the releases of their reservations interleave on a manager that is not shut
-- down, whose spaces are within their limits and whose count does not wrap: each space has gained
-- exactly the bytes of the reservations that are held on it and stays within its limit, and the
-- count of active reservations has gained those that were counted and not taken back.
pub run-Counted :
    (schedule : List ℕ) (m : Manager) (rs : List (Strategy × ℕ))
    → AllWithin m.spaces
    → m.is_shutdown ≡ false
    → m.active_reservations + length rs < word_mod
    → let (m', ts) = run schedule m (requests rs) in
      ((y : ℕ) → reserved_at y m'.spaces ≡ reserved_at y m.spaces + held y ts)
      × AllWithin m'.spaces
      × (m'.active_reservations ≡ m.active_reservations + counted ts)
run-Counted schedule m rs v on room =
    let none_held = λ (y : ℕ). held-requests y rs in
    let none_counted = counted-requests rs in
    let (e, v', on', n, le) = run-Counts schedule m (requests rs) v on (
      λ y. omega (arith, none_held y),
      omega (arith, none_counted),
      omega (arith, due-requests rs),
    ) in
    (λ y. omega (arith, e y, none_held y), v', omega (arith, n, none_counted))
