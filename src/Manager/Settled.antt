-- ===== src/Manager/Settled.antt =====
-- Requests that are given enough turns: each is answered, and what it took is given back.
use cuda2rocm.Base.{
  ℕ, zero, suc, false, ◌+◌, ◌-◌, ◌*◌, ◌≤◌, ◌<◌, ◌≡◌, refl, some, List, [], ◌∷◌, ◌==◌, ◌&&◌, leb,
  length, if◌then◌else◌, get_elem?, arith, word_mod, Bool-cases, Option-cases, inl, inr, turns,
  IsFairFor, length-set,
}
use native.Mathlib.Decide.{dec_lt}
use cuda2rocm.MemorySpace.{
  MemorySpace, get_available_memory, make_reservation, make_reservation_or_null,
  destroy_reservation,
}
use cuda2rocm.Manager.{Manager, Strategy, Handle, matches}
use cuda2rocm.Manager.Requests.{AllWithin}
use cuda2rocm.Manager.Concurrent.{
  Phase, scanning, charging, retrying, counting, holding, testing, uncounting, finished, refused,
  failed, Thread, scan, charge, retry, give_back, proceed, turn, run,
}
use cuda2rocm.Manager.Holdings.{held, held_in, counted, counted_in, reserved_at}
use cuda2rocm.Manager.Counted.{requests, run-Counted}

-- The steps that a thread has before it at most, on some number of spaces.
abbrev pub steps_left : ℕ → Phase → ℕ
steps_left n (scanning i) = n - i + (n + 8)
steps_left n (charging i) = n + 7
steps_left n (retrying i) = n - i + 6
steps_left n (counting h) = 5
steps_left n (holding h) = 4
steps_left n testing = 3
steps_left n uncounting = 2
steps_left n finished = 0
steps_left n refused = 0
steps_left n failed = 0

-- A step keeps the number of spaces, and takes one of the steps that are left.
abbrev Steps : Manager → Phase → Manager × Phase → Type 0
Steps m p r =
    (length r.0.spaces ≡ length m.spaces)
    × (steps_left (length m.spaces) r.1 ≤ steps_left (length m.spaces) p - 1)

get_elem?-lt :
    (ss : List MemorySpace) (i : ℕ) (s : MemorySpace) → get_elem? ss i ≡ some s → i < length ss
get_elem?-lt [] i s e = cc
get_elem?-lt (x ∷ ss) zero s e = omega arith
get_elem?-lt (x ∷ ss) (suc i) s e = omega (arith, get_elem?-lt ss i s e)

scan-Steps :
    (strategy : Strategy) (bytes i : ℕ) (m : Manager)
    → Steps m (scanning i) (scan strategy bytes i m)
unfolding scan
scan-Steps strategy bytes i m = elim (Option-cases (get_elem? m.spaces i)) [
  | inl e ↦ rw (e, scan) (refl, omega arith)
  | inr (s, e) ↦
      let lt = get_elem?-lt m.spaces i s e in
      elim (Bool-cases (matches strategy s && leb bytes (get_available_memory s))) [
        | inl yes_ ↦ rw (e, scan, yes_) (refl, omega arith)
        | inr no_ ↦ rw (e, scan, no_) (refl, omega (arith, lt))
      ]
]

charge-Steps : (bytes i : ℕ) (m : Manager) → Steps m (charging i) (charge bytes i m)
unfolding charge
charge-Steps bytes i m = elim (Option-cases (get_elem? m.spaces i)) [
  | inl e ↦ ground (arith, e)
  | inr (s, e) ↦ ground (arith, e, length-set m.spaces i (make_reservation bytes s).0)
]

retry-Steps :
    (strategy : Strategy) (bytes i : ℕ) (m : Manager)
    → Steps m (retrying i) (retry strategy bytes i m)
unfolding retry
retry-Steps strategy bytes i m = elim (Option-cases (get_elem? m.spaces i)) [
  | inl e ↦ ground (arith, e)
  | inr (s, e) ↦ ground (
    arith,
    e,
    get_elem?-lt m.spaces i s e,
    length-set m.spaces i (make_reservation_or_null bytes s).0,
  )
]

give_back-Steps : (h : Handle) (m : Manager) → Steps m (holding h) (give_back h m)
unfolding give_back
give_back-Steps h m = elim (Option-cases (get_elem? m.spaces h.space)) [
  | inl e ↦ ground (arith, e)
  | inr (s, e) ↦
      ground (arith, e, length-set m.spaces h.space (destroy_reservation h.reservation s))
]

proceed-Steps :
    (strategy : Strategy) (bytes : ℕ) (p : Phase) (m : Manager)
    → Steps m p (proceed strategy bytes p m)
unfolding proceed
proceed-Steps strategy bytes (scanning i) m = scan-Steps strategy bytes i m
proceed-Steps strategy bytes (charging i) m = charge-Steps bytes i m
proceed-Steps strategy bytes (retrying i) m = retry-Steps strategy bytes i m
proceed-Steps strategy bytes (counting h) m = (refl, omega arith)
proceed-Steps strategy bytes (holding h) m = give_back-Steps h m
proceed-Steps strategy bytes testing m = ground arith
proceed-Steps strategy bytes uncounting m = (refl, omega arith)
proceed-Steps strategy bytes finished m = (refl, omega arith)
proceed-Steps strategy bytes refused m = (refl, omega arith)
proceed-Steps strategy bytes failed m = (refl, omega arith)

-- The steps that are left to the thread at an index.
abbrev pub steps_left_at : ℕ → ℕ → List Thread → ℕ
steps_left_at n i [] = 0
steps_left_at n zero (t ∷ ts) = steps_left n t.phase
steps_left_at n (suc i) (t ∷ ts) = steps_left_at n i ts

turn-Steps :
    (i j : ℕ) (m : Manager) (ts : List Thread)
    → (length (turn i m ts).0.spaces ≡ length m.spaces)
      × (steps_left_at (length m.spaces) j (turn i m ts).1
          ≤ steps_left_at (length m.spaces) j ts - (if i == j then 1 else 0))
unfolding turn
turn-Steps i j m [] = (refl, omega arith)
turn-Steps zero zero m (t ∷ ts) = proceed-Steps t.strategy t.bytes t.phase m
turn-Steps zero (suc j) m (t ∷ ts) = ((proceed-Steps t.strategy t.bytes t.phase m).0, ground arith)
turn-Steps (suc i) zero m (t ∷ ts) = ((turn-Steps i zero m ts).0, ground arith)
turn-Steps (suc i) (suc j) m (t ∷ ts) = ground (arith, turn-Steps i j m ts)

run-Steps :
    (schedule : List ℕ) (j : ℕ) (m : Manager) (ts : List Thread)
    → steps_left_at (length m.spaces) j (run schedule m ts).1
      ≤ steps_left_at (length m.spaces) j ts - turns j schedule
unfolding run
run-Steps [] j m ts = omega arith
run-Steps (i ∷ schedule) j m ts =
    let (same, le) = turn-Steps i j m ts in
    let later = run-Steps schedule j (turn i m ts).0 (turn i m ts).1 in
    omega (arith, le, rw same at later)

-- The thread has its answer, and has given back what it was given.
abbrev pub IsSettled : Phase → Type 0
IsSettled finished = Unit {0}
IsSettled refused = Unit {0}
IsSettled failed = Unit {0}
IsSettled _ = ⊥

abbrev pub AllSettled : List Thread → Type 0
AllSettled [] = Unit {0}
AllSettled (t ∷ ts) = IsSettled t.phase × AllSettled ts

steps_left-IsSettled : (n : ℕ) (p : Phase) → steps_left n p ≡ 0 → IsSettled p
steps_left-IsSettled n (scanning i) e = absurd (omega arith)
steps_left-IsSettled n (charging i) e = absurd (omega arith)
steps_left-IsSettled n (retrying i) e = absurd (omega arith)
steps_left-IsSettled n (counting h) e = absurd (omega arith)
steps_left-IsSettled n (holding h) e = absurd (omega arith)
steps_left-IsSettled n testing e = absurd (omega arith)
steps_left-IsSettled n uncounting e = absurd (omega arith)
steps_left-IsSettled n finished e = tt
steps_left-IsSettled n refused e = tt
steps_left-IsSettled n failed e = tt

steps_left-AllSettled :
    (n : ℕ) (ts : List Thread) → ((i : ℕ) → steps_left_at n i ts ≡ 0) → AllSettled ts
steps_left-AllSettled n [] e = tt
steps_left-AllSettled n (t ∷ ts) e =
    (steps_left-IsSettled n t.phase (e 0), steps_left-AllSettled n ts (λ i. e (suc i)))

steps_left-requests :
    (n i : ℕ) (rs : List (Strategy × ℕ)) → steps_left_at n i (requests rs) ≤ 2 * n + 8
steps_left-requests n i [] = omega arith
steps_left-requests n zero ((strategy, bytes) ∷ rs) = omega arith
steps_left-requests n (suc i) ((strategy, bytes) ∷ rs) = steps_left-requests n i rs

steps_left-past :
    (n i : ℕ) (rs : List (Strategy × ℕ)) → length rs ≤ i → steps_left_at n i (requests rs) ≡ 0
steps_left-past n i [] h = refl
steps_left-past n zero ((strategy, bytes) ∷ rs) h = absurd (omega arith)
steps_left-past n (suc i) ((strategy, bytes) ∷ rs) h = steps_left-past n i rs (omega arith)

IsSettled-held : (y : ℕ) (p : Phase) → IsSettled p → held_in y p + counted_in p ≡ 0
IsSettled-held y (scanning i) a = absurd a
IsSettled-held y (charging i) a = absurd a
IsSettled-held y (retrying i) a = absurd a
IsSettled-held y (counting h) a = absurd a
IsSettled-held y (holding h) a = absurd a
IsSettled-held y testing a = absurd a
IsSettled-held y uncounting a = absurd a
IsSettled-held y finished a = refl
IsSettled-held y refused a = refl
IsSettled-held y failed a = refl

AllSettled-held : (y : ℕ) (ts : List Thread) → AllSettled ts → held y ts + counted ts ≡ 0
AllSettled-held y [] a = refl
AllSettled-held y (t ∷ ts) a = omega (arith, IsSettled-held y t.phase a.0, AllSettled-held y ts a.1)

-- Whatever the spaces and the requests: under every schedule that gives each thread eight turns more
-- than twice the number of spaces, each request is answered, and each reservation made is released.
pub run-AllSettled :
    (schedule : List ℕ) (m : Manager) (rs : List (Strategy × ℕ))
    → IsFairFor (2 * length m.spaces + 8) (length rs) schedule
    → AllSettled (run schedule m (requests rs)).1
run-AllSettled schedule m rs fair = steps_left-AllSettled (length m.spaces) _ (λ i.
    elim (dec_lt i (length rs)) [
      | yes lt ↦ omega (
        arith,
        run-Steps schedule i m (requests rs),
        steps_left-requests (length m.spaces) i rs,
        fair i lt,
      )
      | no past ↦ omega (
        arith,
        run-Steps schedule i m (requests rs),
        steps_left-past (length m.spaces) i rs (omega arith),
      )
    ])

-- No memory and no count is lost: where the spaces are within their limits, the manager is not shut
-- down and its count does not wrap, under every schedule that gives each thread eight turns more
-- than twice the number of spaces, each request is answered, and in the end every space's counter
-- and the count of active reservations are what they were.
pub run-restored :
    (schedule : List ℕ) (m : Manager) (rs : List (Strategy × ℕ))
    → AllWithin m.spaces
    → m.is_shutdown ≡ false
    → m.active_reservations + length rs < word_mod
    → IsFairFor (2 * length m.spaces + 8) (length rs) schedule
    → let (m', ts) = run schedule m (requests rs) in
      AllSettled ts
      × ((y : ℕ) → reserved_at y m'.spaces ≡ reserved_at y m.spaces)
      × (m'.active_reservations ≡ m.active_reservations)
run-restored schedule m rs v on room fair =
    let settled = run-AllSettled schedule m rs fair in
    let (e, w, n) = run-Counted schedule m rs v on room in
    let none_held = λ (y : ℕ). AllSettled-held y (run schedule m (requests rs)).1 settled in
    (settled, λ y. omega (arith, e y, none_held y), omega (arith, n, none_held 0))
