-- ===== src/Manager/Concurrent.antt =====
-- `request_reservation` and the release of its reservations by several threads on one manager. A
-- step is one access of a shared counter: the hint's read of the available memory, a charge or a
-- release of a space (whose compare-and-swap loop takes effect at the value that it replaces, see
-- Atomic.Interleaving), the count of active reservations, and the test of the shutdown flag.
use cuda2rocm.Base.{
  ℕ, zero, suc, ◌&&◌, none, some, List, [], ◌∷◌, leb, if◌then◌else◌, set, get_elem?, add_word,
  sub_word, ok, err,
}
use cuda2rocm.MemorySpace.{
  get_available_memory, make_reservation, make_reservation_or_null, destroy_reservation,
}
use cuda2rocm.Manager.{Manager, Strategy, Handle, matches}

-- Where a thread stands: at a space of the first pass, past its hint, at a space of the second pass,
-- with a reservation that is not counted yet, with one that is, with a reservation whose space has
-- its memory back, past the test of the flag, and through; or with a null or an exception as answer.
pub data Phase : Type 0 where
  scanning charging retrying : ℕ → Phase
  counting holding : Handle → Phase
  testing uncounting finished refused failed : Phase

pub record Thread : Type 0 where
  pub strategy : Strategy
  pub bytes : ℕ
  pub phase : Phase

-- The first pass at an index. Past the last space, the second pass begins.
unfoldable pub scan : Strategy → ℕ → ℕ → Manager → Manager × Phase
scan strategy bytes i m = elim (get_elem? m.spaces i) [
  | none ↦ (m, retrying 0)
  | some s ↦ (
    m,
    if matches strategy s && leb bytes (get_available_memory s)
        then charging i
        else scanning (suc i),
  )
]

-- `make_reservation` on the space at an index; the catch of its throw goes to the second pass.
unfoldable pub charge : ℕ → ℕ → Manager → Manager × Phase
charge bytes i m = elim (get_elem? m.spaces i) [
  | none ↦ (m, retrying 0)
  | some s ↦
      let (s', r) = make_reservation bytes s in
      elim r [
        | err e ↦ (m, retrying 0)
        | ok made ↦ (
          record m { spaces = set m.spaces i s' },
          counting (record { space = i; reservation = made }),
        )
      ]
]

-- The second pass at an index: `make_reservation_or_null` on the first match, whose answer counts.
unfoldable pub retry : Strategy → ℕ → ℕ → Manager → Manager × Phase
retry strategy bytes i m = elim (get_elem? m.spaces i) [
  | none ↦ (m, failed)
  | some s ↦
      if matches strategy s
      then (let (s', r) = make_reservation_or_null bytes s in
          elim r [
            | none ↦ (m, refused)
            | some made ↦ (
              record m { spaces = set m.spaces i s' },
              counting (record { space = i; reservation = made }),
            )
          ])
      else (m, retrying (suc i))
]

-- The release callback of a reservation, which starts with that of its space.
unfoldable pub give_back : Handle → Manager → Manager × Phase
give_back h m = elim (get_elem? m.spaces h.space) [
  | none ↦ (m, testing)
  | some s ↦
      (record m { spaces = set m.spaces h.space (destroy_reservation h.reservation s) }, testing)
]

unfoldable pub proceed : Strategy → ℕ → Phase → Manager → Manager × Phase
unfolding scan charge retry give_back
proceed strategy bytes (scanning i) m = scan strategy bytes i m
proceed strategy bytes (charging i) m = charge bytes i m
proceed strategy bytes (retrying i) m = retry strategy bytes i m
proceed strategy bytes (counting h) m =
    (record m { active_reservations = add_word m.active_reservations 1 }, holding h)
proceed strategy bytes (holding h) m = give_back h m
proceed strategy bytes testing m = (m, if m.is_shutdown then finished else uncounting)
proceed strategy bytes uncounting m =
    (record m { active_reservations = sub_word m.active_reservations 1 }, finished)
proceed strategy bytes p m = (m, p)

unfoldable pub turn : ℕ → Manager → List Thread → Manager × List Thread
unfolding proceed
turn i m [] = (m, [])
turn zero m (t ∷ ts) =
    let (m', p) = proceed t.strategy t.bytes t.phase m in (m', record t { phase = p } ∷ ts)
turn (suc i) m (t ∷ ts) = let (m', rest) = turn i m ts in (m', t ∷ rest)

unfoldable pub run : List ℕ → Manager → List Thread → Manager × List Thread
run [] m ts = (m, ts)
run (i ∷ schedule) m ts = let (m', rest) = turn i m ts in run schedule m' rest
