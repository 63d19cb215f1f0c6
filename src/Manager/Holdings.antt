-- ===== src/Manager/Holdings.antt =====
-- What threads hold of a space, and what a charge and a release do to the spaces.
use cuda2rocm.Base.{
  ℕ, zero, suc, ◌+◌, ◌≡◌, none, some, List, [], ◌∷◌, ◌==◌, if◌then◌else◌, set, get_elem?, arith,
  Bool-cases, inl, inr, ◌⊎◌, ◌-◌, leb, ok, err, insufficient_memory,
}
use cuda2rocm.MemorySpace.{MemorySpace, make_reservation, make_reservation_or_null}
use cuda2rocm.MemorySpace.Accounting.{IsWithin}
use cuda2rocm.Manager.Requests.{AllWithin, charged}
use cuda2rocm.Manager.Concurrent.{
  Phase, scanning, charging, retrying, counting, holding, testing, uncounting, Thread,
}

-- The bytes of the space at an index that a thread in a phase holds.
abbrev pub held_in : ℕ → Phase → ℕ
held_in y (counting h) = if h.space == y then h.reservation.captured else 0
held_in y (holding h) = if h.space == y then h.reservation.captured else 0
held_in y _ = 0

-- Whether its reservation is counted, and whether it may come to be.
abbrev pub counted_in : Phase → ℕ
counted_in (holding h) = 1
counted_in testing = 1
counted_in uncounting = 1
counted_in _ = 0

abbrev pub due_in : Phase → ℕ
due_in (scanning i) = 1
due_in (charging i) = 1
due_in (retrying i) = 1
due_in (counting h) = 1
due_in _ = 0

abbrev pub held : ℕ → List Thread → ℕ
held y [] = 0
held y (t ∷ ts) = held_in y t.phase + held y ts

abbrev pub counted : List Thread → ℕ
counted [] = 0
counted (t ∷ ts) = counted_in t.phase + counted ts

abbrev pub due : List Thread → ℕ
due [] = 0
due (t ∷ ts) = due_in t.phase + due ts

abbrev pub reserved_at : ℕ → List MemorySpace → ℕ
reserved_at y [] = 0
reserved_at zero (s ∷ ss) = s.reserved_memory
reserved_at (suc y) (s ∷ ss) = reserved_at y ss

pub reserved_at-set :
    (ss : List MemorySpace) (i y : ℕ) (s s' : MemorySpace)
    → get_elem? ss i ≡ some s
    → reserved_at y (set ss i s') + (if i == y then s.reserved_memory else 0)
      ≡ reserved_at y ss + (if i == y then s'.reserved_memory else 0)
reserved_at-set [] i y s s' e = cc
reserved_at-set (x ∷ ss) zero zero s s' e = ground arith
reserved_at-set (x ∷ ss) zero (suc y) s s' e = ground arith
reserved_at-set (x ∷ ss) (suc i) zero s s' e = ground arith
reserved_at-set (x ∷ ss) (suc i) (suc y) s s' e = ground (arith, reserved_at-set ss i y s s' e)

pub AllWithin-set :
    (ss : List MemorySpace) (i : ℕ) (s : MemorySpace)
    → AllWithin ss
    → IsWithin s
    → AllWithin (set ss i s)
AllWithin-set [] i s a v = tt
AllWithin-set (x ∷ ss) zero s a v = (v, a.1)
AllWithin-set (x ∷ ss) (suc i) s a v = (a.0, AllWithin-set ss i s a.1 v)

pub AllWithin-get :
    (ss : List MemorySpace) (i : ℕ) (s : MemorySpace)
    → AllWithin ss
    → get_elem? ss i ≡ some s
    → IsWithin s
AllWithin-get [] i s a e = cc
AllWithin-get (x ∷ ss) zero s a e = record { word = ground arith; within = ground arith }
AllWithin-get (x ∷ ss) (suc i) s a e = AllWithin-get ss i s a.1 e

-- What a reservation on a space within its limit may give.
pub reserves :
    (bytes : ℕ) (s : MemorySpace)
    → IsWithin s
    → (make_reservation bytes s ≡ (s, err insufficient_memory))
      ⊎ ((make_reservation bytes s
            ≡ (charged bytes s, ok (record { captured = bytes; arena_size = bytes })))
          × IsWithin (charged bytes s))
unfolding make_reservation
reserves bytes s v = elim (Bool-cases (leb bytes (s.max_memory - s.reserved_memory))) [
  | inl room ↦ inr (ground arith, record { word = v.word; within = ground arith })
  | inr none_left ↦ inl (ground arith)
]

pub reserves_or_null :
    (bytes : ℕ) (s : MemorySpace)
    → IsWithin s
    → (make_reservation_or_null bytes s ≡ (s, none))
      ⊎ ((make_reservation_or_null bytes s
            ≡ (charged bytes s, some (record { captured = bytes; arena_size = bytes })))
          × IsWithin (charged bytes s))
unfolding make_reservation_or_null
reserves_or_null bytes s v = elim (Bool-cases (leb bytes (s.max_memory - s.reserved_memory))) [
  | inl room ↦ inr (ground arith, record { word = v.word; within = ground arith })
  | inr none_left ↦ inl (ground arith)
]
