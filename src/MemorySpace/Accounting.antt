-- ===== src/MemorySpace/Accounting.antt =====
-- The counters of a memory space under any sequence of its operations.
use cuda2rocm.Base.{
  ℕ, zero, suc, sym, ◌∙◌, Option-cases, ◌+◌, ◌≤◌, ◌<◌, ◌≡◌, refl, Option, none, some, List, [], ◌∷◌,
  min, arith, Result, ok, err, ◌⊎◌, inl, inr, word_mod,
}
use cuda2rocm.MemorySpace.{
  MemorySpace, Reservation, get_available_memory, make_reservation, make_reservation_or_null,
  grow_by, make_reservation_upto, destroy_reservation,
}

-- The limit is a `size_t`, and no more is reserved than it allows.
pub record IsWithin (s : MemorySpace) : Type 0 where
  pub word : s.max_memory < word_mod
  pub within : s.reserved_memory ≤ s.max_memory

-- A reservation on a space within its limit is made exactly where the bytes are available; the
-- counter then rises by the bytes, and else nothing changes and there is no reservation.
pub make_reservation_or_null_outcome :
    (bytes : ℕ) (s : MemorySpace)
    → IsWithin s
    → let (s', r) = make_reservation_or_null bytes s in
      ((bytes ≤ get_available_memory s)
        × (r ≡ some (record { captured = bytes; arena_size = bytes }))
        × (s' ≡ record s { reserved_memory = s.reserved_memory + bytes }))
      ⊎ ((get_available_memory s < bytes) × (r ≡ none) × (s' ≡ s))
unfolding make_reservation_or_null get_available_memory
make_reservation_or_null_outcome bytes s v = ground arith

-- `make_reservation` throws exactly where `make_reservation_or_null` returns null, and otherwise
-- both make the same reservation and charge.
pub make_reservation-or_null :
    (bytes : ℕ) (s : MemorySpace)
    → (make_reservation bytes s).0 ≡ (make_reservation_or_null bytes s).0
unfolding make_reservation make_reservation_or_null
make_reservation-or_null bytes s = ground arith

-- On a space within its limit, the smaller of the request and what is available is reserved and
-- charged, and null is returned where that is nothing.
pub make_reservation_upto_outcome :
    (bytes : ℕ) (s : MemorySpace)
    → IsWithin s
    → let (s', r) = make_reservation_upto bytes s in
      let granted = min bytes (get_available_memory s) in
      (s' ≡ record s { reserved_memory = s.reserved_memory + granted })
      × (((granted ≡ 0) × (r ≡ none))
          ⊎ ((0 < granted) × (r ≡ some (record { captured = granted; arena_size = granted }))))
unfolding make_reservation_upto get_available_memory
make_reservation_upto_outcome bytes s v = ground arith

-- What clients do with a space: reserve in each of the three ways, grow the arena of a reservation
-- they hold, or destroy one.
pub data Call : Type 0 where
  reserves reserves_or_null reserves_upto : ℕ → Call
  grows : ℕ → ℕ → Call
  destroys : ℕ → Call

-- A space and the reservations that its clients hold.
pub record System : Type 0 where
  pub space : MemorySpace
  pub held : List Reservation

abbrev pub keep : Option Reservation → List Reservation → List Reservation
keep none rs = rs
keep (some r) rs = r ∷ rs

abbrev pub keep_ok : Result Reservation → List Reservation → List Reservation
keep_ok (err e) rs = rs
keep_ok (ok r) rs = r ∷ rs

pub grow_at : ℕ → ℕ → List Reservation → List Reservation
unfolding grow_by
grow_at i n [] = []
grow_at zero n (r ∷ rs) = grow_by n r ∷ rs
grow_at (suc i) n (r ∷ rs) = r ∷ grow_at i n rs

-- The reservation at an index and those that are left.
pub take_out : ℕ → List Reservation → Option (Reservation × List Reservation)
take_out i [] = none
take_out zero (r ∷ rs) = some (r, rs)
take_out (suc i) (r ∷ rs) = elim (take_out i rs) [
  | none ↦ none
  | some (x, left) ↦ some (x, r ∷ left)
]

pub call : System → Call → System
call s (reserves n) =
    let (space, r) = make_reservation n s.space in record { space = space; held = keep_ok r s.held }
call s (reserves_or_null n) =
    let (space, r) = make_reservation_or_null n s.space in
    record { space = space; held = keep r s.held }
call s (reserves_upto n) =
    let (space, r) = make_reservation_upto n s.space in
    record { space = space; held = keep r s.held }
call s (grows i n) = record s { held = grow_at i n s.held }
call s (destroys i) = elim (take_out i s.held) [
  | none ↦ s
  | some (r, left) ↦ record { space = destroy_reservation r s.space; held = left }
]

pub history : System → List Call → System
unfolding call
history s [] = s
history s (c ∷ cs) = history (call s c) cs

abbrev pub captured_sum : List Reservation → ℕ
captured_sum [] = 0
captured_sum (r ∷ rs) = r.captured + captured_sum rs

-- The counter is the sum of what the reservations in use captured, and it is within the limit.
pub record IsBalanced (s : System) : Type 0 where
  pub within : IsWithin s.space
  pub balanced : s.space.reserved_memory ≡ captured_sum s.held

captured_sum-grow_at :
    (i n : ℕ) (rs : List Reservation) → captured_sum (grow_at i n rs) ≡ captured_sum rs
unfolding grow_at
captured_sum-grow_at i n [] = refl
captured_sum-grow_at zero n (r ∷ rs) = refl
captured_sum-grow_at (suc i) n (r ∷ rs) = omega (arith, captured_sum-grow_at i n rs)

-- What is taken out and what is left make up the whole.
take_out-captured_sum :
    (i : ℕ) (rs : List Reservation) (r : Reservation) (left : List Reservation)
    → take_out i rs ≡ some (r, left)
    → captured_sum rs ≡ r.captured + captured_sum left
unfolding take_out
take_out-captured_sum i [] r left e = cc
take_out-captured_sum zero (x ∷ rs) r left e = ground arith
take_out-captured_sum (suc i) (x ∷ rs) r left e = elim (Option-cases (take_out i rs)) [
  | inl e' ↦ ground arith
  | inr ((y, ys), e') ↦ ground (arith, take_out-captured_sum i rs y ys e')
]

call-IsBalanced : (s : System) (c : Call) → IsBalanced s → IsBalanced (call s c)
unfolding call
call-IsBalanced s (reserves n) v = unfold make_reservation in ground arith
call-IsBalanced s (reserves_or_null n) v = unfold make_reservation_or_null in ground arith
call-IsBalanced s (reserves_upto n) v = unfold make_reservation_upto in ground arith
call-IsBalanced s (grows i n) v = record {
  within = v.within;
  balanced = v.balanced ∙ sym (captured_sum-grow_at i n s.held);
}
call-IsBalanced s (destroys i) v = elim (Option-cases (take_out i s.held)) [
  | inl e ↦ rw (e, call) v
  | inr ((r, left), e) ↦
      let parts = take_out-captured_sum i s.held r left e in
      rw (e, call) (unfold destroy_reservation in ground arith)
]

-- Under every sequence of calls on a space that starts balanced, the reserved counter stays the sum
-- of what the reservations still held captured, growing their arenas included, and within the
-- limit.
pub history-IsBalanced : (s : System) (cs : List Call) → IsBalanced s → IsBalanced (history s cs)
unfolding history
history-IsBalanced s [] v = v
history-IsBalanced s (c ∷ cs) v = history-IsBalanced (call s c) cs (call-IsBalanced s c v)
