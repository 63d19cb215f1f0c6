-- ===== src/Manager/Requests.antt =====
-- Which space a request is given, and what it charges.
use cuda2rocm.Base.{
  ℕ, zero, suc, ◌+◌, ◌≡◌, refl, ap, Bool, true, false, Option, none, some, List, [], ◌∷◌, leb, ◌&&◌,
  if◌then◌else◌, set, arith, Result, ok, err, no_memory_space, inl, inr, Bool-cases, add_word,
}
use cuda2rocm.MemorySpace.{
  MemorySpace, Reservation, get_available_memory, make_reservation, make_reservation_or_null,
}
use cuda2rocm.MemorySpace.Accounting.{IsWithin}
use cuda2rocm.Manager.{
  Manager, Strategy, Found, Handle, matches, first_pass, second_pass, request_reservation, shift,
}

abbrev pub AllWithin : List MemorySpace → Type 0
AllWithin [] = Unit {0}
AllWithin (s ∷ ss) = IsWithin s × AllWithin ss

-- A space can serve a request: it matches and has the memory.
abbrev pub serves : Strategy → ℕ → MemorySpace → Bool
serves strategy bytes s = matches strategy s && leb bytes (get_available_memory s)

-- The index of the first space that can serve a request.
unfoldable pub first_server : Strategy → ℕ → List MemorySpace → Option ℕ
first_server strategy bytes [] = none
first_server strategy bytes (s ∷ ss) =
    if serves strategy bytes s
    then some 0
    else elim (first_server strategy bytes ss) [ none ↦ none | some i ↦ some (suc i) ]

-- Some space matches.
unfoldable pub any_match : Strategy → List MemorySpace → Bool
any_match strategy [] = false
any_match strategy (s ∷ ss) = if matches strategy s then true else any_match strategy ss

abbrev pub charged : ℕ → MemorySpace → MemorySpace
charged bytes s = record s { reserved_memory = s.reserved_memory + bytes }

-- The space at an index is charged for the bytes.
abbrev pub charge_at : ℕ → ℕ → List MemorySpace → List MemorySpace
charge_at bytes i [] = []
charge_at bytes zero (s ∷ ss) = charged bytes s ∷ ss
charge_at bytes (suc i) (s ∷ ss) = s ∷ charge_at bytes i ss

-- The first pass finds the first space that can serve, and charges it.
abbrev pub Finds : ℕ → List MemorySpace → Option ℕ → Option Found → Type 0
Finds bytes ss none none = Unit {0}
Finds bytes ss none (some f) = ⊥
Finds bytes ss (some i) none = ⊥
Finds bytes ss (some i) (some f) =
    (f.index ≡ i)
    × (f.reservation ≡ record { captured = bytes; arena_size = bytes })
    × (set ss i f.space ≡ charge_at bytes i ss)

Finds-shift :
    (bytes : ℕ) (s : MemorySpace) (ss : List MemorySpace) (i : Option ℕ) (f : Option Found)
    → Finds bytes ss i f
    → Finds bytes (s ∷ ss) (elim i [ none ↦ none | some j ↦ some (suc j) ]) (shift f)
Finds-shift bytes s ss none none h = tt
Finds-shift bytes s ss none (some f) h = absurd h
Finds-shift bytes s ss (some i) none h = absurd h
Finds-shift bytes s ss (some i) (some f) h = (ap suc h.0, h.1, ap (◌∷◌ s) h.2)

served :
    (bytes : ℕ) (s : MemorySpace)
    → IsWithin s
    → leb bytes (get_available_memory s) ≡ true
    → make_reservation bytes s
      ≡ (charged bytes s, ok (record { captured = bytes; arena_size = bytes }))
unfolding make_reservation get_available_memory
served bytes s v h = ground arith

first_pass-Finds :
    (strategy : Strategy) (bytes : ℕ) (ss : List MemorySpace)
    → AllWithin ss
    → Finds bytes ss (first_server strategy bytes ss) (first_pass strategy bytes ss)
unfolding first_pass first_server
first_pass-Finds strategy bytes [] v = tt
first_pass-Finds strategy bytes (s ∷ ss) v = elim (Bool-cases (serves strategy bytes s)) [
  | inr no_room ↦
      rw (no_room, first_pass, first_server)
        (Finds-shift bytes s ss _ _ (first_pass-Finds strategy bytes ss v.1))
  | inl room ↦
      let done = served bytes s v.0 (ground arith) in
      rw (room, first_pass, first_server, done)
        (refl, refl, ap (λ (r : MemorySpace × Result Reservation). r.0 ∷ ss) done)
]

refused :
    (bytes : ℕ) (s : MemorySpace)
    → leb bytes (get_available_memory s) ≡ false
    → (make_reservation_or_null bytes s).1 ≡ none
unfolding make_reservation_or_null get_available_memory
refused bytes s h = ground arith

second_pass-null :
    (strategy : Strategy) (bytes : ℕ) (ss : List MemorySpace)
    → first_server strategy bytes ss ≡ none
    → second_pass strategy bytes ss
      ≡ (if any_match strategy ss then ok none else err no_memory_space)
unfolding second_pass first_server any_match
second_pass-null strategy bytes [] h = refl
second_pass-null strategy bytes (s ∷ ss) h = elim (Bool-cases (matches strategy s)) [
  | inl match ↦ ground (arith, refused bytes s)
  | inr other ↦ ground (arith, second_pass-null strategy bytes ss)
]

-- A handle on the space at an index, for some bytes.
abbrev pub handle : ℕ → ℕ → Handle
handle i bytes = record { space = i; reservation = record { captured = bytes; arena_size = bytes } }

abbrev pub Outcome : ℕ → Manager → Manager × Result (Option Handle) → Option ℕ → Bool → Type 0
Outcome bytes m r (some i) any = r ≡ (
  record m {
    spaces = charge_at bytes i m.spaces;
    active_reservations = add_word m.active_reservations 1;
  },
  ok (some (handle i bytes)),
)
Outcome bytes m r none true = r ≡ (m, ok none)
Outcome bytes m r none false = r ≡ (m, err no_memory_space)

request-cases :
    (strategy : Strategy) (bytes : ℕ) (m : Manager) (i : Option ℕ) (f : Option Found) (any : Bool)
    → first_server strategy bytes m.spaces ≡ i
    → first_pass strategy bytes m.spaces ≡ f
    → any_match strategy m.spaces ≡ any
    → Finds bytes m.spaces i f
    → Outcome bytes m (request_reservation strategy bytes m) i any
unfolding request_reservation
request-cases strategy bytes m (some i) none any e g a x = absurd x
request-cases strategy bytes m (some i) (some f) any e g a x = ground (arith, x.0, x.1, x.2)
request-cases strategy bytes m none (some f) any e g a x = absurd x
request-cases strategy bytes m none none true e g a x =
    ground (arith, second_pass-null strategy bytes m.spaces e)
request-cases strategy bytes m none none false e g a x =
    ground (arith, second_pass-null strategy bytes m.spaces e)

-- A request on spaces within their limits is served by the first matching space that has the
-- memory, which alone is charged, and one more reservation is active; if none has it, nothing
-- changes, and the answer is null where some space matches and an exception where none does.
pub request_reservation-Outcome :
    (strategy : Strategy) (bytes : ℕ) (m : Manager)
    → AllWithin m.spaces
    → Outcome bytes m
        (request_reservation strategy bytes m)
        (first_server strategy bytes m.spaces)
        (any_match strategy m.spaces)
request_reservation-Outcome strategy bytes m v =
    request-cases strategy bytes m _ _ _ refl refl refl (first_pass-Finds strategy bytes m.spaces v)
