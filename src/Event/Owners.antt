-- ===== src/Event/Owners.antt =====
-- Each event has one owner, or was destroyed once.
use cuda2rocm.Base.{
  ℕ, zero, suc, ◌+◌, ◌<◌, ◌≡◌, refl, Option, none, some, List, [], ◌∷◌, ◌++◌, get_or, set, length,
  length-set, ltb, ◌==◌, if◌then◌else◌, arith, get_or-set_self, get_or-set_ne, ltb→lt, Bool-cases,
  Option-cases, inl, inr, Result, ok, err,
}
use native.Mathlib.Decide.{ℕ_discrete}
use cuda2rocm.Event.{
  Events, Status, success, not_ready, other, cuda_try, event_of, create_event, destroy,
  move_construct, move_assign, give_event, ensure_event, record_writer_event, new_representation,
}

-- Whether an object holds the event `n`, as a number.
abbrev pub holds : ℕ → Option ℕ → ℕ
holds n none = 0
holds n (some e) = if e == n then 1 else 0

abbrev pub holders : ℕ → List (Option ℕ) → ℕ
holders n [] = 0
holders n (h ∷ hs) = holds n h + holders n hs

abbrev pub times : ℕ → List ℕ → ℕ
times n [] = 0
times n (e ∷ es) = (if e == n then 1 else 0) + times n es

holders-append :
    (n : ℕ) (hs : List (Option ℕ)) (h : Option ℕ)
    → holders n (hs ++ (h ∷ [])) ≡ holders n hs + holds n h
holders-append n [] h = omega arith
holders-append n (x ∷ hs) h = omega (arith, holders-append n hs h)

holders-set :
    (n : ℕ) (hs : List (Option ℕ)) (i : ℕ) (h : Option ℕ)
    → i < length hs
    → holders n (set hs i h) + holds n (get_or hs i none) ≡ holders n hs + holds n h
holders-set n [] i h lt = absurd (omega arith)
holders-set n (x ∷ hs) zero h lt = omega arith
holders-set n (x ∷ hs) (suc i) h lt = omega (arith, holders-set n hs i h (omega arith))

-- Nothing is held, and nothing changes, outside of the list.
holders-set-none :
    (n : ℕ) (hs : List (Option ℕ)) (i : ℕ)
    → holders n (set hs i none) + holds n (get_or hs i none) ≡ holders n hs
holders-set-none n [] i = refl
holders-set-none n (x ∷ hs) zero = omega arith
holders-set-none n (x ∷ hs) (suc i) = omega (arith, holders-set-none n hs i)

-- Each event that was made has one holder, or was destroyed once; no other is held or destroyed.
abbrev pub IsOwned : Events → Type 0
IsOwned s =
    (n : ℕ) → holders n s.handles + times n s.destroyed ≡ (if ltb n s.next_event then 1 else 0)

create_event-IsOwned :
    (status : Status) (s : Events) → IsOwned s → IsOwned (create_event status s).0
unfolding create_event cuda_try
create_event-IsOwned success s h n =
    ground (arith, h n, holders-append n s.handles (some s.next_event))
create_event-IsOwned not_ready s h n = h n
create_event-IsOwned other s h n = h n

destroy-IsOwned : (i : ℕ) (s : Events) → IsOwned s → IsOwned (destroy i s)
unfolding destroy
destroy-IsOwned i s h n = elim (Option-cases (event_of i s)) [
  | inl e ↦ rw (destroy, e) (h n)
  | inr (x, e) ↦
      let fewer = rw e at (holders-set-none n s.handles i) in
      rw (destroy, e) (omega (arith, h n, fewer))
]

move_construct-IsOwned : (i : ℕ) (s : Events) → IsOwned s → IsOwned (move_construct i s)
unfolding move_construct
move_construct-IsOwned i s h n = omega (
  arith,
  h n,
  holders-set-none n s.handles i,
  holders-append n (set s.handles i none) (event_of i s),
)

get_or-set-none : (hs : List (Option ℕ)) (i : ℕ) → get_or (set hs i none) i none ≡ none
get_or-set-none [] i = refl
get_or-set-none (x ∷ hs) zero = refl
get_or-set-none (x ∷ hs) (suc i) = get_or-set-none hs i

event_of-destroy : (i : ℕ) (s : Events) → event_of i (destroy i s) ≡ none
unfolding destroy
event_of-destroy i s = elim (Option-cases (event_of i s)) [
  | inl e ↦ rw (destroy, e) e
  | inr (x, e) ↦ rw (destroy, e) (get_or-set-none s.handles i)
]

length-destroy : (i : ℕ) (s : Events) → length (destroy i s).handles ≡ length s.handles
unfolding destroy
length-destroy i s = elim (Option-cases (event_of i s)) [
  | inl e ↦ rw (destroy, e) refl
  | inr (x, e) ↦ rw (destroy, e) (length-set s.handles i none)
]

-- Of two objects, the first one empty: the event of the second goes to the first.
holders-move :
    (n : ℕ) (hs : List (Option ℕ)) (i j : ℕ)
    → i < length hs
    → get_or hs i none ≡ none
    → holders n (set (set hs i (get_or hs j none)) j none) ≡ holders n hs
holders-move n hs i j lt e =
    let v = get_or hs j none in
    let given = rw e at (holders-set n hs i v lt) in
    let taken = holders-set-none n (set hs i v) j in
    let there : get_or (set hs i v) j none ≡ v = elim (ℕ_discrete i j) [
      | yes same ↦ rw (← same) (get_or-set_self hs i _ none lt)
      | no apart ↦ get_or-set_ne hs i j v none apart
    ] in
    omega (arith, given, rw there at taken)

move_assign-IsOwned : (i j : ℕ) (s : Events) → IsOwned s → IsOwned (move_assign i j s)
unfolding move_assign
move_assign-IsOwned i j s h = elim (Bool-cases (ltb i (length s.handles))) [
  | inr e ↦ rw (move_assign, e) h
  | inl e ↦
      rw (move_assign, e)
        (λ n. omega (
          arith,
          destroy-IsOwned i s h n,
          holders-move n (destroy i s).handles i j (rw (length-destroy i s) (ltb→lt i _ e))
              (event_of-destroy i s),
        ))
]

give_event-IsOwned :
    (r : Result (Unit {0})) (i : ℕ) (s : Events)
    → i < length s.handles
    → event_of i s ≡ none
    → IsOwned s
    → IsOwned (give_event r i s).0
unfolding give_event
give_event-IsOwned (err e) i s lt free h n = h n
give_event-IsOwned (ok t) i s lt free h n =
    let given = rw free at (holders-set n s.handles i (some s.next_event) lt) in
    ground (arith, h n, given)

ensure_event-IsOwned :
    (created : Status) (i : ℕ) (s : Events)
    → i < length s.handles
    → IsOwned s
    → IsOwned (ensure_event created i s).0
unfolding ensure_event
ensure_event-IsOwned created i s lt h = elim (Option-cases (event_of i s)) [
  | inr (x, e) ↦ rw (ensure_event, e) h
  | inl e ↦ rw (ensure_event, e) (give_event-IsOwned (cuda_try created) i s lt e h)
]

record_writer_event-IsOwned :
    (created recorded : Status) (i : ℕ) (s : Events)
    → IsOwned s
    → IsOwned (record_writer_event created recorded i s).0
unfolding record_writer_event
record_writer_event-IsOwned created recorded i s h = elim (Bool-cases (ltb i (length s.handles))) [
  | inl e ↦ rw (record_writer_event, e) (ensure_event-IsOwned created i s (ltb→lt i _ e) h)
  | inr e ↦ rw (record_writer_event, e) h
]

new_representation-IsOwned : (s : Events) → IsOwned s → IsOwned (new_representation s)
unfolding new_representation
new_representation-IsOwned s h n = omega (arith, h n, holders-append n s.handles none)

-- A call on an event or on a representation, with what the runtime answers.
pub data Call : Type 0 where
  creates : Status → Call
  destroys : ℕ → Call
  move_constructs : ℕ → Call
  move_assigns : ℕ → ℕ → Call
  represents : Call
  records : Status → Status → ℕ → Call

abbrev pub step : Call → Events → Events
step (creates status) s = (create_event status s).0
step (destroys i) s = destroy i s
step (move_constructs i) s = move_construct i s
step (move_assigns i j) s = move_assign i j s
step represents s = new_representation s
step (records created recorded i) s = (record_writer_event created recorded i s).0

abbrev pub history : List Call → Events → Events
history [] s = s
history (c ∷ calls) s = history calls (step c s)

step-IsOwned : (c : Call) (s : Events) → IsOwned s → IsOwned (step c s)
step-IsOwned (creates status) s h = create_event-IsOwned status s h
step-IsOwned (destroys i) s h = destroy-IsOwned i s h
step-IsOwned (move_constructs i) s h = move_construct-IsOwned i s h
step-IsOwned (move_assigns i j) s h = move_assign-IsOwned i j s h
step-IsOwned represents s h = new_representation-IsOwned s h
step-IsOwned (records created recorded i) s h = record_writer_event-IsOwned created recorded i s h

-- After any sequence of calls on events and on representations with writer events, with any
-- failures of the runtime: each event that was made is held by exactly one object or was destroyed
-- exactly once, and not both; no other is held or destroyed.
pub history-IsOwned : (calls : List Call) (s : Events) → IsOwned s → IsOwned (history calls s)
history-IsOwned [] s h = h
history-IsOwned (c ∷ calls) s h = history-IsOwned calls (step c s) (step-IsOwned c s h)
