-- ===== src/Event.antt =====
-- cucascade-rocm/include/cucascade/cuda/event.hpp, and the writer event of `idata_representation` in
-- data/common.hpp. The objects that own an event are numbered as they are made, and so are the events
-- of the HIP runtime; an object without an event, moved from or destroyed, holds none.
pub mod Owners
use cuda2rocm.Base.{
  ℕ, zero, suc, Bool, true, false, Option, none, some, List, [], ◌∷◌, ◌++◌, get_or, set, length,
  ltb, if◌then◌else◌, Result, ok, err, event_failed,
}

pub record Events : Type 0 where
  pub handles : List (Option ℕ)
  pub destroyed : List ℕ
  pub next_event : ℕ

-- `cudaError_t`, as far as it is used here.
pub data Status : Type 0 where
  success not_ready other : Status

pub data QueryResult : Type 0 where
  finished in_progress error : QueryResult

-- `query` of an event and of a view, from what `hipEventQuery` answers.
unfoldable pub query : Status → QueryResult
query success = finished
query not_ready = in_progress
query other = error

-- `CUCASCADE_CUDA_TRY`
unfoldable pub cuda_try : Status → Result (Unit {0})
cuda_try success = ok tt
cuda_try not_ready = err event_failed
cuda_try other = err event_failed

abbrev pub event_of : ℕ → Events → Option ℕ
event_of i s = get_or s.handles i none

-- The constructor, where `hipEventCreateWithFlags` succeeds; where it fails there is no object.
unfoldable pub create_event : Status → Events → Events × Result (Unit {0})
unfolding cuda_try
create_event status s = elim (cuda_try status) [
  | err e ↦ (s, err e)
  | ok t ↦ (
    record s { handles = s.handles ++ (some s.next_event ∷ []); next_event = suc s.next_event },
    ok t,
  )
]

-- The destructor of an event, and that of a representation.
unfoldable pub destroy : ℕ → Events → Events
destroy i s = elim (event_of i s) [
  | none ↦ s
  | some e ↦ record s { handles = set s.handles i none; destroyed = e ∷ s.destroyed }
]

unfoldable pub move_construct : ℕ → Events → Events
move_construct i s = record s { handles = set s.handles i none ++ (event_of i s ∷ []) }

-- `operator=(cuda_event&&)` of an object that exists.
unfoldable pub move_assign : ℕ → ℕ → Events → Events
unfolding destroy
move_assign i j s =
    let t = destroy i s in
    if ltb i (length s.handles)
    then record t { handles = set (set t.handles i (event_of j t)) j none }
    else s

-- A representation is made without a writer event.
unfoldable pub new_representation : Events → Events
new_representation s = record s { handles = s.handles ++ (none ∷ []) }

-- What comes of `hipEventCreateWithFlags` for a representation.
unfoldable pub give_event : Result (Unit {0}) → ℕ → Events → Events × Result (Unit {0})
give_event (err e) i s = (s, err e)
give_event (ok t) i s = (
  record s { handles = set s.handles i (some s.next_event); next_event = suc s.next_event },
  ok t,
)

-- The first part of `record_writer_event`: an event for the representation that has none.
unfoldable pub ensure_event : Status → ℕ → Events → Events × Result (Unit {0})
unfolding cuda_try give_event
ensure_event created i s = elim (event_of i s) [
  | some e ↦ (s, ok tt)
  | none ↦ give_event (cuda_try created) i s
]

-- `record_writer_event` of a representation that exists: the event that was made stays where the
-- recording fails.
unfoldable pub record_writer_event : Status → Status → ℕ → Events → Events × Result (Unit {0})
unfolding ensure_event cuda_try
record_writer_event created recorded i s =
    if ltb i (length s.handles)
    then (let (t, r) = ensure_event created i s in
        (t, elim r [ err e ↦ err e | ok u ↦ cuda_try recorded ]))
    else (s, ok tt)

-- `rebind_stream`
unfoldable pub rebind_stream : Status → ℕ → Events → Result (Unit {0})
unfolding cuda_try
rebind_stream recorded i s = elim (event_of i s) [ none ↦ ok tt | some e ↦ cuda_try recorded ]
