-- ===== src/Adaptor.antt =====
-- cucascade-rocm/include/cucascade/memory/reservation_aware_resource_adaptor.hpp and
-- oom_handling_policy.hpp: device allocation with per-stream accounting, a limit, and the fallbacks
-- of an allocation that fails. What the upstream resource, the HIP calls and a client's OOM policy
-- answer is an argument of the call. Adaptor.Streams has the tracker map.
pub mod Streams
pub mod Outcomes
pub mod Ledger
pub mod Concurrent
pub mod Traffic
pub mod Charges
pub mod Settled
use cuda2rocm.Base.{
  ℕ, ◌+◌, ◌-◌, Bool, true, false, ◌&&◌, ◌||◌, not, Option, none, some, List, [], ◌∷◌, ltb, ◌==◌,
  length, if◌then◌else◌, add_word, Error, Result, ok, err, limit_exceeded, upstream_failed,
}
use Streams.{
  StreamState, OomPolicy, throw_on_oom, custom, touch, current_bytes, peak_bytes, policy_of, charge,
  clamped_sub, credit, reset, attach,
}

-- `spilled_alloc`, with the pointer that it stands under.
pub record SpilledAlloc : Type 0 where
  pub ptr : ℕ
  pub bytes : ℕ
  pub is_uvm : Bool

pub record Adaptor : Type 0 where
  pub reservation_limit : ℕ
  pub total_allocated : ℕ
  pub stream_tracker : List StreamState
  pub host_spilled : List SpilledAlloc

-- What a client's policy does: it returns memory from its retry or the null pointer, or throws.
pub data Handling : Type 0 where
  recovers : ℕ → Handling
  returns_null : Handling
  throws : Error → Handling

-- What the environment answers in one call of `allocate`: the upstream resource, `hipMallocManaged`,
-- `hipMallocHost` (each gives memory or fails) and a client's policy.
pub record Answers : Type 0 where
  pub upstream : Option ℕ
  pub managed : Option ℕ
  pub pinned : Option ℕ
  pub handling : Handling

-- The memory's origin, which says how it is to be freed.
pub data Tier : Type 0 where
  device uvm pinned_host : Tier

pub record Memory : Type 0 where
  pub ptr : ℕ
  pub tier : Tier

unfoldable pub new_adaptor : ℕ → Adaptor
new_adaptor limit = record {
  reservation_limit = limit;
  total_allocated = 0;
  stream_tracker = [];
  host_spilled = [];
}

unfoldable pub find_spilled : ℕ → List SpilledAlloc → Option SpilledAlloc
find_spilled p [] = none
find_spilled p (x ∷ xs) = if x.ptr == p then some x else find_spilled p xs

unfoldable pub erase_spilled : ℕ → List SpilledAlloc → List SpilledAlloc
erase_spilled p [] = []
erase_spilled p (x ∷ xs) = if x.ptr == p then xs else x ∷ erase_spilled p xs

unfoldable pub charge_stream : ℕ → ℕ → Adaptor → Adaptor
charge_stream stream bytes s = record s {
  stream_tracker = charge stream bytes s.stream_tracker;
  total_allocated = add_word s.total_allocated bytes;
}

-- `handle_oom` of the policy attached to the stream, on an error: memory, or what is thrown. No
-- policy and a null pointer rethrow the error, as the default policy does.
unfoldable pub handle_oom : Option OomPolicy → Handling → Error → Result ℕ
handle_oom none answer e = err e
handle_oom (some throw_on_oom) answer e = err e
handle_oom (some custom) (recovers ptr) e = ok ptr
handle_oom (some custom) returns_null e = err e
handle_oom (some custom) (throws thrown) e = err thrown

-- The policy's memory is charged like device memory.
unfoldable pub recover : ℕ → ℕ → Handling → Error → Adaptor → Adaptor × Result Memory
unfolding handle_oom
recover stream bytes answer e s = elim (handle_oom (policy_of stream s.stream_tracker) answer e) [
  | err thrown ↦ (s, err thrown)
  | ok ptr ↦ (charge_stream stream bytes s, ok (record { ptr = ptr; tier = device }))
]

-- `host_spilled_[ptr] = {bytes, is_uvm}`, and the charge.
unfoldable pub spill : ℕ → ℕ → ℕ → Bool → Adaptor → Adaptor
unfolding charge_stream
spill stream bytes ptr is_uvm s = charge_stream stream bytes (record s {
  host_spilled =
      record { ptr = ptr; bytes = bytes; is_uvm = is_uvm } ∷ erase_spilled ptr s.host_spilled;
})

-- The limit test; a limit of 0 is none.
unfoldable pub over_limit : ℕ → ℕ → ℕ → Bool
over_limit limit current bytes =
    not (limit == 0) && (ltb limit bytes || ltb (limit - bytes) current)

-- The tiers after the limit test: upstream, managed memory, pinned host memory, the policy.
unfoldable pub allocate_tiers : ℕ → ℕ → Answers → Adaptor → Adaptor × Result Memory
allocate_tiers stream bytes answers s = elim answers.upstream [
  | some ptr ↦ (charge_stream stream bytes s, ok (record { ptr = ptr; tier = device }))
  | none ↦ elim answers.managed [
    | some ptr ↦ (spill stream bytes ptr true s, ok (record { ptr = ptr; tier = uvm }))
    | none ↦ elim answers.pinned [
      | some ptr ↦ (spill stream bytes ptr false s, ok (record { ptr = ptr; tier = pinned_host }))
      | none ↦ recover stream bytes answers.handling upstream_failed s
    ]
  ]
]

unfoldable pub allocate : ℕ → ℕ → Answers → Adaptor → Adaptor × Result Memory
allocate stream bytes answers s =
    let s' : Adaptor = record s { stream_tracker = touch stream s.stream_tracker } in
    if over_limit s.reservation_limit (current_bytes stream s'.stream_tracker) bytes
    then recover stream bytes answers.handling limit_exceeded s'
    else allocate_tiers stream bytes answers s'

-- The credit of a stream, if it is tracked, and of the total.
unfoldable pub credit_stream : ℕ → ℕ → Adaptor → Adaptor
credit_stream stream bytes s = record s {
  stream_tracker = credit stream bytes s.stream_tracker;
  total_allocated = clamped_sub s.total_allocated bytes;
}

-- The state after, and the tier whose function frees the memory: `hipFree`, `hipFreeHost` or the
-- upstream's `deallocate`.
unfoldable pub deallocate : ℕ → ℕ → ℕ → Adaptor → Adaptor × Tier
unfolding credit_stream
deallocate stream ptr bytes s = elim (find_spilled ptr s.host_spilled) [
  | none ↦ (credit_stream stream bytes s, device)
  | some x ↦ (
    credit_stream stream bytes (record s { host_spilled = erase_spilled ptr s.host_spilled }),
    if x.is_uvm then uvm else pinned_host,
  )
]

pub get_peak_allocated_bytes : ℕ → Adaptor → ℕ
get_peak_allocated_bytes stream s = peak_bytes stream s.stream_tracker

pub reset_stream_reservation : ℕ → Adaptor → Adaptor
reset_stream_reservation stream s = record s { stream_tracker = reset stream s.stream_tracker }

-- `defragment` leaves the accounting alone, and warns past 100 spilled allocations.
pub defragment : Adaptor → Adaptor × Bool
defragment s = (s, ltb 100 (length s.host_spilled))

pub attach_reservation_to_tracker : ℕ → ℕ → Option OomPolicy → Adaptor → Adaptor × Bool
attach_reservation_to_tracker stream reservation policy s =
    (record s { stream_tracker = attach stream reservation policy s.stream_tracker }, true)
