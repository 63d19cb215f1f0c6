-- ===== src/Adaptor/Streams.antt =====
-- `stream_tracker_`: the state of each stream that was used.
use cuda2rocm.Base.{
  ℕ, ◌-◌, ◌≡◌, Option, none, some, List, [], ◌∷◌, ltb, ◌==◌, if◌then◌else◌, add_word, max, arith,
}

-- The default policy of the source, or one that a client attached.
pub data OomPolicy : Type 0 where
  throw_on_oom custom : OomPolicy

pub record StreamState : Type 0 where
  pub stream : ℕ
  pub current : ℕ
  pub peak : ℕ
  pub reservation : Option ℕ
  pub oom_policy : Option OomPolicy

new_state : ℕ → StreamState
new_state x = record { stream = x; current = 0; peak = 0; reservation = none; oom_policy = none }

-- `stream_tracker_[stream]` makes a state for a new stream.
unfoldable pub touch : ℕ → List StreamState → List StreamState
unfolding new_state
touch x [] = new_state x ∷ []
touch x (t ∷ ts) = if t.stream == x then t ∷ ts else t ∷ touch x ts

-- What is read of a stream; a stream without a state reads as 0 and without a policy.
unfoldable pub current_bytes : ℕ → List StreamState → ℕ
current_bytes x [] = 0
current_bytes x (t ∷ ts) = if t.stream == x then t.current else current_bytes x ts

unfoldable pub peak_bytes : ℕ → List StreamState → ℕ
peak_bytes x [] = 0
peak_bytes x (t ∷ ts) = if t.stream == x then t.peak else peak_bytes x ts

unfoldable pub policy_of : ℕ → List StreamState → Option OomPolicy
policy_of x [] = none
policy_of x (t ∷ ts) = if t.stream == x then t.oom_policy else policy_of x ts

unfoldable pub reservation_of : ℕ → List StreamState → Option ℕ
reservation_of x [] = none
reservation_of x (t ∷ ts) = if t.stream == x then t.reservation else reservation_of x ts

-- The charge of one state: `fetch_add`, and the peak raised to the new value.
charge_state : ℕ → StreamState → StreamState
charge_state bytes t =
    let now = add_word t.current bytes in
    record t { current = now; peak = if ltb t.peak now then now else t.peak }

unfoldable pub charge : ℕ → ℕ → List StreamState → List StreamState
unfolding new_state charge_state
charge x bytes [] = charge_state bytes (new_state x) ∷ []
charge x bytes (t ∷ ts) = if t.stream == x then charge_state bytes t ∷ ts else t ∷ charge x bytes ts

-- The loop of `clamped_sub`: it ends at 0 without a write, and else with a store.
unfoldable pub clamped_sub : ℕ → ℕ → ℕ
clamped_sub cur bytes = if ltb 0 cur then (if ltb bytes cur then cur - bytes else 0) else cur

pub clamped_sub_lem : (cur bytes : ℕ) → clamped_sub cur bytes ≡ cur - bytes
unfolding clamped_sub
clamped_sub_lem cur bytes = ground arith

-- `clamped_sub` on the current bytes of a stream that has a state.
unfoldable pub credit : ℕ → ℕ → List StreamState → List StreamState
credit x bytes [] = []
credit x bytes (t ∷ ts) =
    if t.stream == x
    then record t { current = clamped_sub t.current bytes } ∷ ts
    else t ∷ credit x bytes ts

unfoldable pub reset : ℕ → List StreamState → List StreamState
reset x [] = []
reset x (t ∷ ts) = if t.stream == x then record t { current = 0; peak = 0 } ∷ ts else t ∷ reset x ts

unfoldable pub attach : ℕ → ℕ → Option OomPolicy → List StreamState → List StreamState
unfolding new_state
attach x r policy [] = record (new_state x) { reservation = some r; oom_policy = policy } ∷ []
attach x r policy (t ∷ ts) =
    if t.stream == x
    then record t { reservation = some r; oom_policy = policy } ∷ ts
    else t ∷ attach x r policy ts

module _ (x y : ℕ) where
  pub current_bytes-touch :
      (ts : List StreamState) → current_bytes y (touch x ts) ≡ current_bytes y ts
  unfolding current_bytes touch
  current_bytes-touch [] = ground arith
  current_bytes-touch (t ∷ ts) = ground (arith, current_bytes-touch ts)

  pub policy_of-touch : (ts : List StreamState) → policy_of y (touch x ts) ≡ policy_of y ts
  unfolding policy_of touch
  policy_of-touch [] = ground arith
  policy_of-touch (t ∷ ts) = ground (arith, policy_of-touch ts)

  -- A charge raises the bytes of its stream alone, and its peak to at least that.
  pub current_bytes-charge :
      (bytes : ℕ) (ts : List StreamState)
      → current_bytes y (charge x bytes ts)
        ≡ (if x == y then add_word (current_bytes y ts) bytes else current_bytes y ts)
  unfolding current_bytes charge
  current_bytes-charge bytes [] = ground arith
  current_bytes-charge bytes (t ∷ ts) = ground (arith, current_bytes-charge bytes ts)

  pub peak_bytes-charge :
      (bytes : ℕ) (ts : List StreamState)
      → peak_bytes y (charge x bytes ts) ≡ (
          if x == y
          then max (peak_bytes y ts) (current_bytes y (charge x bytes ts))
          else peak_bytes y ts)
  unfolding current_bytes peak_bytes charge
  peak_bytes-charge bytes [] = ground arith
  peak_bytes-charge bytes (t ∷ ts) = ground (arith, peak_bytes-charge bytes ts)

  pub current_bytes-credit :
      (bytes : ℕ) (ts : List StreamState)
      → current_bytes y (credit x bytes ts)
        ≡ (if x == y then clamped_sub (current_bytes y ts) bytes else current_bytes y ts)
  unfolding current_bytes credit
  current_bytes-credit bytes [] = ground (arith, clamped_sub_lem 0 bytes)
  current_bytes-credit bytes (t ∷ ts) = ground (arith, current_bytes-credit bytes ts)

  -- A reset clears the counters of its stream and of no other, and keeps the reservation and the
  -- policy that are attached.
  pub reset_outcome :
      (ts : List StreamState)
      → (current_bytes y (reset x ts) ≡ (if x == y then 0 else current_bytes y ts))
        × (peak_bytes y (reset x ts) ≡ (if x == y then 0 else peak_bytes y ts))
        × (reservation_of y (reset x ts) ≡ reservation_of y ts)
        × (policy_of y (reset x ts) ≡ policy_of y ts)
  unfolding current_bytes peak_bytes reservation_of policy_of reset
  reset_outcome [] = ground arith
  reset_outcome (t ∷ ts) = ground (arith, reset_outcome ts)
