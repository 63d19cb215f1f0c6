-- ===== src/Adaptor/Concurrent.antt =====
-- `allocate` of the device allocator by several threads: the lock is held for the test of the limit
-- and for the charge, and released in between, while the upstream resource allocates. Its answer here
-- is memory, and the policy of each stream is the default one, which throws past the limit.
use cuda2rocm.Base.{
  ℕ, zero, suc, ◌+◌, ◌*◌, ◌≤◌, ◌<◌, ◌≡◌, refl, ◌∙◌, false, List, [], ◌∷◌, ◌==◌, if◌then◌else◌,
  arith, word_mod,
}
use cuda2rocm.Adaptor.{Adaptor, charge_stream, over_limit}
use cuda2rocm.Adaptor.Streams.{
  StreamState, touch, current_bytes, current_bytes-touch, current_bytes-charge,
}

-- A thread before the test, past it, with its memory charged, or refused.
pub data Phase : Type 0 where
  asking admitted holding refused : Phase

pub record Thread : Type 0 where
  pub stream : ℕ
  pub bytes : ℕ
  pub phase : Phase

-- What a thread does under the lock.
unfoldable pub proceed : ℕ → ℕ → Phase → Adaptor → Adaptor × Phase
proceed stream bytes asking s =
    let s' : Adaptor = record s { stream_tracker = touch stream s.stream_tracker } in
    (
      s',
      if over_limit s.reservation_limit (current_bytes stream s'.stream_tracker) bytes
          then refused
          else admitted,
    )
proceed stream bytes admitted s = (charge_stream stream bytes s, holding)
proceed stream bytes holding s = (s, holding)
proceed stream bytes refused s = (s, refused)

unfoldable pub turn : ℕ → Adaptor → List Thread → Adaptor × List Thread
unfolding proceed
turn i s [] = (s, [])
turn zero s (t ∷ ts) =
    let (s', phase) = proceed t.stream t.bytes t.phase s in
    (s', record { stream = t.stream; bytes = t.bytes; phase = phase } ∷ ts)
turn (suc i) s (t ∷ ts) = let (s', rest) = turn i s ts in (s', t ∷ rest)

unfoldable pub run : List ℕ → Adaptor → List Thread → Adaptor × List Thread
run [] s ts = (s, ts)
run (i ∷ schedule) s ts = let (s', rest) = turn i s ts in run schedule s' rest

-- The bytes of a stream that a phase holds, and those that it may still charge.
abbrev pub held_in : ℕ → Phase → ℕ
held_in n holding = n
held_in n asking = 0
held_in n admitted = 0
held_in n refused = 0

abbrev pub due_in : ℕ → Phase → ℕ
due_in n asking = n
due_in n admitted = n
due_in n holding = 0
due_in n refused = 0

-- The sums over the threads of the stream.
abbrev pub held : ℕ → List Thread → ℕ
held y [] = 0
held y (t ∷ ts) = (if t.stream == y then held_in t.bytes t.phase else 0) + held y ts

abbrev pub due : ℕ → List Thread → ℕ
due y [] = 0
due y (t ∷ ts) = (if t.stream == y then due_in t.bytes t.phase else 0) + due y ts

abbrev bytes_of : ℕ → Adaptor → ℕ
bytes_of y s = current_bytes y s.stream_tracker

-- One move of a thread, for one stream: the stream gains what the thread comes to hold.
abbrev Kept : ℕ → ℕ → ℕ → Phase → Adaptor → Adaptor × Phase → Type 0
Kept y stream bytes ph s r =
    (bytes_of y r.0 + (if stream == y then held_in bytes ph else 0)
      ≡ bytes_of y s + (if stream == y then held_in bytes r.1 else 0))
    × (bytes_of y r.0 + (if stream == y then due_in bytes r.1 else 0)
        ≤ bytes_of y s + (if stream == y then due_in bytes ph else 0))

proceed-Kept :
    (y stream bytes : ℕ) (ph : Phase) (s : Adaptor)
    → bytes_of y s + (if stream == y then due_in bytes ph else 0) < word_mod
    → Kept y stream bytes ph s (proceed stream bytes ph s)
unfolding proceed charge_stream
proceed-Kept y stream bytes asking s fits =
    let c = current_bytes-touch stream y s.stream_tracker in (ground (arith, c), ground (arith, c))
proceed-Kept y stream bytes admitted s fits =
    let c = current_bytes-charge stream y bytes s.stream_tracker in
    (ground (arith, c), ground (arith, c))
proceed-Kept y stream bytes holding s fits = (refl, omega arith)
proceed-Kept y stream bytes refused s fits = (refl, omega arith)

turn-Kept :
    (i y : ℕ) (s : Adaptor) (ts : List Thread)
    → bytes_of y s + due y ts < word_mod
    → (bytes_of y (turn i s ts).0 + held y ts ≡ bytes_of y s + held y (turn i s ts).1)
      × (bytes_of y (turn i s ts).0 + due y (turn i s ts).1 ≤ bytes_of y s + due y ts)
unfolding turn
turn-Kept i y s [] fits = (refl, omega arith)
turn-Kept zero y s (t ∷ ts) fits =
    let (e, le) = proceed-Kept y t.stream t.bytes t.phase s (omega (arith, fits)) in
    (omega (arith, e), omega (arith, le))
turn-Kept (suc i) y s (t ∷ ts) fits =
    let (e, le) = turn-Kept i y s ts (omega (arith, fits)) in (omega (arith, e), omega (arith, le))

-- However the critical sections of several calls of allocate interleave, where the upstream
-- resource gives memory and the sums do not wrap: a stream has gained exactly the bytes that its
-- calls have come to hold.
pub run-held :
    (schedule : List ℕ) (y : ℕ) (s : Adaptor) (ts : List Thread)
    → current_bytes y s.stream_tracker + due y ts < word_mod
    → current_bytes y (run schedule s ts).0.stream_tracker + held y ts
      ≡ current_bytes y s.stream_tracker + held y (run schedule s ts).1
unfolding run
run-held [] y s ts fits = refl
run-held (i ∷ schedule) y s ts fits =
    let (e, le) = turn-Kept i y s ts fits in
    omega (arith, e, run-held schedule y (turn i s ts).0 (turn i s ts).1 (omega (arith, le, fits)))

-- Two threads of one stream that ask for the same bytes.
abbrev pub pair : ℕ → ℕ → Phase → Phase → List Thread
pair stream bytes p q =
    record { stream = stream; bytes = bytes; phase = p }
    ∷ record { stream = stream; bytes = bytes; phase = q }
    ∷ []

abbrev pub both_ask : List ℕ
both_ask = 0 ∷ 1 ∷ 0 ∷ 1 ∷ []

over_limit-touch :
    (stream bytes : ℕ) (s : Adaptor) (ts : List StreamState)
    → current_bytes stream ts ≡ current_bytes stream s.stream_tracker
    → current_bytes stream s.stream_tracker + bytes ≤ s.reservation_limit
    → over_limit s.reservation_limit (current_bytes stream ts) bytes ≡ false
unfolding over_limit
over_limit-touch stream bytes s ts e room = rw e (ground arith)

both_hold :
    (stream bytes : ℕ) (s : Adaptor)
    → current_bytes stream s.stream_tracker + bytes ≤ s.reservation_limit
    → (run both_ask s (pair stream bytes asking asking)).1 ≡ pair stream bytes holding holding
unfolding run turn proceed
both_hold stream bytes s room =
    let once = current_bytes-touch stream stream s.stream_tracker in
    let twice = current_bytes-touch stream stream (touch stream s.stream_tracker) ∙ once in
    rw (over_limit-touch stream bytes s _ once room, over_limit-touch stream bytes s _ twice room)
      refl

-- Two calls on one stream for the same bytes, which fit the limit once, both get them where each is
-- tested before either is charged; where the sum does not wrap the stream then has twice the bytes
-- more, whether or not the limit has room for both.
pub run-both_hold :
    (stream bytes : ℕ) (s : Adaptor)
    → current_bytes stream s.stream_tracker + bytes ≤ s.reservation_limit
    → current_bytes stream s.stream_tracker + 2 * bytes < word_mod
    → ((run both_ask s (pair stream bytes asking asking)).1 ≡ pair stream bytes holding holding)
      × (current_bytes stream (run both_ask s (pair stream bytes asking asking)).0.stream_tracker
          ≡ current_bytes stream s.stream_tracker + 2 * bytes)
run-both_hold stream bytes s room fits =
    let hold = both_hold stream bytes s room in
    let two : due stream (pair stream bytes asking asking) ≡ 2 * bytes = ground arith in
    let none_yet : held stream (pair stream bytes asking asking) ≡ 0 = ground arith in
    let both : held stream (pair stream bytes holding holding) ≡ 2 * bytes = ground arith in
    let sum =
      run-held both_ask stream s (pair stream bytes asking asking) (omega (arith, fits, two)) in
    (hold, omega (arith, rw hold at sum, none_yet, both))
