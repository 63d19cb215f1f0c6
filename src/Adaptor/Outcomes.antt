-- ===== src/Adaptor/Outcomes.antt =====
-- What one call of `allocate` and the matching `deallocate` do to the accounting.
use cuda2rocm.Base.{
  ℕ, ◌≡◌, refl, ◌∙◌, true, false, Option, none, some, List, ◌∷◌, ◌==◌, add_word, if◌then◌else◌,
  Result, ok, err, Error, Bool-cases, inl, inr, limit_exceeded, upstream_failed,
}
use cuda2rocm.Adaptor.{
  Adaptor, SpilledAlloc, Answers, Handling, Memory, device, uvm, pinned_host, allocate,
  allocate_tiers, recover, spill, charge_stream, handle_oom, over_limit, erase_spilled,
}
use cuda2rocm.Adaptor.Streams.{
  touch, current_bytes, policy_of, current_bytes-touch, current_bytes-charge,
}

-- The spilled allocations after one of some memory.
abbrev pub spilled_after : Memory → ℕ → List SpilledAlloc → List SpilledAlloc
spilled_after m bytes xs = elim m.tier [
  | device ↦ xs
  | uvm ↦ record { ptr = m.ptr; bytes = bytes; is_uvm = true } ∷ erase_spilled m.ptr xs
  | pinned_host ↦ record { ptr = m.ptr; bytes = bytes; is_uvm = false } ∷ erase_spilled m.ptr xs
]

-- The accounting that clients see: the total, the spilled allocations, the limit and the streams.
pub record SameBooks (s t : Adaptor) : Type 0 where
  pub total : t.total_allocated ≡ s.total_allocated
  pub limit : t.reservation_limit ≡ s.reservation_limit
  pub spilled : t.host_spilled ≡ s.host_spilled
  pub streams : (y : ℕ) → current_bytes y t.stream_tracker ≡ current_bytes y s.stream_tracker

-- One charge of `bytes` to a stream and to the total, for memory of a tier.
pub record Charged (stream bytes : ℕ) (m : Memory) (s t : Adaptor) : Type 0 where
  pub total : t.total_allocated ≡ add_word s.total_allocated bytes
  pub spilled : t.host_spilled ≡ spilled_after m bytes s.host_spilled
  pub streams :
      (y : ℕ)
      → current_bytes y t.stream_tracker ≡ (
          if stream == y
          then add_word (current_bytes y s.stream_tracker) bytes
          else current_bytes y s.stream_tracker)

-- Memory is charged once, an error charges nothing.
abbrev pub Booked : ℕ → ℕ → Adaptor → Adaptor × Result Memory → Type 0
Booked stream bytes s (t, ok m) = Charged stream bytes m s t
Booked stream bytes s (t, err e) = SameBooks s t

charge_stream-Charged :
    (stream bytes : ℕ) (s : Adaptor) (ptr : ℕ)
    → Charged stream bytes (record { ptr = ptr; tier = device }) s (charge_stream stream bytes s)
unfolding charge_stream
charge_stream-Charged stream bytes s ptr = record {
  total = refl;
  spilled = refl;
  streams = λ y. current_bytes-charge stream y bytes s.stream_tracker;
}

recover-Booked :
    (stream bytes : ℕ) (answer : Handling) (e : Error) (s : Adaptor)
    → Booked stream bytes s (recover stream bytes answer e s)
unfolding recover
recover-Booked stream bytes answer e s =
    go (handle_oom (policy_of stream s.stream_tracker) answer e) refl
  where
    go :
        (r : Result ℕ)
        → handle_oom (policy_of stream s.stream_tracker) answer e ≡ r
        → Booked stream bytes s (recover stream bytes answer e s)
    go (ok ptr) q = rw (q, recover) (charge_stream-Charged stream bytes s ptr)
    go (err x) q =
        rw (q, recover) (record { total = refl; limit = refl; spilled = refl; streams = λ y. refl })

allocate_tiers-Booked :
    (stream bytes : ℕ) (u m p : Option ℕ) (h : Handling) (s : Adaptor)
    → Booked stream bytes s (
        allocate_tiers stream bytes
          (record { upstream = u; managed = m; pinned = p; handling = h })
          s)
unfolding allocate_tiers spill
allocate_tiers-Booked stream bytes (some ptr) m p h s = charge_stream-Charged stream bytes s ptr
allocate_tiers-Booked stream bytes none (some ptr) p h s = record {
  total = refl;
  spilled = refl;
  streams = λ y. current_bytes-charge stream y bytes s.stream_tracker;
}
allocate_tiers-Booked stream bytes none none (some ptr) h s = record {
  total = refl;
  spilled = refl;
  streams = λ y. current_bytes-charge stream y bytes s.stream_tracker;
}
allocate_tiers-Booked stream bytes none none none h s =
    recover-Booked stream bytes h upstream_failed s

-- Making the state of a stream shows in no count.
Booked-touch :
    (stream bytes : ℕ) (s : Adaptor) (r : Adaptor × Result Memory)
    → Booked stream bytes (record s { stream_tracker = touch stream s.stream_tracker }) r
    → Booked stream bytes s r
Booked-touch stream bytes s (t, ok m) b = record {
  total = b.total;
  spilled = b.spilled;
  streams = λ y. rw (← current_bytes-touch stream y s.stream_tracker) (b.streams y);
}
Booked-touch stream bytes s (t, err e) b = record {
  total = b.total;
  limit = b.limit;
  spilled = b.spilled;
  streams = λ y. b.streams y ∙ current_bytes-touch stream y s.stream_tracker;
}

-- On every path of allocate, memory from any tier or from a policy's retry is charged exactly once,
-- to its stream and to the total, and is registered as spilled just where it is managed or pinned
-- memory; where it throws, every count is as before.
pub allocate-Booked :
    (stream bytes : ℕ) (answers : Answers) (s : Adaptor)
    → Booked stream bytes s (allocate stream bytes answers s)
unfolding allocate
allocate-Booked stream bytes answers s =
    let t : Adaptor = record s { stream_tracker = touch stream s.stream_tracker } in
    Booked-touch stream bytes s _
      (elim (Bool-cases
        (over_limit s.reservation_limit (current_bytes stream t.stream_tracker) bytes)) [
          | inl over ↦
              rw (over, allocate) (recover-Booked stream bytes answers.handling limit_exceeded t)
          | inr fits ↦
              rw (fits, allocate)
                (allocate_tiers-Booked stream bytes answers.upstream answers.managed answers.pinned
                  answers.handling t)
        ])
