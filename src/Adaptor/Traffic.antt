-- ===== src/Adaptor/Traffic.antt =====
-- Threads that allocate from the device allocator and free what they got, one critical section at a
-- time: the limit test, the charge with the entry of a spilled allocation, and the credit. What the
-- tiers gave a thread outside of the lock is part of it: memory of some tier, or none. The policy of
-- each stream is the default one, which throws.
use cuda2rocm.Base.{ℕ, zero, suc, true, false, Option, none, some, List, [], ◌∷◌, if◌then◌else◌}
use cuda2rocm.Adaptor.{
  Adaptor, Tier, device, uvm, pinned_host, Memory, charge_stream, spill, over_limit, deallocate,
}
use cuda2rocm.Adaptor.Streams.{touch, current_bytes}

-- A thread before the test, past it, with its memory, through, or with an exception.
pub data Phase : Type 0 where
  asking admitted freed refused : Phase
  holding : Memory → Phase

pub record Thread : Type 0 where
  pub stream : ℕ
  pub bytes : ℕ
  pub memory : Option Memory
  pub phase : Phase

-- The entry of an allocation from the fallback tiers, and the charge.
unfoldable pub book : ℕ → ℕ → ℕ → Tier → Adaptor → Adaptor
book stream bytes ptr device s = charge_stream stream bytes s
book stream bytes ptr uvm s = spill stream bytes ptr true s
book stream bytes ptr pinned_host s = spill stream bytes ptr false s

unfoldable pub proceed : ℕ → ℕ → Option Memory → Phase → Adaptor → Adaptor × Phase
unfolding book
proceed stream bytes memory asking s =
    let s' : Adaptor = record s { stream_tracker = touch stream s.stream_tracker } in
    (
      s',
      if over_limit s.reservation_limit (current_bytes stream s'.stream_tracker) bytes
          then refused
          else admitted,
    )
proceed stream bytes none admitted s = (s, refused)
proceed stream bytes (some m) admitted s = (book stream bytes m.ptr m.tier s, holding m)
proceed stream bytes memory (holding m) s = ((deallocate stream m.ptr bytes s).0, freed)
proceed stream bytes memory freed s = (s, freed)
proceed stream bytes memory refused s = (s, refused)

unfoldable pub turn : ℕ → Adaptor → List Thread → Adaptor × List Thread
unfolding proceed
turn i s [] = (s, [])
turn zero s (t ∷ ts) =
    let (s', p) = proceed t.stream t.bytes t.memory t.phase s in (s', record t { phase = p } ∷ ts)
turn (suc i) s (t ∷ ts) = let (s', rest) = turn i s ts in (s', t ∷ rest)

unfoldable pub run : List ℕ → Adaptor → List Thread → Adaptor × List Thread
run [] s ts = (s, ts)
run (i ∷ schedule) s ts = let (s', rest) = turn i s ts in run schedule s' rest
