-- ===== src/Tests/Device.antt =====
-- The device allocator and the stream pool at concrete inputs.
use cuda2rocm.Base.{
  ℕ, ◌+◌, ◌<◌, ◌≡◌, ◌≢◌, refl, Option, none, some, List, [], ◌∷◌, ◌++◌, arith, ok, word_mod,
  upstream_failed,
}
use cuda2rocm.Adaptor.{
  Adaptor, Answers, Memory, uvm, throws, allocate, deallocate, find_spilled, over_limit,
  allocate_tiers,
}
use cuda2rocm.Adaptor.Streams.{current_bytes, policy_of, throw_on_oom, custom, touch}
use cuda2rocm.Adaptor.Outcomes.{Booked, allocate-Booked}
use cuda2rocm.Adaptor.Ledger.{Undone, deallocate-allocate}
use cuda2rocm.StreamPool.{grow, destroy_pool, acquire_stream, find_free, new_pool, grow_pool}
use cuda2rocm.StreamPool.Flags.{take_out}
use cuda2rocm.StreamPool.Lifetime.{
  NonNull, made, made_later, start, torn_down, history-destroy_pool,
}
use cuda2rocm.StreamPool.Exclusive.{IsExclusive, acquires}
use cuda2rocm.StreamPool.Exclusive

-- The device fails and managed memory is given.
abbrev falls_back : Answers
falls_back = record {
  upstream = none;
  managed = some 4096;
  pinned = none;
  handling = throws upstream_failed;
}

abbrev adaptor : Adaptor
adaptor = record {
  reservation_limit = 1000;
  total_allocated = 40;
  stream_tracker =
      record {
        stream = 5;
        current = 40;
        peak = 70;
        reservation = some 9;
        oom_policy = some throw_on_oom;
      }
      ∷ [];
  host_spilled = [];
}

allocate-Booked_example : Booked 5 100 adaptor (allocate 5 100 falls_back adaptor)
allocate-Booked_example = allocate-Booked 5 100 falls_back adaptor

abbrev managed_memory : Memory
managed_memory = record { ptr = 4096; tier = uvm }

allocate-adaptor : (allocate 5 100 falls_back adaptor).1 ≡ ok managed_memory
unfolding allocate over_limit allocate_tiers touch current_bytes
allocate-adaptor = refl

find_spilled-adaptor : find_spilled 4096 adaptor.host_spilled ≡ none
unfolding find_spilled
find_spilled-adaptor = refl

current_bytes-adaptor : (y : ℕ) → current_bytes y adaptor.stream_tracker + 100 < word_mod
unfolding current_bytes
current_bytes-adaptor y = ground arith

deallocate-allocate_example :
    Undone managed_memory adaptor (deallocate 5 4096 100 (allocate 5 100 falls_back adaptor).0)
deallocate-allocate_example =
    deallocate-allocate 5 100 falls_back adaptor managed_memory allocate-adaptor
      find_spilled-adaptor (omega arith) current_bytes-adaptor

policy_of-adaptor : policy_of 5 adaptor.stream_tracker ≢ some custom
unfolding policy_of
policy_of-adaptor e = cc

-- Two of three streams are made at the start, and one later, as the two are in use.
abbrev at_start : List (Option ℕ)
at_start = some 11 ∷ none ∷ some 12 ∷ []

abbrev growing : List Exclusive.Call
growing =
    acquires grow none ∷ acquires grow none ∷ acquires grow (some 13) ∷ Exclusive.releases 1 ∷ []

growing-made : made at_start ++ made_later (start at_start) growing ≡ 11 ∷ 12 ∷ 13 ∷ []
unfolding made_later Exclusive.call acquire_stream find_free new_pool grow_pool take_out
growing-made = refl

growing-NonNull : NonNull (made at_start ++ made_later (start at_start) growing)
unfolding made_later Exclusive.call acquire_stream find_free new_pool grow_pool take_out
growing-NonNull = ground arith

history-destroy_pool_example :
    IsExclusive (Exclusive.history (start at_start) growing)
    × (destroy_pool (Exclusive.history (start at_start) growing).pool
        ≡ torn_down (made at_start ++ made_later (start at_start) growing))
history-destroy_pool_example = history-destroy_pool at_start growing growing-NonNull
