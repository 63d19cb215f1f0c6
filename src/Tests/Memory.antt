-- ===== src/Tests/Memory.antt =====
-- Memory spaces, the manager and the disk gate at concrete inputs.
use cuda2rocm.Base.{
  no_memory_space, err, ℕ, ◌+◌, ◌≤◌, ◌≡◌, refl, none, some, List, [], ◌∷◌, arith, ok, Bool, true,
  false, if◌then◌else◌,
}
use cuda2rocm.Atomic.{Thread, run}
use cuda2rocm.Atomic.Interleaving.{AllAgree, AllThreads, Grows}
use cuda2rocm.MemorySpace.{MemorySpace, gpu, same_tier, get_available_memory}
use cuda2rocm.MemorySpace.Accounting.{
  IsWithin, System, Call, reserves, reserves_upto, grows, destroys, history, IsBalanced,
  history-IsBalanced,
}
use cuda2rocm.MemorySpace.Concurrent.{
  Job, charges, charges_upto, releases, start, concurrent-le-max,
}
use cuda2rocm.DiskLimiter.{DiskLimiter, acquirers, granted, run-granted, propose_acquire}
use cuda2rocm.Manager.{
  new_manager, build_spaces, Manager, any_in_tier, request_reservation, matches,
}
use cuda2rocm.Manager.Requests.{
  AllWithin, first_server, any_match, Outcome, request_reservation-Outcome,
}
use cuda2rocm.Manager.Setup.{request_reservation-new_manager}
use cuda2rocm.Configurator.{Configurator, new_configurator, build}

abbrev gpu_space : MemorySpace
gpu_space = record { tier = gpu; device_id = 0; max_memory = 100; reserved_memory = 30 }

gpu_space-IsWithin : IsWithin gpu_space
gpu_space-IsWithin = record { word = omega arith; within = omega arith }

abbrev one_held : System
one_held = record { space = gpu_space; held = record { captured = 30; arena_size = 30 } ∷ [] }

one_held-IsBalanced : IsBalanced one_held
one_held-IsBalanced = record { within = gpu_space-IsWithin; balanced = refl }

abbrev some_calls : List Call
some_calls = reserves 50 ∷ reserves_upto 90 ∷ grows 0 5 ∷ reserves 1 ∷ destroys 1 ∷ []

history-IsBalanced_example : IsBalanced (history one_held some_calls)
history-IsBalanced_example = history-IsBalanced one_held some_calls one_held-IsBalanced

-- Two threads that reserve and one that releases, with a spurious failure.
abbrev some_jobs : List Job
some_jobs = charges 60 ∷ charges_upto 90 ∷ releases 30 ∷ []

abbrev some_turns : List (ℕ × Bool)
some_turns =
    (0, false) ∷ (1, false) ∷ (0, true) ∷ (0, false) ∷ (1, false) ∷ (2, false) ∷ (2, false) ∷ []

concurrent-le-max_example :
    ((run some_turns 30 (start 100 some_jobs)).0 ≤ 100)
    × AllAgree (run some_turns 30 (start 100 some_jobs)).1
concurrent-le-max_example =
    concurrent-le-max 100 some_jobs some_turns 30 (omega arith) (omega arith)

abbrev two_acquirers : List Thread
two_acquirers = acquirers 1 2

two_acquirers-Grow : AllThreads Grows two_acquirers
unfolding propose_acquire
two_acquirers-Grow = (λ c n b e. ground arith, (λ c n b e. ground arith, tt))

run-granted_example :
    let (c, ts) = run some_turns 0 (acquirers 1 2) in (c ≡ 0 + granted ts) × (c ≤ 1)
run-granted_example = run-granted 1 2 0 some_turns (omega arith) (omega arith)

abbrev last_place : DiskLimiter
last_place = record { max = 4; current = 3 }

-- A full space of the GPU before one with room.
abbrev two_spaces : Manager
two_spaces = record {
  spaces =
      record { tier = gpu; device_id = 0; max_memory = 100; reserved_memory = 90 }
      ∷ record { tier = gpu; device_id = 1; max_memory = 100; reserved_memory = 0 }
      ∷ [];
  active_reservations = 1;
  is_shutdown = false;
}

two_spaces-AllWithin : AllWithin two_spaces.spaces
two_spaces-AllWithin = (
  record { word = omega arith; within = omega arith },
  (record { word = omega arith; within = omega arith }, tt),
)

request_reservation-Outcome_example :
    Outcome 50 two_spaces
      (request_reservation (any_in_tier gpu) 50 two_spaces)
      (first_server (any_in_tier gpu) 50 two_spaces.spaces)
      (any_match (any_in_tier gpu) two_spaces.spaces)
request_reservation-Outcome_example =
    request_reservation-Outcome (any_in_tier gpu) 50 two_spaces two_spaces-AllWithin

first_server-two_spaces : first_server (any_in_tier gpu) 50 two_spaces.spaces ≡ some 1
unfolding first_server matches get_available_memory same_tier
first_server-two_spaces = refl

abbrev two_gpus : Configurator
two_gpus = record new_configurator { num_gpus = 2; gpu_usage_limit = 1000; per_host_capacity = 500 }

request_reservation-new_manager_example :
    request_reservation (any_in_tier gpu) 10 (new_manager (build 8 two_gpus)) ≡ (
      new_manager (build 8 two_gpus),
      if any_match (any_in_tier gpu) (build_spaces (build 8 two_gpus))
          then ok none
          else err no_memory_space,
    )
request_reservation-new_manager_example =
    request_reservation-new_manager (any_in_tier gpu) 10 (build 8 two_gpus) (omega arith)
