-- ===== src/Tests/Threads.antt =====
-- Requests by two threads at concrete inputs.
use cuda2rocm.Base.{
  Option, ◌^◌, some, ℕ, zero, suc, ◌+◌, ◌≤◌, ◌<◌, ◌≡◌, refl, List, [], ◌∷◌, arith, true, false, inl,
  inr, turns,
}
use cuda2rocm.MemorySpace.{MemorySpace, gpu, get_available_memory, same_tier}
use cuda2rocm.MemorySpace.Accounting.{IsWithin}
use cuda2rocm.Manager.{Manager, Strategy, any_in_tier, matches}
use cuda2rocm.Manager.Requests.{AllWithin}
use cuda2rocm.Manager.Concurrent.{counting, refused}
use cuda2rocm.Manager.Concurrent
use cuda2rocm.Manager.Holdings.{held, counted, reserved_at}
use cuda2rocm.Manager.Counted.{requests, run-Counted}
use cuda2rocm.Manager.Settled.{AllSettled, run-restored}
use cuda2rocm.Manager.Races.{manager_of, OneRefused, run-refused}
use cuda2rocm.Adaptor.{new_adaptor, Memory, device, uvm}
use cuda2rocm.Adaptor.Streams.{current_bytes}
use cuda2rocm.Adaptor.Traffic
use cuda2rocm.Adaptor.Settled
use cuda2rocm.Adaptor.Settled.{calls, run-repaid}

-- The threads 0 and 1 in turn, some number of times.
abbrev pub rounds : ℕ → List ℕ
rounds zero = []
rounds (suc n) = 0 ∷ 1 ∷ rounds n

pub rounds-fair : (n i : ℕ) → i < 2 → n ≤ turns i (rounds n)
rounds-fair zero i h = omega arith
rounds-fair (suc n) zero h = omega (arith, rounds-fair n 0 (omega arith))
rounds-fair (suc n) (suc zero) h = omega (arith, rounds-fair n 1 (omega arith))
rounds-fair (suc n) (suc (suc i)) h = absurd (omega arith)

abbrev first_space : MemorySpace
first_space = record { tier = gpu; device_id = 0; max_memory = 100; reserved_memory = 30 }

abbrev second_space : MemorySpace
second_space = record { tier = gpu; device_id = 1; max_memory = 100; reserved_memory = 0 }

first_space-IsWithin : IsWithin first_space
first_space-IsWithin = record { word = omega arith; within = omega arith }

abbrev two_spaces : Manager
two_spaces = manager_of first_space (second_space ∷ []) 0 false

-- Both see the first space, and charge it in turn.
abbrev both_hint : List ℕ
both_hint = 0 ∷ 1 ∷ 0 ∷ 1 ∷ 1 ∷ []

spaces-AllWithin : AllWithin two_spaces.spaces
spaces-AllWithin = (first_space-IsWithin, (record { word = omega arith; within = omega arith }, tt))

abbrev both : List (Strategy × ℕ)
both = (any_in_tier gpu, 50) ∷ (any_in_tier gpu, 60) ∷ []

run-Counted_example :
    let (m', ts) = Concurrent.run both_hint two_spaces (requests both) in
    ((y : ℕ) → reserved_at y m'.spaces ≡ reserved_at y two_spaces.spaces + held y ts)
    × AllWithin m'.spaces
    × (m'.active_reservations ≡ 0 + counted ts)
run-Counted_example = run-Counted both_hint two_spaces both spaces-AllWithin refl (omega arith)

run-restored_example :
    let (m', ts) = Concurrent.run (rounds 12) two_spaces (requests both) in
    AllSettled ts
    × ((y : ℕ) → reserved_at y m'.spaces ≡ reserved_at y two_spaces.spaces)
    × (m'.active_reservations ≡ 0)
run-restored_example =
    run-restored (rounds 12) two_spaces both spaces-AllWithin refl (omega arith) (rounds-fair 12)

gpu-matches : (s : MemorySpace) → s.tier ≡ gpu → matches (any_in_tier gpu) s ≡ true
unfolding matches same_tier
gpu-matches s e = rw e refl

first_space-available : get_available_memory first_space ≡ 70
unfolding get_available_memory
first_space-available = refl

run-refused_example : OneRefused (any_in_tier gpu) 50 first_space (second_space ∷ []) 0 false (
    Concurrent.run
      (0 ∷ 1 ∷ 1 ∷ 0 ∷ 1 ∷ 0 ∷ [])
      two_spaces
      (requests ((any_in_tier gpu, 50) ∷ (any_in_tier gpu, 50) ∷ [])))
run-refused_example =
    run-refused (any_in_tier gpu) 50 0 false first_space (second_space ∷ []) (1 ∷ 0 ∷ 1 ∷ 0 ∷ [])
      first_space-IsWithin (gpu-matches first_space refl) (omega (arith, first_space-available))
      (omega (arith, first_space-available)) (inr (inr (inr (inr (inl refl)))))

-- Two threads on one stream, one of which gets managed memory.
abbrev two_calls : List (ℕ × ℕ × Option Memory)
two_calls =
    (1, 30, some (record { ptr = 1000; tier = device }))
    ∷ (1, 40, some (record { ptr = 2000; tier = uvm }))
    ∷ []

fresh_bytes : (y : ℕ) → current_bytes y (new_adaptor 100).stream_tracker + 70 < 2 ^ 64
unfolding current_bytes new_adaptor
fresh_bytes y = omega arith

fresh_total : (new_adaptor 100).total_allocated + 70 < 2 ^ 64
unfolding new_adaptor
fresh_total = omega arith

run-repaid_example :
    let (s', ts) = Traffic.run (rounds 3) (new_adaptor 100) (calls two_calls) in
    Settled.AllSettled ts
    × ((y : ℕ)
        → current_bytes y s'.stream_tracker ≡ current_bytes y (new_adaptor 100).stream_tracker)
    × (s'.total_allocated ≡ (new_adaptor 100).total_allocated)
run-repaid_example =
    run-repaid (rounds 3) (new_adaptor 100) two_calls fresh_bytes fresh_total (rounds-fair 3)
