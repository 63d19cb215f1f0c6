-- ===== src/Tests/Set.antt =====
-- The hash set at concrete launches: against a set of keys, under a fair schedule, and with a stride
-- that is a multiple of the number of slots.
use cuda2rocm.Base.{
  inl, inr, ok, some, Among, ℕ, zero, suc, ◌+◌, ◌*◌, ◌≤◌, ◌^◌, ◌≡◌, ◌≢◌, ◌↔◌, ◌⊎◌, refl, true, List,
  [], ◌∷◌, replicate, arith,
}
use cuda2rocm.StaticSet.Construction.{new_set-contains}
use cuda2rocm.StaticSet.{new_set, StaticSet, contains}
use cuda2rocm.StaticSet.Fill.{fill_slots}
use cuda2rocm.StaticSet.Kernel.{dropped, run, launch}
use cuda2rocm.StaticSet.Occupied.{occupied}
use cuda2rocm.StaticSet.Abstract.{IsFair, Represents, replicate-Represents, run-Represents}
use cuda2rocm.StaticSet.Narrow.{IsNarrow, launch-IsNarrow}

abbrev same : ℕ → ℕ
same k = k

-- Four empty slots, and two keys that start at the same one.
abbrev no_keys : StaticSet
no_keys = record { slots = replicate 4 9; capacity = 4; empty_key = 9 }

abbrev two_keys : List ℕ
two_keys = 1 ∷ 5 ∷ []

abbrev round_robin : List ℕ
round_robin = 0 ∷ 1 ∷ 0 ∷ 1 ∷ 0 ∷ 1 ∷ 0 ∷ 1 ∷ 0 ∷ 1 ∷ []

round_robin-IsFair : IsFair 4 2 round_robin
round_robin-IsFair zero h = omega arith
round_robin-IsFair (suc zero) h = omega arith
round_robin-IsFair (suc (suc i)) h = absurd (omega arith)

abbrev filled : StaticSet
filled = (run same round_robin no_keys (launch two_keys)).0

run-Represents_example :
    Represents same filled (λ x. ⊥ ⊎ Among x two_keys)
    × (filled.capacity ≡ 4)
    × (occupied 9 filled.slots ≤ occupied 9 no_keys.slots + 2)
run-Represents_example =
    run-Represents same 2 round_robin no_keys two_keys (λ x. ⊥) (omega arith) refl
      (omega arith, (omega arith, tt)) (omega arith) round_robin-IsFair
      (replicate-Represents same 4 9 (omega arith))

-- Three slots, of which two are empty, and a stride of three.
abbrev three_slots : StaticSet
three_slots = record { slots = 7 ∷ 9 ∷ 9 ∷ []; capacity = 3; empty_key = 9 }

abbrev triple : ℕ → ℕ
triple k = 3 * 2 ^ 32

three_slots-IsNarrow : IsNarrow triple three_slots 5
three_slots-IsNarrow = record {
  multiple = 1;
  same_slot = refl;
  no_wrap = omega arith;
  taken = omega arith;
  other = omega arith;
}

launch-IsNarrow_example :
    run triple (replicate 4 0) three_slots (launch (5 ∷ []))
    ≡ (three_slots, record { key = 5; phase = dropped } ∷ [])
launch-IsNarrow_example = launch-IsNarrow triple three_slots 5 three_slots-IsNarrow

-- Four slots as `hipMalloc` gives them.
abbrev unfilled : StaticSet
unfilled = record { slots = 1 ∷ 5 ∷ 0 ∷ 9 ∷ []; capacity = 4; empty_key = 9 }

unfilled-built : new_set 4 (2 ^ 2) 9 (1 ∷ 5 ∷ 0 ∷ 9 ∷ []) true true ≡ ok unfilled
unfolding new_set
unfilled-built = refl

two_keys_apart : (y : ℕ) → Among y two_keys → y ≢ 9
two_keys_apart y (inl e) = rw e (omega arith)
two_keys_apart y (inr (inl e)) = rw e (omega arith)
two_keys_apart y (inr (inr m)) = absurd m

new_set-contains_example :
    (s' : StaticSet) × (fill_slots 2 unfilled ≡ some s')
    × ((contains same (run same round_robin s' (launch two_keys)).0 5 ≡ true) ↔ Among 5 two_keys)
new_set-contains_example =
    new_set-contains same 2 4 9 2 (1 ∷ 5 ∷ 0 ∷ 9 ∷ []) round_robin two_keys unfilled 5
      unfilled-built refl (omega arith) (omega arith) two_keys_apart (omega arith)
      round_robin-IsFair (omega arith)
