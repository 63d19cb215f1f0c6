-- ===== src/StaticSet/Construction.antt =====
-- A set from its constructor on: what it holds, and what a probe answers after a launch.
use cuda2rocm.Base.{
  ℕ, zero, suc, ◌/◌, ◌^◌, ◌≤◌, ◌<◌, ◌≡◌, ◌≢◌, ◌↔◌, ◌⊎◌, refl, Bool, true, List, [], ◌∷◌, length,
  replicate, Among, arith, size_max, inl, inr, ok, some,
}
use native.Mathlib.Nat.{one-le-pow, pow-le-pow_right}
use cuda2rocm.StaticSet.{StaticSet, new_set, contains}
use cuda2rocm.StaticSet.Fill.{fill_slots, fill_slots-replicate}
use cuda2rocm.StaticSet.Kernel.{run, launch}
use cuda2rocm.StaticSet.Concurrent.{NonEmpty}
use cuda2rocm.StaticSet.Occupied.{occupied, run-empty_key}
use cuda2rocm.StaticSet.Abstract.{
  IsFair, Represents, replicate-Represents, contains-Represents, run-Represents,
}

abbrev pub empty_set : ℕ → ℕ → StaticSet
empty_set capacity empty = record {
  slots = replicate capacity empty;
  capacity = capacity;
  empty_key = empty;
}

occupied-replicate : (empty n : ℕ) → occupied empty (replicate n empty) ≡ 0
occupied-replicate empty zero = refl
occupied-replicate empty (suc n) = ground (arith, occupied-replicate empty n)

-- The constructor returns only a set on the memory that it got, of a positive capacity whose bytes are
-- a size_t.
pub new_set-ok :
    (key_size capacity empty : ℕ) (memory : List ℕ) (allocated launched : Bool) (s : StaticSet)
    → new_set key_size capacity empty memory allocated launched ≡ ok s
    → (s ≡ record { slots = memory; capacity = capacity; empty_key = empty })
      × (0 < capacity)
      × (key_size ≤ size_max / capacity)
unfolding new_set
new_set-ok key_size capacity empty memory allocated launched s h =
    (ground arith, ground arith, ground arith)

pow-le : (k : ℕ) → k ≤ 31 → 2 ^ k ≤ 2 ^ 31
pow-le k le = pow-le-pow_right (omega arith) le

NonEmpty-Among :
    (s : StaticSet) (keys : List ℕ) → ((x : ℕ) → Among x keys → x ≢ s.empty_key) → NonEmpty s keys
NonEmpty-Among s [] h = tt
NonEmpty-Among s (k ∷ keys) h = (h k (inl refl), NonEmpty-Among s keys (λ x m. h x (inr m)))

launched-Represents :
    (hash : ℕ → ℕ) (k empty : ℕ) (schedule keys : List ℕ)
    → k ≤ 64
    → ((x : ℕ) → Among x keys → x ≢ empty)
    → length keys ≤ 2 ^ k
    → IsFair (2 ^ k) (length keys) schedule
    → Represents hash
        (run hash schedule (empty_set (2 ^ k) empty) (launch keys)).0
        (λ x. ⊥ ⊎ Among x keys)
launched-Represents hash k empty schedule keys fits n room fair =
    (run-Represents hash k schedule (empty_set (2 ^ k) empty) keys (λ x. ⊥) fits refl
      (NonEmpty-Among (empty_set (2 ^ k) empty) keys n)
      (omega (arith, room, occupied-replicate empty (2 ^ k))) fair
      (replicate-Represents hash (2 ^ k) empty (one-le-pow k 2 (omega arith)))).0

-- From the constructor on: whatever the memory that a set of 2 ^ k slots gets, k at most 31, the
-- kernel that fills it ends after at most two rounds of each thread, and the set that one launch
-- then fills with at most as many keys, none of them the empty key, under any schedule that gives
-- each thread one turn more than there are slots, answers true for a key other than the empty one
-- exactly where it is among the keys of the launch.
pub new_set-contains :
    (hash : ℕ → ℕ) (k key_size empty fuel : ℕ) (memory schedule keys : List ℕ) (s : StaticSet)
    (x : ℕ)
    → new_set key_size (2 ^ k) empty memory true true ≡ ok s
    → length memory ≡ 2 ^ k
    → k ≤ 31
    → 2 ≤ fuel
    → ((y : ℕ) → Among y keys → y ≢ empty)
    → length keys ≤ 2 ^ k
    → IsFair (2 ^ k) (length keys) schedule
    → x ≢ empty
    → (s' : StaticSet) × (fill_slots fuel s ≡ some s')
      × ((contains hash (run hash schedule s' (launch keys)).0 x ≡ true) ↔ Among x keys)
new_set-contains hash k key_size empty fuel memory schedule keys s x built l fits two n room fair
      ne =
    let (same, pos, size) = new_set-ok key_size (2 ^ k) empty memory true true s built in
    let r = launched-Represents hash k empty schedule keys (omega arith) n room fair in
    let (to, from) =
      contains-Represents hash _ (λ x. ⊥ ⊎ Among x keys) x r
        (rw (run-empty_key hash schedule (empty_set (2 ^ k) empty) (launch keys)) ne) in
    (
      empty_set (2 ^ k) empty,
      rw same (
          fill_slots-replicate fuel (record { slots = memory; capacity = 2 ^ k; empty_key = empty })
            two (pow-le k fits) l),
      (λ t. elim (to t) [ inl none ↦ absurd none | inr m ↦ m ], λ m. from (inr m)),
    )
