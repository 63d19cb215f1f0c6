-- ===== src/StaticSet/Occupied.antt =====
-- How many slots insertion threads fill.
use cuda2rocm.Base.{
  ℕ, zero, suc, ◌+◌, ◌≤◌, ◌<◌, ◌^◌, ◌≡◌, ◌≢◌, ◌∙◌, refl, List, [], ◌∷◌, ◌==◌, if◌then◌else◌, get_or,
  set, length, arith,
}
use cuda2rocm.StaticSet.{StaticSet, slot_index}
use cuda2rocm.StaticSet.Probing.{Passed}
use cuda2rocm.StaticSet.Rounds.{IsShaped}
use cuda2rocm.StaticSet.Stride.{slot_index_covers}
use cuda2rocm.StaticSet.Kernel.{
  Phase, probing, placed, dropped, Thread, exchange, round, advance, turn, run, launch,
}

abbrev pub occupied : ℕ → List ℕ → ℕ
occupied empty [] = 0
occupied empty (x ∷ xs) = (if x == empty then 0 else 1) + occupied empty xs

-- The threads that have not stored or met their key.
abbrev pub unplaced : Phase → ℕ
unplaced (probing p) = 1
unplaced placed = 0
unplaced dropped = 1

abbrev pub pending : List Thread → ℕ
pending [] = 0
pending (t ∷ ts) = unplaced t.phase + pending ts

occupied-set :
    (empty : ℕ) (xs : List ℕ) (i v : ℕ) → occupied empty (set xs i v) ≤ suc (occupied empty xs)
occupied-set empty [] i v = omega arith
occupied-set empty (x ∷ xs) zero v = ground arith
occupied-set empty (x ∷ xs) (suc i) v = ground (arith, occupied-set empty xs i v)

occupied-full :
    (empty : ℕ) (xs : List ℕ)
    → ((j : ℕ) → j < length xs → get_or xs j empty ≢ empty)
    → occupied empty xs ≡ length xs
occupied-full empty [] h = refl
occupied-full empty (x ∷ xs) h =
    ground (arith, h 0 (omega arith), occupied-full empty xs (λ j lt. h (suc j) (omega arith)))

pub pending-launch : (keys : List ℕ) → pending (launch keys) ≡ length keys
pending-launch [] = refl
pending-launch (k ∷ keys) = omega (arith, pending-launch keys)

module _ (hash : ℕ → ℕ) where
  round-occupied :
      (s : StaticSet) (key p : ℕ)
      → occupied s.empty_key (round hash s key p).0 + unplaced (round hash s key p).1
        ≤ suc (occupied s.empty_key s.slots)
  unfolding round exchange
  round-occupied s key p =
      let i = slot_index hash s.capacity key p in
      ground (arith, occupied-set s.empty_key s.slots i key)

  advance-occupied :
      (s : StaticSet) (key : ℕ) (ph : Phase)
      → occupied s.empty_key (advance hash s key ph).0 + unplaced (advance hash s key ph).1
        ≤ occupied s.empty_key s.slots + unplaced ph
  unfolding advance
  advance-occupied s key (probing p) = omega (arith, round-occupied s key p)
  advance-occupied s key placed = omega arith
  advance-occupied s key dropped = omega arith

  turn-occupied :
      (i : ℕ) (s : StaticSet) (ts : List Thread)
      → occupied s.empty_key (turn hash i s ts).0.slots + pending (turn hash i s ts).1
        ≤ occupied s.empty_key s.slots + pending ts
  unfolding turn
  turn-occupied i s [] = omega arith
  turn-occupied zero s (t ∷ ts) = omega (arith, advance-occupied s t.key t.phase)
  turn-occupied (suc i) s (t ∷ ts) = omega (arith, turn-occupied i s ts)

  turn-empty_key :
      (i : ℕ) (s : StaticSet) (ts : List Thread) → (turn hash i s ts).0.empty_key ≡ s.empty_key
  unfolding turn
  turn-empty_key i s [] = refl
  turn-empty_key zero s (t ∷ ts) = refl
  turn-empty_key (suc i) s (t ∷ ts) = turn-empty_key i s ts

  pub run-empty_key :
      (schedule : List ℕ) (s : StaticSet) (ts : List Thread)
      → (run hash schedule s ts).0.empty_key ≡ s.empty_key
  unfolding run
  run-empty_key [] s ts = refl
  run-empty_key (i ∷ schedule) s ts = run-empty_key schedule _ _ ∙ turn-empty_key i s ts

  -- A thread fills at most one slot, and none after it is placed.
  pub run-occupied :
      (schedule : List ℕ) (s : StaticSet) (ts : List Thread)
      → occupied s.empty_key (run hash schedule s ts).0.slots + pending (run hash schedule s ts).1
        ≤ occupied s.empty_key s.slots + pending ts
  unfolding run
  run-occupied [] s ts = omega arith
  run-occupied (i ∷ schedule) s ts =
      let (s', ts') = turn hash i s ts in
      let rest =
        rw (turn-empty_key i s ts) at
          (run-occupied schedule (turn hash i s ts).0 (turn hash i s ts).1) in
      omega (arith, turn-occupied i s ts, rest)

  -- Where the number of slots is a power of two, a key that meets other keys at all its probes
  -- finds the set full.
  pub Passed-occupied :
      (k : ℕ) (s : StaticSet) (key : ℕ)
      → k ≤ 64
      → s.capacity ≡ 2 ^ k
      → IsShaped s
      → Passed hash s key s.capacity
      → occupied s.empty_key s.slots ≡ s.capacity
  Passed-occupied k s key fits pow v pass = rw (← v.shape) (
      occupied-full s.empty_key s.slots (λ j lt.
        let (p, low, e) = slot_index_covers hash k key j fits (omega (arith, lt, v.shape, pow)) in
        let met = (pass p (omega (arith, low, pow))).0 in rw (pow, e) at met))
