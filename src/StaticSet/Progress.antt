-- ===== src/StaticSet/Progress.antt =====
-- The rounds that insertion threads take, and the keys that lie in the slots.
use cuda2rocm.Base.{
  ℕ, zero, suc, ◌-◌, ◌≤◌, ◌≡◌, ◌≢◌, refl, false, List, [], ◌∷◌, get_or, set, arith, ◌==◌, inl, inr,
  Bool-cases, if◌then◌else◌, ltb, turns,
}
use cuda2rocm.StaticSet.{StaticSet, slot_index, contains}
use cuda2rocm.StaticSet.Probing.{contains-true}
use cuda2rocm.StaticSet.Kernel.{
  Phase, probing, placed, dropped, Thread, exchange, round, advance, turn, run,
}

-- The rounds that a thread still has before it, the one that finds no probe left included.
abbrev pub rounds_left : ℕ → Phase → ℕ
rounds_left capacity (probing p) = suc (capacity - p)
rounds_left capacity placed = 0
rounds_left capacity dropped = 0

-- The same for the thread at an index.
abbrev pub rounds_left_at : ℕ → ℕ → List Thread → ℕ
rounds_left_at capacity i [] = 0
rounds_left_at capacity zero (t ∷ ts) = rounds_left capacity t.phase
rounds_left_at capacity (suc i) (t ∷ ts) = rounds_left_at capacity i ts

module _ (hash : ℕ → ℕ) where
  advance-rounds_left :
      (s : StaticSet) (key : ℕ) (ph : Phase)
      → rounds_left s.capacity (advance hash s key ph).1 ≤ rounds_left s.capacity ph - 1
  unfolding advance
  advance-rounds_left s key (probing p) = ground arith
  advance-rounds_left s key placed = omega arith
  advance-rounds_left s key dropped = omega arith

  turn-capacity :
      (i : ℕ) (s : StaticSet) (ts : List Thread) → (turn hash i s ts).0.capacity ≡ s.capacity
  unfolding turn
  turn-capacity i s [] = refl
  turn-capacity zero s (t ∷ ts) = refl
  turn-capacity (suc i) s (t ∷ ts) = turn-capacity i s ts

  turn-rounds_left :
      (i j : ℕ) (s : StaticSet) (ts : List Thread)
      → rounds_left_at s.capacity i (turn hash j s ts).1
        ≤ rounds_left_at s.capacity i ts - (if j == i then 1 else 0)
  unfolding turn
  turn-rounds_left i j s [] = omega arith
  turn-rounds_left zero zero s (t ∷ ts) = ground (arith, advance-rounds_left s t.key t.phase)
  turn-rounds_left (suc i) zero s (t ∷ ts) = ground arith
  turn-rounds_left zero (suc j) s (t ∷ ts) = ground arith
  turn-rounds_left (suc i) (suc j) s (t ∷ ts) = ground (arith, turn-rounds_left i j s ts)

  -- Insertion is wait-free: each turn of a thread uses up one of its rounds, whatever the others
  -- do, so a thread that has had one turn more than there are slots has returned.
  pub run-rounds_left :
      (schedule : List ℕ) (i : ℕ) (s : StaticSet) (ts : List Thread)
      → rounds_left_at s.capacity i (run hash schedule s ts).1
        ≤ rounds_left_at s.capacity i ts - turns i schedule
  unfolding run
  run-rounds_left [] i s ts = omega arith
  run-rounds_left (j ∷ schedule) i s ts = ground (
    arith,
    turn-rounds_left i j s ts,
    turn-capacity j s ts,
    run-rounds_left schedule i (turn hash j s ts).0 (turn hash j s ts).1,
  )

-- A property of the keys of threads.
abbrev pub AllKeys : (ℕ → Type 0) → List Thread → Type 0
AllKeys P [] = Unit {0}
AllKeys P (t ∷ ts) = P t.key × AllKeys P ts

abbrev pub AllSlots : (ℕ → Type 0) → StaticSet → Type 0
AllSlots P s = (i : ℕ) → P (get_or s.slots i s.empty_key)

set-All :
    (P : ℕ → Type 0) (slots : List ℕ) (i key empty : ℕ)
    → P key
    → ((j : ℕ) → P (get_or slots j empty))
    → (j : ℕ) → P (get_or (set slots i key) j empty)
set-All P [] i key empty k h j = h j
set-All P (x ∷ slots) zero key empty k h zero = k
set-All P (x ∷ slots) zero key empty k h (suc j) = h (suc j)
set-All P (x ∷ slots) (suc i) key empty k h zero = h zero
set-All P (x ∷ slots) (suc i) key empty k h (suc j) =
    set-All P slots i key empty k (λ m. h (suc m)) j

module _ (hash : ℕ → ℕ) (P : ℕ → Type 0) where
  round-All :
      (s : StaticSet) (key p : ℕ)
      → P key
      → AllSlots P s
      → (j : ℕ) → P (get_or (round hash s key p).0 j s.empty_key)
  unfolding round exchange
  round-All s key p k h j = elim (Bool-cases (ltb p s.capacity)) [
    | inr past ↦ rw (past, round) (h j)
    | inl lt ↦
        elim (Bool-cases
          (get_or s.slots (slot_index hash s.capacity key p) s.empty_key == s.empty_key)) [
            | inl e ↦ rw (lt, e, round, exchange) (set-All P s.slots _ key s.empty_key k h j)
            | inr e ↦ rw (lt, e, round, exchange) (h j)
          ]
  ]

  advance-All :
      (s : StaticSet) (key : ℕ) (ph : Phase)
      → P key
      → AllSlots P s
      → (j : ℕ) → P (get_or (advance hash s key ph).0 j s.empty_key)
  unfolding advance
  advance-All s key (probing p) k h = round-All s key p k h
  advance-All s key placed k h = h
  advance-All s key dropped k h = h

  turn-All :
      (i : ℕ) (s : StaticSet) (ts : List Thread)
      → AllKeys P ts
      → AllSlots P s
      → AllSlots P (turn hash i s ts).0 × AllKeys P (turn hash i s ts).1
  unfolding turn
  turn-All i s [] k h = (h, tt)
  turn-All zero s (t ∷ ts) k h = (advance-All s t.key t.phase k.0 h, (k.0, k.1))
  turn-All (suc i) s (t ∷ ts) k h = let (h', k') = turn-All i s ts k.1 h in (h', (k.0, k'))

  pub run-All :
      (schedule : List ℕ) (s : StaticSet) (ts : List Thread)
      → AllKeys P ts
      → AllSlots P s
      → AllSlots P (run hash schedule s ts).0
  unfolding run
  run-All [] s ts k h = h
  run-All (i ∷ schedule) s ts k h = let (h', k') = turn-All i s ts k h in run-All schedule _ _ k' h'

-- No false positives: under every schedule, a key that lies in no slot, that no thread inserts and
-- that is not the empty key is not found afterwards.
pub run-absent :
    (hash : ℕ → ℕ) (schedule : List ℕ) (s : StaticSet) (ts : List Thread) (key : ℕ)
    → AllSlots (λ x. x ≢ key) s
    → AllKeys (λ x. x ≢ key) ts
    → contains hash (run hash schedule s ts).0 key ≡ false
run-absent hash schedule s ts key h k =
    elim (Bool-cases (contains hash (run hash schedule s ts).0 key)) [
      | inr no_hit ↦ no_hit
      | inl hit ↦
          let (i, e) = contains-true hash (run hash schedule s ts).0 key hit in
          absurd (run-All hash (λ x. x ≢ key) schedule s ts k h i e)
    ]
