-- ===== src/StaticSet/Fill.antt =====
-- `fill_empty_key_kernel`, which the constructor launches: each thread goes through the slots from its
-- own on by the stride of the launch, as long as there is fuel. All threads write the empty key, so
-- they may as well go one after another. `none` is a kernel that has not ended.
use cuda2rocm.Base.{
  ℕ, zero, suc, ◌+◌, ◌-◌, ◌*◌, ◌%◌, ◌^◌, ◌≤◌, ◌<◌, ◌≡◌, refl, ap, ◌∙◌, Option, none, some, List, [],
  ◌∷◌, ltb, if◌then◌else◌, add_word, set, get_or, length, replicate, length-set, get_or-set_self,
  get_or-set_ne, ◌>>=◌, Bool-cases, inl, inr, arith,
}
use native.Mathlib.Decide.{dec_lt}
use cuda2rocm.Launch.{block, grid, fill_grid, fill_stride, fill_stride-zero}
use cuda2rocm.StaticSet.{StaticSet}

-- The loop of a thread from an index on.
unfoldable pub fill_thread : ℕ → ℕ → ℕ → ℕ → ℕ → List ℕ → Option (List ℕ)
fill_thread zero stride capacity empty idx slots = none
fill_thread (suc fuel) stride capacity empty idx slots =
    let rest = fill_thread fuel stride capacity empty (add_word idx stride) (set slots idx empty) in
    if ltb idx capacity then rest else some slots

-- The first threads of the launch; the index of a thread is computed in 32 bits.
unfoldable pub fill_threads : ℕ → ℕ → StaticSet → Option (List ℕ)
unfolding fill_thread
fill_threads fuel zero s = some s.slots
fill_threads fuel (suc n) s = do
  slots ← fill_threads fuel n s
  fill_thread fuel (fill_stride s.capacity) s.capacity s.empty_key (n % 2 ^ 32) slots

unfoldable pub fill_slots : ℕ → StaticSet → Option StaticSet
unfolding fill_threads
fill_slots fuel s = do
  slots ← fill_threads fuel (fill_grid s.capacity * block) s
  some (record s { slots = slots })

-- A thread whose stride leads past the end writes its own slot, if it has one.
fill_thread-once :
    (fuel stride capacity empty idx : ℕ) (slots : List ℕ)
    → idx + stride < 2 ^ 64
    → capacity ≤ stride
    → fill_thread (suc (suc fuel)) stride capacity empty idx slots
      ≡ (if ltb idx capacity then some (set slots idx empty) else some slots)
unfolding fill_thread
fill_thread-once fuel stride capacity empty idx slots word past = ground arith

-- The slots when the first threads are through: of the capacity's number, the first ones empty.
abbrev Prefix : ℕ → ℕ → ℕ → List ℕ → Type 0
Prefix n capacity empty slots =
    (length slots ≡ capacity) × ((i : ℕ) → i < n → i < capacity → get_or slots i empty ≡ empty)

set-Prefix :
    (n capacity empty : ℕ) (slots : List ℕ)
    → Prefix n capacity empty slots
    → n < capacity
    → Prefix (suc n) capacity empty (set slots n empty)
set-Prefix n capacity empty slots (l, h) lt = (
  length-set slots n empty ∙ l,
  λ i below room. elim (dec_lt i n) [
    | yes before ↦ get_or-set_ne slots n i empty empty (λ e. omega arith) ∙ h i before room
    | no here ↦
        let e : i ≡ n = omega arith in rw e (get_or-set_self slots n empty empty (omega (arith, l)))
  ],
)

skip-Prefix :
    (n capacity empty : ℕ) (slots : List ℕ)
    → Prefix n capacity empty slots
    → capacity ≤ n
    → Prefix (suc n) capacity empty slots
skip-Prefix n capacity empty slots (l, h) past = (l, λ i below room. h i (omega arith) room)

fill_threads-Prefix :
    (fuel n : ℕ) (s : StaticSet)
    → n ≤ 2 ^ 32
    → s.capacity ≤ fill_stride s.capacity
    → fill_stride s.capacity < 2 ^ 32
    → length s.slots ≡ s.capacity
    → (slots : List ℕ) × (fill_threads (suc (suc fuel)) n s ≡ some slots)
      × Prefix n s.capacity s.empty_key slots
unfolding fill_threads
fill_threads-Prefix fuel zero s le past word l =
    (s.slots, refl, (l, λ i below room. absurd (omega arith)))
fill_threads-Prefix fuel (suc n) s le past word l =
    let (slots, e, v) = fill_threads-Prefix fuel n s (omega arith) past word l in
    let idx : n % 2 ^ 32 ≡ n = omega arith in
    let once =
      fill_thread-once fuel (fill_stride s.capacity) s.capacity s.empty_key n slots (omega arith)
        past in
    elim (Bool-cases (ltb n s.capacity)) [
      | inl lt ↦ (
        set slots n s.empty_key,
        rw (e, fill_threads, idx, once, lt) refl,
        set-Prefix n s.capacity s.empty_key slots v (ground arith),
      )
      | inr ge ↦ (
        slots,
        rw (e, fill_threads, idx, once, ge) refl,
        skip-Prefix n s.capacity s.empty_key slots v (ground arith),
      )
    ]

all_empty :
    (empty : ℕ) (slots : List ℕ)
    → ((i : ℕ) → i < length slots → get_or slots i empty ≡ empty)
    → slots ≡ replicate (length slots) empty
all_empty empty [] h = refl
all_empty empty (x ∷ slots) h =
    cc (h 0 (omega arith), all_empty empty slots (λ i lt. h (suc i) (omega arith)))

-- The kernel on a set of at most 2 ^ 31 slots ends, after at most two rounds of each thread, and
-- leaves every slot empty.
pub fill_slots-replicate :
    (fuel : ℕ) (s : StaticSet)
    → 2 ≤ fuel
    → s.capacity ≤ 2 ^ 31
    → length s.slots ≡ s.capacity
    → fill_slots fuel s ≡ some (record s { slots = replicate s.capacity s.empty_key })
unfolding fill_slots fill_stride fill_grid grid
fill_slots-replicate zero s enough le l = absurd (omega arith)
fill_slots-replicate (suc zero) s enough le l = absurd (omega arith)
fill_slots-replicate (suc (suc fuel)) s enough le l =
    let (slots, e, (l', h)) =
      fill_threads-Prefix fuel (fill_grid s.capacity * block) s (ground arith) (ground arith)
        (ground arith) l in
    let full : slots ≡ replicate s.capacity s.empty_key =
      all_empty s.empty_key slots (λ i lt. h i (ground (arith, l')) (omega (arith, l')))
      ∙ ap (λ n. replicate n s.empty_key) l' in
    rw (fill_slots, e, full) refl

-- With a stride of 0 a thread below the capacity never ends.
fill_thread-never :
    (fuel capacity empty idx : ℕ) (slots : List ℕ)
    → idx < capacity
    → capacity ≤ 2 ^ 64
    → fill_thread fuel 0 capacity empty idx slots ≡ none
unfolding fill_thread
fill_thread-never zero capacity empty idx slots lt word = refl
fill_thread-never (suc fuel) capacity empty idx slots lt word =
    let same : add_word idx 0 ≡ idx = omega arith in
    rw (same, fill_thread-never fuel capacity empty idx (set slots idx empty) lt word)
      (ground arith)

fill_threads-never :
    (fuel n : ℕ) (s : StaticSet)
    → fill_stride s.capacity ≡ 0
    → 0 < s.capacity
    → s.capacity ≤ 2 ^ 64
    → fill_threads fuel (suc n) s ≡ none
unfolding fill_threads
fill_threads-never fuel zero s zero_stride pos word =
    rw (fill_threads, zero_stride)
      (fill_thread-never fuel s.capacity s.empty_key 0 s.slots pos word)
fill_threads-never fuel (suc n) s zero_stride pos word =
    rw (fill_threads, fill_threads-never fuel n s zero_stride pos word) refl

fill_grid-pos : (capacity : ℕ) → 0 < fill_grid capacity
unfolding fill_grid
fill_grid-pos capacity = ground arith

-- On any positive multiple of 2 ^ 32 slots below 2 ^ 63 the kernel does not end, whatever the fuel.
pub fill_slots-never :
    (fuel m : ℕ) (s : StaticSet)
    → s.capacity ≡ m * 2 ^ 32
    → 0 < m
    → m < 2 ^ 31
    → fill_slots fuel s ≡ none
unfolding fill_slots
fill_slots-never fuel m s e pos small =
    let zero_stride : fill_stride s.capacity ≡ 0 = rw e (fill_stride-zero m pos small) in
    let one : 0 < fill_grid s.capacity = fill_grid-pos s.capacity in
    let some_thread : fill_grid s.capacity * block ≡ suc (fill_grid s.capacity * block - 1) =
      omega arith in
    let never =
      fill_threads-never fuel (fill_grid s.capacity * block - 1) s zero_stride (omega arith)
        (omega arith) in
    rw (fill_slots, some_thread, never) refl
