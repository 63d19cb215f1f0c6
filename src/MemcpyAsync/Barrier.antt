-- ===== src/MemcpyAsync/Barrier.antt =====
-- What lies in memory when the threads of a block have come to the barrier.
use cuda2rocm.Base.{
  ℕ, zero, suc, ◌+◌, ◌-◌, ◌≤◌, ◌<◌, ◌≡◌, ◌⊎◌, refl, ◌∙◌, sym, arith, true, List, [], ◌∷◌, ◌==◌,
  if◌then◌else◌, length, Among, turns, IsFairFor, inl, inr,
}
use cuda2rocm.MemcpyAsync.{
  Phase, copying, waiting, Thread, Copy, copy_byte, proceed, turn, run, memcpy_async, all_waiting,
}
use cuda2rocm.MemcpyAsync.Copied.{
  IsApart, CopiedTo, AllCopied, run-AllCopied, AllCopied-memcpy_async,
}

-- The rounds that a thread has before it, and their end.
abbrev rounds_left : Copy → Phase → ℕ
rounds_left c (copying i) = suc (c.n - i)
rounds_left c waiting = 0

-- Threads with some indices in x, and rounds left within a bound.
abbrev Works : Copy → List ℕ → (ℕ → ℕ) → List Thread → Type 0
Works c [] left [] = Unit {0}
Works c [] left (t ∷ ts) = ⊥
Works c (x ∷ xs) left [] = ⊥
Works c (x ∷ xs) left (t ∷ ts) =
    (t.x ≡ x) × (rounds_left c t.phase ≤ left 0) × Works c xs (λ i. left (suc i)) ts

Works-le :
    (c : Copy) (xs : List ℕ) (left left' : ℕ → ℕ) (ts : List Thread)
    → ((i : ℕ) → left i ≤ left' i)
    → Works c xs left ts
    → Works c xs left' ts
Works-le c [] left left' [] h w = tt
Works-le c [] left left' (t ∷ ts) h w = absurd w
Works-le c (x ∷ xs) left left' [] h w = absurd w
Works-le c (x ∷ xs) left left' (t ∷ ts) h (same, few, w) =
    (same, omega (arith, h 0), Works-le c xs _ _ ts (λ i. h (suc i)) w)

proceed-rounds_left :
    (c : Copy) (x : ℕ) (p : Phase) (mem : ℕ → ℕ)
    → rounds_left c (proceed c x p mem).1 ≤ rounds_left c p - 1
unfolding proceed copy_byte
proceed-rounds_left c x waiting mem = omega arith
proceed-rounds_left c x (copying i) mem = ground arith

turn-Works :
    (c : Copy) (i : ℕ) (xs : List ℕ) (left : ℕ → ℕ) (mem : ℕ → ℕ) (ts : List Thread)
    → Works c xs left ts
    → Works c xs (λ j. left j - (if i == j then 1 else 0)) (turn c i mem ts).1
unfolding turn
turn-Works c i [] left mem [] w = tt
turn-Works c i [] left mem (t ∷ ts) w = absurd w
turn-Works c i (x ∷ xs) left mem [] w = absurd w
turn-Works c zero (x ∷ xs) left mem (t ∷ ts) (same, few, w) = (
  same,
  ground (arith, proceed-rounds_left c t.x t.phase mem),
  Works-le c xs _ _ ts (λ j. ground arith) w,
)
turn-Works c (suc i) (x ∷ xs) left mem (t ∷ ts) (same, few, w) = (
  same,
  ground arith,
  Works-le c xs _ _ _ (λ j. ground arith) (turn-Works c i xs (λ j. left (suc j)) mem ts w),
)

run-Works :
    (c : Copy) (schedule xs : List ℕ) (left : ℕ → ℕ) (mem : ℕ → ℕ) (ts : List Thread)
    → Works c xs left ts
    → Works c xs (λ j. left j - turns j schedule) (run c schedule mem ts).1
unfolding run
run-Works c [] xs left mem ts w = Works-le c xs _ _ ts (λ j. omega arith) w
run-Works c (i ∷ schedule) xs left mem ts w =
    Works-le c xs _ _ _ (λ j. omega arith)
      (run-Works c schedule xs _ (turn c i mem ts).0 (turn c i mem ts).1
        (turn-Works c i xs left mem ts w))

Works-memcpy_async : (c : Copy) (xs : List ℕ) → Works c xs (λ j. suc c.n) (memcpy_async xs)
Works-memcpy_async c [] = tt
Works-memcpy_async c (x ∷ xs) = (refl, omega arith, Works-memcpy_async c xs)

rounds_left-waiting : (c : Copy) (p : Phase) → rounds_left c p ≡ 0 → p ≡ waiting
rounds_left-waiting c waiting e = refl
rounds_left-waiting c (copying i) e = absurd (omega arith)

-- Threads with no round left wait, and what the first in x of them have copied is the whole.
through :
    (c : Copy) (before mem : ℕ → ℕ) (xs : List ℕ) (left : ℕ → ℕ) (ts : List Thread)
    → ((i : ℕ) → i < length xs → left i ≡ 0)
    → Works c xs left ts
    → AllCopied c before mem ts
    → (all_waiting ts ≡ true) × (Among 0 xs → CopiedTo c before mem c.n)
unfolding all_waiting
through c before mem [] left [] z w a = (refl, λ m. absurd m)
through c before mem [] left (t ∷ ts) z w a = absurd w
through c before mem (x ∷ xs) left [] z w a = absurd w
through c before mem (x ∷ xs) left (t ∷ ts) z (same, few, w) a =
    let (rest, copied) = through c before mem xs _ ts (λ i lt. z (suc i) (omega arith)) w a.1 in
    let none_left : rounds_left c t.phase ≡ 0 = omega (arith, few, z 0 (omega arith)) in
    let waits = rounds_left-waiting c t.phase none_left in
    (
      rw (waits, rest) refl,
      λ m. elim m [ inl e ↦ (rw waits at (a.0 (same ∙ sym e))) | inr more ↦ copied more ],
    )

-- A copy between ranges that do not meet, by the threads of a block of which one at least is first
-- in x: under every schedule that gives each thread one turn more than there are bytes, all threads
-- come to the barrier, the destination then holds the bytes of the source, and no other byte has
-- changed.
pub run-copied :
    (c : Copy) (schedule xs : List ℕ) (mem : ℕ → ℕ)
    → IsApart c
    → Among 0 xs
    → IsFairFor (suc c.n) (length xs) schedule
    → let (mem', ts) = run c schedule mem (memcpy_async xs) in
      (all_waiting ts ≡ true)
      × ((j : ℕ) → j < c.n → mem' (c.dst + j) ≡ mem (c.src + j))
      × ((a : ℕ) → ((a < c.dst) ⊎ (c.dst + c.n ≤ a)) → mem' a ≡ mem a)
run-copied c schedule xs mem apart first fair =
    let start = AllCopied-memcpy_async c apart mem xs in
    let (elsewhere, copied) =
      run-AllCopied c apart mem schedule mem (memcpy_async xs) (λ a out. refl) start in
    let works = run-Works c schedule xs _ mem (memcpy_async xs) (Works-memcpy_async c xs) in
    let (all, bytes) =
      through c mem (run c schedule mem (memcpy_async xs)).0 xs _ _
        (λ i lt. omega (arith, fair i lt)) works copied in
    (all, λ j lt. bytes first j lt lt, elsewhere)
