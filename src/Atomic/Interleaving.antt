-- ===== src/Atomic/Interleaving.antt =====
-- Predicates that the loops keep, and what each loop has added.
use cuda2rocm.Base.{
  ℕ, zero, suc, ◌+◌, ◌-◌, ◌≤◌, ◌<◌, word_mod, ◌≡◌, refl, Bool, List, [], ◌∷◌, some, none, arith,
  Option, Option-cases, inl, inr, ◌⊎◌,
}
use cuda2rocm.Atomic.{Phase, ready, holding, stored, refused, Thread, judge, advance, turn, run}

-- A phase agrees with the loop: what is stored was proposed for the value that it replaced, and a
-- loop gives up at a value for which nothing is proposed.
abbrev pub Agrees : (ℕ → Option ℕ) → Phase → Type 0
Agrees propose ready = Unit {0}
Agrees propose (holding seen) = Unit {0}
Agrees propose (stored old new) = propose old ≡ some new
Agrees propose (refused seen) = propose seen ≡ none

abbrev pub AllAgree : List Thread → Type 0
AllAgree [] = Unit {0}
AllAgree (t ∷ ts) = Agrees t.propose t.phase × AllAgree ts

-- The counter keeps its value, or takes what the thread's loop proposes for its present value.
abbrev pub Moves : (ℕ → Option ℕ) → ℕ → ℕ → Type 0
Moves propose before after = (after ≡ before) ⊎ (propose before ≡ some after)

-- What a thread has added to the counter.
abbrev pub gain : Phase → ℕ
gain ready = 0
gain (holding seen) = 0
gain (stored old new) = new - old
gain (refused seen) = 0

abbrev pub gains : List Thread → ℕ
gains [] = 0
gains (t ∷ ts) = gain t.phase + gains ts

-- No proposal for a word lowers the counter or wraps.
abbrev pub Grows : (ℕ → Option ℕ) → Type 0
Grows propose = (c n : ℕ) → c < word_mod → propose c ≡ some n → (c ≤ n) × (n < word_mod)

abbrev pub AllThreads : ((ℕ → Option ℕ) → Type 0) → List Thread → Type 0
AllThreads P [] = Unit {0}
AllThreads P (t ∷ ts) = P t.propose × AllThreads P ts

judge-Agrees : (propose : ℕ → Option ℕ) (seen : ℕ) → Agrees propose (judge propose seen)
unfolding judge
judge-Agrees propose seen = elim (Option-cases (propose seen)) [
  | inl e ↦ rw (e, judge) e
  | inr (n, e) ↦ rw (e, judge) tt
]

gain-judge : (propose : ℕ → Option ℕ) (seen : ℕ) → gain (judge propose seen) ≡ 0
unfolding judge
gain-judge propose seen = ground arith

advance-Moves :
    (propose : ℕ → Option ℕ) (w : Bool) (c : ℕ) (ph : Phase)
    → Moves propose c (advance propose w c ph).0
unfolding advance
advance-Moves propose w c ready = inl refl
advance-Moves propose w c (holding seen) = ground arith
advance-Moves propose w c (stored old new) = inl refl
advance-Moves propose w c (refused seen) = inl refl

advance-Agrees :
    (propose : ℕ → Option ℕ) (w : Bool) (c : ℕ) (ph : Phase)
    → Agrees propose ph
    → Agrees propose (advance propose w c ph).1
unfolding advance
advance-Agrees propose w c ready a = judge-Agrees propose c
advance-Agrees propose w c (holding seen) a = ground arith
advance-Agrees propose w c (stored old new) a = a
advance-Agrees propose w c (refused seen) a = a

advance-gain :
    (propose : ℕ → Option ℕ) (w : Bool) (c : ℕ) (ph : Phase)
    → Grows propose
    → c < word_mod
    → (advance propose w c ph).0 + gain ph ≡ c + gain (advance propose w c ph).1
unfolding advance
advance-gain propose w c ready g b = omega (arith, gain-judge propose c)
advance-gain propose w c (holding seen) g b = elim (Option-cases (propose seen)) [
  | inl e ↦ ground (arith, gain-judge propose c)
  | inr (n, e) ↦ ground (arith, λ (k : seen < word_mod). g seen n k e)
]
advance-gain propose w c (stored old new) g b = refl
advance-gain propose w c (refused seen) g b = refl

turn-AllAgree :
    (i : ℕ) (w : Bool) (c : ℕ) (ts : List Thread) → AllAgree ts → AllAgree (turn i w c ts).1
unfolding turn
turn-AllAgree i w c [] a = tt
turn-AllAgree zero w c (t ∷ ts) a = (advance-Agrees t.propose w c t.phase a.0, a.1)
turn-AllAgree (suc i) w c (t ∷ ts) a = (a.0, turn-AllAgree i w c ts a.1)

turn-gains :
    (i : ℕ) (w : Bool) (c : ℕ) (ts : List Thread)
    → AllThreads Grows ts
    → c < word_mod
    → (turn i w c ts).0 + gains ts ≡ c + gains (turn i w c ts).1
unfolding turn
turn-gains i w c [] g b = refl
turn-gains zero w c (t ∷ ts) g b = omega (arith, advance-gain t.propose w c t.phase g.0 b)
turn-gains (suc i) w c (t ∷ ts) g b = omega (arith, turn-gains i w c ts g.1 b)

turn-AllThreads :
    (P : (ℕ → Option ℕ) → Type 0) (i : ℕ) (w : Bool) (c : ℕ) (ts : List Thread)
    → AllThreads P ts
    → AllThreads P (turn i w c ts).1
unfolding turn
turn-AllThreads P i w c [] g = tt
turn-AllThreads P zero w c (t ∷ ts) g = (g.0, g.1)
turn-AllThreads P (suc i) w c (t ∷ ts) g = (g.0, turn-AllThreads P i w c ts g.1)

-- A predicate of the counter that no proposal breaks.
abbrev pub Keeps : (ℕ → Type 0) → (ℕ → Option ℕ) → Type 0
Keeps Q propose = (c n : ℕ) → Q c → propose c ≡ some n → Q n

advance-Keeps :
    (Q : ℕ → Type 0) (propose : ℕ → Option ℕ) (w : Bool) (c : ℕ) (ph : Phase)
    → Keeps Q propose
    → Q c
    → Q (advance propose w c ph).0
advance-Keeps Q propose w c ph k q = elim (advance-Moves propose w c ph) [
  | inl same ↦ rw same q
  | inr stores ↦ k c _ q stores
]

turn-Keeps :
    (Q : ℕ → Type 0) (i : ℕ) (w : Bool) (c : ℕ) (ts : List Thread)
    → AllThreads (Keeps Q) ts
    → Q c
    → Q (turn i w c ts).0
unfolding turn
turn-Keeps Q i w c [] k q = q
turn-Keeps Q zero w c (t ∷ ts) k q = advance-Keeps Q t.propose w c t.phase k.0 q
turn-Keeps Q (suc i) w c (t ∷ ts) k q = turn-Keeps Q i w c ts k.1 q

-- Under every schedule, a predicate that each loop's proposals keep is kept by the counter, and
-- every loop that has ended stored what it proposes for the value it replaced, or gave up at a value
-- for which it proposes nothing.
pub run-Keeps :
    (Q : ℕ → Type 0) (schedule : List (ℕ × Bool)) (c : ℕ) (ts : List Thread)
    → AllThreads (Keeps Q) ts
    → AllAgree ts
    → Q c
    → Q (run schedule c ts).0 × AllAgree (run schedule c ts).1
unfolding run
run-Keeps Q [] c ts k a q = (q, a)
run-Keeps Q ((i, w) ∷ schedule) c ts k a q =
    run-Keeps Q schedule _ _ (turn-AllThreads (Keeps Q) i w c ts k) (turn-AllAgree i w c ts a)
      (turn-Keeps Q i w c ts k q)

Grows-Keeps : (ts : List Thread) → AllThreads Grows ts → AllThreads (Keeps (λ c. c < word_mod)) ts
Grows-Keeps [] g = tt
Grows-Keeps (t ∷ ts) g = (λ c n b e. (g.0 c n b e).1, Grows-Keeps ts g.1)

pub run-AllThreads :
    (P : (ℕ → Option ℕ) → Type 0) (schedule : List (ℕ × Bool)) (c : ℕ) (ts : List Thread)
    → AllThreads P ts
    → AllThreads P (run schedule c ts).1
unfolding run
run-AllThreads P [] c ts g = g
run-AllThreads P ((i, w) ∷ schedule) c ts g =
    run-AllThreads P schedule _ _ (turn-AllThreads P i w c ts g)

-- No update is lost: under every schedule, loops that only raise a counter that is a word raise it
-- by exactly what the loops that have stored added, each over the value that it replaced.
pub run-gains :
    (schedule : List (ℕ × Bool)) (c : ℕ) (ts : List Thread)
    → AllThreads Grows ts
    → c < word_mod
    → (run schedule c ts).0 + gains ts ≡ c + gains (run schedule c ts).1
unfolding run
run-gains [] c ts g b = refl
run-gains ((i, w) ∷ schedule) c ts g b = omega (
  arith,
  turn-gains i w c ts g b,
  run-gains schedule (turn i w c ts).0 (turn i w c ts).1 (turn-AllThreads Grows i w c ts g)
      (turn-Keeps (λ x. x < word_mod) i w c ts (Grows-Keeps ts g) b),
)
