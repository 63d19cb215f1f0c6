-- ===== src/StreamPool/Flags.antt =====
-- The flags of free streams, and the borrowed streams in clients' hands.
use cuda2rocm.Base.{
  ℕ, zero, suc, ◌+◌, ◌<◌, ◌≡◌, ◌≢◌, refl, sym, ap, ◌∙◌, Bool, true, false, Option, none, some, List,
  [], ◌∷◌, ◌++◌, length, set, get_elem?, arith, Option-cases, inl, inr,
}
use cuda2rocm.StreamPool.{find_free}

-- The borrowed stream at a place, and the others.
unfoldable pub take_out : ℕ → List ℕ → Option (ℕ × List ℕ)
take_out k [] = none
take_out zero (i ∷ is) = some (i, is)
take_out (suc k) (i ∷ is) = elim (take_out k is) [
  | none ↦ none
  | some (x, left) ↦ some (x, i ∷ left)
]

abbrev pub NotIn : ℕ → List ℕ → Type 0
NotIn i [] = Unit {0}
NotIn i (j ∷ js) = (i ≢ j) × NotIn i js

-- The streams in hand are streams of the pool that are not free, and no two are one.
abbrev pub Busy : List Bool → List ℕ → Type 0
Busy free [] = Unit {0}
Busy free (i ∷ is) = (get_elem? free i ≡ some false) × NotIn i is × Busy free is

-- How many streams are free.
abbrev pub free_count : List Bool → ℕ
free_count [] = 0
free_count (true ∷ fs) = suc (free_count fs)
free_count (false ∷ fs) = free_count fs

pub find_free-true : (fs : List Bool) (i : ℕ) → find_free fs ≡ some i → get_elem? fs i ≡ some true
unfolding find_free
find_free-true [] i h = cc
find_free-true (true ∷ fs) i h = ground arith
find_free-true (false ∷ fs) i h = elim (Option-cases (find_free fs)) [
  | inl e ↦ ground arith
  | inr (j, e) ↦ ground (arith, find_free-true fs j e)
]

pub get_elem?-set_eq :
    (fs : List Bool) (i : ℕ) (a b : Bool)
    → get_elem? fs i ≡ some a
    → get_elem? (set fs i b) i ≡ some b
get_elem?-set_eq [] i a b h = cc
get_elem?-set_eq (x ∷ fs) zero a b h = refl
get_elem?-set_eq (x ∷ fs) (suc i) a b h = get_elem?-set_eq fs i a b h

pub get_elem?-set_ne :
    (fs : List Bool) (i j : ℕ) (b : Bool) → i ≢ j → get_elem? (set fs i b) j ≡ get_elem? fs j
get_elem?-set_ne [] i j b h = refl
get_elem?-set_ne (x ∷ fs) zero zero b h = absurd (h refl)
get_elem?-set_ne (x ∷ fs) zero (suc j) b h = refl
get_elem?-set_ne (x ∷ fs) (suc i) zero b h = refl
get_elem?-set_ne (x ∷ fs) (suc i) (suc j) b h = get_elem?-set_ne fs i j b (λ e. h (ap suc e))

pub free_count-set-false :
    (fs : List Bool) (i : ℕ)
    → get_elem? fs i ≡ some true
    → free_count (set fs i false) + 1 ≡ free_count fs
free_count-set-false [] i h = cc
free_count-set-false (true ∷ fs) zero h = omega arith
free_count-set-false (false ∷ fs) zero h = cc
free_count-set-false (true ∷ fs) (suc i) h = omega (arith, free_count-set-false fs i h)
free_count-set-false (false ∷ fs) (suc i) h = free_count-set-false fs i h

pub free_count-set-true :
    (fs : List Bool) (i : ℕ)
    → get_elem? fs i ≡ some false
    → free_count (set fs i true) ≡ free_count fs + 1
free_count-set-true [] i h = cc
free_count-set-true (true ∷ fs) zero h = cc
free_count-set-true (false ∷ fs) zero h = omega arith
free_count-set-true (true ∷ fs) (suc i) h = omega (arith, free_count-set-true fs i h)
free_count-set-true (false ∷ fs) (suc i) h = free_count-set-true fs i h

-- A stream whose flag is not `false` is in nobody's hands.
pub NotIn-flag :
    (fs : List Bool) (i : ℕ) (is : List ℕ) → get_elem? fs i ≢ some false → Busy fs is → NotIn i is
NotIn-flag fs i [] h b = tt
NotIn-flag fs i (j ∷ js) h b = (λ e. h (rw e b.0), NotIn-flag fs i js h b.2)

pub Busy-set :
    (fs : List Bool) (i : ℕ) (v : Bool) (is : List ℕ)
    → NotIn i is
    → Busy fs is
    → Busy (set fs i v) is
Busy-set fs i v [] n b = tt
Busy-set fs i v (j ∷ js) n b =
    (get_elem?-set_ne fs i j v n.0 ∙ b.0, b.1, Busy-set fs i v js n.1 b.2)

pub get_elem?-append :
    (fs gs : List Bool) (i : ℕ) (a : Bool)
    → get_elem? fs i ≡ some a
    → get_elem? (fs ++ gs) i ≡ some a
get_elem?-append [] gs i a h = cc
get_elem?-append (x ∷ fs) gs zero a h = h
get_elem?-append (x ∷ fs) gs (suc i) a h = get_elem?-append fs gs i a h

pub get_elem?-append_last :
    (fs : List Bool) (a : Bool) → get_elem? (fs ++ a ∷ []) (length fs) ≡ some a
get_elem?-append_last [] a = refl
get_elem?-append_last (x ∷ fs) a = get_elem?-append_last fs a

pub get_elem?-past : (fs : List Bool) → get_elem? fs (length fs) ≡ none
get_elem?-past [] = refl
get_elem?-past (x ∷ fs) = get_elem?-past fs

pub Busy-append : (fs gs : List Bool) (is : List ℕ) → Busy fs is → Busy (fs ++ gs) is
Busy-append fs gs [] b = tt
Busy-append fs gs (j ∷ js) b = (get_elem?-append fs gs j false b.0, b.1, Busy-append fs gs js b.2)

pub free_count-append_false : (fs : List Bool) → free_count (fs ++ false ∷ []) ≡ free_count fs
free_count-append_false [] = refl
free_count-append_false (true ∷ fs) = ap suc (free_count-append_false fs)
free_count-append_false (false ∷ fs) = free_count-append_false fs

-- What is taken out is not among what is left.
pub take_out-Busy :
    (fs : List Bool) (k : ℕ) (is : List ℕ) (i : ℕ) (left : List ℕ)
    → take_out k is ≡ some (i, left)
    → Busy fs is
    → (get_elem? fs i ≡ some false)
      × NotIn i left
      × Busy fs left
      × (length is ≡ suc (length left))
      × ((x : ℕ) → NotIn x is → (x ≢ i) × NotIn x left)
unfolding take_out
take_out-Busy fs k [] i left e b = cc
take_out-Busy fs zero (j ∷ js) i left e b =
    let p : i ≡ j = cc in let q : left ≡ js = cc in rw (p, q) (b.0, b.1, b.2, refl, λ x n. n)
take_out-Busy fs (suc k) (j ∷ js) i left e b = elim (Option-cases (take_out k js)) [
  | inl none_left ↦ absurd (ground arith)
  | inr ((y, ys), found) ↦
      let r = take_out-Busy fs k js y ys found b.2 in
      let p : i ≡ y = ground arith in
      let q : left ≡ j ∷ ys = ground arith in
      rw (p, q)
        (
          r.0,
          (λ same. (r.4 j b.1).0 (sym same), r.1),
          (b.0, (r.4 j b.1).1, r.2),
          ap suc r.3,
          λ x n. ((r.4 x n.1).0, (n.0, (r.4 x n.1).1)),
        )
]

pub get_elem?-lt : (fs : List Bool) (i : ℕ) (a : Bool) → get_elem? fs i ≡ some a → i < length fs
get_elem?-lt [] i a h = cc
get_elem?-lt (x ∷ fs) zero a h = omega arith
get_elem?-lt (x ∷ fs) (suc i) a h = omega (arith, get_elem?-lt fs i a h)
