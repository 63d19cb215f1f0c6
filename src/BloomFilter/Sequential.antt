-- ===== src/BloomFilter/Sequential.antt =====
-- Adding keys one after another, and the kernel against it.
use cuda2rocm.Base.{
  ℕ, zero, suc, ◌+◌, ◌-◌, ◌≤◌, ◌<◌, ◌≡◌, refl, ◌∙◌, sym, arith, Bool, false, ◌||◌, List, [], ◌∷◌,
  get_or, length, ◌==◌, ltb, Bool-cases, inl, inr, if◌then◌else◌, turns, IsFairFor,
}
use cuda2rocm.BloomFilter.{BloomFilter, Policy, add_bit, hash_count}
use cuda2rocm.BloomFilter.Words.{Word}
use cuda2rocm.BloomFilter.Blocks.{IsShaped}
use cuda2rocm.BloomFilter.Bits.{bit_at, marks}
use cuda2rocm.BloomFilter.Kernel.{Thread, turn, run, launch}
use cuda2rocm.BloomFilter.Exact.{IsExact, all_marks, IsExact-eq, add_bit-IsExact, run-IsExact}

module _ (policy : Policy) where
  -- The bits of the first hashes of a key, one after another.
  pub add_hashes : ℕ → ℕ → BloomFilter → BloomFilter
  add_hashes zero key f = f
  add_hashes (suc n) key f = add_bit policy key n (add_hashes n key f)

  pub add_keys : List ℕ → BloomFilter → BloomFilter
  unfolding add_hashes
  add_keys [] f = f
  add_keys (key ∷ keys) f = add_keys keys (add_hashes (hash_count policy) key f)

  -- The bits of some keys.
  abbrev pub key_marks : BloomFilter → List ℕ → ℕ → ℕ → Bool
  key_marks f [] w b = false
  key_marks f (key ∷ keys) w b = marks policy f key (hash_count policy) w b || key_marks f keys w b

  add_hashes-IsExact :
      (n key : ℕ) (f g : BloomFilter) (bits : ℕ → ℕ → Bool)
      → IsExact f bits g
      → IsExact f (λ w b. bits w b || marks policy f key n w b) (add_hashes n key g)
  unfolding add_hashes
  add_hashes-IsExact zero key f g bits e = IsExact-eq policy f g _ _ (λ w b. ground arith) e
  add_hashes-IsExact (suc n) key f g bits e =
      IsExact-eq policy f _ _ _ (λ w b. ground arith)
        (add_bit-IsExact policy f (add_hashes n key g) _ key n
          (add_hashes-IsExact n key f g bits e))

  add_keys-IsExact :
      (keys : List ℕ) (f g : BloomFilter) (bits : ℕ → ℕ → Bool)
      → IsExact f bits g
      → IsExact f (λ w b. bits w b || key_marks f keys w b) (add_keys keys g)
  unfolding add_keys
  add_keys-IsExact [] f g bits e = IsExact-eq policy f g _ _ (λ w b. ground arith) e
  add_keys-IsExact (key ∷ keys) f g bits e =
      IsExact-eq policy f _ _ _ (λ w b. ground arith)
        (add_keys-IsExact keys f (add_hashes (hash_count policy) key g) _
          (add_hashes-IsExact (hash_count policy) key f g bits e))

  -- Threads on some keys that have done all but some of their hashes.
  abbrev Works : List ℕ → (ℕ → ℕ) → List Thread → Type 0
  Works [] left [] = Unit {0}
  Works [] left (t ∷ ts) = ⊥
  Works (key ∷ keys) left [] = ⊥
  Works (key ∷ keys) left (t ∷ ts) =
      (t.key ≡ key)
      × (t.next ≤ hash_count policy)
      × (hash_count policy ≤ t.next + left 0)
      × Works keys (λ i. left (suc i)) ts

  Works-le :
      (keys : List ℕ) (left left' : ℕ → ℕ) (ts : List Thread)
      → ((i : ℕ) → left i ≤ left' i)
      → Works keys left ts
      → Works keys left' ts
  Works-le [] left left' [] h w = tt
  Works-le [] left left' (t ∷ ts) h w = absurd w
  Works-le (key ∷ keys) left left' [] h w = absurd w
  Works-le (key ∷ keys) left left' (t ∷ ts) h (same, most, few, w) =
      (same, most, omega (arith, h 0), Works-le keys _ _ ts (λ i. h (suc i)) w)

  turn-Works :
      (i : ℕ) (keys : List ℕ) (left : ℕ → ℕ) (f : BloomFilter) (ts : List Thread)
      → Works keys left ts
      → Works keys (λ j. left j - (if i == j then 1 else 0)) (turn policy i f ts).1
  unfolding turn
  turn-Works i [] left f [] w = tt
  turn-Works i [] left f (t ∷ ts) w = absurd w
  turn-Works i (key ∷ keys) left f [] w = absurd w
  turn-Works zero (key ∷ keys) left f (t ∷ ts) (same, most, few, w) =
      let w' =
        Works-le keys (λ j. left (suc j)) (λ j. left (suc j) - (if 0 == suc j then 1 else 0)) ts
          (λ j. ground arith) w in
      elim (Bool-cases (ltb t.next (hash_count policy))) [
        | inl more ↦ rw (more, turn) (same, ground arith, ground arith, w')
        | inr past ↦ rw (past, turn) (same, most, ground arith, w')
      ]
  turn-Works (suc i) (key ∷ keys) left f (t ∷ ts) (same, most, few, w) = (
    same,
    most,
    ground arith,
    Works-le keys _ _ _ (λ j. ground arith) (turn-Works i keys (λ j. left (suc j)) f ts w),
  )

  run-Works :
      (schedule keys : List ℕ) (left : ℕ → ℕ) (f : BloomFilter) (ts : List Thread)
      → Works keys left ts
      → Works keys (λ j. left j - turns j schedule) (run policy schedule f ts).1
  unfolding run
  run-Works [] keys left f ts w = Works-le keys _ _ ts (λ j. omega arith) w
  run-Works (i ∷ schedule) keys left f ts w =
      Works-le keys _ _ _ (λ j. omega arith)
        (run-Works schedule keys _ (turn policy i f ts).0 (turn policy i f ts).1
          (turn-Works i keys left f ts w))

  Works-launch : (keys : List ℕ) → Works keys (λ j. hash_count policy) (launch keys)
  Works-launch [] = tt
  Works-launch (key ∷ keys) = (refl, omega arith, omega arith, Works-launch keys)

  -- Threads that are through have gone through the bits of their keys.
  through-marks :
      (f : BloomFilter) (keys : List ℕ) (left : ℕ → ℕ) (ts : List Thread) (w b : ℕ)
      → ((i : ℕ) → i < length keys → left i ≡ 0)
      → Works keys left ts
      → all_marks policy f ts w b ≡ key_marks f keys w b
  through-marks f [] left [] w b none_left k = refl
  through-marks f [] left (t ∷ ts) w b none_left k = absurd k
  through-marks f (key ∷ keys) left [] w b none_left k = absurd k
  through-marks f (key ∷ keys) left (t ∷ ts) w b none_left (same, most, few, k) =
      let over : t.next ≡ hash_count policy = omega (arith, none_left 0 (omega arith)) in
      rw (same, over, through-marks f keys _ ts w b (λ i lt. none_left (suc i) (omega arith)) k)
        refl

  marks-launch :
      (f : BloomFilter) (keys : List ℕ) (w b : ℕ) → all_marks policy f (launch keys) w b ≡ false
  marks-launch f [] w b = refl
  marks-launch f (key ∷ keys) w b = marks-launch f keys w b

  itself-IsExact : (f : BloomFilter) → IsShaped f → IsExact f (bit_at f) f
  itself-IsExact f v = (v, (refl, refl, refl), λ w b. refl)

  pub run-key_marks :
      (schedule keys : List ℕ) (f : BloomFilter)
      → IsShaped f
      → IsFairFor (hash_count policy) (length keys) schedule
      → IsExact f
          (λ w b. bit_at f w b || key_marks f keys w b)
          (run policy schedule f (launch keys)).0
  run-key_marks schedule keys f v fair =
      IsExact-eq policy f _ _ _
        (λ w b.
          rw
            (through-marks f keys _ (run policy schedule f (launch keys)).1 w b
              (λ i lt. omega (arith, fair i lt))
              (run-Works schedule keys _ f (launch keys) (Works-launch keys)))
            refl)
        (run-IsExact policy schedule f f (launch keys) (bit_at f) (
          IsExact-eq policy f f _ _ (λ w b. ground (arith, marks-launch f keys w b))
            (itself-IsExact f v)))

-- Filters of one shape with the same bits are the same.
word_ext :
    (a b : Word) → length a ≡ length b → ((i : ℕ) → get_or a i false ≡ get_or b i false) → a ≡ b
word_ext [] [] l h = refl
word_ext [] (y ∷ b) l h = absurd (omega arith)
word_ext (x ∷ a) [] l h = absurd (omega arith)
word_ext (x ∷ a) (y ∷ b) l h = cc (h 0, word_ext a b (omega arith) (λ i. h (suc i)))

words_ext :
    (n : ℕ) (as_ bs : List Word)
    → length as_ ≡ length bs
    → ((i : ℕ) → i < length as_ → length (get_or as_ i []) ≡ n)
    → ((i : ℕ) → i < length bs → length (get_or bs i []) ≡ n)
    → ((i j : ℕ) → get_or (get_or as_ i []) j false ≡ get_or (get_or bs i []) j false)
    → as_ ≡ bs
words_ext n [] [] l p q h = refl
words_ext n [] (b ∷ bs) l p q h = absurd (omega arith)
words_ext n (a ∷ as_) [] l p q h = absurd (omega arith)
words_ext n (a ∷ as_) (b ∷ bs) l p q h = cc (
  word_ext a b (p 0 (omega arith) ∙ sym (q 0 (omega arith))) (h 0),
  words_ext n as_ bs (omega arith) (λ i lt. p (suc i) (omega arith))
      (λ i lt. q (suc i) (omega arith)) (λ i. h (suc i)),
)

IsExact-unique :
    (f g h : BloomFilter) (bits : ℕ → ℕ → Bool) → IsExact f bits g → IsExact f bits h → g ≡ h
IsExact-unique f g h bits (v, s, e) (v', s', e') =
    let same =
      words_ext f.bits_per_word g.bits h.bits (cc (v.size, v'.size, s.0, s.1, s'.0, s'.1))
        (λ i lt. v.width i lt ∙ s.2) (λ i lt. v'.width i lt ∙ s'.2) (λ i j. e i j ∙ sym (e' i j)) in
    ground (arith, same)

-- Whatever the order of the atomic operations of an insertion kernel on a well-shaped filter: under
-- every schedule that gives each thread a turn for each hash, the filter is the one that adding the
-- keys one after another gives.
pub run-add_keys :
    (policy : Policy) (schedule keys : List ℕ) (f : BloomFilter)
    → IsShaped f
    → IsFairFor (hash_count policy) (length keys) schedule
    → (run policy schedule f (launch keys)).0 ≡ add_keys policy keys f
run-add_keys policy schedule keys f v fair =
    IsExact-unique f _ _ _ (run-key_marks policy schedule keys f v fair)
      (add_keys-IsExact policy keys f f (bit_at f) (itself-IsExact policy f v))
