-- ===== src/HashFunction/Tail.antt =====
-- The reads of a buffer, and the loops over what the stripes leave.
use cuda2rocm.Base.{
  ℕ, zero, suc, ◌+◌, ◌≤◌, ◌<◌, ◌≡◌, refl, ap, ◌∙◌, some, List, [], ◌∷◌, ◌++◌, ◌⊎◌, inl, inr,
  length-append, length, get_elem?, drop, arith,
}
use mathlib.Core.Path.{subst}
use cuda2rocm.HashFunction.{
  mix_word, mix_half, mix_byte, read_bytes, read64, read32, tail_words, tail_half, tail_bytes,
}
use cuda2rocm.HashFunction.Reference.{word_of, words, rest, mix_words, mix_bytes, mix_rest}

-- Reading at a position is reading what is left from there.
drop-cons :
    (p : ℕ) (bs : List ℕ) (x : ℕ) (xs : List ℕ)
    → drop p bs ≡ x ∷ xs
    → (get_elem? bs p ≡ some x) × (drop (suc p) bs ≡ xs)
drop-cons zero [] x xs e = cc
drop-cons zero (b ∷ bs) x xs e = (cc, cc)
drop-cons (suc p) [] x xs e = cc
drop-cons (suc p) (b ∷ bs) x xs e = drop-cons p bs x xs e

drop-append :
    (ds : List ℕ) (p : ℕ) (bs xs : List ℕ) → drop p bs ≡ ds ++ xs → drop (p + length ds) bs ≡ xs
drop-append [] p bs xs e = ap (λ i. drop i bs) (omega arith) ∙ e
drop-append (d ∷ ds) p bs xs e =
    let q : p + suc (length ds) ≡ suc p + length ds = omega arith in
    ap (λ i. drop i bs) q ∙ drop-append ds (suc p) bs xs (drop-cons p bs d (ds ++ xs) e).1

read_bytes-drop :
    (ds : List ℕ) (shift p : ℕ) (bs xs : List ℕ)
    → drop p bs ≡ ds ++ xs
    → read_bytes (length ds) shift bs p ≡ some (word_of shift ds)
unfolding read_bytes word_of
read_bytes-drop [] shift p bs xs e = refl
read_bytes-drop (d ∷ ds) shift p bs xs e =
    let (f, g) = drop-cons p bs d (ds ++ xs) e in
    rw (f, read_bytes, read_bytes-drop ds (shift + 8) (suc p) bs xs g) refl

-- Fewer than eight bytes, or eight and what follows.
abbrev pub Chunk : List ℕ → List ℕ → List ℕ → Type 0
Chunk xs ds ys =
    (xs ≡ ds ++ ys) × (length ds ≡ 8) × (words xs ≡ word_of 0 ds ∷ words ys) × (rest xs ≡ rest ys)

pub cut :
    (xs : List ℕ)
    → ((length xs < 8) × (words xs ≡ []) × (rest xs ≡ xs))
      ⊎ ((ds : List ℕ) × (ys : List ℕ) × Chunk xs ds ys)
unfolding words rest
cut [] = inl (omega arith, refl, refl)
cut (a ∷ []) = inl (omega arith, refl, refl)
cut (a ∷ b ∷ []) = inl (omega arith, refl, refl)
cut (a ∷ b ∷ c ∷ []) = inl (omega arith, refl, refl)
cut (a ∷ b ∷ c ∷ d ∷ []) = inl (omega arith, refl, refl)
cut (a ∷ b ∷ c ∷ d ∷ e ∷ []) = inl (omega arith, refl, refl)
cut (a ∷ b ∷ c ∷ d ∷ e ∷ f ∷ []) = inl (omega arith, refl, refl)
cut (a ∷ b ∷ c ∷ d ∷ e ∷ f ∷ g ∷ []) = inl (omega arith, refl, refl)
cut (a ∷ b ∷ c ∷ d ∷ e ∷ f ∷ g ∷ h ∷ ys) =
    inr (a ∷ b ∷ c ∷ d ∷ e ∷ f ∷ g ∷ h ∷ [], ys, (refl, refl, refl, refl))

-- What is left of a buffer from a position on.
abbrev pub Left : List ℕ → ℕ → List ℕ → Type 0
Left bs p xs = (drop p bs ≡ xs) × (length bs ≡ p + length xs)

pub read64-Chunk :
    (bs : List ℕ) (p : ℕ) (xs ds ys : List ℕ)
    → Left bs p xs
    → Chunk xs ds ys
    → (read64 bs p ≡ some (word_of 0 ds)) × Left bs (p + 8) ys × (length xs ≡ length ys + 8)
unfolding read64
read64-Chunk bs p xs ds ys l c =
    let e = l.0 ∙ c.0 in
    let n : length xs ≡ length ys + 8 = omega (arith, ap length c.0, length-append ds ys, c.1) in
    (
      subst (λ m. read_bytes m 0 bs p ≡ some (word_of 0 ds)) c.1 (read_bytes-drop ds 0 p bs ys e),
      (subst (λ m. drop (p + m) bs ≡ ys) c.1 (drop-append ds p bs ys e), omega (arith, l.1, n)),
      n,
    )

-- The loop over the words.
tail_words-short :
    (fuel : ℕ) (bs : List ℕ) (p h : ℕ) → length bs < p + 8 → tail_words fuel bs p h ≡ some (h, p)
unfolding tail_words
tail_words-short zero bs p h lt = ground arith
tail_words-short (suc fuel) bs p h lt = ground arith

tail_words-long :
    (fuel : ℕ) (bs : List ℕ) (p h w : ℕ)
    → read64 bs p ≡ some w
    → p + 8 ≤ length bs
    → tail_words (suc fuel) bs p h ≡ tail_words fuel bs (p + 8) (mix_word h w)
unfolding tail_words
tail_words-long fuel bs p h w r le = ground arith

abbrev pub WordsDone : ℕ → List ℕ → ℕ → ℕ → List ℕ → Type 0
WordsDone fuel bs p h xs =
    (q : ℕ) × (tail_words fuel bs p h ≡ some (mix_words h (words xs), q)) × Left bs q (rest xs)

words_short :
    (fuel : ℕ) (bs : List ℕ) (p h : ℕ) (xs : List ℕ)
    → Left bs p xs
    → length xs < 8
    → words xs ≡ []
    → rest xs ≡ xs
    → WordsDone fuel bs p h xs
unfolding mix_words
words_short fuel bs p h xs l lt w r =
    (p, rw (w, tail_words-short fuel bs p h (omega (arith, l.1))) refl, rw r l)

pub tail_words-words :
    (fuel : ℕ) (bs : List ℕ) (p h : ℕ) (xs : List ℕ)
    → Left bs p xs
    → length xs ≤ fuel
    → WordsDone fuel bs p h xs
unfolding mix_words
tail_words-words zero bs p h xs l le = elim (cut xs) [
  | inl (lt, w, r) ↦ words_short zero bs p h xs l lt w r
  | inr (ds, ys, c) ↦ absurd (omega (arith, (read64-Chunk bs p xs ds ys l c).2))
]
tail_words-words (suc fuel) bs p h xs l le = elim (cut xs) [
  | inl (lt, w, r) ↦ words_short (suc fuel) bs p h xs l lt w r
  | inr (ds, ys, c) ↦
      let (got, l', n) = read64-Chunk bs p xs ds ys l c in
      let (q, e, done) =
        tail_words-words fuel bs (p + 8) (mix_word h (word_of 0 ds)) ys l' (omega arith) in
      (
        q,
        rw (c.2) (tail_words-long fuel bs p h (word_of 0 ds) got (omega (arith, l'.1)) ∙ e),
        rw (c.3) done,
      )
]

-- The half word.
pub tail_half-Left :
    (bs : List ℕ) (p h : ℕ) (xs : List ℕ)
    → Left bs p xs
    → length xs < 8
    → (q : ℕ) × (h' : ℕ) × (ys : List ℕ) × (tail_half bs p h ≡ some (h', q))
      × Left bs q ys
      × (mix_rest h xs ≡ mix_bytes h' ys)
unfolding tail_half mix_rest read32
tail_half-Left bs p h [] l lt = (p, h, [], ground (arith, l.1), l, refl)
tail_half-Left bs p h (a ∷ []) l lt = (p, h, a ∷ [], ground (arith, l.1), l, refl)
tail_half-Left bs p h (a ∷ b ∷ []) l lt = (p, h, a ∷ b ∷ [], ground (arith, l.1), l, refl)
tail_half-Left bs p h (a ∷ b ∷ c ∷ []) l lt = (p, h, a ∷ b ∷ c ∷ [], ground (arith, l.1), l, refl)
tail_half-Left bs p h (a ∷ b ∷ c ∷ d ∷ ys) l lt =
    let ds = a ∷ b ∷ c ∷ d ∷ [] in
    let got = read_bytes-drop ds 0 p bs ys l.0 in
    (
      p + 4,
      mix_half h (word_of 0 ds),
      ys,
      ground (arith, l.1, got),
      (drop-append ds p bs ys l.0, omega (arith, l.1)),
      refl,
    )

-- The loop over the bytes.
pub tail_bytes-mix_bytes :
    (fuel : ℕ) (bs : List ℕ) (p h : ℕ) (xs : List ℕ)
    → Left bs p xs
    → length xs ≤ fuel
    → tail_bytes fuel bs p h ≡ some (mix_bytes h xs)
unfolding tail_bytes mix_bytes
tail_bytes-mix_bytes zero bs p h [] l le = ground (arith, l.1)
tail_bytes-mix_bytes (suc fuel) bs p h [] l le = ground (arith, l.1)
tail_bytes-mix_bytes zero bs p h (x ∷ xs) l le = absurd (omega arith)
tail_bytes-mix_bytes (suc fuel) bs p h (x ∷ xs) l le =
    let (e, f) = drop-cons p bs x xs l.0 in
    ground (
      arith,
      e,
      l.1,
      tail_bytes-mix_bytes fuel bs (suc p) (mix_byte h x) xs (f, omega (arith, l.1)) (omega arith),
    )

pub length-rest : (xs : List ℕ) → length (rest xs) < 8
unfolding rest
length-rest [] = omega arith
length-rest (a ∷ []) = omega arith
length-rest (a ∷ b ∷ []) = omega arith
length-rest (a ∷ b ∷ c ∷ []) = omega arith
length-rest (a ∷ b ∷ c ∷ d ∷ []) = omega arith
length-rest (a ∷ b ∷ c ∷ d ∷ e ∷ []) = omega arith
length-rest (a ∷ b ∷ c ∷ d ∷ e ∷ f ∷ []) = omega arith
length-rest (a ∷ b ∷ c ∷ d ∷ e ∷ f ∷ g ∷ []) = omega arith
length-rest (a ∷ b ∷ c ∷ d ∷ e ∷ f ∷ g ∷ h ∷ xs) = length-rest xs
