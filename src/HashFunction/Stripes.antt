-- ===== src/HashFunction/Stripes.antt =====
-- The loop over the stripes, and the whole hash.
use cuda2rocm.Base.{
  ℕ, zero, suc, ◌+◌, ◌-◌, ◌≤◌, ◌<◌, ◌≡◌, refl, sym, ap, ◌∙◌, some, List, [], ◌∷◌, ◌⊎◌, inl, inr,
  length-append, leb, if◌then◌else◌, add_word, length, arith, true, false,
}
use mathlib.Core.Path.{subst}
use cuda2rocm.HashFunction.{
  Lanes, new_lanes, round, merge, prime5, read64, stripe, stripes, start, xxh64,
}
use cuda2rocm.HashFunction.Reference.{
  word_of, words, rest, all_lanes, loose_words, first_hash, mix_words, hash,
}
use cuda2rocm.HashFunction.Tail.{
  Left, Chunk, cut, read64-Chunk, tail_words-words, tail_half-Left, tail_bytes-mix_bytes,
  length-rest,
}

-- Fewer than 32 bytes, or four words and what follows.
abbrev Four : List ℕ → Type 0
Four xs =
    (d1 : List ℕ) × (x1 : List ℕ) × (d2 : List ℕ) × (x2 : List ℕ) × (d3 : List ℕ) × (x3 : List ℕ)
    × (d4 : List ℕ) × (x4 : List ℕ) × Chunk xs d1 x1
    × Chunk x1 d2 x2
    × Chunk x2 d3 x3
    × Chunk x3 d4 x4

-- No stripe is left.
abbrev Few : List ℕ → Type 0
Few xs =
    (length xs < 32)
    × (loose_words (words xs) ≡ words xs)
    × ((l : Lanes) → all_lanes l (words xs) ≡ l)
    × ((seed : ℕ) → first_hash seed (words xs) ≡ add_word seed prime5)

length-Chunk : (xs ds ys : List ℕ) → Chunk xs ds ys → length xs ≡ length ys + 8
length-Chunk xs ds ys c = omega (arith, ap length c.0, length-append ds ys, c.1)

Few-words :
    (xs : List ℕ) (ws : List ℕ)
    → words xs ≡ ws
    → length xs < 32
    → loose_words ws ≡ ws
    → ((l : Lanes) → all_lanes l ws ≡ l)
    → ((seed : ℕ) → first_hash seed ws ≡ add_word seed prime5)
    → Few xs
Few-words xs ws e lt a b c = rw e (lt, a, b, c)

quarter : (xs : List ℕ) → Few xs ⊎ Four xs
unfolding loose_words all_lanes first_hash
quarter xs = elim (cut xs) [
  | inl (lt, w, r) ↦ inl (Few-words xs [] w (omega arith) refl (λ l. refl) (λ s. refl))
  | inr (d1, x1, c1) ↦ elim (cut x1) [
    | inl (lt, w, r) ↦ inl (
        Few-words xs (word_of 0 d1 ∷ []) (c1.2 ∙ ap (◌∷◌ (word_of 0 d1)) w)
          (omega (arith, length-Chunk xs d1 x1 c1)) refl (λ l. refl) (λ s. refl))
    | inr (d2, x2, c2) ↦ elim (cut x2) [
      | inl (lt, w, r) ↦ inl (
          Few-words xs (word_of 0 d1 ∷ word_of 0 d2 ∷ [])
            (c1.2 ∙ ap (◌∷◌ (word_of 0 d1)) (c2.2 ∙ ap (◌∷◌ (word_of 0 d2)) w))
            (omega (arith, length-Chunk xs d1 x1 c1, length-Chunk x1 d2 x2 c2)) refl (λ l. refl)
            (λ s. refl))
      | inr (d3, x3, c3) ↦ elim (cut x3) [
        | inl (lt, w, r) ↦ inl (
            Few-words xs (word_of 0 d1 ∷ word_of 0 d2 ∷ word_of 0 d3 ∷ [])
              (c1.2
                ∙ ap (◌∷◌ (word_of 0 d1))
                    (c2.2 ∙ ap (◌∷◌ (word_of 0 d2)) (c3.2 ∙ ap (◌∷◌ (word_of 0 d3)) w)))
              (omega (
                arith,
                length-Chunk xs d1 x1 c1,
                length-Chunk x1 d2 x2 c2,
                length-Chunk x2 d3 x3 c3,
              ))
              refl (λ l. refl) (λ s. refl))
        | inr (d4, x4, c4) ↦ inr (d1, x1, d2, x2, d3, x3, d4, x4, c1, c2, c3, c4)
      ]
    ]
  ]
]

-- What one stripe does.
abbrev StripeDone : List ℕ → ℕ → Lanes → List ℕ → List ℕ → Type 0
StripeDone bs p l xs ys =
    (l' : Lanes) × (stripe bs p l ≡ some l')
    × Left bs (p + 32) ys
    × (length xs ≡ length ys + 32)
    × (all_lanes l (words xs) ≡ all_lanes l' (words ys))
    × (loose_words (words xs) ≡ loose_words (words ys))
    × (rest xs ≡ rest ys)
    × ((seed : ℕ) → first_hash seed (words xs) ≡ merge (all_lanes (new_lanes seed) (words xs)))

stripe-Four :
    (bs : List ℕ) (p : ℕ) (l : Lanes) (xs : List ℕ)
    → Left bs p xs
    → Four xs
    → (ys : List ℕ) × StripeDone bs p l xs ys
unfolding stripe all_lanes loose_words first_hash
stripe-Four bs p l xs left (d1, x1, d2, x2, d3, x3, d4, x4, c1, c2, c3, c4) =
    let (r1, l1, n1) = read64-Chunk bs p xs d1 x1 left c1 in
    let (r2, l2, n2) = read64-Chunk bs (p + 8) x1 d2 x2 l1 c2 in
    let (r3, l3, n3) = read64-Chunk bs (p + 8 + 8) x2 d3 x3 l2 c3 in
    let (r4, l4, n4) = read64-Chunk bs (p + 8 + 8 + 8) x3 d4 x4 l3 c4 in
    let e3 : p + 8 + 8 ≡ p + 16 = omega arith in
    let e4 : p + 8 + 8 + 8 ≡ p + 24 = omega arith in
    let e5 : p + 8 + 8 + 8 + 8 ≡ p + 32 = omega arith in
    let s3 = subst (λ i. read64 bs i ≡ some (word_of 0 d3)) e3 r3 in
    let s4 = subst (λ i. read64 bs i ≡ some (word_of 0 d4)) e4 r4 in
    let w : words xs ≡ word_of 0 d1 ∷ word_of 0 d2 ∷ word_of 0 d3 ∷ word_of 0 d4 ∷ words x4 =
      c1.2
      ∙ ap (◌∷◌ (word_of 0 d1))
          (c2.2 ∙ ap (◌∷◌ (word_of 0 d2)) (c3.2 ∙ ap (◌∷◌ (word_of 0 d3)) c4.2)) in
    (
      x4,
      (
        record {
          v1 = round l.v1 (word_of 0 d1);
          v2 = round l.v2 (word_of 0 d2);
          v3 = round l.v3 (word_of 0 d3);
          v4 = round l.v4 (word_of 0 d4);
        },
        rw (stripe, r1, r2, s3, s4) refl,
        subst (λ i. Left bs i x4) e5 l4,
        omega (arith, n1, n2, n3, n4),
        rw (w, all_lanes) refl,
        rw (w, loose_words) refl,
        c1.3 ∙ c2.3 ∙ c3.3 ∙ c4.3,
        λ seed. rw (w, first_hash) refl,
      ),
    )

stripes-go :
    (fuel : ℕ) (bs : List ℕ) (p : ℕ) (l l' : Lanes)
    → stripe bs p l ≡ some l'
    → stripes (suc fuel) bs p l
      ≡ (if leb (p + 32) (length bs - 32) then stripes fuel bs (p + 32) l' else some (l', p + 32))
unfolding stripes
stripes-go fuel bs p l l' e = rw (e, stripes) refl

-- What the loop over the stripes does.
abbrev StripesDone : ℕ → List ℕ → ℕ → Lanes → List ℕ → Type 0
StripesDone fuel bs p l xs =
    (q : ℕ) × (ys : List ℕ) × (stripes fuel bs p l ≡ some (all_lanes l (words xs), q))
    × Left bs q ys
    × (words ys ≡ loose_words (words xs))
    × (rest ys ≡ rest xs)

stripes-all_lanes :
    (fuel : ℕ) (bs : List ℕ) (p : ℕ) (l : Lanes) (xs : List ℕ)
    → Left bs p xs
    → Four xs
    → length xs ≤ fuel
    → StripesDone fuel bs p l xs
stripes-all_lanes zero bs p l xs left four le =
    absurd (omega (arith, (stripe-Four bs p l xs left four).1.3))
stripes-all_lanes (suc fuel) bs p l xs left four le =
    let (ys, (l', e, left', n, a, w, r, f)) = stripe-Four bs p l xs left four in
    elim (quarter ys) [
      | inl (lt, w', a', f') ↦
          let stop : leb (p + 32) (length bs - 32) ≡ false = ground (arith, left'.1, lt) in
          (
            p + 32,
            ys,
            stripes-go fuel bs p l l' e ∙ rw (stop, a, a' l') refl,
            left',
            sym (w ∙ w'),
            sym r,
          )
      | inr four' ↦
          let more = (stripe-Four bs (p + 32) l' ys left' four').1.3 in
          let go_on : leb (p + 32) (length bs - 32) ≡ true = ground (arith, left'.1, more) in
          let (q, zs, e', left'', w'', r'') =
            stripes-all_lanes fuel bs (p + 32) l' ys left' four' (omega arith) in
          (q, zs, stripes-go fuel bs p l l' e ∙ rw (go_on, a) e', left'', w'' ∙ sym w, r'' ∙ sym r)
    ]

-- What the first part does.
abbrev Started : List ℕ → ℕ → Type 0
Started bs seed =
    (q : ℕ) × (ys : List ℕ) × (start bs seed ≡ some (first_hash seed (words bs), q))
    × Left bs q ys
    × (words ys ≡ loose_words (words bs))
    × (rest ys ≡ rest bs)

start-Started : (bs : List ℕ) (seed : ℕ) → Started bs seed
unfolding start
start-Started bs seed =
    let left : Left bs 0 bs = (refl, omega arith) in
    elim (quarter bs) [
      | inl (lt, w, a, f) ↦
          let short : leb 32 (length bs) ≡ false = ground arith in
          (0, bs, rw (short, start, f seed) refl, left, sym w, refl)
      | inr four ↦
          let (ys', (l', e', left', n, a', w', r', f)) =
            stripe-Four bs 0 (new_lanes seed) bs left four in
          let long : leb 32 (length bs) ≡ true = ground (arith, n) in
          let (q, ys, e, l, w, r) =
            stripes-all_lanes (length bs) bs 0 (new_lanes seed) bs left four (omega arith) in
          (q, ys, rw (long, start, e, f seed) refl, l, w, r)
    ]

-- For every buffer and seed the loops end within as many rounds as there are bytes, no read is out
-- of the buffer, and the result is that of an independent description of xxHash64 over lists of
-- words.
pub xxh64-hash : (bs : List ℕ) (seed : ℕ) → xxh64 bs seed ≡ some (hash bs seed)
unfolding xxh64 hash
xxh64-hash bs seed =
    let (p, xs, e, l, w, r) = start-Started bs seed in
    let h = add_word (first_hash seed (words bs)) (length bs) in
    let (p', e', l') = tail_words-words (length bs) bs p h xs l (omega (arith, l.1)) in
    let (p'', h'', ys, e'', l'', m) =
      tail_half-Left bs p' (mix_words h (words xs)) (rest xs) l' (length-rest xs) in
    let t = tail_bytes-mix_bytes (length bs) bs p'' h'' ys l'' (omega (arith, l''.1)) in
    rw (xxh64, e, e', e'', t, hash, ← w, ← r, m) refl
