-- ===== src/HostResource/Ledger.antt =====
-- Sums over the trackers and the allocations that clients hold, and how the map operations move them.
use cuda2rocm.Base.{
  ℕ, ◌+◌, ◌-◌, ◌≤◌, ◌<◌, ◌≡◌, refl, Option, none, some, List, [], ◌∷◌, ◌==◌, if◌then◌else◌, arith,
  max, ◌^◌, inl, inr, ◌≢◌, Option-cases,
}
use cuda2rocm.HostResource.Trackers.{Entry, find, add_used, sub_used, erase}

-- An allocation in a client's hands: its handle, its bytes, and the arena that it was charged
-- against.
pub record Held : Type 0 where
  pub object : ℕ
  pub bytes : ℕ
  pub arena : Option ℕ

-- What a live reservation commits: its size, or the bytes in use where they are more.
abbrev pub cost : Entry → ℕ
cost e = max e.arena_size e.allocated_bytes

abbrev pub costs : List Entry → ℕ
costs [] = 0
costs (e ∷ es) = cost e + costs es

-- The bytes of `h` if it was charged against `a`.
abbrev pub share : ℕ → Held → ℕ
share a h = elim h.arena [ none ↦ 0 | some b ↦ if b == a then h.bytes else 0 ]

abbrev pub under : ℕ → List Held → ℕ
under a [] = 0
under a (h ∷ hs) = share a h + under a hs

-- The bytes of `h` if no live reservation covers it.
abbrev pub loose_bytes : List Entry → Held → ℕ
loose_bytes es h = elim h.arena [
  | none ↦ h.bytes
  | some b ↦ elim (find b es) [ none ↦ h.bytes | some _ ↦ 0 ]
]

abbrev pub loose : List Entry → List Held → ℕ
loose es [] = 0
loose es (h ∷ hs) = loose_bytes es h + loose es hs

-- No two entries have one key.
abbrev pub Distinct : List Entry → Type 0
Distinct [] = Unit {0}
Distinct (e ∷ es) = (find e.arena es ≡ none) × Distinct es

-- Each tracker counts the bytes held under its arena.
abbrev pub Tracks : List Held → List Entry → Type 0
Tracks hs [] = Unit {0}
Tracks hs (e ∷ es) = (e.allocated_bytes ≡ under e.arena hs) × Tracks hs es

-- No allocation in hand names the arena.
abbrev pub Unnamed : ℕ → List Held → Type 0
Unnamed a [] = Unit {0}
Unnamed a (h ∷ hs) = (h.arena ≢ some a) × Unnamed a hs

pub find-arena : (a : ℕ) (es : List Entry) (e : Entry) → find a es ≡ some e → e.arena ≡ a
unfolding find
find-arena a [] e h = cc
find-arena a (x ∷ es) e h = ground (arith, find-arena a es e)

pub find-cost-le : (a : ℕ) (es : List Entry) (e : Entry) → find a es ≡ some e → cost e ≤ costs es
unfolding find
find-cost-le a [] e h = cc
find-cost-le a (x ∷ es) e h = ground (arith, find-cost-le a es e)

pub find-under :
    (hs : List Held) (a : ℕ) (es : List Entry) (e : Entry)
    → Tracks hs es
    → find a es ≡ some e
    → e.allocated_bytes ≡ under a hs
unfolding find
find-under hs a [] e t h = cc
find-under hs a (x ∷ es) e t h = ground (arith, find-under hs a es e t.1, find-arena a (x ∷ es) e h)

-- Changing the count of one tracker moves the sum of the costs by the change of that cost.
pub costs-add_used :
    (a n : ℕ) (es : List Entry) (e : Entry)
    → find a es ≡ some e
    → e.allocated_bytes + n < 2 ^ 63
    → costs (add_used a n es) + cost e ≡ costs es + max e.arena_size (e.allocated_bytes + n)
unfolding find add_used
costs-add_used a n [] e h k = cc
costs-add_used a n (x ∷ es) e h k = ground (arith, costs-add_used a n es e)

pub costs-sub_used :
    (a n : ℕ) (es : List Entry) (e : Entry)
    → find a es ≡ some e
    → e.allocated_bytes < 2 ^ 63
    → n ≤ e.allocated_bytes
    → costs (sub_used a n es) + cost e ≡ costs es + max e.arena_size (e.allocated_bytes - n)
unfolding find sub_used
costs-sub_used a n [] e h k l = cc
costs-sub_used a n (x ∷ es) e h k l = ground (arith, costs-sub_used a n es e)

pub costs-erase :
    (a : ℕ) (es : List Entry) (e : Entry)
    → find a es ≡ some e
    → costs (erase a es) + cost e ≡ costs es
unfolding find erase
costs-erase a [] e h = cc
costs-erase a (x ∷ es) e h = ground (arith, costs-erase a es e)

-- Which arenas are live does not change with the counts.
pub find-add_used-none :
    (a n b : ℕ) (es : List Entry) → find b es ≡ none → find b (add_used a n es) ≡ none
unfolding find add_used
find-add_used-none a n b [] h = refl
find-add_used-none a n b (x ∷ es) h = ground (arith, find-add_used-none a n b es)

pub find-sub_used-none :
    (a n b : ℕ) (es : List Entry) → find b es ≡ none → find b (sub_used a n es) ≡ none
unfolding find sub_used
find-sub_used-none a n b [] h = refl
find-sub_used-none a n b (x ∷ es) h = ground (arith, find-sub_used-none a n b es)

pub loose_bytes-add_used :
    (a n : ℕ) (es : List Entry) (h : Held) → loose_bytes (add_used a n es) h ≡ loose_bytes es h
unfolding find add_used
loose_bytes-add_used a n [] h = refl
loose_bytes-add_used a n (x ∷ es) h = ground (arith, loose_bytes-add_used a n es h)

pub loose_bytes-sub_used :
    (a n : ℕ) (es : List Entry) (h : Held) → loose_bytes (sub_used a n es) h ≡ loose_bytes es h
unfolding find sub_used
loose_bytes-sub_used a n [] h = refl
loose_bytes-sub_used a n (x ∷ es) h = ground (arith, loose_bytes-sub_used a n es h)

pub loose-add_used :
    (a n : ℕ) (es : List Entry) (hs : List Held) → loose (add_used a n es) hs ≡ loose es hs
loose-add_used a n es [] = refl
loose-add_used a n es (h ∷ hs) =
    omega (arith, loose_bytes-add_used a n es h, loose-add_used a n es hs)

pub loose-sub_used :
    (a n : ℕ) (es : List Entry) (hs : List Held) → loose (sub_used a n es) hs ≡ loose es hs
loose-sub_used a n es [] = refl
loose-sub_used a n es (h ∷ hs) =
    omega (arith, loose_bytes-sub_used a n es h, loose-sub_used a n es hs)

pub Distinct-add_used : (a n : ℕ) (es : List Entry) → Distinct es → Distinct (add_used a n es)
unfolding add_used
Distinct-add_used a n [] d = tt
Distinct-add_used a n (x ∷ es) d =
    ground (arith, Distinct-add_used a n es d.1, find-add_used-none a n x.arena es)

pub Distinct-sub_used : (a n : ℕ) (es : List Entry) → Distinct es → Distinct (sub_used a n es)
unfolding sub_used
Distinct-sub_used a n [] d = tt
Distinct-sub_used a n (x ∷ es) d =
    ground (arith, Distinct-sub_used a n es d.1, find-sub_used-none a n x.arena es)

-- Erasing.
pub find-erase-none : (a b : ℕ) (es : List Entry) → find b es ≡ none → find b (erase a es) ≡ none
unfolding find erase
find-erase-none a b [] h = refl
find-erase-none a b (x ∷ es) h = ground (arith, find-erase-none a b es)

pub Distinct-erase : (a : ℕ) (es : List Entry) → Distinct es → Distinct (erase a es)
unfolding erase
Distinct-erase a [] d = tt
Distinct-erase a (x ∷ es) d = ground (arith, Distinct-erase a es d.1, find-erase-none a x.arena es)

pub find-erase_self : (a : ℕ) (es : List Entry) → Distinct es → find a (erase a es) ≡ none
unfolding find erase
find-erase_self a [] d = refl
find-erase_self a (x ∷ es) d = ground (arith, find-erase_self a es d.1)

pub find-erase_ne : (a b : ℕ) (es : List Entry) → b ≢ a → find b (erase a es) ≡ find b es
unfolding find erase
find-erase_ne a b [] h = refl
find-erase_ne a b (x ∷ es) h = ground (arith, find-erase_ne a b es)

-- The allocations under a released arena become loose.
pub loose_bytes-erase :
    (a : ℕ) (es : List Entry) (e : Entry) (h : Held)
    → Distinct es
    → find a es ≡ some e
    → loose_bytes (erase a es) h ≡ loose_bytes es h + share a h
loose_bytes-erase a es e h d f = elim (Option-cases h.arena) [
  | inl p ↦ ground arith
  | inr (b, p) ↦ ground (arith, find-erase_self a es d, find-erase_ne a b es, f)
]

pub loose-erase :
    (a : ℕ) (es : List Entry) (e : Entry) (hs : List Held)
    → Distinct es
    → find a es ≡ some e
    → loose (erase a es) hs ≡ loose es hs + under a hs
loose-erase a es e [] d f = omega arith
loose-erase a es e (h ∷ hs) d f =
    omega (arith, loose_bytes-erase a es e h d f, loose-erase a es e hs d f)
