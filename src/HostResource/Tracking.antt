-- ===== src/HostResource/Tracking.antt =====
-- How the trackers agree with the allocations in hand across a charge, a credit and a release.
use cuda2rocm.Base.{
  ℕ, ◌+◌, ◌<◌, ◌≡◌, refl, none, some, List, [], ◌∷◌, ◌==◌, arith, ◌^◌, ◌⊎◌, inl, inr, Option-cases,
  Bool-cases, ==_iff,
}
use cuda2rocm.HostResource.Trackers.{
  Entry, LiveAlloc, find, add_used, sub_used, erase, find_alloc, erase_alloc,
}
use cuda2rocm.HostResource.Ledger.{
  Held, share, under, loose_bytes, loose, Distinct, Tracks, Unnamed,
}
use cuda2rocm.HostResource.System.{take_held, Registered}

pub Tracks-hold_under :
    (a : ℕ) (h : Held) (hs : List Held) (es : List Entry)
    → h.arena ≡ some a
    → find a es ≡ none
    → Tracks hs es
    → Tracks (h ∷ hs) es
unfolding find
Tracks-hold_under a h hs [] p f t = tt
Tracks-hold_under a h hs (e ∷ es) p f t =
    ground (arith, Tracks-hold_under a h hs es p, ==_iff e.arena a, ==_iff a e.arena)

pub Tracks-hold_none :
    (h : Held) (hs : List Held) (es : List Entry)
    → h.arena ≡ none
    → Tracks hs es
    → Tracks (h ∷ hs) es
Tracks-hold_none h hs [] p t = tt
Tracks-hold_none h hs (e ∷ es) p t = ground (arith, Tracks-hold_none h hs es p)

pub Tracks-add_used :
    (a : ℕ) (h : Held) (hs : List Held) (es : List Entry)
    → h.arena ≡ some a
    → ((e : Entry) → find a es ≡ some e → e.allocated_bytes + h.bytes < 2 ^ 63)
    → Distinct es
    → Tracks hs es
    → Tracks (h ∷ hs) (add_used a h.bytes es)
unfolding find add_used
Tracks-add_used a h hs [] p k d t = tt
Tracks-add_used a h hs (e ∷ es) p k d t = elim (Bool-cases (e.arena == a)) [
  | inl q ↦ ground (arith, k e, Tracks-hold_under a h hs es p)
  | inr q ↦ ground (arith, Tracks-add_used a h hs es p (λ x f. k x (ground arith)) d.1 t.1)
]

-- What is taken out and what is left make up the whole.
pub under-take_held :
    (a o : ℕ) (hs : List Held) (h : Held) (left : List Held)
    → take_held o hs ≡ some (h, left)
    → under a hs ≡ share a h + under a left
unfolding take_held
under-take_held a o [] h left e = cc
under-take_held a o (x ∷ hs) h left e = elim (Option-cases (take_held o hs)) [
  | inl q ↦ ground arith
  | inr ((y, ys), q) ↦ ground (arith, under-take_held a o hs y ys q)
]

pub loose-take_held :
    (es : List Entry) (o : ℕ) (hs : List Held) (h : Held) (left : List Held)
    → take_held o hs ≡ some (h, left)
    → loose es hs ≡ loose_bytes es h + loose es left
unfolding take_held
loose-take_held es o [] h left e = cc
loose-take_held es o (x ∷ hs) h left e = elim (Option-cases (take_held o hs)) [
  | inl q ↦ ground arith
  | inr ((y, ys), q) ↦ ground (arith, loose-take_held es o hs y ys q)
]

-- An allocation leaves that no live arena of the list covers.
pub Tracks-drop :
    (h : Held) (hs left : List Held) (es : List Entry)
    → ((a : ℕ) → under a hs ≡ share a h + under a left)
    → ((a : ℕ) → h.arena ≡ some a → find a es ≡ none)
    → Tracks hs es
    → Tracks left es
unfolding find
Tracks-drop h hs left [] u f t = tt
Tracks-drop h hs left (e ∷ es) u f t = (
  ground (arith, u e.arena, f e.arena),
  Tracks-drop h hs left es u (λ a p. ground (arith, f a)) t.1,
)

pub Tracks-sub_used :
    (a : ℕ) (h : Held) (hs left : List Held) (es : List Entry)
    → h.arena ≡ some a
    → ((b : ℕ) → under b hs ≡ share b h + under b left)
    → ((e : Entry) → find a es ≡ some e → e.allocated_bytes < 2 ^ 63)
    → Distinct es
    → Tracks hs es
    → Tracks left (sub_used a h.bytes es)
unfolding find sub_used
Tracks-sub_used a h hs left [] p u k d t = tt
Tracks-sub_used a h hs left (e ∷ es) p u k d t = elim (Bool-cases (e.arena == a)) [
  | inl q ↦ ground (arith, k e, u e.arena, Tracks-drop h hs left es u (λ b r. ground arith) t.1)
  | inr q ↦
      ground
        (arith, u e.arena, Tracks-sub_used a h hs left es p u (λ x f. k x (ground arith)) d.1 t.1)
]

pub Tracks-erase :
    (a : ℕ) (hs : List Held) (es : List Entry) → Tracks hs es → Tracks hs (erase a es)
unfolding erase
Tracks-erase a hs [] t = tt
Tracks-erase a hs (e ∷ es) t = ground (arith, Tracks-erase a hs es t.1)

-- A new arena that no allocation names.
pub under-Unnamed : (a : ℕ) (hs : List Held) → Unnamed a hs → under a hs ≡ 0
under-Unnamed a [] u = refl
under-Unnamed a (h ∷ hs) u = elim (Option-cases h.arena) [
  | inl p ↦ ground (arith, under-Unnamed a hs u.1)
  | inr (b, p) ↦ ground (arith, under-Unnamed a hs u.1, u.0)
]

pub loose-Unnamed :
    (x : Entry) (es : List Entry) (hs : List Held)
    → Unnamed x.arena hs
    → loose (x ∷ es) hs ≡ loose es hs
unfolding find
loose-Unnamed x es [] u = refl
loose-Unnamed x es (h ∷ hs) u = elim (Option-cases h.arena) [
  | inl p ↦ ground (arith, loose-Unnamed x es hs u.1)
  | inr (b, p) ↦ ground (arith, loose-Unnamed x es hs u.1, u.0)
]

-- What taking out a handle and its registration does.
abbrev pub Taken : ℕ → List LiveAlloc → List Held → LiveAlloc → Held → List Held → Type 0
Taken o ls hs l h left =
    (find_alloc o ls ≡ some l)
    × (take_held o hs ≡ some (h, left))
    × (l.bytes ≡ h.bytes)
    × Registered (erase_alloc o ls) left

-- A handle is registered exactly where it is held, with the same bytes.
pub Registered-take :
    (o : ℕ) (ls : List LiveAlloc) (hs : List Held)
    → Registered ls hs
    → ((find_alloc o ls ≡ none) × (take_held o hs ≡ none))
      ⊎ ((l : LiveAlloc) × (h : Held) × (left : List Held) × Taken o ls hs l h left)
unfolding find_alloc take_held erase_alloc
Registered-take o [] [] r = inl (refl, refl)
Registered-take o [] (h ∷ hs) r = absurd r
Registered-take o (l ∷ ls) [] r = absurd r
Registered-take o (l ∷ ls) (h ∷ hs) r = elim (Bool-cases (l.object == o)) [
  | inl q ↦ inr (l, h, hs, ground arith)
  | inr q ↦ elim (Registered-take o ls hs r.2) [
    | inl (f, g) ↦ inl (ground arith)
    | inr (l', h', left, t) ↦ inr (l', h', h ∷ left, ground arith)
  ]
]
