-- ===== src/DataRepository/Partition.antt =====
-- One partition: a vector of shared pointers to batches, some of them null.
use cuda2rocm.Base.{
  ℕ, ◌≡◌, refl, Bool, true, false, Option, none, some, List, [], ◌∷◌, ◌++◌, ◌==◌, if◌then◌else◌, ap,
  inl, inr, Bool-cases, ==_iff,
}

-- A shared pointer: the object, and its batch id, which never changes.
pub record BatchRef : Type 0 where
  pub object : ℕ
  pub batch_id : ℕ

abbrev pub Slots : Type 0
Slots = List (Option BatchRef)

-- The slot holds a batch with the id.
unfoldable pub has_id : ℕ → Option BatchRef → Bool
has_id id none = false
has_id id (some b) = b.batch_id == id

unfoldable pub is_empty : Slots → Bool
is_empty [] = true
is_empty (x ∷ xs) = false

-- The front slot, and none of an empty partition.
unfoldable pub pop_front : Slots → Slots × Option BatchRef
pop_front [] = ([], none)
pop_front (x ∷ xs) = (xs, x)

-- The first batch with an id is taken out.
unfoldable pub pop_id : ℕ → Slots → Slots × Option BatchRef
unfolding has_id
pop_id id [] = ([], none)
pop_id id (x ∷ xs) = let (rest, b) = pop_id id xs in if has_id id x then (xs, x) else (x ∷ rest, b)

unfoldable pub find_id : ℕ → Slots → Option BatchRef
unfolding has_id
find_id id [] = none
find_id id (x ∷ xs) = if has_id id x then x else find_id id xs

unfoldable pub batch_ids : Slots → List ℕ
batch_ids [] = []
batch_ids (none ∷ xs) = batch_ids xs
batch_ids (some b ∷ xs) = b.batch_id ∷ batch_ids xs

-- Where a list with a batch in the middle splits.
abbrev pub Splits : ℕ → Slots → Slots → BatchRef → Type 0
Splits id xs rest b =
    (before : Slots) × (after : Slots) × (xs ≡ before ++ some b ∷ after)
    × (rest ≡ before ++ after)
    × (b.batch_id ≡ id)
    × (find_id id before ≡ none)

-- What taking out by id must do, for a lookup result.
abbrev pub Takes : ℕ → Slots → Slots → Option BatchRef → Type 0
Takes id xs rest none = rest ≡ xs
Takes id xs rest (some b) = Splits id xs rest b

Takes-skip :
    (id : ℕ) (x : Option BatchRef) (xs rest : Slots) (b : Option BatchRef)
    → has_id id x ≡ false
    → Takes id xs rest b
    → Takes id (x ∷ xs) (x ∷ rest) b
unfolding find_id
Takes-skip id x xs rest none h t = ap (◌∷◌ x) t
Takes-skip id x xs rest (some b) h (before, after, e, f, same, first) =
    (x ∷ before, after, ap (◌∷◌ x) e, ap (◌∷◌ x) f, same, rw h first)

-- Taking out by id returns what the lookup by id returns. If that is a batch, it is the first with
-- the id, and the others keep their order; if there is none, nothing changes.
pub pop_id-find_id :
    (id : ℕ) (xs : Slots)
    → ((pop_id id xs).1 ≡ find_id id xs) × Takes id xs (pop_id id xs).0 (find_id id xs)
unfolding pop_id find_id
pop_id-find_id id [] = (refl, refl)
pop_id-find_id id (none ∷ xs) =
    let (e, t) = pop_id-find_id id xs in (e, Takes-skip id none xs _ _ refl t)
pop_id-find_id id (some x ∷ xs) = elim (Bool-cases (x.batch_id == id)) [
  | inl hit ↦
      rw (hit, pop_id, find_id) (refl, ([], xs, refl, refl, (==_iff x.batch_id id).0 hit, refl))
  | inr miss ↦
      let (e, t) = pop_id-find_id id xs in
      rw (miss, pop_id, find_id) (e, Takes-skip id (some x) xs _ _ miss t)
]
