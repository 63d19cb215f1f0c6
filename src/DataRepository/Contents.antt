-- ===== src/DataRepository/Contents.antt =====
-- What the operations of a repository do to its partitions.
use cuda2rocm.Base.{
  ℕ, zero, suc, ◌-◌, ◌≤◌, ◌<◌, ◌≡◌, refl, Option, [], ◌∷◌, ◌++◌, length, get_or, set, replicate,
  leb, if◌then◌else◌, arith, length-append, length-replicate, get_or-set_self, get_or-set_ne,
  get_or-replicate, Bool-cases, inl, inr, ◌==◌,
}
use native.Mathlib.Decide.{ℕ_discrete}
use cuda2rocm.DataRepository.Partition.{BatchRef, Slots, pop_front, pop_id, pop_id-find_id, Takes}
use cuda2rocm.DataRepository.{
  Repository, resize_to, partition, add_data_batch, pop_next_data_batch, pop_data_batch_by_id,
  get_data_batch_by_id,
}

get_or-append_empty : (r : Repository) (n q : ℕ) → get_or (r ++ replicate n []) q [] ≡ get_or r q []
get_or-append_empty [] n q = get_or-replicate n q []
get_or-append_empty (x ∷ r) n zero = refl
get_or-append_empty (x ∷ r) n (suc q) = get_or-append_empty r n q

-- Growing the vector shows in no partition, and makes the index valid.
resize_to_lem :
    (p q : ℕ) (r : Repository)
    → (p < length (resize_to p r)) × (partition q (resize_to p r) ≡ partition q r)
unfolding resize_to
resize_to_lem p q r = elim (Bool-cases (leb (length r) p)) [
  | inl past ↦
      rw (past, resize_to)
        (
          ground (
            arith,
            length-append r (replicate (suc p - length r) []),
            length-replicate {A = Slots} (suc p - length r) [],
          ),
          get_or-append_empty r (suc p - length r) q,
        )
  | inr within ↦ rw (within, resize_to) (ground arith, refl)
]

get_or-past : (r : Repository) (p : ℕ) → length r ≤ p → partition p r ≡ []
get_or-past [] p h = refl
get_or-past (x ∷ r) zero h = absurd (omega arith)
get_or-past (x ∷ r) (suc p) h = get_or-past r p (omega arith)

-- A partition that is written in range.
partition-set :
    (r : Repository) (p q : ℕ) (x : Slots)
    → p < length r
    → partition q (set r p x) ≡ (if p == q then x else partition q r)
partition-set r p q x h = elim (ℕ_discrete p q) [
  | yes same ↦ rw (← same, get_or-set_self r p x [] h) (ground arith)
  | no other ↦ rw (get_or-set_ne r p q x [] other) (ground arith)
]

-- A batch is added at the end of its partition, and no other partition changes.
pub partition-add_data_batch :
    (b : Option BatchRef) (p q : ℕ) (r : Repository)
    → partition q (add_data_batch b p r)
      ≡ (if p == q then partition q r ++ b ∷ [] else partition q r)
unfolding add_data_batch
partition-add_data_batch b p q r =
    let grown = resize_to p r in
    ground (
      arith,
      partition-set grown p q (partition p grown ++ b ∷ []) (resize_to_lem p p r).0,
      (resize_to_lem p p r).1,
      (resize_to_lem p q r).1,
    )

-- The front of a partition is taken out and returned, none of an empty one or out of range, and no
-- other partition changes.
pub partition-pop_next :
    (p q : ℕ) (r : Repository)
    → ((pop_next_data_batch p r).1 ≡ (pop_front (partition p r)).1)
      × (partition q (pop_next_data_batch p r).0
          ≡ (if p == q then (pop_front (partition p r)).0 else partition q r))
unfolding pop_next_data_batch pop_front
partition-pop_next p q r = elim (Bool-cases (leb (length r) p)) [
  | inl past ↦ ground (arith, get_or-past r p, get_or-past r q)
  | inr within ↦ ground (arith, partition-set r p q (pop_front (partition p r)).0)
]

-- The batch that the lookup by id returns is taken out of its partition, the first with that id,
-- and the rest keeps its order; no other partition changes.
pub partition-pop_by_id :
    (id p q : ℕ) (r : Repository)
    → let (r', b) = pop_data_batch_by_id id p r in
      (b ≡ get_data_batch_by_id id p r)
      × Takes id (partition p r) (partition p r') b
      × (partition q r' ≡ (if p == q then partition p r' else partition q r))
unfolding pop_data_batch_by_id get_data_batch_by_id
partition-pop_by_id id p q r = elim (Bool-cases (leb (length r) p)) [
  | inl past ↦ rw (past, pop_data_batch_by_id, get_data_batch_by_id) (refl, refl, ground arith)
  | inr within ↦
      let (e, t) = pop_id-find_id id (partition p r) in
      let rest = (pop_id id (partition p r)).0 in
      let inside : p < length r = ground arith in
      let self : partition p (set r p rest) ≡ rest = get_or-set_self r p rest [] inside in
      rw (within, pop_data_batch_by_id, get_data_batch_by_id, self, e)
        (refl, t, partition-set r p q rest inside)
]
