-- ===== src/RepositoryManager/Delivery.antt =====
-- What reaches the repositories of the ports, and what is reported when they are cleared.
use cuda2rocm.Base.{
  ℕ, zero, suc, ◌+◌, ◌<◌, ◌≡◌, ◌≢◌, refl, ap, ◌∙◌, true, false, Option, none, some, List, [], ◌∷◌,
  if◌then◌else◌, arith, Bool-cases, inl, inr, Option-cases,
}
use cuda2rocm.DataRepository.{Repository, add_data_batch, total_size, all_empty}
use cuda2rocm.DataRepository.Partition.{BatchRef, is_empty}
use cuda2rocm.RepositoryManager.{
  PortKey, Port, RepositoryManager, LeakedRepositoryInfo, same_key, deliver, deliver_all,
  add_to_targets, get_repository, leaks, clear_all_repositories,
}

-- No entry is a null repository.
abbrev pub NonNull : List Port → Type 0
NonNull [] = Unit {0}
NonNull (p ∷ ps) = (p.repository ≢ none) × NonNull ps

-- How often a port is among the targets.
abbrev pub times : PortKey → List PortKey → ℕ
times k [] = 0
times k (t ∷ ts) = (if same_key k t then 1 else 0) + times k ts

-- The batch added to the default partition a number of times.
abbrev pub add_times : ℕ → Option BatchRef → Repository → Repository
add_times zero b r = r
add_times (suc n) b r = add_times n b (add_data_batch b 0 r)

-- What a delivery does to the repository under a key.
abbrev pub Delivered : ℕ → Option BatchRef → PortKey → List Port → List Port → Type 0
Delivered n b k ps qs =
    (r : Repository) → get_repository k ps ≡ some r → get_repository k qs ≡ some (add_times n b r)

deliver-Delivered :
    (b : Option BatchRef) (k t : PortKey) (ps : List Port)
    → NonNull ps
    → (qs : List Port) × (deliver b t ps ≡ some qs)
      × NonNull qs
      × Delivered (if same_key k t then 1 else 0) b k ps qs
unfolding deliver get_repository
deliver-Delivered b k t [] v = ([], refl, tt, λ r e. cc)
deliver-Delivered b k t (p ∷ ps) v = elim (Bool-cases (same_key p.key t)) [
  | inr other ↦
      let (qs, e, w, d) = deliver-Delivered b k t ps v.1 in
      (p ∷ qs, rw (other, deliver, e) refl, (v.0, w), λ r f. ground (arith, d r))
  | inl hit ↦ elim (Option-cases p.repository) [
    | inl null ↦ absurd (v.0 null)
    | inr (x, e) ↦ (
      record p { repository = some (add_data_batch b 0 x) } ∷ ps,
      rw (hit, deliver, e) refl,
      (λ z. cc, v.1),
      λ r f. ground arith,
    )
  ]
]

add_times-add :
    (m n : ℕ) (b : Option BatchRef) (r : Repository)
    → add_times n b (add_times m b r) ≡ add_times (m + n) b r
add_times-add zero n b r = let e : n ≡ 0 + n = omega arith in ap (λ i. add_times i b r) e
add_times-add (suc m) n b r =
    let e : suc (m + n) ≡ suc m + n = omega arith in
    add_times-add m n b (add_data_batch b 0 r) ∙ ap (λ i. add_times i b r) e

deliver_all-Delivered :
    (b : Option BatchRef) (k : PortKey) (ts : List PortKey) (ps : List Port)
    → NonNull ps
    → (qs : List Port) × (deliver_all b ts ps ≡ some qs) × Delivered (times k ts) b k ps qs
unfolding deliver_all
deliver_all-Delivered b k [] ps v = (ps, refl, λ r e. e)
deliver_all-Delivered b k (t ∷ ts) ps v =
    let (qs, e, w, d) = deliver-Delivered b k t ps v in
    let (os, e', d') = deliver_all-Delivered b k ts qs w in
    (
      os,
      rw (e, deliver_all) e',
      λ r f.
          d' _ (d r f) ∙ ap some (add_times-add (if same_key k t then 1 else 0) (times k ts) b r),
    )

-- Where no entry is a null repository, an addition goes through, and each repository is given the
-- batch, in its first partition, as often as its port is among the targets.
pub add_to_targets-add_times :
    (b : Option BatchRef) (k : PortKey) (targets : List PortKey) (m : RepositoryManager)
    (r : Repository)
    → NonNull m.repos
    → get_repository k m.repos ≡ some r
    → (m' : RepositoryManager) × (add_to_targets b targets m ≡ some m')
      × (get_repository k m'.repos ≡ some (add_times (times k targets) b r))
      × (m'.next_batch_id ≡ m.next_batch_id)
unfolding add_to_targets
add_to_targets-add_times b k targets m r v f =
    let (qs, e, d) = deliver_all-Delivered b k targets m.repos v in
    (record m { repos = qs }, rw (e, add_to_targets) refl, d r f, refl)

-- Batches that the report counts.
abbrev pub reported : List LeakedRepositoryInfo → ℕ
reported [] = 0
reported (l ∷ ls) = l.batch_count + reported ls

-- Batches that the repositories hold.
abbrev pub stock : List Port → ℕ
stock [] = 0
stock (p ∷ ps) = (elim p.repository [ none ↦ 0 | some r ↦ total_size r ]) + stock ps

-- Every entry of a report has a batch.
abbrev pub AllHold : List LeakedRepositoryInfo → Type 0
AllHold [] = Unit {0}
AllHold (l ∷ ls) = (0 < l.batch_count) × AllHold ls

all_empty-total_size-zero : (r : Repository) → all_empty r ≡ true → total_size r ≡ 0
unfolding all_empty total_size is_empty
all_empty-total_size-zero [] h = refl
all_empty-total_size-zero ([] ∷ r) h = ground (arith, all_empty-total_size-zero r)
all_empty-total_size-zero ((x ∷ xs) ∷ r) h = cc

all_empty-total_size-pos : (r : Repository) → all_empty r ≡ false → 0 < total_size r
unfolding all_empty total_size is_empty
all_empty-total_size-pos [] h = cc
all_empty-total_size-pos ([] ∷ r) h = ground (arith, all_empty-total_size-pos r)
all_empty-total_size-pos ((x ∷ xs) ∷ r) h = omega arith

leaks-reported : (ps : List Port) → (reported (leaks ps) ≡ stock ps) × AllHold (leaks ps)
unfolding leaks
leaks-reported [] = (refl, tt)
leaks-reported (p ∷ ps) = elim (Option-cases p.repository) [
  | inl null ↦ ground (arith, leaks-reported ps)
  | inr (r, e) ↦
      ground (arith, leaks-reported ps, all_empty-total_size-zero r, all_empty-total_size-pos r)
]

-- Clearing empties the map and goes on with the ids; its report lists repositories that hold
-- batches alone, and accounts for every batch that a repository held.
pub clear_all-reported :
    (m : RepositoryManager)
    → let (m', report) = clear_all_repositories m in
      (m' ≡ record m { repos = [] }) × (reported report ≡ stock m.repos) × AllHold report
unfolding clear_all_repositories
clear_all-reported m = (refl, (leaks-reported m.repos).0, (leaks-reported m.repos).1)
