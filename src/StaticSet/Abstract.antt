-- ===== src/StaticSet/Abstract.antt =====
-- The hash set against a set of keys: a launch adds its keys, and a probe tests for membership.
use cuda2rocm.Base.{
  Among, ℕ, zero, suc, ◌+◌, ◌≤◌, ◌<◌, ◌^◌, ◌≡◌, ◌≢◌, ◌↔◌, ◌⊎◌, inl, inr, refl, sym, ◌∙◌, true, List,
  [], ◌∷◌, length, get_or, get_or-replicate, length-replicate, replicate, arith, turns,
}
use cuda2rocm.StaticSet.{StaticSet, contains}
use cuda2rocm.StaticSet.Probing.{Placed, contains-Placed, contains-true}
use cuda2rocm.StaticSet.Kernel.{Phase, probing, placed, dropped, Thread, turn, run, launch}
use cuda2rocm.StaticSet.Rounds.{IsShaped, Knows, Placed-Extends}
use cuda2rocm.StaticSet.Concurrent.{NonEmpty, AllKnow, AllKnow-launch, run-AllKnow}
use cuda2rocm.StaticSet.Progress.{AllKeys, rounds_left, rounds_left_at, run-rounds_left, run-All}
use cuda2rocm.StaticSet.Occupied.{
  occupied, unplaced, pending, pending-launch, run-occupied, Passed-occupied,
}

-- Each of the first `n` threads has one turn more than there are slots.
abbrev pub IsFair : ℕ → ℕ → List ℕ → Type 0
IsFair capacity n schedule = (i : ℕ) → i < n → suc capacity ≤ turns i schedule

abbrev keys_of : List Thread → List ℕ
keys_of [] = []
keys_of (t ∷ ts) = t.key ∷ keys_of ts

keys_of-launch : (keys : List ℕ) → keys_of (launch keys) ≡ keys
keys_of-launch [] = refl
keys_of-launch (k ∷ keys) = rw (keys_of-launch keys) refl

Among-launch :
    (P : ℕ → Type 0) (keys : List ℕ) → ((x : ℕ) → Among x keys → P x) → AllKeys P (launch keys)
Among-launch P [] h = tt
Among-launch P (k ∷ keys) h = (h k (inl refl), Among-launch P keys (λ x m. h x (inr m)))

pub rounds_left_at-launch :
    (capacity i : ℕ) (keys schedule : List ℕ)
    → IsFair capacity (length keys) schedule
    → rounds_left_at capacity i (launch keys) ≤ turns i schedule
rounds_left_at-launch capacity i keys schedule fair = from i keys (fair i)
  where
    from :
        (j : ℕ) (ks : List ℕ)
        → (j < length ks → suc capacity ≤ turns i schedule)
        → rounds_left_at capacity j (launch ks) ≤ turns i schedule
    from j [] h = omega arith
    from zero (k ∷ ks) h = omega (arith, h (omega arith))
    from (suc j) (k ∷ ks) h = from j ks (λ lt. h (omega arith))

NonEmpty-Among :
    (s : StaticSet) (keys : List ℕ) → NonEmpty s keys → (x : ℕ) → Among x keys → x ≢ s.empty_key
NonEmpty-Among s [] n x m = absurd m
NonEmpty-Among s (k ∷ keys) n x (inl e) = rw e n.0
NonEmpty-Among s (k ∷ keys) n x (inr m) = NonEmpty-Among s keys n.1 x m

module _ (hash : ℕ → ℕ) where
  turn-keys_of :
      (i : ℕ) (s : StaticSet) (ts : List Thread) → keys_of (turn hash i s ts).1 ≡ keys_of ts
  unfolding turn
  turn-keys_of i s [] = refl
  turn-keys_of zero s (t ∷ ts) = refl
  turn-keys_of (suc i) s (t ∷ ts) = rw (turn-keys_of i s ts) refl

  run-keys_of :
      (schedule : List ℕ) (s : StaticSet) (ts : List Thread)
      → keys_of (run hash schedule s ts).1 ≡ keys_of ts
  unfolding run
  run-keys_of [] s ts = refl
  run-keys_of (i ∷ schedule) s ts = run-keys_of schedule _ _ ∙ turn-keys_of i s ts

  -- A thread that has returned, in a set with a slot for it, was not dropped.
  returned-Placed :
      (k : ℕ) (s : StaticSet) (key : ℕ) (ph : Phase)
      → k ≤ 64
      → s.capacity ≡ 2 ^ k
      → IsShaped s
      → occupied s.empty_key s.slots + unplaced ph ≤ s.capacity
      → rounds_left s.capacity ph ≡ 0
      → Knows hash s key ph
      → Placed hash s key
  returned-Placed k s key (probing p) fits pow v room done w = absurd (omega arith)
  returned-Placed k s key placed fits pow v room done w = w
  returned-Placed k s key dropped fits pow v room done w =
      absurd (omega (arith, Passed-occupied hash k s key fits pow v w))

  all_returned-Placed :
      (k : ℕ) (s : StaticSet) (ts : List Thread)
      → k ≤ 64
      → s.capacity ≡ 2 ^ k
      → IsShaped s
      → occupied s.empty_key s.slots + pending ts ≤ s.capacity
      → ((i : ℕ) → rounds_left_at s.capacity i ts ≡ 0)
      → AllKnow hash s ts
      → (x : ℕ) → Among x (keys_of ts)
      → Placed hash s x
  all_returned-Placed k s [] fits pow v room done w x m = absurd m
  all_returned-Placed k s (t ∷ ts) fits pow v room done w x (inr m) =
      all_returned-Placed k s ts fits pow v (omega arith) (λ i. done (suc i)) w.2 x m
  all_returned-Placed k s (t ∷ ts) fits pow v room done w x (inl e) =
      rw e (returned-Placed k s t.key t.phase fits pow v (omega arith) (done 0) w.1)

  -- The set holds the keys of `M`, at the ends of their probe sequences, and no others.
  pub record Represents (s : StaticSet) (M : ℕ → Type 0) : Type 0 where
    pub shaped : IsShaped s
    pub sound :
        (i : ℕ) → (get_or s.slots i s.empty_key ≡ s.empty_key) ⊎ M (get_or s.slots i s.empty_key)
    pub complete : (x : ℕ) → M x → (x ≢ s.empty_key) × Placed hash s x

  -- A set of a positive number of empty slots holds no key.
  pub replicate-Represents :
      (capacity empty : ℕ)
      → 0 < capacity
      → Represents
          (record { slots = replicate capacity empty; capacity = capacity; empty_key = empty })
          (λ x. ⊥)
  replicate-Represents capacity empty pos = record {
    shaped = record { some_slots = pos; shape = length-replicate capacity empty };
    sound = λ i. inl (get_or-replicate capacity i empty);
    complete = λ x m. absurd m;
  }

  -- On a slot table that holds a set of keys, a probe with a key other than the empty one answers
  -- true exactly for the members of the set.
  pub contains-Represents :
      (s : StaticSet) (M : ℕ → Type 0) (x : ℕ)
      → Represents s M
      → x ≢ s.empty_key
      → (contains hash s x ≡ true) ↔ M x
  contains-Represents s M x r ne = (
    λ hit.
        let (i, e) = contains-true hash s x hit in
        elim (r.sound i) [ inl none_there ↦ absurd (ne (sym e ∙ none_there)) | inr m ↦ rw e at m ],
    λ m. contains-Placed hash s x (r.complete x m).1,
  )

  -- On a set of 2 ^ k slots, k at most 64, that holds a set of keys, with an empty slot for each
  -- key of the launch, none of which is the empty key: under every schedule that gives each thread
  -- one turn more than there are slots, the launch leaves a set that holds the old keys and its own
  -- and no others, with at most one slot more filled for each of its keys.
  pub run-Represents :
      (k : ℕ) (schedule : List ℕ) (s : StaticSet) (keys : List ℕ) (M : ℕ → Type 0)
      → k ≤ 64
      → s.capacity ≡ 2 ^ k
      → NonEmpty s keys
      → occupied s.empty_key s.slots + length keys ≤ s.capacity
      → IsFair s.capacity (length keys) schedule
      → Represents s M
      → Represents (run hash schedule s (launch keys)).0 (λ x. M x ⊎ Among x keys)
        × ((run hash schedule s (launch keys)).0.capacity ≡ s.capacity)
        × (occupied s.empty_key (run hash schedule s (launch keys)).0.slots
            ≤ occupied s.empty_key s.slots + length keys)
  run-Represents k schedule s keys M fits pow n room fair r =
      let (ext, v, w) =
        run-AllKnow hash schedule s (launch keys) r.shaped (AllKnow-launch hash s keys n) in
      let s' = (run hash schedule s (launch keys)).0 in
      let ts = (run hash schedule s (launch keys)).1 in
      let done : (i : ℕ) → rounds_left_at s'.capacity i ts ≡ 0 = λ i. rw ext.capacity (
        omega (
          arith,
          run-rounds_left hash schedule i s (launch keys),
          rounds_left_at-launch s.capacity i keys schedule fair,
        )) in
      let full : occupied s'.empty_key s'.slots + pending ts ≤ s'.capacity =
        rw (ext.capacity, ext.empty_key)
          (omega (arith, room, run-occupied hash schedule s (launch keys), pending-launch keys)) in
      let filled : occupied s.empty_key s'.slots ≤ occupied s.empty_key s.slots + length keys =
        omega (arith, run-occupied hash schedule s (launch keys), pending-launch keys) in
      (
        record {
          shaped = v;
          sound =
              run-All hash (λ x. (x ≡ s'.empty_key) ⊎ (M x ⊎ Among x keys)) schedule s (launch keys)
                (Among-launch _ keys (λ x m. inr (inr m)))
                (λ i. rw ext.empty_key (elim (r.sound i) [ inl e ↦ inl e | inr m ↦ inr (inl m) ]));
          complete = λ x m. elim m [
            | inl m ↦
                let (ne, pl) = r.complete x m in
                (rw ext.empty_key ne, Placed-Extends hash s s' x ne ext pl)
            | inr m ↦ (
              rw ext.empty_key (NonEmpty-Among s keys n x m),
              all_returned-Placed k s' ts fits (ext.capacity ∙ pow) v full done w x
                  (rw (run-keys_of schedule s (launch keys), keys_of-launch keys) m),
            )
          ];
        },
        ext.capacity,
        filled,
      )
