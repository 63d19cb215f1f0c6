-- ===== src/StaticSet/Rounds.antt =====
-- What one round of an insertion thread does to the slots, and what the thread knows after it.
use cuda2rocm.Base.{
  ℕ, suc, ◌<◌, ◌≡◌, ◌≢◌, refl, sym, ◌∙◌, List, get_or, set, length, arith, length-set,
  get_or-set_self, get_or-set_ne,
}
use native.Mathlib.Decide.{ℕ_discrete, dec_lt}
use native.Mathlib.Nat.{mod-lt}
use cuda2rocm.StaticSet.{StaticSet, slot_index}
use cuda2rocm.StaticSet.Probing.{probed, Passed, Placed}
use cuda2rocm.StaticSet.Kernel.{Phase, probing, placed, dropped, exchange, round, advance}

-- As many slots as the capacity says, and at least one.
pub record IsShaped (s : StaticSet) : Type 0 where
  pub some_slots : 0 < s.capacity
  pub shape : length s.slots ≡ s.capacity

-- What the slots of `t` keep of those of `s`: an occupied slot is never written.
pub record Extends (s t : StaticSet) : Type 0 where
  pub capacity : t.capacity ≡ s.capacity
  pub empty_key : t.empty_key ≡ s.empty_key
  pub kept :
      (i : ℕ)
      → get_or s.slots i s.empty_key ≢ s.empty_key
      → get_or t.slots i s.empty_key ≡ get_or s.slots i s.empty_key

write-kept :
    (slots : List ℕ) (i key empty j : ℕ)
    → get_or slots i empty ≡ empty
    → get_or slots j empty ≢ empty
    → get_or (set slots i key) j empty ≡ get_or slots j empty
write-kept slots i key empty j e h = get_or-set_ne slots i j key empty (λ same. h (rw (← same) e))

module _ (hash : ℕ → ℕ) where
  slot_index-lt :
      (s : StaticSet) (key probe : ℕ)
      → IsShaped s
      → slot_index hash s.capacity key probe < length s.slots
  unfolding slot_index
  slot_index-lt s key probe v = rw v.shape (mod-lt _ v.some_slots)

  -- What a thread knows of the slots.
  abbrev pub Knows : StaticSet → ℕ → Phase → Type 0
  Knows s key (probing p) = Passed hash s key p
  Knows s key placed = Placed hash s key
  Knows s key dropped = Passed hash s key s.capacity

  probed-Extends :
      (s t : StaticSet) (key q : ℕ)
      → Extends s t
      → probed hash s key q ≢ s.empty_key
      → probed hash t key q ≡ probed hash s key q
  probed-Extends s t key q x h = rw (x.capacity, x.empty_key) (x.kept _ h)

  Passed-Extends :
      (s t : StaticSet) (key p : ℕ) → Extends s t → Passed hash s key p → Passed hash t key p
  Passed-Extends s t key p x pass q lt =
      let h = pass q lt in
      let e = probed-Extends s t key q x h.0 in
      (λ y. h.0 (sym e ∙ y ∙ x.empty_key), λ y. h.1 (sym e ∙ y))

  pub Placed-Extends :
      (s t : StaticSet) (key : ℕ)
      → key ≢ s.empty_key
      → Extends s t
      → Placed hash s key
      → Placed hash t key
  Placed-Extends s t key k x (p, lt, hit, pass) = (
    p,
    rw x.capacity lt,
    probed-Extends s t key p x (λ y. k (sym hit ∙ y)) ∙ hit,
    Passed-Extends s t key p x pass,
  )

  pub Knows-Extends :
      (s t : StaticSet) (key : ℕ) (ph : Phase)
      → key ≢ s.empty_key
      → Extends s t
      → Knows s key ph
      → Knows t key ph
  Knows-Extends s t key (probing p) k x w = Passed-Extends s t key p x w
  Knows-Extends s t key placed k x w = Placed-Extends s t key k x w
  Knows-Extends s t key dropped k x w =
      λ q lt. Passed-Extends s t key s.capacity x w q (omega (arith, x.capacity))

  -- The set after a round, the round's slots in place.
  abbrev pub after : StaticSet → List ℕ × Phase → StaticSet
  after s r = record s { slots = r.0 }

  pub same-Extends : (s : StaticSet) → Extends s s
  same-Extends s = record { capacity = refl; empty_key = refl; kept = λ i h. refl }

  Passed-suc :
      (s : StaticSet) (key p : ℕ)
      → Passed hash s key p
      → probed hash s key p ≢ s.empty_key
      → probed hash s key p ≢ key
      → Passed hash s key (suc p)
  Passed-suc s key p pass e k q lt = elim (ℕ_discrete q p) [
    | yes same ↦ rw same (e, k)
    | no other ↦ pass q (omega arith)
  ]

  -- A step of a thread: occupied slots stay, the shape stays, and the thread knows its next phase.
  abbrev pub Stepped : StaticSet → ℕ → List ℕ × Phase → Type 0
  Stepped s key r = Extends s (after s r) × IsShaped (after s r) × Knows (after s r) key r.1

  -- A round that finds its slot empty stores the key there.
  store-Stepped :
      (s : StaticSet) (key p : ℕ)
      → IsShaped s
      → p < s.capacity
      → Passed hash s key p
      → probed hash s key p ≡ s.empty_key
      → Stepped s key (set s.slots (slot_index hash s.capacity key p) key, placed)
  store-Stepped s key p v lt pass e =
      let i = slot_index hash s.capacity key p in
      let t : StaticSet = record s { slots = set s.slots i key } in
      let x : Extends s t = record {
        capacity = refl;
        empty_key = refl;
        kept = λ j h. write-kept s.slots i key s.empty_key j e h;
      } in
      (
        x,
        record { some_slots = v.some_slots; shape = length-set s.slots i key ∙ v.shape },
        (
          p,
          lt,
          get_or-set_self s.slots i key s.empty_key (slot_index-lt s key p v),
          Passed-Extends s t key p x pass,
        ),
      )

  pub round-Stepped :
      (s : StaticSet) (key p : ℕ)
      → IsShaped s
      → Passed hash s key p
      → Stepped s key (round hash s key p)
  unfolding round exchange
  round-Stepped s key p v pass = elim (dec_lt p s.capacity) [
    | no past ↦
        let eq : round hash s key p ≡ (s.slots, dropped) = ground arith in
        rw eq (same-Extends s, v, λ q lt. pass q (omega arith))
    | yes lt ↦ elim (ℕ_discrete (probed hash s key p) s.empty_key) [
      | yes e ↦
          let eq : round hash s key p
              ≡ (set s.slots (slot_index hash s.capacity key p) key, placed) =
            ground arith in
          rw eq (store-Stepped s key p v lt pass e)
      | no e ↦ elim (ℕ_discrete (probed hash s key p) key) [
        | yes hit ↦
            let eq : round hash s key p ≡ (s.slots, placed) = ground arith in
            rw eq (same-Extends s, v, (p, lt, hit, pass))
        | no miss ↦
            let eq : round hash s key p ≡ (s.slots, probing (suc p)) = ground arith in
            rw eq (same-Extends s, v, Passed-suc s key p pass e miss)
      ]
    ]
  ]

  pub advance-Stepped :
      (s : StaticSet) (key : ℕ) (ph : Phase)
      → IsShaped s
      → Knows s key ph
      → Stepped s key (advance hash s key ph)
  unfolding advance
  advance-Stepped s key (probing p) v w = round-Stepped s key p v w
  advance-Stepped s key placed v w = (same-Extends s, v, w)
  advance-Stepped s key dropped v w = (same-Extends s, v, w)
