-- ===== src/StaticSet/Narrow.antt =====
-- Keys whose stride is a multiple of the number of slots.
use cuda2rocm.Base.{
  ℕ, zero, suc, ◌+◌, ◌*◌, ◌/◌, ◌%◌, ◌^◌, ◌≤◌, ◌<◌, ◌≡◌, ◌≢◌, refl, ap, sym, ◌∙◌, List, [], ◌∷◌,
  get_or, replicate, word_mod, arith,
}
use native.Mathlib.Nat.{add-mul-mod_self_right, mod-eq_of_lt, mul_assoc, mul-le-mul_right}
use Prim.Native.Nat.{bit_or}
use cuda2rocm.StaticSet.{StaticSet, double_hashing, slot_index}
use cuda2rocm.StaticSet.Kernel.{
  Phase, probing, dropped, Thread, exchange, round, advance, turn, run, launch,
}

-- The odd stride of a key's probes.
abbrev pub stride : (ℕ → ℕ) → ℕ → ℕ
stride hash key = bit_or (hash key / 2 ^ 32) 1

module _ (hash : ℕ → ℕ) where
  slot_index-zero :
      (capacity key m p : ℕ)
      → stride hash key ≡ m * capacity
      → hash key + capacity * stride hash key < word_mod
      → p ≤ capacity
      → slot_index hash capacity key p ≡ hash key % capacity
  unfolding slot_index double_hashing
  slot_index-zero capacity key m p e fits le =
      let small : p * stride hash key ≤ capacity * stride hash key = mul-le-mul_right _ le in
      let bounded : hash key + p * stride hash key < word_mod = omega (arith, small, fits) in
      let split : p * stride hash key ≡ p * m * capacity =
        ap (λ t. p * t) e ∙ sym (mul_assoc p m capacity) in
      ap (λ x. x % capacity) (mod-eq_of_lt bounded)
      ∙ ap (λ t. (hash key + t) % capacity) split
      ∙ add-mul-mod_self_right (hash key) (p * m) capacity

  -- A key meets the same slot at all its probes, and that slot holds another key.
  pub record IsNarrow (s : StaticSet) (key : ℕ) : Type 0 where
    pub multiple : ℕ
    pub same_slot : stride hash key ≡ multiple * s.capacity
    pub no_wrap : hash key + s.capacity * stride hash key < word_mod
    pub taken : get_or s.slots (hash key % s.capacity) s.empty_key ≢ s.empty_key
    pub other : get_or s.slots (hash key % s.capacity) s.empty_key ≢ key

  round-past : (s : StaticSet) (key : ℕ) → round hash s key s.capacity ≡ (s.slots, dropped)
  unfolding round
  round-past s key = ground arith

  round-IsNarrow :
      (s : StaticSet) (key p : ℕ)
      → p < s.capacity
      → IsNarrow s key
      → round hash s key p ≡ (s.slots, probing (suc p))
  unfolding round exchange
  round-IsNarrow s key p lt c =
      let same = slot_index-zero s.capacity key c.multiple p c.same_slot c.no_wrap (omega arith) in
      rw same (ground (arith, c.taken, c.other))

  alone-IsNarrow :
      (n p : ℕ) (s : StaticSet) (key : ℕ)
      → IsNarrow s key
      → p + n ≡ s.capacity
      → run hash (replicate (suc n) 0) s (record { key = key; phase = probing p } ∷ [])
        ≡ (s, record { key = key; phase = dropped } ∷ [])
  unfolding run turn advance
  alone-IsNarrow zero p s key c at =
      let last : p ≡ s.capacity = omega arith in rw (last, round-past s key) refl
  alone-IsNarrow (suc n) p s key c at =
      let after : List ℕ × Phase → StaticSet × List Thread = λ r.
        run hash (replicate (suc n) 0) (record s { slots = r.0 })
          (record { key = key; phase = r.1 } ∷ []) in
      ap after (round-IsNarrow s key p (omega arith) c)
      ∙ alone-IsNarrow n (suc p) s key c (omega arith)

  -- Where the stride of a key is a multiple of the capacity, its probes do not wrap and its first
  -- slot holds another key, the insertion of that key alone ends with the key dropped and the set
  -- as it was, however many slots are empty.
  pub launch-IsNarrow :
      (s : StaticSet) (key : ℕ)
      → IsNarrow s key
      → run hash (replicate (suc s.capacity) 0) s (launch (key ∷ []))
        ≡ (s, record { key = key; phase = dropped } ∷ [])
  launch-IsNarrow s key c = alone-IsNarrow s.capacity 0 s key c (omega arith)
