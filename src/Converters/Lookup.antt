-- ===== src/Converters/Lookup.antt =====
-- The registry as a map: what is found after a registration and after a removal.
use cuda2rocm.Base.{
  ◌≡◌, refl, sym, ap, ◌∙◌, Bool, true, false, Option, none, some, List, [], ◌∷◌, if◌then◌else◌,
  arith, Bool-cases, inl, inr,
}
use cuda2rocm.Converters.{
  Key, same_key, Converter, Registry, find, register_converter, unregister_converter,
}

same_key_sound : (a b : Key) → same_key a b ≡ true → a ≡ b
unfolding same_key
same_key_sound a b e = ground (arith, e)

-- Keys that are the same are so for every third key.
same_key_trans : (a b c : Key) → same_key a b ≡ true → same_key a c ≡ same_key b c
same_key_trans a b c e = ap (λ x. same_key x c) (same_key_sound a b e)

same_key_comm : (a b : Key) → same_key a b ≡ same_key b a
unfolding same_key
same_key_comm a b = ground arith

other_key : (a b c : Key) → same_key a b ≡ false → same_key a c ≡ true → same_key b c ≡ false
other_key a b c n t = elim (Bool-cases (same_key b c)) [
  | inr h ↦ h
  | inl h ↦ absurd (contrary (ap (same_key a) (same_key_sound b c h)) n t)
]
  where
    contrary : {x y : Bool} → x ≡ y → x ≡ false → y ≡ true → ⊥
    contrary e f t = cc

-- No key stands twice.
module _ {R : Type 0} where
  abbrev pub IsUnique : Registry R → Type 0
  IsUnique [] = Unit {0}
  IsUnique (e ∷ rest) = (find R e.0 rest ≡ none) × IsUnique rest

  -- What is found behind an entry.
  find-hit :
      (k' : Key) (e : Key × Converter R) (rest : Registry R)
      → same_key e.0 k' ≡ true
      → find R k' (e ∷ rest) ≡ some e.1
  unfolding find
  find-hit k' e rest t = rw t refl

  find-miss :
      (k' : Key) (e : Key × Converter R) (rest : Registry R)
      → same_key e.0 k' ≡ false
      → find R k' (e ∷ rest) ≡ find R k' rest
  unfolding find
  find-miss k' e rest t = rw t refl

  -- A registration sets the converter of its key and of no other.
  pub find-register :
      (k k' : Key) (f : Converter R) (r : Registry R)
      → find R k' (register_converter R k f r) ≡ (if same_key k k' then some f else find R k' r)
  unfolding register_converter find
  find-register k k' f [] = refl
  find-register k k' f (e ∷ rest) = elim (Bool-cases (same_key e.0 k)) [
    | inl s ↦ elim (Bool-cases (same_key k k')) [
      | inl t ↦ rw (register_converter, s, find, t) refl
      | inr t ↦
          rw (register_converter, s, find, t)
            (sym (find-miss k' e rest (same_key_trans e.0 k k' s ∙ t)))
    ]
    | inr s ↦ elim (Bool-cases (same_key e.0 k')) [
      | inl t ↦ rw (s, t, other_key e.0 k k' s t) refl
      | inr t ↦ rw (s, t) (find-register k k' f rest)
    ]
  ]

  -- A removal takes away the converter of its key and of no other.
  pub find-unregister :
      (k k' : Key) (r : Registry R)
      → IsUnique r
      → find R k' (unregister_converter R k r) ≡ (if same_key k k' then none else find R k' r)
  unfolding find unregister_converter
  find-unregister k k' [] u = elim (Bool-cases (same_key k k')) [
    | inl t ↦ rw t refl
    | inr t ↦ rw t refl
  ]
  find-unregister k k' (e ∷ rest) u = elim (Bool-cases (same_key e.0 k)) [
    | inl s ↦ elim (Bool-cases (same_key k k')) [
      | inl t ↦
          rw (s, t)
            (ap (λ x. find R x rest) (sym (same_key_sound k k' t) ∙ sym (same_key_sound e.0 k s))
              ∙ u.0)
      | inr t ↦ rw (s, t, same_key_trans e.0 k k' s ∙ t) refl
    ]
    | inr s ↦ elim (Bool-cases (same_key e.0 k')) [
      | inl t ↦ rw (s, t, other_key e.0 k k' s t) refl
      | inr t ↦ rw (s, t) (find-unregister k k' rest u.1)
    ]
  ]

  find-register_none :
      (k k' : Key) (f : Converter R) (r : Registry R)
      → same_key k k' ≡ false
      → find R k' r ≡ none
      → find R k' (register_converter R k f r) ≡ none
  find-register_none k k' f r n h = find-register k k' f r ∙ rw n h

  register-IsUnique :
      (k : Key) (f : Converter R) (r : Registry R)
      → IsUnique r
      → IsUnique (register_converter R k f r)
  unfolding register_converter find
  register-IsUnique k f [] u = (refl, tt)
  register-IsUnique k f (e ∷ rest) u = elim (Bool-cases (same_key e.0 k)) [
    | inl s ↦
        rw (register_converter, s)
          (ap (λ x. find R x rest) (sym (same_key_sound e.0 k s)) ∙ u.0, u.1)
    | inr s ↦
        rw (register_converter, s)
          (
            find-register_none k e.0 f rest (same_key_comm k e.0 ∙ s) u.0,
            register-IsUnique k f rest u.1,
          )
  ]

  find-unregister_none :
      (k k' : Key) (r : Registry R)
      → IsUnique r
      → find R k' r ≡ none
      → find R k' (unregister_converter R k r) ≡ none
  find-unregister_none k k' r u h = elim (Bool-cases (same_key k k')) [
    | inl t ↦ find-unregister k k' r u ∙ rw t refl
    | inr t ↦ find-unregister k k' r u ∙ rw t h
  ]

  unregister-IsUnique :
      (k : Key) (r : Registry R) → IsUnique r → IsUnique (unregister_converter R k r)
  unfolding unregister_converter
  unregister-IsUnique k [] u = tt
  unregister-IsUnique k (e ∷ rest) u = elim (Bool-cases (same_key e.0 k)) [
    | inl s ↦ rw (unregister_converter, s) u.1
    | inr s ↦
        rw (unregister_converter, s)
          (find-unregister_none k e.0 rest u.1 u.0, unregister-IsUnique k rest u.1)
  ]

-- A call that changes the registry.
pub data Call (R : Type 0) : Type 0 where
  registers : Key → Converter R → Call R
  unregisters : Key → Call R

module _ {R : Type 0} where
  abbrev pub history : List (Call R) → Registry R → Registry R
  history [] r = r
  history (registers k f ∷ calls) r = history calls (register_converter _ k f r)
  history (unregisters k ∷ calls) r = history calls (unregister_converter _ k r)

  -- What the calls make of the converter of a key.
  abbrev pub latest : Key → List (Call R) → Option (Converter R) → Option (Converter R)
  latest k [] found = found
  latest k (registers k' f ∷ calls) found = latest k calls (if same_key k' k then some f else found)
  latest k (unregisters k' ∷ calls) found = latest k calls (if same_key k' k then none else found)

  -- After any sequence of registrations and removals on a registry without a key twice, the
  -- converter that is found for a key is that of its last registration, none where it was removed
  -- since, and the one from before where neither named the key.
  pub find-history :
      (k : Key) (calls : List (Call R)) (r : Registry R)
      → IsUnique r
      → find R k (history calls r) ≡ latest k calls (find R k r)
  find-history k [] r u = refl
  find-history k (registers k' f ∷ calls) r u =
      find-history k calls _ (register-IsUnique k' f r u)
      ∙ ap (latest k calls) (find-register k' k f r)
  find-history k (unregisters k' ∷ calls) r u =
      find-history k calls _ (unregister-IsUnique k' r u)
      ∙ ap (latest k calls) (find-unregister k' k r u)
