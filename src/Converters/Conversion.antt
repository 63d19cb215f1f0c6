-- ===== src/Converters/Conversion.antt =====
-- When a conversion gives a representation of the type that is asked for.
use cuda2rocm.Base.{
  Error, no_converter, ap, ℕ, ◌≡◌, refl, ◌↔◌, Bool, true, Option, none, some, Result, ok, err,
  Bool-cases, inl, inr,
}
use cuda2rocm.Converters.{Converter, Registry, find, convert, cast_result, convert_to}

module _ {R : Type 0} (type_of : R → ℕ) (is_a : R → ℕ → Bool) where
  -- The converter of the two types gives `x`, which is of the target type.
  abbrev pub Gives : R → ℕ → Option ℕ → Registry R → R → Type 0
  Gives source target space r x =
      (f : Converter R) × (find R (record { src = type_of source; target = target }) r ≡ some f)
      × (f source space ≡ ok (some x))
      × (is_a x target ≡ true)

  value_or : R → Result R → R
  value_or d (ok y) = y
  value_or d (err e) = d

  failed : {x : R} {e : Error} → err e ≡ ok x → ⊥
  failed h = cc

  cast_result-ok :
      (target : ℕ) (c : Result (Option R)) (x : R)
      → cast_result R type_of is_a target c ≡ ok x
      → (c ≡ ok (some x)) × (is_a x target ≡ true)
  unfolding cast_result value_or
  cast_result-ok target (err e) x h = cc
  cast_result-ok target (ok none) x h = cc
  cast_result-ok target (ok (some y)) x h = elim (Bool-cases (is_a y target)) [
    | inl t ↦
        let same : ok y ≡ ok x = rw t at h in
        (ap (λ z. ok (some z)) (ap (value_or x) same), rw (ap (value_or x) same) at t)
    | inr t ↦ absurd (failed (rw t at h))
  ]

  found-Gives :
      (o : Option (Converter R)) (source : R) (target : ℕ) (space : Option ℕ) (x : R)
      → cast_result R type_of is_a target
          (elim o [ none ↦ err no_converter | some f ↦ f source space ])
        ≡ ok x
      → (f : Converter R) × (o ≡ some f) × (f source space ≡ ok (some x)) × (is_a x target ≡ true)
  unfolding cast_result value_or
  found-Gives none source target space x h = cc
  found-Gives (some f) source target space x h =
      let (e, t) = cast_result-ok target (f source space) x h in (f, refl, e, t)

  -- A conversion succeeds exactly where a converter is registered for the two types and returns a
  -- representation of the target type, which is the result.
  pub convert_to-Gives :
      (source : R) (target : ℕ) (space : Option ℕ) (r : Registry R) (x : R)
      → (convert_to R type_of is_a source target space r ≡ ok x) ↔ Gives source target space r x
  unfolding convert_to convert cast_result
  convert_to-Gives source target space r x = (
    found-Gives (find R (record { src = type_of source; target = target }) r) source target space x,
    λ (f, e, g, t). rw (convert_to, convert, e, g, cast_result, t) refl,
  )
