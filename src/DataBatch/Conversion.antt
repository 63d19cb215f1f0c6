-- ===== src/DataBatch/Conversion.antt =====
-- Batches that are made through the converter registry.
use cuda2rocm.Base.{ℕ, ◌≡◌, refl, sym, ap, ◌∙◌, ◌↔◌, Bool, Option, some, Result, ok, err}
use cuda2rocm.Converters.{Registry, convert_to}
use cuda2rocm.Converters.Conversion.{Gives, convert_to-Gives}
use cuda2rocm.DataBatch.{DataBatch, make_batch, batch_on, clone_to}

module _ (type_of : ℕ → ℕ) (is_a : ℕ → ℕ → Bool) where
  batch_on-ok :
      (id : ℕ) (space : Option ℕ) (r : Result ℕ) (b : DataBatch)
      → batch_on id space r ≡ ok b
      → (d : ℕ) × (r ≡ ok d) × (b ≡ make_batch id (some d) space)
  batch_on-ok id space (err e) b h = cc
  batch_on-ok id space (ok d) b h = (d, refl, sym (ap (value_or b) h))
    where
      value_or : DataBatch → Result DataBatch → DataBatch
      value_or x (ok y) = y
      value_or x (err e) = x

  -- Cloning a view to another representation through the registry gives a batch exactly where a
  -- converter is registered for the two types and returns a representation of the target type; the
  -- batch is then a new one on that representation.
  pub clone_to-Gives :
      (target : ℕ) (r : Registry ℕ) (id data_ref batch_id : ℕ) (space source_space : Option ℕ)
      (b : DataBatch)
      → (clone_to
            (λ d t. convert_to ℕ type_of is_a d target t r)
            id
            space
            (record { data_ref = some data_ref; space = source_space; batch_id = batch_id })
          ≡ ok b)
        ↔ ((x : ℕ) × Gives type_of is_a data_ref target space r x
            × (b ≡ make_batch id (some x) space))
  unfolding clone_to
  clone_to-Gives target r id data_ref batch_id space source_space b =
      let c = convert_to ℕ type_of is_a data_ref target space r in
      (
        λ h.
            let (x, e, same) = batch_on-ok id space c b h in
            (x, (convert_to-Gives type_of is_a data_ref target space r x).0 e, same),
        λ (x, g, same).
            ap (batch_on id space) ((convert_to-Gives type_of is_a data_ref target space r x).1 g)
            ∙ ap ok (sym same),
      )
