-- ===== src/Converters.antt =====
-- cucascade-rocm/include/cucascade/data/representation_converter.hpp: the converters by the types of
-- their source and target. A type is the number of its `type_index`; representations, and what
-- `typeid` and `dynamic_cast` say of one, are parameters. A null pointer is none.
pub mod Lookup
pub mod Conversion
use cuda2rocm.Base.{
  ℕ, Bool, true, false, ◌&&◌, Option, none, some, List, [], ◌∷◌, ◌==◌, if◌then◌else◌, Result, ok,
  err, no_converter, wrong_type,
}

pub record Key : Type 0 where
  pub src : ℕ
  pub target : ℕ

unfoldable pub same_key : Key → Key → Bool
same_key a b = a.src == b.src && a.target == b.target

module _ (R : Type 0) where
  -- A converter on a representation and the space it goes to.
  abbrev pub Converter : Type 0
  Converter = R → Option ℕ → Result (Option R)

  abbrev pub Registry : Type 0
  Registry = List (Key × Converter)

  unfoldable pub find : Key → Registry → Option Converter
  unfolding same_key
  find k [] = none
  find k (e ∷ rest) = if same_key e.0 k then some e.1 else find k rest

  -- The one entry of a key is replaced.
  unfoldable pub register_converter : Key → Converter → Registry → Registry
  unfolding same_key
  register_converter k f [] = (k, f) ∷ []
  register_converter k f (e ∷ rest) =
      let later = register_converter k f rest in if same_key e.0 k then (k, f) ∷ rest else e ∷ later

  unfoldable pub unregister_converter : Key → Registry → Registry
  unfolding same_key
  unregister_converter k [] = []
  unregister_converter k (e ∷ rest) =
      let later = unregister_converter k rest in if same_key e.0 k then rest else e ∷ later

  pub clear : Registry → Registry
  clear r = []

  unfoldable pub has_converter : Key → Registry → Bool
  unfolding find
  has_converter k r = elim (find k r) [ none ↦ false | some f ↦ true ]

  module _ (type_of : R → ℕ) (is_a : R → ℕ → Bool) where
    unfoldable pub has_converter_for : R → ℕ → Registry → Bool
    unfolding has_converter
    has_converter_for source target r =
        has_converter (record { src = type_of source; target = target }) r

    -- `convert` to a `type_index`.
    unfoldable pub convert : R → ℕ → Option ℕ → Registry → Result (Option R)
    unfolding find
    convert source target space r =
        elim (find (record { src = type_of source; target = target }) r) [
          | none ↦ err no_converter
          | some f ↦ f source space
        ]

    -- `dynamic_cast` of the result, which is none for a null pointer.
    unfoldable pub cast_result : ℕ → Result (Option R) → Result R
    cast_result target (err e) = err e
    cast_result target (ok none) = err wrong_type
    cast_result target (ok (some x)) = if is_a x target then ok x else err wrong_type

    -- `convert<TargetType>`
    unfoldable pub convert_to : R → ℕ → Option ℕ → Registry → Result R
    unfolding convert cast_result
    convert_to source target space r = cast_result target (convert source target space r)
