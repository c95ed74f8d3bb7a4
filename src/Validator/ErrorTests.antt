-- ===== src/Validator/ErrorTests.antt =====
-- The errors of a validation, and the fields that a rule finds.
use jorm.Base.{
  ℕ, ◌≡◌, refl, true, String, Option, none, some, [], ◌∷◌, to_lower, trim_space, decimal,
}
use jorm.Validator.Errors.{StructField, error, first_msg, validation, find_field}

counts-test :
    (error (("name", []) ∷ ("age", "too small" ∷ "odd" ∷ []) ∷ ("id", "taken" ∷ []) ∷ [])
      ≡ "age: too small (and 2 more errors)")
    × (first_msg (some (validation (("name", []) ∷ ("age", "too small" ∷ []) ∷ []))) ≡ "too small")
unfolding error first_msg decimal
counts-test = (refl, refl)

abbrev field : String → StructField ℕ
field tag = record { name = "Cost"; exported = true; tag = tag; value = 5 }

abbrev nowhere : String → Option ℕ
nowhere name = none

-- The column of a tag with `;` is not found, by which the generator separates.
tags-test :
    (find_field nowhere "price" (field "column:price, notnull" ∷ []) ≡ some 5)
    × (find_field nowhere "price" (field "column:price;notnull" ∷ []) ≡ none)
    × (find_field nowhere "cost" (field "column:price;notnull" ∷ []) ≡ some 5)
unfolding find_field to_lower trim_space
tags-test = (refl, refl, refl)
