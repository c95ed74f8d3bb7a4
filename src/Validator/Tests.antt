-- ===== src/Validator/Tests.antt =====
-- The validator on concrete values, and the theorems about it at inputs.
use jorm.Base.{
  decimal, ◌≡◌, ◌↔◌, refl, String, Option, none, some, List, [], ◌∷◌, All, Value, str, str_eq, int,
  pos, if◌then◌else◌,
}
use jorm.Validator.{Rule, required, min_len, validate, validate_rules}
use jorm.Validator.Rules.{email, uuid, no_html, among}
use jorm.Validator.Laws.{ObjectAccepts, validate_rules-ObjectAccepts}

abbrev find_field : String → Option Value
find_field name = if str_eq name "Name" then some (str "ann") else none

abbrev rules : List (String × List Rule)
rules = ("Name", required ∷ min_len 5 ∷ []) ∷ ("Missing", required ∷ []) ∷ []

collected : validate_rules find_field rules ≡ ("Name", "length must be at least 5" ∷ []) ∷ []
unfolding validate_rules required min_len decimal
collected = refl

validate_rules-ObjectAccepts_example :
    validate_rules find_field rules ≡ [] ↔ All (ObjectAccepts find_field) rules
validate_rules-ObjectAccepts_example = validate_rules-ObjectAccepts find_field rules

emails-test :
    (validate email (str "Ann.B+c@mail.example.org") ≡ none)
    × (validate email (str "ann@mail") ≡ some "invalid email format")
    × (validate email (str "ann@mail.museum") ≡ some "invalid email format")
    × (validate uuid (str "0123abcd-0123-0123-0123-0123456789aB") ≡ none)
    × (validate no_html (str "a < b > c") ≡ some "must not contain HTML tags")
    × (validate (among (str "a" ∷ int (pos 3) ∷ [])) (int (pos 3)) ≡ none)
unfolding validate email uuid no_html among
emails-test = (refl, refl, refl, refl, refl, refl)
