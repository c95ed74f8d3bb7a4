-- ===== src/Validator/Laws.antt =====
-- What the validator accepts.
use jorm.Base.{
  ◌≡◌, ◌↔◌, refl, sym, ap, ◌∙◌, Bool, true, false, String, Option, none, some, List, [], ◌∷◌, All,
  arith, Value, Option-cases, inl, inr,
}
use jorm.Validator.{
  Rule, is_zero_value, holds, should_validate, formatted, validate, with_msg, as_optional,
  only_when, field_errors, with_errors, errors_of, validate_rules, check,
}

-- The rule has no error for the value.
unfoldable pub Accepts : Value → Rule → Type 0
Accepts v r = validate r v ≡ none

field_errors-Accepts :
    (rules : List Rule) (v : Value) → All (Accepts v) rules → field_errors rules v ≡ []
unfolding field_errors Accepts
field_errors-Accepts [] v h = refl
field_errors-Accepts (r ∷ rules) v (h, hs) = rw (h, field_errors) (field_errors-Accepts rules v hs)

Accepts-field_errors :
    (rules : List Rule) (v : Value) → field_errors rules v ≡ [] → All (Accepts v) rules
unfolding field_errors Accepts
Accepts-field_errors [] v h = tt
Accepts-field_errors (r ∷ rules) v h = elim (Option-cases (validate r v)) [
  | inl ok ↦ (ok, Accepts-field_errors rules v (ground (arith, h, ok)))
  | inr (e, bad) ↦ ground (arith, h, bad)
]

-- A field that is not there is accepted.
unfoldable pub ValueAccepts : Option Value → List Rule → Type 0
unfolding Accepts
ValueAccepts none rules = Unit {0}
ValueAccepts (some v) rules = All (Accepts v) rules

errors_of-ValueAccepts :
    (o : Option Value) (rules : List Rule) → errors_of o rules ≡ [] ↔ ValueAccepts o rules
unfolding errors_of ValueAccepts
errors_of-ValueAccepts none rules = ((λ h. tt), (λ h. refl))
errors_of-ValueAccepts (some v) rules = (Accepts-field_errors rules v, field_errors-Accepts rules v)

with_errors-nil :
    (name : String) (es : List String) (errors : List (String × List String))
    → with_errors name es errors ≡ []
    → (es ≡ []) × (errors ≡ [])
unfolding with_errors
with_errors-nil name [] errors h = (refl, h)
with_errors-nil name (e ∷ es) errors h = ground (arith, h)

-- What a struct must be for the rules: every rule accepts the value of its field.
unfoldable pub ObjectAccepts : (String → Option Value) → String × List Rule → Type 0
unfolding ValueAccepts
ObjectAccepts find_field (name, rules) = ValueAccepts (find_field name) rules

-- `Validate` of a map of rules returns nil exactly when every rule of every field that the struct has
-- accepts the value of the field.
pub validate_rules-ObjectAccepts :
    (find_field : String → Option Value) (rules : List (String × List Rule))
    → validate_rules find_field rules ≡ [] ↔ All (ObjectAccepts find_field) rules
unfolding validate_rules ObjectAccepts
validate_rules-ObjectAccepts find_field [] = ((λ h. tt), (λ h. refl))
validate_rules-ObjectAccepts find_field ((name, rs) ∷ rules) =
    let ih = validate_rules-ObjectAccepts find_field rules in
    let here = errors_of-ValueAccepts (find_field name) rs in
    (
      (λ h.
          let (own, others) =
            with_errors-nil name (errors_of (find_field name) rs) (validate_rules find_field rules)
              h in
          (here.0 own, ih.0 others)),
      (λ h.
          ap (λ es. with_errors name es (validate_rules find_field rules)) (here.1 h.0)
          ∙ ap (with_errors name []) (ih.1 h.1)
          ∙ unfold with_errors in refl),
    )

-- For every rule and value: `Optional` accepts the zero values and is the rule itself on the others,
-- `When` accepts where its condition fails, and `Msg` changes what an error says but not whether
-- there is one.
pub validate-modifiers :
    (r : Rule) (v : Value) (fn : Value → Bool) (msg : String)
    → (is_zero_value v ≡ true → validate (as_optional r) v ≡ none)
      × (is_zero_value v ≡ false
          → validate (as_optional r) v
            ≡ validate (record r { base = record r.base { optional = false } }) v)
      × (fn v ≡ false → validate (only_when fn r) v ≡ none)
      × (validate (with_msg msg r) v ≡ none ↔ validate r v ≡ none)
unfolding validate should_validate formatted as_optional only_when with_msg holds
validate-modifiers r v fn msg = (
  (λ h. ground (arith, h)),
  (λ h. ground (arith, h)),
  (λ h. ground (arith, h)),
  ((λ h. ground (arith, h)), (λ h. ground (arith, h))),
)

unfoldable pub first : List String → Option String
first [] = none
first (err ∷ errs) = some err

check-first : (v : Value) (rules : List Rule) → check v rules ≡ first (field_errors rules v)
unfolding check field_errors first
check-first v [] = refl
check-first v (r ∷ rules) = ground (arith, check-first v rules)

first-none : (errs : List String) → first errs ≡ none → errs ≡ []
unfolding first
first-none [] h = refl
first-none (e ∷ errs) h = ground (arith, h)

-- The error of `Check` is the first of those that `Validate` collects for a field with the same value
-- and rules, and it is nil exactly when every rule accepts the value.
pub check-Accepts :
    (v : Value) (rules : List Rule)
    → (check v rules ≡ first (field_errors rules v))
      × (check v rules ≡ none ↔ All (Accepts v) rules)
check-Accepts v rules = (
  check-first v rules,
  (
    (λ h.
        Accepts-field_errors rules v
          (first-none (field_errors rules v) (sym (check-first v rules) ∙ h))),
    (λ h. check-first v rules ∙ ap first (field_errors-Accepts rules v h) ∙ unfold first in refl),
  ),
)
