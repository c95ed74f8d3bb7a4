-- ===== src/Validator/Errors.antt =====
-- `ValidationErrors`, `findField` and `Validate` of validator/validator.go. A map is a list of its
-- entries in the order in which they are visited, which Go leaves open. Texts are folded as ASCII.
use jorm.Base.{
  ℕ, ◌+◌, zero, suc, String, Bool, false, not, ◌||◌, ◌&&◌, Option, none, some, List, [], ◌∷◌, ◌==◌,
  str_eq, ◌⧺◌, decimal, to_lower, trim_space, length, code, if◌then◌else◌,
}
use jorm.Model.Tag.{split_by}

-- The state of the loop of `Error`: the first field with its error, and the count.
unfoldable pub count_errors :
    List (String × List String) → (String × String) × ℕ → (String × String) × ℕ
count_errors [] s = s
count_errors ((field, []) ∷ rest) s = count_errors rest s
count_errors ((field, e ∷ errs) ∷ rest) (seen, count) =
    count_errors rest (if count == 0 then (field, e) else seen, count + length (e ∷ errs))

abbrev pub error_text : (String × String) × ℕ → String
error_text ((field, e), zero) = field ⧺ (": " ⧺ (e ⧺ " (and -1 more errors)"))
error_text ((field, e), suc zero) = field ⧺ (": " ⧺ e)
error_text ((field, e), suc (suc n)) =
    field ⧺ (": " ⧺ (e ⧺ (" (and " ⧺ (decimal (suc n) ⧺ " more errors)"))))

-- `Error`; the error of no field is printed as `<nil>`.
unfoldable pub error : List (String × List String) → String
unfolding count_errors
error [] = ""
error (entry ∷ v) = error_text (count_errors (entry ∷ v) (("", "<nil>"), 0))

-- `First`
unfoldable pub first : List (String × List String) → Option String
first [] = none
first ((field, []) ∷ rest) = first rest
first ((field, e ∷ errs) ∷ rest) = some e

-- An error: that of a map of errors, or another with its message.
pub data AnyError : Type 0 where
  validation : List (String × List String) → AnyError
  plain : String → AnyError

abbrev pub or_blank : Option String → String
or_blank none = ""
or_blank (some e) = e

-- `FirstMsg`, the method and the function.
unfoldable pub first_msg : Option AnyError → String
unfolding first
first_msg none = ""
first_msg (some (validation v)) = or_blank (first v)
first_msg (some (plain e)) = e

-- `strings.EqualFold`
abbrev pub equal_fold : String → String → Bool
equal_fold s t = str_eq (to_lower s) (to_lower t)

-- What follows `column:`, if a text starts with it.
unfoldable pub column_in : String → Option String
column_in
      (String.◌∷◌ c (
        String.◌∷◌ o
          (String.◌∷◌ l (String.◌∷◌ u (String.◌∷◌ m (String.◌∷◌ n (String.◌∷◌ colon s))))))) =
    if code c == 99
      && code o == 111
      && code l == 108
      && code u == 117
      && code m == 109
      && code n == 110
      && code colon == 58
    then some s
    else none
column_in s = none

abbrev pub names_part : String → Option String → String → Bool
names_part name (some column) part = equal_fold column name
names_part name none part = equal_fold part name

-- The loop over the parts of a tag.
unfoldable pub names_tag : String → List String → Bool
unfolding column_in to_lower trim_space
names_tag name [] = false
names_tag name (p ∷ parts) =
    names_part name (column_in (trim_space p)) (trim_space p) || names_tag name parts

-- A field of a struct as `reflect` shows it.
pub record StructField (V : Type 0) : Type 0 where
  pub name : String
  pub exported : Bool
  pub tag : String
  pub value : V

unfoldable pub is_named : {V : Type 0} → String → StructField V → Bool
unfolding names_tag split_by to_lower
is_named name f =
    not (str_eq f.tag "") && (names_tag name (split_by (λ c. code c == 44) f.tag))
    || equal_fold f.name name

-- The loop of `findField` over the fields.
unfoldable pub find_by_tag : {V : Type 0} → String → List (StructField V) → Option V
unfolding is_named
find_by_tag name [] = none
find_by_tag name (f ∷ fields) =
    if f.exported && is_named name f then some f.value else find_by_tag name fields

abbrev pub or_by_tag : {V : Type 0} → Option V → String → List (StructField V) → Option V
or_by_tag (some v) name fields = some v
or_by_tag none name fields = find_by_tag name fields

-- `findField`, with what `FieldByName` finds.
unfoldable pub find_field :
    {V : Type 0} → (String → Option V) → String → List (StructField V) → Option V
unfolding find_by_tag
find_field field_by_name name fields = or_by_tag (field_by_name name) name fields

-- `Validate`: the first error of the validators.
unfoldable pub validate_all : {V E : Type 0} → List (V → Option E) → V → Option E
validate_all [] value = none
validate_all (v ∷ more) value = elim (v value) [ some e ↦ some e | none ↦ validate_all more value ]
