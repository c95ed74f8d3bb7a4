-- ===== src/Validator.antt =====
-- validator/validator.go, and Required, MinLen and MaxLen of validator/rules.go, on values that are nil,
-- Booleans, integers and strings. What `findField` finds is a parameter.
pub mod Laws
pub mod Patterns
pub mod Rules
pub mod Errors
mod ErrorTests
mod Tests
use Prim.Native.Char.{Char}
use jorm.Base.{
  ℕ, zero, suc, ◌+◌, Bool, true, false, ◌&&◌, not, String, Option, none, some, List, [], ◌∷◌, ◌++◌,
  Value, null, bool, int, str, pos, negsuc, ltb, str_eq, code, if◌then◌else◌, ◌⧺◌, decimal,
}

-- `BaseRule`
pub record BaseRule : Type 0 where
  pub msg : String
  pub optional : Bool
  pub condition : Option (Value → Bool)

-- A rule: what it shares with all rules, and its test, which gives an error by default.
pub record Rule : Type 0 where
  pub base : BaseRule
  pub test : Value → Option String

unfoldable pub is_zero_value : Value → Bool
is_zero_value null = true
is_zero_value (bool b) = not b
is_zero_value (int (pos zero)) = true
is_zero_value (int _) = false
is_zero_value (str s) = str_eq s ""

unfoldable pub holds : Option (Value → Bool) → Value → Bool
holds none v = true
holds (some fn) v = fn v

unfoldable pub should_validate : BaseRule → Value → Bool
unfolding is_zero_value holds
should_validate r v =
    if not (holds r.condition v) then false else if r.optional then not (is_zero_value v) else true

unfoldable pub format_error : BaseRule → String → String
format_error r default_err = if str_eq r.msg "" then default_err else r.msg

unfoldable pub formatted : BaseRule → Option String → Option String
unfolding format_error
formatted r none = none
formatted r (some err) = some (format_error r err)

-- `Validate` of a rule.
unfoldable pub validate : Rule → Value → Option String
unfolding should_validate formatted
validate r v = if should_validate r.base v then formatted r.base (r.test v) else none

-- `Msg`, `Optional` and `When` return a changed copy.
unfoldable pub with_msg : String → Rule → Rule
with_msg msg r = record r { base = record r.base { msg = msg } }

unfoldable pub as_optional : Rule → Rule
as_optional r = record r { base = record r.base { optional = true } }

unfoldable pub only_when : (Value → Bool) → Rule → Rule
only_when fn r = record r { base = record r.base { condition = some fn } }

abbrev pub plain_base : BaseRule
plain_base = record { msg = ""; optional = false; condition = none }

unfoldable pub required : Rule
unfolding is_zero_value
required = record {
  base = plain_base;
  test = λ v. if is_zero_value v then some "is required" else none;
}

-- `len(s)`: the bytes of the text in UTF-8.
unfoldable pub char_bytes : Char → ℕ
char_bytes c =
    if ltb (code c) 128
    then 1
    else if ltb (code c) 2048
    then 2
    else if ltb (code c) 65536
    then 3
    else 4

unfoldable pub byte_length : String → ℕ
unfolding char_bytes
byte_length String.[] = 0
byte_length (String.◌∷◌ c s) = char_bytes c + byte_length s

-- For a minimum that is not negative.
unfoldable pub min_len : ℕ → Rule
unfolding byte_length
min_len min = record {
  base = plain_base;
  test = λ v. elim v [
    | str s ↦
        if ltb (byte_length s) min then some ("length must be at least " ⧺ decimal min) else none
    | _ ↦ none
  ];
}

unfoldable pub max_len : ℕ → Rule
unfolding byte_length
max_len max = record {
  base = plain_base;
  test = λ v. elim v [
    | str s ↦
        if ltb max (byte_length s) then some ("length must be at most " ⧺ decimal max) else none
    | _ ↦ none
  ];
}

-- The errors of the rules of one field, in their order.
unfoldable pub field_errors : List Rule → Value → List String
unfolding validate
field_errors [] v = []
field_errors (r ∷ rules) v =
    let rest = field_errors rules v in elim (validate r v) [ none ↦ rest | some err ↦ err ∷ rest ]

-- `errors[fieldName]` is written only where there is an error.
unfoldable pub with_errors :
    String → List String → List (String × List String) → List (String × List String)
with_errors name [] errors = errors
with_errors name (e ∷ es) errors = (name, e ∷ es) ∷ errors

-- A field that is not found is passed over.
unfoldable pub errors_of : Option Value → List Rule → List String
unfolding field_errors
errors_of none rules = []
errors_of (some v) rules = field_errors rules v

-- `Validate` of a map of rules on a struct, given by what `findField` finds under a name. The empty
-- list of errors is nil.
unfoldable pub validate_rules :
    (String → Option Value) → List (String × List Rule) → List (String × List String)
unfolding errors_of with_errors
validate_rules find_field [] = []
validate_rules find_field ((name, rules) ∷ rest) =
    with_errors name (errors_of (find_field name) rules) (validate_rules find_field rest)

-- `Check`: the first error.
unfoldable pub check : Value → List Rule → Option String
unfolding validate
check v [] = none
check v (r ∷ rules) =
    let rest = check v rules in elim (validate r v) [ none ↦ rest | some err ↦ some err ]
