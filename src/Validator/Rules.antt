-- ===== src/Validator/Rules.antt =====
-- The other rules of validator/rules.go. Floating-point numbers, and what the standard library reads as a
-- URI, an address, JSON or a time, are parameters.
use jorm.Base.{
  ℤ, pos, negsuc, Bool, true, false, not, ◌||◌, ◌==◌, String, none, some, List, [], ◌∷◌, Value,
  null, bool, int, str, str_eq, contains, to_lower, ◌⧺◌, if◌then◌else◌,
}
use jorm.Validator.{Rule, plain_base}
use jorm.Validator.Patterns.{
  matches, numeric_regex, alpha_regex, alpha_num_regex, mobile_regex, uuid_regex, email_regex,
  html_regex,
}

-- A rule on strings; any other value is an error too.
unfoldable pub text_rule : String → (String → Bool) → Rule
text_rule err accepts = record {
  base = plain_base;
  test = λ v. elim v [ str s ↦ if accepts s then none else some err | _ ↦ some err ];
}

unfoldable pub email : Rule
unfolding text_rule matches email_regex to_lower
email = text_rule "invalid email format" λ s. matches email_regex (to_lower s)

unfoldable pub mobile : Rule
unfolding text_rule matches mobile_regex
mobile = text_rule "invalid mobile format" (matches mobile_regex)

unfoldable pub uuid : Rule
unfolding text_rule matches uuid_regex
uuid = text_rule "invalid UUID format" (matches uuid_regex)

unfoldable pub numeric : Rule
unfolding text_rule matches
numeric = text_rule "must be numeric" (matches numeric_regex)

unfoldable pub alpha : Rule
unfolding text_rule matches
alpha = text_rule "must be alpha" (matches alpha_regex)

unfoldable pub alpha_numeric : Rule
unfolding text_rule matches
alpha_numeric = text_rule "must be alphanumeric" (matches alpha_num_regex)

unfoldable pub no_html : Rule
unfolding text_rule matches
no_html = text_rule "must not contain HTML tags" λ s. not (matches html_regex s)

unfoldable pub contains_text : String → Rule
unfolding text_rule contains
contains_text substr = text_rule ("must contain " ⧺ substr) λ s. contains s substr

unfoldable pub excludes : String → Rule
unfolding text_rule contains
excludes substr = text_rule ("must not contain " ⧺ substr) λ s. not (contains s substr)

-- `Regexp`, by what its pattern matches somewhere in a text.
unfoldable pub regexp : (String → Bool) → Rule
unfolding text_rule
regexp match_string = text_rule "does not match pattern" match_string

-- `url.ParseRequestURI`, `net.ParseIP`, `json.Valid` and `time.Parse` accept a text.
unfoldable pub url : (String → Bool) → Rule
unfolding text_rule
url is_request_uri = text_rule "invalid URL format" is_request_uri

unfoldable pub ip : (String → Bool) → Rule
unfolding text_rule
ip is_ip = text_rule "invalid IP format" is_ip

unfoldable pub json : (String → Bool) → Rule
unfolding text_rule
json is_json = text_rule "invalid JSON format" is_json

unfoldable pub datetime : (String → String → Bool) → String → Rule
datetime is_time format = record {
  base = plain_base;
  test = λ v. elim v [
    | str s ↦
        if is_time format s then none else some ("invalid datetime format, expected " ⧺ format)
    | _ ↦ some "invalid datetime format"
  ];
}

unfoldable pub int_eq : ℤ → ℤ → Bool
int_eq (pos m) (pos n) = m == n
int_eq (negsuc m) (negsuc n) = m == n
int_eq _ _ = false

-- `==` of two values of type `any`.
unfoldable pub value_eq : Value → Value → Bool
unfolding int_eq
value_eq null null = true
value_eq (bool true) (bool b) = b
value_eq (bool false) (bool b) = not b
value_eq (int m) (int n) = int_eq m n
value_eq (str s) (str t) = str_eq s t
value_eq _ _ = false

unfoldable pub is_among : List Value → Value → Bool
unfolding value_eq
is_among [] v = false
is_among (a ∷ allowed) v = value_eq a v || is_among allowed v

-- `In`
unfoldable pub among : List Value → Rule
unfolding is_among
among values = record {
  base = plain_base;
  test = λ v. if is_among values v then none else some "value is not in the allowed list";
}

-- `Range`, over the numbers `F`: `less` is `<` on them, `float_of` is the conversion of an integer, and
-- `between` the text of the error. A value that is no number counts as 0.
module _ {F : Type 0} (less : F → F → Bool) (float_of : ℤ → F) where
  unfoldable pub reflect_to_float : Value → F
  reflect_to_float (int n) = float_of n
  reflect_to_float v = float_of (pos 0)

  unfoldable pub range_of : (F → F → String) → F → F → Rule
  unfolding reflect_to_float
  range_of between min max = record {
    base = plain_base;
    test = λ v.
        let val = reflect_to_float v in
        if less val min || less max val then some (between min max) else none;
  }
