-- ===== src/Validator/Patterns.antt =====
-- The regular expressions of validator/rules.go, and how the package `regexp` reads them.
use Prim.Native.Char.{Char, code}
use jorm.Base.{
  ℕ, zero, suc, ◌≡◌, refl, ap, ◌∙◌, Bool, true, false, ◌&&◌, ◌||◌, not, String, arith, leb, ◌==◌,
  Bool-cases, inl, inr, if◌then◌else◌,
}

-- An expression that matches a whole text; `one` is a class of characters.
pub data Regex : Type 0 where
  never : Regex
  empty : Regex
  one : (Char → Bool) → Regex
  seq : Regex → Regex → Regex
  alt : Regex → Regex → Regex
  many : Regex → Regex

-- Whether the empty text matches.
unfoldable pub nullable : Regex → Bool
nullable never = false
nullable empty = true
nullable (one test) = false
nullable (seq a b) = nullable a && nullable b
nullable (alt a b) = nullable a || nullable b
nullable (many a) = true

-- What must match after a character.
unfoldable pub after_char : Char → Regex → Regex
unfolding nullable
after_char c never = never
after_char c empty = never
after_char c (one test) = if test c then empty else never
after_char c (seq a b) =
    let here = seq (after_char c a) b in
    let skipped = after_char c b in if nullable a then alt here skipped else here
after_char c (alt a b) = alt (after_char c a) (after_char c b)
after_char c (many a) = seq (after_char c a) (many a)

unfoldable pub matches : Regex → String → Bool
unfolding nullable after_char
matches r String.[] = nullable r
matches r (String.◌∷◌ c s) = matches (after_char c r) s

-- `r+`, `r{n}` and `r{m,m+n}`
abbrev pub some_of : Regex → Regex
some_of r = seq r (many r)

unfoldable pub times : ℕ → Regex → Regex
times zero r = empty
times (suc n) r = seq r (times n r)

unfoldable pub up_to : ℕ → Regex → Regex
up_to zero r = empty
up_to (suc n) r = alt empty (seq r (up_to n r))

abbrev pub in_range : ℕ → ℕ → Char → Bool
in_range a b c = leb a (code c) && leb (code c) b

abbrev pub is_char : ℕ → Char → Bool
is_char a c = code c == a

abbrev pub is_digit : Char → Bool
is_digit = in_range 48 57

abbrev pub is_small : Char → Bool
is_small = in_range 97 122

abbrev pub is_letter : Char → Bool
is_letter c = is_small c || in_range 65 90 c

abbrev pub is_hex : Char → Bool
is_hex c = is_digit c || in_range 97 102 c || in_range 65 70 c

-- `numericRegex`, `alphaRegex`, `alphaNumRegex`
abbrev pub numeric_regex : Regex
numeric_regex = some_of (one is_digit)

abbrev pub alpha_regex : Regex
alpha_regex = some_of (one is_letter)

abbrev pub alpha_num_regex : Regex
alpha_num_regex = some_of (one λ c. is_letter c || is_digit c)

-- `mobileRegex`
unfoldable pub mobile_regex : Regex
unfolding times
mobile_regex = seq (one (is_char 49)) (seq (one (in_range 51 57)) (times 9 (one is_digit)))

-- `uuidRegex`
unfoldable pub hex_then : ℕ → Regex → Regex
unfolding times
hex_then n rest = seq (times n (one is_hex)) (seq (one (is_char 45)) rest)

unfoldable pub uuid_regex : Regex
unfolding hex_then times
uuid_regex = hex_then 8 (hex_then 4 (hex_then 4 (hex_then 4 (times 12 (one is_hex)))))

-- `emailRegex`
abbrev pub is_local : Char → Bool
is_local c =
    is_small c
    || is_digit c
    || is_char 46 c
    || is_char 95 c
    || is_char 37 c
    || is_char 43 c
    || is_char 45 c

abbrev pub is_domain : Char → Bool
is_domain c = is_small c || is_digit c || is_char 46 c || is_char 45 c

unfoldable pub email_regex : Regex
unfolding times up_to
email_regex = seq (some_of (one is_local)) (
    seq (one (is_char 64)) (
      seq (some_of (one is_domain))
        (seq (one (is_char 46)) (seq (times 2 (one is_small)) (up_to 2 (one is_small))))))

-- `htmlRegex`, which is searched for anywhere in the text.
abbrev pub html_regex : Regex
html_regex = seq (many (one λ c. true)) (
    seq (one (is_char 60))
      (seq (many (one λ c. not (is_char 62 c))) (seq (one (is_char 62)) (many (one λ c. true)))))

matches-never : (r : Regex) (s : String) → matches (seq never r) s ≡ false
unfolding matches nullable after_char
matches-never r String.[] = refl
matches-never r (String.◌∷◌ c s) = matches-never r s

matches-alt : (a b : Regex) (s : String) → matches (alt a b) s ≡ (matches a s || matches b s)
unfolding matches nullable after_char
matches-alt a b String.[] = refl
matches-alt a b (String.◌∷◌ c s) = matches-alt (after_char c a) (after_char c b) s

-- Every character of the text.
unfoldable pub every : (Char → Bool) → String → Bool
every test String.[] = true
every test (String.◌∷◌ c s) = test c && every test s

matches-empty_seq : (r : Regex) (s : String) → matches (seq empty r) s ≡ matches r s
unfolding matches nullable after_char
matches-empty_seq r String.[] = refl
matches-empty_seq r (String.◌∷◌ c s) =
    matches-alt (seq never r) (after_char c r) s ∙ ground (arith, matches-never r s)

matches-many : (test : Char → Bool) (s : String) → matches (many (one test)) s ≡ every test s
unfolding matches nullable after_char every
matches-many test String.[] = refl
matches-many test (String.◌∷◌ c s) = elim (Bool-cases (test c)) [
  | inl passes ↦ rw passes (matches-empty_seq (many (one test)) s ∙ matches-many test s)
  | inr other ↦ rw other (matches-never (many (one test)) s)
]

-- One character, and then the rest.
unfoldable pub first_and : (Char → Bool) → (String → Bool) → String → Bool
first_and test rest String.[] = false
first_and test rest (String.◌∷◌ c s) = test c && rest s

matches-first :
    (test : Char → Bool) (r : Regex) (s : String)
    → matches (seq (one test) r) s ≡ first_and test (matches r) s
unfolding matches nullable after_char first_and
matches-first test r String.[] = refl
matches-first test r (String.◌∷◌ c s) = elim (Bool-cases (test c)) [
  | inl passes ↦ rw (passes, after_char) (matches-empty_seq r s ∙ ground (arith, passes))
  | inr other ↦ rw (other, after_char) (matches-never r s ∙ ground (arith, other))
]

-- Text of one character or more, all of them in the class.
unfoldable pub nonempty_of : (Char → Bool) → String → Bool
unfolding every first_and
nonempty_of test s = first_and test (every test) s

matches-some_of :
    (test : Char → Bool) (s : String) → matches (some_of (one test)) s ≡ nonempty_of test s
unfolding nonempty_of first_and
matches-some_of test String.[] = matches-first test (many (one test)) ""
matches-some_of test (String.◌∷◌ c s) =
    matches-first test (many (one test)) (String.◌∷◌ c s)
    ∙ ap (λ b. test c && b) (matches-many test s)

unfoldable pub is_blank : String → Bool
is_blank String.[] = true
is_blank (String.◌∷◌ c s) = false

-- Text of so many characters, all of them in the class.
unfoldable pub exactly_of : ℕ → (Char → Bool) → String → Bool
unfolding first_and is_blank
exactly_of zero test s = is_blank s
exactly_of (suc n) test s = first_and test (exactly_of n test) s

matches_never : (s : String) → matches never s ≡ false
unfolding matches nullable after_char
matches_never String.[] = refl
matches_never (String.◌∷◌ c s) = matches_never s

matches-empty : (s : String) → matches empty s ≡ is_blank s
unfolding matches nullable after_char is_blank
matches-empty String.[] = refl
matches-empty (String.◌∷◌ c s) = matches_never s

matches-times :
    (n : ℕ) (test : Char → Bool) (s : String) → matches (times n (one test)) s ≡ exactly_of n test s
unfolding times exactly_of first_and
matches-times zero test s = matches-empty s
matches-times (suc n) test String.[] = matches-first test (times n (one test)) ""
matches-times (suc n) test (String.◌∷◌ c s) =
    matches-first test (times n (one test)) (String.◌∷◌ c s)
    ∙ ap (λ b. test c && b) (matches-times n test s)

matches-then :
    (test : Char → Bool) (r : Regex) (rest : String → Bool) (s : String)
    → ((s : String) → matches r s ≡ rest s)
    → matches (seq (one test) r) s ≡ first_and test rest s
unfolding first_and
matches-then test r rest String.[] same = matches-first test r ""
matches-then test r rest (String.◌∷◌ c s) same =
    matches-first test r (String.◌∷◌ c s) ∙ ap (λ b. test c && b) (same s)

-- The expressions of Numeric, Alpha and AlphaNumeric match exactly the texts of one character or more
-- that are all of the class, and that of Mobile a 1, a digit from 3 to 9, and nine digits.
pub matches-classes :
    (s : String)
    → (matches numeric_regex s ≡ nonempty_of is_digit s)
      × (matches alpha_regex s ≡ nonempty_of is_letter s)
      × (matches alpha_num_regex s ≡ nonempty_of (λ c. is_letter c || is_digit c) s)
      × (matches mobile_regex s
          ≡ first_and (is_char 49) (first_and (in_range 51 57) (exactly_of 9 is_digit)) s)
unfolding mobile_regex
matches-classes s = (
  matches-some_of is_digit s,
  matches-some_of is_letter s,
  matches-some_of (λ c. is_letter c || is_digit c) s,
  matches-then (is_char 49) _ _ s
      (λ s1. matches-then (in_range 51 57) _ _ s1 (λ s2. matches-times 9 is_digit s2)),
)
