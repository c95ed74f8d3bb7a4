-- ===== src/Model/Naming.antt =====
-- `camelToSnake` of model/model.go, which names the columns and the tables, on ASCII names.
mod Tests
use Prim.Native.Char.{Char}
use jorm.Base.{
  ◌+◌, ℕ, ◌≡◌, refl, ap, ◌∙◌, Bool, true, false, ◌&&◌, ◌||◌, String, Option, none, some, leb, ltb,
  ◌==◌, str_eq, code, lower_char, to_lower, code-ascii, Bool-cases, inl, inr, subst, sym, eq_iff,
  if◌then◌else◌, arith,
}

abbrev pub is_upper : Char → Bool
is_upper c = leb 65 (code c) && leb (code c) 90

abbrev pub is_lower : Char → Bool
is_lower c = leb 97 (code c) && leb (code c) 122

unfoldable pub next_is_lower : String → Bool
next_is_lower String.[] = false
next_is_lower (String.◌∷◌ c s) = is_lower c

-- `i > 0 && (… s[i-1] … || i+1 < len(s) && … s[i+1] …)`
unfoldable pub starts_word : Option Char → String → Bool
unfolding next_is_lower
starts_word none rest = false
starts_word (some before) rest = is_lower before || next_is_lower rest

-- The loop, with the character before, if any.
unfoldable pub snake : Option Char → String → String
unfolding starts_word lower_char
snake before String.[] = ""
snake before (String.◌∷◌ c s) =
    let rest = snake (some c) s in
    let lowered = String.◌∷◌ (lower_char c) rest in
    if is_upper c
    then (if starts_word before s then String.◌∷◌ "_" lowered else lowered)
    else String.◌∷◌ c rest

unfoldable pub camel_to_snake : String → String
unfolding snake
camel_to_snake s = if str_eq s "ID" then "id" else snake none s

-- A text without its underscores.
unfoldable pub joined : String → String
joined String.[] = ""
joined (String.◌∷◌ c s) = let rest = joined s in if code c == 95 then rest else String.◌∷◌ c rest

unfoldable pub has_upper : String → Bool
has_upper String.[] = false
has_upper (String.◌∷◌ c s) = is_upper c || has_upper s

joined-snake : (before : Option Char) (s : String) → joined (snake before s) ≡ joined (to_lower s)
unfolding joined snake to_lower lower_char
joined-snake before String.[] = refl
joined-snake before (String.◌∷◌ c s) =
    ground (arith, code-ascii (code c + 32), joined-snake (some c) s)

has_upper-snake : (before : Option Char) (s : String) → has_upper (snake before s) ≡ false
unfolding has_upper snake lower_char
has_upper-snake before String.[] = refl
has_upper-snake before (String.◌∷◌ c s) =
    ground (arith, code-ascii (code c + 32), has_upper-snake (some c) s)

-- What a column's name keeps of a field's name.
abbrev Keeps : String → String → Type 0
Keeps column field = (joined column ≡ joined (to_lower field)) × (has_upper column ≡ false)

id-Keeps : Keeps "id" "ID"
unfolding joined has_upper to_lower
id-Keeps = (refl, refl)

-- The name that `camelToSnake` makes of an ASCII name is the name in lower case with underscores put
-- in, and has no upper-case letter.
pub camel_to_snake-joined :
    (s : String)
    → (joined (camel_to_snake s) ≡ joined (to_lower s)) × (has_upper (camel_to_snake s) ≡ false)
unfolding camel_to_snake
camel_to_snake-joined s = elim (Bool-cases (str_eq s "ID")) [
  | inl same ↦ subst (λ t. Keeps (camel_to_snake t) t) (sym ((eq_iff s "ID").0 same)) id-Keeps
  | inr other ↦ rw (other, camel_to_snake) (joined-snake none s, has_upper-snake none s)
]
