-- ===== src/Base/Text/Trim.antt =====
-- `strings.TrimSpace`.
use Prim.Native.Nat.{◌≤◌}
use Prim.Native.Char.{Char, code}
use Prim.Native.String.{String}
use mathlib.Core.Path.{◌≡◌, refl}
use mathlib.Core.Logic.{inl, inr}
use mathlib.Core.Bool.{Bool, ◌&&◌, ◌||◌}
use package.text.Mathlib.Text.{◌==◌ as str_eq}
use package.native.Mathlib.Omega.{arith}
use package.jorm.Base.Tests.{leb, ◌==◌, if◌then◌else◌, Bool-cases}
use package.jorm.Base.Text.Marks.{marks}

-- `unicode.IsSpace`
unfoldable pub is_space : Char → Bool
is_space c =
    leb 9 (code c) && leb (code c) 13
    || code c == 32
    || code c == 0x85
    || code c == 0xa0
    || code c == 0x1680
    || leb 0x2000 (code c) && leb (code c) 0x200a
    || code c == 0x2028
    || code c == 0x2029
    || code c == 0x202f
    || code c == 0x205f
    || code c == 0x3000

unfoldable pub trim_left : String → String
trim_left String.[] = ""
trim_left (String.◌∷◌ c s) = let rest = trim_left s in if is_space c then rest else String.◌∷◌ c s

unfoldable pub trim_right : String → String
trim_right String.[] = ""
trim_right (String.◌∷◌ c s) =
    let rest = trim_right s in if is_space c && str_eq rest "" then "" else String.◌∷◌ c rest

unfoldable pub trim_space : String → String
unfolding trim_left trim_right is_space
trim_space s = trim_left (trim_right s)

trimmed : trim_space " a b\t\n" ≡ "a b"
unfolding trim_space
trimmed = refl

marks-trim_left : (s : String) → marks (trim_left s) ≤ marks s
unfolding trim_left marks
marks-trim_left String.[] = omega arith
marks-trim_left (String.◌∷◌ c s) = ground (arith, marks-trim_left s)

marks-trim_right : (s : String) → marks (trim_right s) ≤ marks s
unfolding trim_right marks
marks-trim_right String.[] = omega arith
marks-trim_right (String.◌∷◌ c s) = elim (Bool-cases (is_space c && str_eq (trim_right s) "")) [
  | inl dropped ↦ rw dropped (omega arith)
  | inr kept ↦ rw kept (ground (arith, marks-trim_right s))
]

-- Trimming adds no `?`.
pub marks-trim_space : (s : String) → marks (trim_space s) ≤ marks s
unfolding trim_space
marks-trim_space s = omega (arith, marks-trim_left (trim_right s), marks-trim_right s)
