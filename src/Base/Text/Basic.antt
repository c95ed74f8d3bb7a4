-- ===== src/Base/Text/Basic.antt =====
-- Go's `+` on strings, `strings.Join`, `strings.Contains`, and the ASCII characters.
use Prim.Native.Nat.{ℕ, ◌<◌}
use Prim.Native.Char.{Char, char, code, nul, IsScalar}
use Prim.Native.String
use Prim.Native.String.{String}
use mathlib.Core.Path.{◌≡◌}
use mathlib.Core.Logic.{dite}
use mathlib.Core.Bool.{Bool, ◌||◌}
use mathlib.Core.List.{List, [], ◌∷◌}
use native.Mathlib.Decide.{dec_lt}
use native.Mathlib.Omega.{arith}
use text.Mathlib.Text.{◌==◌ as str_eq, starts_with}

-- Go's `s + t`.
infixr 65 ◌⧺◌
abbrev pub ◌⧺◌ : String → String → String
s ⧺ t = String.◌++◌ s t

-- `strings.Join(parts, sep)`
unfoldable pub join : String → List String → String
join sep [] = ""
join sep (p ∷ []) = p
join sep (p ∷ q ∷ rest) = p ⧺ sep ⧺ join sep (q ∷ rest)

-- `strings.Contains(s, t)`
unfoldable pub contains : String → String → Bool
contains String.[] t = str_eq t ""
contains (String.◌∷◌ c s) t = starts_with (String.◌∷◌ c s) t || contains s t

ascii-IsScalar : (n : ℕ) → n < 128 → IsScalar n
ascii-IsScalar n h = ground arith

-- The character of an ASCII code.
unfoldable pub ascii : ℕ → Char
unfolding dec_lt ascii-IsScalar
ascii n = dite (dec_lt n 128) (λ h. char n (ascii-IsScalar n h)) (λ _. nul)

pub code-ascii : (n : ℕ) → n < 128 → code (ascii n) ≡ n
unfolding ascii
code-ascii n h = ground arith
