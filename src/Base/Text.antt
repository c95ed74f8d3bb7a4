-- ===== src/Base/Text.antt =====
-- Go strings, and what the source uses of the packages `strings`, `unicode` and `fmt`.
-- A text is a sequence of code points; `to_upper` and `to_lower` change the ASCII letters only.
mod Basic
mod Marks
mod Trim
mod Sorting
mod Decimal
unfoldable pub use Basic.*
unfoldable pub use Trim.*
unfoldable pub use Sorting.*
unfoldable pub use Marks.*
unfoldable pub use Decimal.*
use Prim.Native.Nat.{ℕ, ◌+◌, ◌-◌, ◌<◌}
use Prim.Native.Char.{Char, char, code, nul, IsScalar}
use Prim.Native.String
use Prim.Native.String.{String}
use mathlib.Core.Path.{◌≡◌, refl}
use mathlib.Core.Logic.{dite}
use mathlib.Core.Bool.{Bool, true, false, ◌&&◌, ◌||◌}
use mathlib.Core.List.{List, [], ◌∷◌}
use native.Mathlib.Decide.{dec_lt}
use native.Mathlib.Omega.{arith}
use text.Mathlib.Text.{◌==◌ as str_eq, starts_with}
use package.jorm.Base.Tests.{leb, if◌then◌else◌}

unfoldable pub upper_char : Char → Char
upper_char c = if leb b'a' (code c) && leb (code c) b'z' then ascii (code c - 32) else c

unfoldable pub lower_char : Char → Char
lower_char c = if leb b'A' (code c) && leb (code c) b'Z' then ascii (code c + 32) else c

-- `strings.ToUpper(s)`, `strings.ToLower(s)`
unfoldable pub to_upper : String → String
unfolding upper_char ascii
to_upper String.[] = ""
to_upper (String.◌∷◌ c s) = String.◌∷◌ (upper_char c) (to_upper s)

unfoldable pub to_lower : String → String
unfolding lower_char ascii
to_lower String.[] = ""
to_lower (String.◌∷◌ c s) = String.◌∷◌ (lower_char c) (to_lower s)

up : to_upper "left Join?" ≡ "LEFT JOIN?"
unfolding to_upper
up = refl

low : to_lower "left Join?" ≡ "left join?"
unfolding to_lower
low = refl

has : contains "SELECT * FROM t" "* F" ≡ true
unfolding contains
has = refl
