-- ===== src/Base/Text/Marks.antt =====
-- How many `?` a text has.
use Prim.Native.Nat.{ℕ, suc, ◌+◌}
use Prim.Native.Char.{Char, code}
use Prim.Native.String.{String}
use mathlib.Core.Path.{◌≡◌, refl}
use mathlib.Core.Bool.{Bool}
use mathlib.Core.List.{List, [], ◌∷◌, ◌++◌}
use native.Mathlib.Omega.{arith}
use text.Mathlib.TextLemmas.{nil-append, cons-append}
use package.jorm.Base.Tests.{◌==◌, if◌then◌else◌}
use package.jorm.Base.Text.Basic.{◌⧺◌, join}

abbrev pub is_mark : Char → Bool
is_mark c = code c == b'?'

unfoldable pub marks : String → ℕ
marks String.[] = 0
marks (String.◌∷◌ c s) = if is_mark c then suc (marks s) else marks s

pub marks-append : (s t : String) → marks (s ⧺ t) ≡ marks s + marks t
unfolding marks
marks-append String.[] t = rw nil-append (omega arith)
marks-append (String.◌∷◌ c s) t = rw cons-append (ground (arith, marks-append s t))

-- The `?` of a list of texts.
abbrev pub marks_all : List String → ℕ
marks_all [] = 0
marks_all (s ∷ ss) = marks s + marks_all ss

pub marks-join :
    (sep : String) (ss : List String) → marks sep ≡ 0 → marks (join sep ss) ≡ marks_all ss
unfolding join
marks-join sep [] h = unfold marks in refl
marks-join sep (s ∷ []) h = omega arith
marks-join sep (s ∷ t ∷ ss) h =
    rw (marks-append s, marks-append sep) (omega (arith, marks-join sep (t ∷ ss) h))

pub marks_all-append : (xs ys : List String) → marks_all (xs ++ ys) ≡ marks_all xs + marks_all ys
marks_all-append [] ys = omega arith
marks_all-append (x ∷ xs) ys = omega (arith, marks_all-append xs ys)
