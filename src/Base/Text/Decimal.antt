-- ===== src/Base/Text/Decimal.antt =====
-- `fmt.Sprintf("%d", n)` on a number that is not negative, and its value read back.
use Prim.Native.Nat.{ℕ, zero, suc, ◌+◌, ◌-◌, ◌*◌, ◌/◌, ◌%◌, ◌<◌}
use Prim.Native.Char.{Char, code}
use Prim.Native.String.{String}
use mathlib.Core.Path.{◌≡◌, refl, sym, ap, ◌∙◌}
use mathlib.Core.Logic.{inl, inr}
use mathlib.Core.Bool.{Bool, true, ◌&&◌}
use native.Mathlib.Omega.{arith}
use package.jorm.Base.Tests.{ltb, leb, if◌then◌else◌, Bool-cases, ltb→lt}
use package.jorm.Base.Text.Basic.{ascii, code-ascii}
use package.jorm.Base.Text.Marks.{marks}

digit : ℕ → Char
digit d = ascii (b'0' + d)

-- The digits of `n`, in front of `out`. The fuel `f` is above `n`.
digits : ℕ → ℕ → String → String
digits zero n out = out
digits (suc f) n out =
    let rest = digits f (n / 10) (String.◌∷◌ (digit (n % 10)) out) in
    if ltb n 10 then String.◌∷◌ (digit n) out else rest

unfoldable pub decimal : ℕ → String
unfolding digits digit ascii
decimal n = digits (suc n) n ""

decimal_407 : decimal 407 ≡ "407"
unfolding decimal
decimal_407 = refl

-- The number that a text of digits stands for, after a prefix that stands for `n`.
read : ℕ → String → ℕ
read n String.[] = n
read n (String.◌∷◌ c s) = read (n * 10 + (code c - b'0')) s

code-digit : (d : ℕ) → d < 10 → code (digit d) ≡ b'0' + d
unfolding digit
code-digit d h = code-ascii (b'0' + d) (omega arith)

read-digits : (f n : ℕ) (out : String) → n < f → read 0 (digits f n out) ≡ read n out
unfolding digits read
read-digits zero n out h = absurd (omega arith)
read-digits (suc f) n out h = elim (Bool-cases (ltb n 10)) [
  | inl small ↦ rw small (ap (λ k. read k out) (omega (arith, code-digit n (ltb→lt n 10 small))))
  | inr large ↦ rw large (
      read-digits f (n / 10) (String.◌∷◌ (digit (n % 10)) out) (ground arith)
      ∙ ap (λ k. read k out) (omega (arith, code-digit (n % 10) (omega arith))))
]

-- The number that a text of digits stands for.
unfoldable pub read_decimal : String → ℕ
unfolding read
read_decimal s = read 0 s

pub read_decimal-decimal : (n : ℕ) → read_decimal (decimal n) ≡ n
unfolding decimal read_decimal read
read_decimal-decimal n = read-digits (suc n) n "" (omega arith)

-- Whether a text has digits only.
unfoldable pub all_digits : String → Bool
all_digits String.[] = true
all_digits (String.◌∷◌ c s) = leb b'0' (code c) && leb (code c) b'9' && all_digits s

all_digits-cons :
    (d : ℕ) (s : String) → d < 10 → all_digits s ≡ true → all_digits (String.◌∷◌ (digit d) s) ≡ true
unfolding all_digits
all_digits-cons d s small h = ground (arith, code-digit d small)

all_digits-digits :
    (f n : ℕ) (out : String) → all_digits out ≡ true → all_digits (digits f n out) ≡ true
unfolding digits
all_digits-digits zero n out h = h
all_digits-digits (suc f) n out h = elim (Bool-cases (ltb n 10)) [
  | inl small ↦ rw small (all_digits-cons n out (ltb→lt n 10 small) h)
  | inr large ↦ rw large (
      all_digits-digits f (n / 10) (String.◌∷◌ (digit (n % 10)) out)
        (all_digits-cons (n % 10) out (omega arith) h))
]

pub all_digits-decimal : (n : ℕ) → all_digits (decimal n) ≡ true
unfolding decimal
all_digits-decimal n = all_digits-digits (suc n) n "" (unfold all_digits in refl)

-- Different numbers are printed differently.
pub decimal-injective : (m n : ℕ) → decimal m ≡ decimal n → m ≡ n
unfolding decimal read
decimal-injective m n e =
    sym (read-digits (suc m) m "" (omega arith))
    ∙ ap (read 0) e
    ∙ read-digits (suc n) n "" (omega arith)

marks-digit : (d : ℕ) (s : String) → d < 10 → marks (String.◌∷◌ (digit d) s) ≡ marks s
unfolding marks
marks-digit d s h = ground (arith, code-digit d h)

marks-digits : (f n : ℕ) (out : String) → marks (digits f n out) ≡ marks out
unfolding digits
marks-digits zero n out = refl
marks-digits (suc f) n out = elim (Bool-cases (ltb n 10)) [
  | inl small ↦ rw small (marks-digit n out (ltb→lt n 10 small))
  | inr large ↦ rw large (
      marks-digits f (n / 10) (String.◌∷◌ (digit (n % 10)) out)
      ∙ marks-digit (n % 10) out (omega arith))
]

-- A printed number has no `?`.
pub marks-decimal : (n : ℕ) → marks (decimal n) ≡ 0
unfolding decimal
marks-decimal n = marks-digits (suc n) n "" ∙ unfold marks in refl
