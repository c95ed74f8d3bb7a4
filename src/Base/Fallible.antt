-- ===== src/Base/Fallible.antt =====
-- How code ends that may fail or panic.
use mathlib.Core.Path.{◌≡◌, refl}
use native.Mathlib.Omega.{arith}
use mathlib.Core.Option.{Option, none, some}

-- How a step ends: with a value, an error, or a panic.
pub data Fallible (E A : Type 0) : Type 0 where
  ok : A → Fallible E A
  fails : E → Fallible E A
  panics : Fallible E A

abbrev pub then_do : {E A B : Type 0} → Fallible E A → (A → Fallible E B) → Fallible E B
then_do (ok a) f = f a
then_do (fails e) f = fails e
then_do panics f = panics

abbrev pub or_panic : {E A : Type 0} → Option A → Fallible E A
or_panic none = panics
or_panic (some a) = ok a

pub then_do-ok :
    {E A B : Type 0} (m : Fallible E A) (f : A → Fallible E B) {b : B}
    → then_do m f ≡ ok b
    → (a : A) × (m ≡ ok a) × (f a ≡ ok b)
then_do-ok (ok a) f h = (a, refl, h)
then_do-ok (fails e) f h = ground arith
then_do-ok panics f h = ground arith
