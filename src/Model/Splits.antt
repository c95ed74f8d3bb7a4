-- ===== src/Model/Splits.antt =====
-- How `split_by`, `words`, `trim_space` and `split_colon` of Model/Tag read texts that lack the
-- characters at which they cut.
use Prim.Native.Char.{Char, code}
use text.Mathlib.TextLemmas.{nil-append, cons-append}
use jorm.Base.{
  ◌≡◌, refl, Bool, true, not, ◌&&◌, String, none, some, [], ◌∷◌, ◌==◌, ◌⧺◌, arith, trim_space,
  trim_left, trim_right, is_space,
}
use jorm.Model.Tag.{split_by, split_colon}

-- Whether no character of a text passes the test.
unfoldable pub lacks : (Char → Bool) → String → Bool
lacks test String.[] = true
lacks test (String.◌∷◌ c s) = not (test c) && lacks test s

module _ (test : Char → Bool) where
  pub split_by-lacks : (s : String) → lacks test s ≡ true → split_by test s ≡ s ∷ []
  unfolding split_by lacks
  split_by-lacks String.[] h = refl
  split_by-lacks (String.◌∷◌ c s) h = ground (arith, split_by-lacks s)

  pub split_by-append :
      (s : String) (c : Char) (t : String)
      → lacks test s ≡ true
      → test c ≡ true
      → split_by test (s ⧺ String.◌∷◌ c t) ≡ s ∷ split_by test t
  unfolding split_by lacks
  split_by-append String.[] c t h cut = rw nil-append (ground arith)
  split_by-append (String.◌∷◌ b s) c t h cut =
      rw cons-append (ground (arith, split_by-append s c t))

pub lacks-trim_left : (s : String) → lacks is_space s ≡ true → trim_left s ≡ s
unfolding lacks trim_left
lacks-trim_left String.[] h = refl
lacks-trim_left (String.◌∷◌ c s) h = ground arith

pub lacks-trim_right : (s : String) → lacks is_space s ≡ true → trim_right s ≡ s
unfolding lacks trim_right
lacks-trim_right String.[] h = refl
lacks-trim_right (String.◌∷◌ c s) h = ground (arith, lacks-trim_right s)

pub trim_space-lacks : (s : String) → lacks is_space s ≡ true → trim_space s ≡ s
unfolding trim_space
trim_space-lacks s h = rw (lacks-trim_right s h) (lacks-trim_left s h)

abbrev pub is_colon : Char → Bool
is_colon c = code c == 58

pub split_colon-append :
    (k v : String) → lacks is_colon k ≡ true → split_colon (k ⧺ (":" ⧺ v)) ≡ (k, some v)
unfolding split_colon lacks
split_colon-append String.[] v h = rw (nil-append, cons-append, nil-append)
split_colon-append (String.◌∷◌ c k) v h = rw cons-append (ground (arith, split_colon-append k v))

pub split_colon-lacks : (k : String) → lacks is_colon k ≡ true → split_colon k ≡ (k, none)
unfolding split_colon lacks
split_colon-lacks String.[] h = refl
split_colon-lacks (String.◌∷◌ c k) h = ground (arith, split_colon-lacks k)
