-- ===== src/Generator/NameWords.antt =====
-- The words of the names of cmd/jorm-gen/main.go, as `camelToSnake` of model/model.go reads them.
use Prim.Native.Char.{Char, code}
use text.Mathlib.TextLemmas.{nil-append, cons-append, append-nil}
use text.Mathlib.TextEquality.{Char-path}
use jorm.Base.{
  ◌-◌, ◌≡◌, refl, sym, ap, ◌∙◌, Bool, true, false, not, ◌&&◌, ◌||◌, String, Option, none, some,
  List, [], ◌∷◌, str_eq, ◌⧺◌, join, map, arith, upper_char, lower_char, code-ascii, if◌then◌else◌,
}
use jorm.Model.Naming.{snake, starts_word, is_upper, is_lower, next_is_lower}
use jorm.Model.Tag.{split_by}
use jorm.Model.Splits.{lacks, split_by-lacks, split_by-append}
use jorm.Generator.{camel_part, is_underscore}

unfoldable pub all_lower : String → Bool
all_lower String.[] = true
all_lower (String.◌∷◌ c s) = is_lower c && all_lower s

-- A word of a name: two lower-case letters or more.
unfoldable pub is_word : String → Bool
unfolding all_lower
is_word String.[] = false
is_word (String.◌∷◌ c s) = is_lower c && not (str_eq s "") && all_lower s

abbrev pub is_id : String → Bool
is_id w = str_eq w "id"

-- The words of a name, where `id` does not follow `id`.
unfoldable pub are_words : Bool → List String → Bool
unfolding is_word
are_words after_id [] = true
are_words after_id (w ∷ ws) = is_word w && not (after_id && is_id w) && are_words (is_id w) ws

unfoldable pub not_underscore : (s : String) → all_lower s ≡ true → lacks is_underscore s ≡ true
unfolding all_lower lacks
not_underscore String.[] h = refl
not_underscore (String.◌∷◌ c s) h = ground (arith, not_underscore s)

word-lacks : (w : String) → is_word w ≡ true → lacks is_underscore w ≡ true
unfolding is_word lacks
word-lacks String.[] h = refl
word-lacks (String.◌∷◌ c s) h = ground (arith, not_underscore s)

pub split_by-join :
    (after : Bool) (w : String) (ws : List String)
    → are_words after (w ∷ ws) ≡ true
    → split_by is_underscore (join "_" (w ∷ ws)) ≡ w ∷ ws
unfolding join are_words
split_by-join after w [] h = split_by-lacks is_underscore w (ground (arith, word-lacks w))
split_by-join after w (v ∷ ws) h =
    ap (split_by is_underscore) (ap (λ t. w ⧺ t) (rw (cons-append, nil-append)))
    ∙ split_by-append is_underscore w "_" (join "_" (v ∷ ws)) (ground (arith, word-lacks w)) refl
    ∙ ap (λ ps. w ∷ ps) (split_by-join (is_id w) v ws (ground arith))

-- What follows a word in a name with underscores.
unfoldable pub tail : List String → String
unfolding join
tail [] = ""
tail (w ∷ ws) = String.◌∷◌ "_" (join "_" (w ∷ ws))

pub join-tail : (w : String) (ws : List String) → join "_" (w ∷ ws) ≡ w ⧺ tail ws
unfolding join tail
join-tail w [] = sym (append-nil w)
join-tail w (v ∷ ws) = rw (cons-append, nil-append) refl

-- The camel case of words, one after the other.
unfoldable pub camel : List String → String
camel [] = ""
camel (w ∷ ws) = camel_part w ⧺ camel ws

pub join-camel : (ws : List String) → join "" (map camel_part ws) ≡ camel ws
unfolding join camel
join-camel [] = refl
join-camel (w ∷ []) = sym (append-nil (camel_part w))
join-camel (w ∷ v ∷ ws) = rw nil-append (ap (λ t. camel_part w ⧺ t) (join-camel (v ∷ ws)))

lower-upper : (c : Char) → is_lower c ≡ true → lower_char (upper_char c) ≡ c
unfolding lower_char upper_char
lower-upper c h = Char-path _ _ (ground (arith, code-ascii (code c - 32), code-ascii (code c)))

upper-IsUpper : (c : Char) → is_lower c ≡ true → is_upper (upper_char c) ≡ true
unfolding upper_char
upper-IsUpper c h = ground (arith, code-ascii (code c - 32))

last_char : Char → String → Char
last_char b String.[] = b
last_char b (String.◌∷◌ c s) = last_char c s

last_char-lower :
    (b : Char) (s : String)
    → is_lower b ≡ true
    → all_lower s ≡ true
    → is_lower (last_char b s) ≡ true
unfolding last_char all_lower
last_char-lower b String.[] h k = h
last_char-lower b (String.◌∷◌ c s) h k = last_char-lower c s (ground arith) (ground arith)

snake-lowers :
    (b : Char) (s t : String)
    → all_lower s ≡ true
    → snake (some b) (s ⧺ t) ≡ s ⧺ snake (some (last_char b s)) t
unfolding snake all_lower last_char
snake-lowers b String.[] t h = rw (nil-append, nil-append)
snake-lowers b (String.◌∷◌ c s) t h =
    rw (cons-append, cons-append) (ground (arith, snake-lowers c s t))

-- An underscore, except at the start.
abbrev pub under : Option Char → String → String
under none t = t
under (some b) t = String.◌∷◌ "_" t

pub snake-capital :
    (before : Option Char) (c : Char) (s : String)
    → is_upper c ≡ true
    → snake before (String.◌∷◌ c s) ≡ (
        if starts_word before s
        then String.◌∷◌ "_" (String.◌∷◌ (lower_char c) (snake (some c) s))
        else String.◌∷◌ (lower_char c) (snake (some c) s))
unfolding snake
snake-capital before c s h = rw h refl

and_false : (x : Bool) → x && false ≡ false
and_false true = refl
and_false false = refl

or_right : (x y : Bool) → y ≡ true → x || y ≡ true
or_right true y e = refl
or_right false y e = e

snake-upper :
    (before : Option Char) (c d : Char) (s : String)
    → is_lower c ≡ true
    → is_lower d ≡ true
    → snake before (String.◌∷◌ (upper_char c) (String.◌∷◌ d s))
      ≡ under before (String.◌∷◌ c (snake (some (upper_char c)) (String.◌∷◌ d s)))
unfolding starts_word next_is_lower
snake-upper none c d s h k =
    rw (snake-capital none (upper_char c) _ (upper-IsUpper c h), lower-upper c h) refl
snake-upper (some b) c d s h k =
    rw
      (
        snake-capital (some b) (upper_char c) _ (upper-IsUpper c h),
        lower-upper c h,
        or_right (is_lower b) (is_lower d) k,
      )
      refl

pub snake-word :
    (before : Option Char) (w t : String)
    → is_word w ≡ true
    → is_id w ≡ false
    → (b : Char) × (snake before (camel_part w ⧺ t) ≡ under before (w ⧺ snake (some b) t))
      × (is_lower b ≡ true)
unfolding is_word all_lower last_char camel_part
snake-word before String.[] t h k = cc
snake-word before (String.◌∷◌ c String.[]) t h k = cc (and_false (is_lower c))
snake-word before (String.◌∷◌ c (String.◌∷◌ d s)) t h k = (
  last_char d s,
  rw (k, cons-append, cons-append)
      (snake-upper before c d (s ⧺ t) (ground arith) (ground arith)
        ∙ ap (λ r. under before (String.◌∷◌ c r))
            (ap (snake (some (upper_char c))) (sym (cons-append d s t))
              ∙ snake-lowers (upper_char c) (String.◌∷◌ d s) t (ground arith))
        ∙ ap (under before) (sym (cons-append c (String.◌∷◌ d s) _))),
  last_char-lower d s (ground arith) (ground arith),
)
