-- ===== src/Generator/NameLaws.antt =====
-- The names that cmd/jorm-gen/main.go gives to fields, as `camelToSnake` of model/model.go reads them.
use Prim.Native.Char.{Char, code}
use text.Mathlib.TextLemmas.{nil-append, cons-append}
use jorm.Base.{
  ascii, ◌-◌, ◌≡◌, refl, sym, ap, ◌∙◌, Bool, true, false, ◌||◌, String, Option, none, some, List,
  [], ◌∷◌, str_eq, ◌⧺◌, join, arith, eq_iff, upper_char, lower_char, code-ascii, Bool-cases, inl,
  inr,
}
use jorm.Model.Naming.{camel_to_snake, snake, starts_word, is_lower, next_is_lower}
use jorm.Generator.{camel_part, camel_parts, snake_to_camel}
use jorm.Generator.NameWords.{
  is_word, is_id, are_words, split_by-join, tail, join-tail, camel, join-camel, under,
  snake-capital, snake-word,
}

-- Whether an upper-case letter starts a word here in any case.
abbrev opens : Option Char → Bool
opens none = true
opens (some b) = is_lower b

snake-id :
    (before : Option Char) (t : String)
    → next_is_lower t ≡ false
    → opens before ≡ true
    → snake before ("ID" ⧺ t) ≡ under before ("id" ⧺ snake (some "D") t)
unfolding starts_word next_is_lower lower_char ascii
snake-id none t low h =
    rw
      (
        cons-append,
        cons-append,
        nil-append,
        snake-capital none "I" _ refl,
        snake-capital (some "I") "D" t refl,
        low,
        cons-append,
        cons-append,
        nil-append,
      )
      refl
snake-id (some b) t low h =
    rw
      (
        cons-append,
        cons-append,
        nil-append,
        snake-capital (some b) "I" _ refl,
        h,
        snake-capital (some "I") "D" t refl,
        low,
        cons-append,
        cons-append,
        nil-append,
      )
      refl

capital-low : (c : Char) → is_lower c ≡ true → is_lower (upper_char c) ≡ false
unfolding upper_char
capital-low c h = ground (arith, code-ascii (code c - 32))

camel-low :
    (after : Bool) (ws : List String) → are_words after ws ≡ true → next_is_lower (camel ws) ≡ false
unfolding are_words is_word camel camel_part next_is_lower
camel-low after [] h = refl
camel-low after (String.[] ∷ ws) h = cc
camel-low after (String.◌∷◌ c s ∷ ws) h = elim (Bool-cases (is_id (String.◌∷◌ c s))) [
  | inl yes_id ↦ rw (yes_id, cons-append) refl
  | inr other ↦ rw (other, cons-append) (capital-low c (ground arith))
]

spelled : Option Char → List String → String
spelled before [] = ""
spelled before (w ∷ ws) = under before (w ⧺ tail ws)

tail-spelled : (b : Char) (ws : List String) → spelled (some b) ws ≡ tail ws
unfolding spelled tail
tail-spelled b [] = refl
tail-spelled b (w ∷ ws) = ap (String.◌∷◌ "_") (sym (join-tail w ws))

snake-camel :
    (before : Option Char) (after_id : Bool) (ws : List String)
    → are_words after_id ws ≡ true
    → after_id || opens before ≡ true
    → snake before (camel ws) ≡ spelled before ws
unfolding camel spelled are_words camel_part
snake-camel before after_id [] h k = unfold snake in refl
snake-camel before after_id (w ∷ ws) h k = elim (Bool-cases (is_id w)) [
  | inl same ↦
      let more = snake-camel (some "D") true ws (ground arith) refl ∙ tail-spelled "D" ws in
      let w_id = (eq_iff w "id").0 same in
      rw w_id (
        snake-id before (camel ws) (camel-low true ws (ground arith)) (ground arith)
        ∙ ap (λ t. under before ("id" ⧺ t)) more)
  | inr other ↦
      let (b, first, low) = snake-word before w (camel ws) (ground arith) other in
      first
      ∙ ap (λ t. under before (w ⧺ t))
          (snake-camel (some b) false ws (ground arith) low ∙ tail-spelled b ws)
]

camel_to_snake-snake : (s : String) → camel_to_snake s ≡ snake none s
unfolding camel_to_snake snake ascii lower_char
camel_to_snake-snake s = elim (Bool-cases (str_eq s "ID")) [
  | inl same ↦ rw ((eq_iff s "ID").0 same) refl
  | inr other ↦ rw (other, camel_to_snake) refl
]

-- A name of words of two lower-case letters or more, of which no two that follow one another are `id`,
-- is the column that `camelToSnake` makes of the field that the generator names after it.
pub camel_to_snake-snake_to_camel :
    (w : String) (ws : List String)
    → are_words false (w ∷ ws) ≡ true
    → camel_to_snake (snake_to_camel (join "_" (w ∷ ws)) true) ≡ join "_" (w ∷ ws)
unfolding snake_to_camel camel_parts
camel_to_snake-snake_to_camel w ws h =
    camel_to_snake-snake _
    ∙ ap (λ ps. snake none (join "" (camel_parts true ps))) (split_by-join false w ws h)
    ∙ ap (snake none) (join-camel (w ∷ ws))
    ∙ snake-camel none false (w ∷ ws) h refl
    ∙ unfold spelled in sym (join-tail w ws)
