-- ===== src/Model/TagTexts.antt =====
-- The parts of a tag that `parse_tag` reads as they are printed.
use Prim.Native.Char.{Char, code}
use text.Mathlib.TextLemmas.{nil-append, cons-append, append-nil, cons-ne-nil}
use jorm.Base.{
  ℕ, ◌≡◌, refl, sym, ap, ◌∙◌, Bool, true, false, not, ◌&&◌, ◌||◌, String, Option, List, [], ◌∷◌,
  ◌==◌, ◌⧺◌, join, str_eq, All, arith, is_space, eq_iff, to_lower, Bool-cases, inl, inr, all_digits,
}
use jorm.Model.Tag.{Tag, split_by, spaced, words, not_empty, set_part, set_key}
use jorm.Model.Splits.{
  lacks, split_by-lacks, split_by-append, trim_space-lacks, split_colon-append, split_colon-lacks,
  is_colon,
}

abbrev pub is_semicolon : Char → Bool
is_semicolon c = code c == 59

-- Whether a text has no space and no `;`, no `,` outside of parentheses, and ends outside of them,
-- where it starts in them or not.
unfoldable pub closed : Bool → String → Bool
closed in_paren String.[] = not in_paren
closed in_paren (String.◌∷◌ c s) = not (is_space c) && not (is_semicolon c) && elim (code c == 40) [
  | true ↦ closed true s
  | false ↦ elim (code c == 41) [
    | true ↦ closed false s
    | false ↦ (in_paren || not (code c == 44)) && closed in_paren s
  ]
]

abbrev pub IsPlain : String → Type 0
IsPlain s = closed false s ≡ true

pub closed-lacks_space : (b : Bool) (s : String) → closed b s ≡ true → lacks is_space s ≡ true
unfolding closed lacks
closed-lacks_space b String.[] h = refl
closed-lacks_space b (String.◌∷◌ c s) h =
    ground (arith, closed-lacks_space true s, closed-lacks_space false s, closed-lacks_space b s)

pub closed-lacks_semicolon :
    (b : Bool) (s : String) → closed b s ≡ true → lacks is_semicolon s ≡ true
unfolding closed lacks
closed-lacks_semicolon b String.[] h = refl
closed-lacks_semicolon b (String.◌∷◌ c s) h = ground (
  arith,
  closed-lacks_semicolon true s,
  closed-lacks_semicolon false s,
  closed-lacks_semicolon b s,
)

pub spaced-closed :
    (b : Bool) (s t : String) → closed b s ≡ true → spaced b (s ⧺ t) ≡ s ⧺ spaced false t
unfolding closed spaced
spaced-closed true String.[] t h = ground arith
spaced-closed false String.[] t h = rw (nil-append, nil-append)
spaced-closed b (String.◌∷◌ c s) t h =
    rw (cons-append, cons-append)
      (ground (arith, spaced-closed true s t, spaced-closed false s t, spaced-closed b s t))

pub closed-append :
    (b : Bool) (s t : String) → closed b s ≡ true → closed b (s ⧺ t) ≡ closed false t
unfolding closed
closed-append true String.[] t h = ground arith
closed-append false String.[] t h = rw nil-append
closed-append b (String.◌∷◌ c s) t h =
    rw cons-append
      (ground (arith, closed-append true s t, closed-append false s t, closed-append b s t))

pub all_digits-IsPlain : (s : String) → all_digits s ≡ true → IsPlain s
unfolding all_digits closed is_space
all_digits-IsPlain String.[] h = refl
all_digits-IsPlain (String.◌∷◌ c s) h = ground (arith, all_digits-IsPlain s)

-- A part of a tag that is kept whole.
abbrev pub IsPart : String → Type 0
IsPart s = IsPlain s × (str_eq s "" ≡ false)

words-one : (s : String) → IsPart s → words s ≡ s ∷ []
unfolding words
words-one s (plain, filled) =
    rw (split_by-lacks is_space s (closed-lacks_space false s plain))
      (unfold not_empty in rw filled)

words-space : (s t : String) → IsPart s → words (s ⧺ String.◌∷◌ " " t) ≡ s ∷ words t
unfolding words
words-space s t (plain, filled) =
    rw
      (split_by-append is_space s " " t (closed-lacks_space false s plain)
        (unfold is_space in refl))
      (unfold not_empty in rw filled)

spaced-plain : (s : String) → IsPlain s → spaced false s ≡ s
spaced-plain s h =
    ap (spaced false) (sym (append-nil s))
    ∙ spaced-closed false s "" h
    ∙ unfold spaced in append-nil s

spaced-semicolon : (t : String) → spaced false (";" ⧺ t) ≡ String.◌∷◌ " " (spaced false t)
unfolding spaced
spaced-semicolon t = rw (cons-append, nil-append)

pub words-spaced-join :
    (parts : List String) → All IsPart parts → words (spaced false (join ";" parts)) ≡ parts
unfolding join
words-spaced-join [] h = unfold words spaced split_by not_empty in refl
words-spaced-join (p ∷ []) (h, _) = rw (spaced-plain p h.0) (words-one p h)
words-spaced-join (p ∷ q ∷ parts) (h, hs) =
    rw (spaced-closed false p (";" ⧺ join ";" (q ∷ parts)) h.0, spaced-semicolon)
      (words-space p _ h ∙ ap (λ ps. p ∷ ps) (words-spaced-join (q ∷ parts) hs))

-- A key that is read as it stands.
abbrev pub IsKey : String → Type 0
IsKey k = IsPart k × (lacks is_colon k ≡ true) × (to_lower k ≡ k)

colon-IsPlain : (v : String) → IsPlain v → IsPlain (":" ⧺ v)
unfolding closed is_space
colon-IsPlain v plain = rw (cons-append, nil-append) plain

keyed-IsPlain : (k v : String) → IsKey k → IsPlain v → IsPlain (k ⧺ (":" ⧺ v))
keyed-IsPlain k v (part, _, _) plain =
    closed-append false k (":" ⧺ v) part.0 ∙ colon-IsPlain v plain

pub cons-eq_empty : (c : Char) (s : String) → str_eq (String.◌∷◌ c s) "" ≡ false
cons-eq_empty c s = elim (Bool-cases (str_eq (String.◌∷◌ c s) "")) [
  | inl same ↦ absurd (cons-ne-nil c s ((eq_iff (String.◌∷◌ c s) "").0 same))
  | inr other ↦ other
]

pub append-eq_empty : (s t : String) → str_eq s "" ≡ false → str_eq (s ⧺ t) "" ≡ false
append-eq_empty String.[] t h = cc
append-eq_empty (String.◌∷◌ c s) t h = rw cons-append (cons-eq_empty c (s ⧺ t))

pub keyed-IsPart : (k v : String) → IsKey k → IsPlain v → IsPart (k ⧺ (":" ⧺ v))
keyed-IsPart k v key plain = (keyed-IsPlain k v key plain, append-eq_empty k (":" ⧺ v) key.0.1)

module _ (sscanf : String → Option ℕ) where
  -- What a part `key:value` sets.
  pub set_part-keyed :
      (k v : String) (tag : Tag)
      → IsKey k
      → IsPlain v
      → set_part sscanf (k ⧺ (":" ⧺ v)) tag ≡ set_key sscanf k v v tag
  unfolding set_part
  set_part-keyed k v tag key plain =
      let part = keyed-IsPart k v key plain in
      rw (
        trim_space-lacks _ (closed-lacks_space false _ part.0),
        part.1,
        split_colon-append k v key.1,
        key.2,
        split_by-lacks is_semicolon v (closed-lacks_semicolon false v plain),
        trim_space-lacks v (closed-lacks_space false v plain),
      )

  pub set_part-flag :
      (k : String) (tag : Tag) → IsKey k → set_part sscanf k tag ≡ set_key sscanf k "" "" tag
  unfolding set_part
  set_part-flag k tag (part, colon, low) = rw (
    trim_space-lacks k (closed-lacks_space false k part.0),
    part.1,
    split_colon-lacks k colon,
    low,
  )
