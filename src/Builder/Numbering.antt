-- ===== src/Builder/Numbering.antt =====
-- The placeholders of core/builder.go against a reading of the statement from left to right.
use Prim.Native.Char.{Char}
use text.Mathlib.TextLemmas.{nil-append, cons-append, append_assoc}
use text.Mathlib.TextEquality.{Char-path}
use native.Mathlib.Nat.{add-zero}
use text.Mathlib.Text.{starts_with}
use text.Mathlib.TextPositions.{starts_with-append}
use jorm.Base.{
  ℕ, zero, suc, ◌+◌, ◌<◌, ◌≡◌, refl, sym, ap, subst, ◌∙◌, String, true, false, none, some, ◌⧺◌,
  marks, marks-append, is_mark, contains, arith, Option-cases, Bool-cases, inl, inr, if◌then◌else◌,
}
use jorm.Dialect.{Dialect}
use jorm.Builder.Replace.{cut_mark, replace_loop, replace_placeholders}

-- The i-th `?`, counted from `index`, becomes `placeholder i`; all else is kept.
unfoldable pub substitute : (ℕ → String) → ℕ → String → String
substitute p index String.[] = ""
substitute p index (String.◌∷◌ c s) =
    let here = p index ⧺ substitute p (index + 1) s in
    let later = String.◌∷◌ c (substitute p index s) in if is_mark c then here else later

module _ (p : ℕ → String) where
  cut_mark-none : (index : ℕ) (s : String) → cut_mark s ≡ none → substitute p index s ≡ s
  unfolding cut_mark substitute
  cut_mark-none index String.[] h = refl
  cut_mark-none index (String.◌∷◌ c s) h = ground (arith, cut_mark-none index s)

  cut_mark-some :
      (index : ℕ) (s before after : String)
      → cut_mark s ≡ some (before, after)
      → (substitute p index s ≡ before ⧺ p index ⧺ substitute p (index + 1) after)
        × (marks s ≡ suc (marks after))
  unfolding cut_mark substitute marks
  cut_mark-some index String.[] before after h = ground arith
  cut_mark-some index (String.◌∷◌ c s) before after h = elim (Option-cases (cut_mark s)) [
    | inl missed ↦ ground (arith, nil-append (p index ⧺ substitute p (index + 1) s))
    | inr ((b, a), found) ↦
        let ih = cut_mark-some index s b a found in
        ground (
          arith,
          ih,
          nil-append (p index ⧺ substitute p (index + 1) s),
          cons-append c b (p index ⧺ substitute p (index + 1) a),
        )
  ]

  -- With a round for each `?` and one more, the loop of `replacePlaceholders` writes what it has
  -- before it and the statement with its marks numbered from `index`.
  pub replace_loop-substitute :
      (fuel index : ℕ) (out sql : String)
      → marks sql < fuel
      → replace_loop fuel p index out sql ≡ out ⧺ substitute p index sql
  unfolding replace_loop
  replace_loop-substitute zero index out sql h = absurd (omega arith)
  replace_loop-substitute (suc fuel) index out sql h = elim (Option-cases (cut_mark sql)) [
    | inl missed ↦ rw (missed, replace_loop) (rw (cut_mark-none index sql missed))
    | inr ((b, a), found) ↦
        let (split, fewer) = cut_mark-some index sql b a found in
        rw (found, replace_loop)
          (replace_loop-substitute fuel (index + 1) ((out ⧺ b) ⧺ p index) a (omega arith)
            ∙ rw split (simp append_assoc))
  ]

  pub substitute_no_marks : (index : ℕ) (s : String) → marks s ≡ 0 → substitute p index s ≡ s
  unfolding substitute marks
  substitute_no_marks index String.[] h = refl
  substitute_no_marks index (String.◌∷◌ c s) h = ground (arith, substitute_no_marks index s)

  -- The numbers go on across a concatenation.
  pub substitute-append :
      (index : ℕ) (s t : String)
      → substitute p index (s ⧺ t) ≡ substitute p index s ⧺ substitute p (index + marks s) t
  unfolding substitute marks
  substitute-append index String.[] t = rw (nil-append t, nil-append, add-zero)
  substitute-append index (String.◌∷◌ c s) t = rw cons-append (
      ground (
        arith,
        substitute-append (index + 1) s t,
        substitute-append index s t,
        append_assoc (p index) (substitute p (index + 1) s) (substitute p (index + 1 + marks s) t),
        cons-append c (substitute p index s) (substitute p (index + marks s) t),
      ))

mark_char : Char
mark_char = "?"

mark_eq : (c : Char) → is_mark c ≡ true → c ≡ mark_char
unfolding mark_char
mark_eq c h = Char-path c "?" (ground arith)

contains_mark : (c : Char) (s : String) → is_mark c ≡ true → contains (String.◌∷◌ c s) "?" ≡ true
unfolding contains
contains_mark c s h = rw (mark_eq c h) (unfold mark_char in ground (arith, begins))
  where
    begins : starts_with (String.◌∷◌ "?" s) "?" ≡ true
    begins =
        subst (λ u. starts_with u "?" ≡ true)
          (cons-append "?" "" s ∙ ap (String.◌∷◌ "?") (nil-append s)) (starts_with-append "?" s)

marks_of_not_contains : (s : String) → contains s "?" ≡ false → marks s ≡ 0
unfolding contains marks
marks_of_not_contains String.[] h = refl
marks_of_not_contains (String.◌∷◌ c s) h =
    ground (arith, contains_mark c s, marks_of_not_contains s)

-- `replacePlaceholders` writes what a reading from left to right gives: the i-th `?` becomes the
-- dialect's placeholder of i, counted from 1, and every other character stays.
pub replace_placeholders-substitute :
    (d : Dialect) (sb sql : String)
    → (replace_placeholders d sb sql).0 ≡ substitute d.placeholder 1 sql
unfolding replace_placeholders
replace_placeholders-substitute d sb sql = elim (Bool-cases (contains sql "?")) [
  | inl some_marks ↦ rw some_marks (
      replace_loop-substitute d.placeholder (suc (marks sql)) 1 "" sql (omega arith) ∙ nil-append _)
  | inr no_marks ↦
      rw no_marks
        (sym (substitute_no_marks d.placeholder 1 sql (marks_of_not_contains sql no_marks)))
]

cons_mark : (c : Char) (s : String) → is_mark c ≡ true → "?" ⧺ s ≡ String.◌∷◌ c s
cons_mark c s h =
    rw (mark_eq c h) (unfold mark_char in cons-append "?" "" s ∙ ap (String.◌∷◌ "?") (nil-append s))

-- Where the placeholder is `?` itself, a statement stays as it is.
pub substitute_positional :
    (p : ℕ → String) (index : ℕ) (s : String) → ((i : ℕ) → p i ≡ "?") → substitute p index s ≡ s
unfolding substitute
substitute_positional p index String.[] h = refl
substitute_positional p index (String.◌∷◌ c s) h = ground (
  arith,
  h index,
  cons_mark c s,
  substitute_positional p (index + 1) s h,
  substitute_positional p index s h,
)

-- Where no placeholder has a `?`, none is left.
pub marks-substitute_numbered :
    (p : ℕ → String) (index : ℕ) (s : String)
    → ((i : ℕ) → marks (p i) ≡ 0)
    → marks (substitute p index s) ≡ 0
unfolding substitute marks
marks-substitute_numbered p index String.[] h = refl
marks-substitute_numbered p index (String.◌∷◌ c s) h = ground (
  arith,
  h index,
  marks-append (p index) (substitute p (index + 1) s),
  marks-substitute_numbered p (index + 1) s h,
  marks-substitute_numbered p index s h,
)
