-- ===== src/Model/ParseLaws.antt =====
-- What the fields of a parsed model have in common.
use mathlib.Core.List.{append_assoc}
use jorm.Base.{
  ℕ, suc, ◌≤◌, ◌≡◌, ◌≢◌, refl, sym, ap, subst, ◌∙◌, String, Bool, true, false, ◌||◌, ◌&&◌, not,
  Option, none, some, List, [], ◌∷◌, ◌++◌, All, All-map, All-append, arith, inl, inr, Bool-cases,
  if◌then◌else◌,
}
use jorm.Base.Fallible.{Fallible, ok, fails, panics, then_do-ok}
use jorm.Model.{GoType, kind, Field, Model}
use jorm.Model.Parse.{
  Shapes, no_more, field_and, FieldError, elem_once, is_integer, validate_field, checked, appended,
  parse_fields, field_of, parse_model, is_column, is_struct, pointed_to, last_pk,
}

-- Two fields of a list lie at different places.
abbrev pub Distinct : List Field → Type 0
Distinct [] = Unit {0}
Distinct (f ∷ fields) = All (λ g. f.nested_idx ≢ g.nested_idx) fields × Distinct fields

-- The primary key, if any, is marked as one.
abbrev pub Marked : Option Field → Type 0
Marked none = Unit {0}
Marked (some pk) = pk.is_pk ≡ true

-- The place of a field is under the embedded struct at `base`, at the index `i` or after it.
abbrev From : List ℕ → ℕ → Field → Type 0
From base i f = (j : ℕ) × (more : List ℕ) × (f.nested_idx ≡ base ++ j ∷ more) × (i ≤ j)

abbrev At : List ℕ → ℕ → Field → Type 0
At base i f = (more : List ℕ) × (f.nested_idx ≡ base ++ i ∷ more)

head_of : List ℕ → ℕ
head_of [] = 0
head_of (n ∷ ns) = n

tail_of : List ℕ → List ℕ
tail_of [] = []
tail_of (n ∷ ns) = ns

same_index : (base : List ℕ) (i j : ℕ) (a b : List ℕ) → base ++ i ∷ a ≡ base ++ j ∷ b → i ≡ j
unfolding head_of tail_of
same_index [] i j a b h = ap head_of h
same_index (n ∷ base) i j a b h = same_index base i j a b (ap tail_of h)

At-From :
    (base : List ℕ) (i : ℕ) (f g : Field)
    → At base i f
    → From base (suc i) g
    → f.nested_idx ≢ g.nested_idx
At-From base i f g (a, e) (j, b, e', less) h =
    ground (arith, same_index base i j a b (sym e ∙ h ∙ e'))

Distinct-append :
    (base : List ℕ) (i : ℕ) (fields more : List Field)
    → All (At base i) fields
    → All (From base (suc i)) more
    → Distinct fields
    → Distinct more
    → Distinct (fields ++ more)
Distinct-append base i [] more _ from _ d = d
Distinct-append base i (f ∷ fields) more (at, ats) from (apart, d) d' = (
  All-append (λ g. f.nested_idx ≢ g.nested_idx) fields more apart
      (All-map (From base (suc i)) (λ g. f.nested_idx ≢ g.nested_idx) more
        (λ g. At-From base i f g at) from),
  Distinct-append base i fields more ats from d d',
)

module _ (sscanf : String → Option ℕ) (is_time : GoType → Bool) where
  -- A field that is set to the time has the type of times, and one that the database counts up is an
  -- integer, or they are pointers to such.
  unfoldable pub IsValid : Field → Type 0
  unfolding elem_once is_integer kind
  IsValid f =
      ((not (f.auto_time || f.auto_update) || is_time (elem_once f.go_type)) ≡ true)
      × ((not f.is_auto || is_integer (kind (elem_once f.go_type))) ≡ true)

  validate_field-IsValid : (f : Field) → validate_field sscanf is_time f ≡ none → IsValid f
  unfolding validate_field IsValid
  validate_field-IsValid f h = (ground (arith, h), ground (arith, h))

  checked-ok :
      (e : Option FieldError) (f : Field) (rest : Fallible FieldError (List Field))
      (fields : List Field)
      → checked sscanf is_time e f rest ≡ ok fields
      → (more : List Field) × (rest ≡ ok more) × (fields ≡ f ∷ more) × (e ≡ none)
  unfolding checked
  checked-ok none f (ok more) fields h = (more, refl, ground (arith, h), refl)
  checked-ok none f (fails e) fields h = ground arith
  checked-ok none f panics fields h = ground arith
  checked-ok (some e) f rest fields h = ground arith

  appended-ok :
      (inner rest : Fallible FieldError (List Field)) (fields : List Field)
      → appended sscanf is_time inner rest ≡ ok fields
      → (a : List Field) × (b : List Field) × (inner ≡ ok a) × (rest ≡ ok b) × (fields ≡ a ++ b)
  unfolding appended
  appended-ok (ok a) (ok b) fields h = (a, b, refl, refl, ground (arith, h))
  appended-ok (ok a) (fails e) fields h = ground arith
  appended-ok (ok a) panics fields h = ground arith
  appended-ok (fails e) rest fields h = ground arith
  appended-ok panics rest fields h = ground arith

  -- What is said of the fields that are parsed.
  abbrev Parsed : List ℕ → ℕ → List Field → Type 0
  Parsed base i fields = All (From base i) fields × Distinct fields × All IsValid fields

  later :
      (base : List ℕ) (i : ℕ) (fields : List Field)
      → Parsed base (suc i) fields
      → Parsed base i fields
  later base i fields (from, d, v) = (
    All-map (From base (suc i)) (From base i) fields
        (λ f (j, more, e, less). (j, more, e, omega (arith, less))) from,
    d,
    v,
  )

  with_field-Parsed :
      (base : List ℕ) (i : ℕ) (f : Field) (more : List Field)
      → At base i f
      → IsValid f
      → Parsed base (suc i) more
      → Parsed base i (f ∷ more)
  with_field-Parsed base i f more (a, e) valid (from, d, v) =
      let (from', _, _) = later base i more (from, d, v) in
      (
        ((i, a, e, omega arith), from'),
        (
          All-map (From base (suc i)) (λ g. f.nested_idx ≢ g.nested_idx) more
              (λ g. At-From base i f g (a, e)) from,
          d,
        ),
        (valid, v),
      )

  embedded-Parsed :
      (base : List ℕ) (i : ℕ) (inner more : List Field)
      → Parsed (base ++ i ∷ []) 0 inner
      → Parsed base (suc i) more
      → Parsed base i (inner ++ more)
  embedded-Parsed base i inner more (from, d, v) (from', d', v') =
      let at =
        All-map (From (base ++ i ∷ []) 0) (At base i) inner
          (λ f (j, rest, e, _). (j ∷ rest, e ∙ append_assoc base (i ∷ []) (j ∷ rest))) from in
      let (later_from, _, _) = later base i more (from', d', v') in
      (
        All-append (From base i) inner more
            (All-map (At base i) (From base i) inner (λ f (rest, e). (i, rest, e, omega arith)) at)
            later_from,
        Distinct-append base i inner more at from' d d',
        All-append IsValid inner more v v',
      )

  if_then :
      {A : Type 0} (test : Bool) (a b : A) {c : A} {P : Type 0}
      → (a ≡ c → P)
      → (b ≡ c → P)
      → (if test then a else b) ≡ c
      → P
  if_then true a b f g h = f h
  if_then false a b f g h = g h

  parse_fields-Parsed :
      (base : List ℕ) (i : ℕ) (shapes : Shapes) (fields : List Field)
      → parse_fields sscanf is_time base i shapes ≡ ok fields
      → Parsed base i fields
  unfolding parse_fields
  parse_fields-Parsed base i no_more [] h = (tt, tt, tt)
  parse_fields-Parsed base i no_more (f ∷ fields) h = ground arith
  parse_fields-Parsed base i (field_and sh inner rest) fields h =
      let more = parse_fields sscanf is_time base (suc i) rest in
      let f = field_of sscanf is_time base i sh in
      if_then (not sh.exported) more _
        (λ e. later base i fields (parse_fields-Parsed base (suc i) rest fields e))
        (if_then (sh.anonymous && is_struct (pointed_to sh.go_type)) _ _
          (λ e.
            let (a, b, ea, eb, same) =
              appended-ok (parse_fields sscanf is_time (base ++ i ∷ []) 0 inner) more fields e in
            subst (Parsed base i) (sym same) (
              embedded-Parsed base i a b (parse_fields-Parsed (base ++ i ∷ []) 0 inner a ea)
                (parse_fields-Parsed base (suc i) rest b eb)))
          (if_then (is_column sscanf is_time sh inner) _ more
            (λ e.
              let (b, eb, same, none_wrong) = checked-ok _ f more fields e in
              subst (Parsed base i) (sym same) (
                with_field-Parsed base i f b (unfold field_of in ([], refl))
                  (validate_field-IsValid f none_wrong)
                  (parse_fields-Parsed base (suc i) rest b eb)))
            (λ e. later base i fields (parse_fields-Parsed base (suc i) rest fields e))))
        h

  if_Marked :
      (f : Field) (before : Option Field)
      → Marked before
      → Marked (if f.is_pk then some f else before)
  if_Marked f before marked = elim (Bool-cases f.is_pk) [
    | inl key ↦ rw key refl
    | inr other ↦ rw other marked
  ]

  last_pk-Marked :
      (before : Option Field) (fields : List Field)
      → Marked before
      → Marked (last_pk sscanf is_time before fields)
  unfolding last_pk
  last_pk-Marked before [] marked = marked
  last_pk-Marked before (f ∷ fields) marked =
      last_pk-Marked (if f.is_pk then some f else before) fields (if_Marked f before marked)

  abbrev ValidModel : Model → Type 0
  ValidModel m = Distinct m.fields × All IsValid m.fields × Marked m.pk_field

  abbrev OrElse : Fallible FieldError Model → Type 0
  OrElse (ok m) = ValidModel m
  OrElse _ = Unit {0}

  -- The fields of a model that is parsed without an error lie at different places, also across embedded
  -- structs; each that is set to the time has the type of times, or points to one, and each that the
  -- database counts up is an integer, or points to one; and its primary key, if any, is marked as one.
  pub parse_model-IsValid :
      (table : Option String) (name : String) (shapes : Shapes) (m : Model)
      → parse_model sscanf is_time table name shapes ≡ ok m
      → Distinct m.fields × All IsValid m.fields × Marked m.pk_field
  unfolding parse_model
  parse_model-IsValid table name shapes m h =
      let (fields, e, same) = then_do-ok (parse_fields sscanf is_time [] 0 shapes) _ h in
      let (_, distinct, valid) = parse_fields-Parsed [] 0 shapes fields e in
      subst OrElse same (distinct, valid, last_pk-Marked none fields tt)
