-- ===== src/Generator/TagSets.antt =====
-- What the parts of a generated tag of cmd/jorm-gen/main.go set when model/tag.go parses them.
use jorm.Base.{
  ℕ, ◌≡◌, refl, sym, ap, ◌∙◌, Bool, true, false, not, ◌&&◌, String, Option, List, [], ◌∷◌, ◌++◌,
  str_eq, eq_iff, to_lower, to_upper, decimal, read_decimal, read_decimal-decimal, is_space,
  trim_space, Bool-cases, inl, inr, if◌then◌else◌,
}
use jorm.Model.Tag.{Tag, set_part, set_parts, set_key, or_blank}
use jorm.Model.Splits.{lacks}
use jorm.Model.TagTexts.{IsPlain, closed, set_part-keyed}
use jorm.Generator.{Field, keyed, tag_if, type_name, is_decimal, before_paren, has_size, time_tags}

-- The type that a tag asks for.
unfoldable pub sql_type_of : String → String
unfolding type_name before_paren to_upper to_lower trim_space
sql_type_of db_type =
    if str_eq db_type ""
    then ""
    else if is_decimal (to_upper db_type)
    then to_lower db_type
    else or_blank (type_name (trim_space (before_paren (to_upper db_type))))

-- What the tag of a field is to say.
unfoldable pub tag_of : Field → Tag
unfolding sql_type_of to_lower
tag_of f = record {
  column = f.column;
  primary_key = f.is_pk;
  auto_inc = f.is_pk && f.is_auto;
  size = if has_size f then f.size else 0;
  unique = f.is_unique;
  not_null = f.is_not_null;
  default = f.default;
  fk = f.foreign_key;
  auto_time = str_eq (to_lower f.column) "created_at";
  auto_update = str_eq (to_lower f.column) "updated_at";
  relation_type = "";
  foreign_key = f.foreign_key;
  references = "";
  join_table = "";
  join_fk = "";
  join_ref = "";
  sql_type = sql_type_of f.db_type;
}

pub decimal-eq_empty : (n : ℕ) → str_eq (decimal n) "" ≡ false
decimal-eq_empty n = elim (Bool-cases (str_eq (decimal n) "")) [
  | inl same ↦
      let blank = (eq_iff (decimal n) "").0 same in
      let zero_only : n ≡ 0 =
        sym (read_decimal-decimal n) ∙ ap read_decimal blank ∙ unfold read_decimal in refl in
      ap (λ k. str_eq (decimal k) "") zero_only ∙ unfold decimal in refl
  | inr other ↦ other
]

module _ (sscanf : String → Option ℕ) where
  set_parts-append :
      (xs ys : List String) (tag : Tag)
      → set_parts sscanf (xs ++ ys) tag ≡ set_parts sscanf ys (set_parts sscanf xs tag)
  unfolding set_parts
  set_parts-append [] ys tag = refl
  set_parts-append (x ∷ xs) ys tag = set_parts-append xs ys (set_part sscanf x tag)

  pub and_then :
      (xs ys : List String) (tag mid : Tag) {last : Tag}
      → set_parts sscanf xs tag ≡ mid
      → set_parts sscanf ys mid ≡ last
      → set_parts sscanf (xs ++ ys) tag ≡ last
  and_then xs ys tag mid h k = set_parts-append xs ys tag ∙ ap (set_parts sscanf ys) h ∙ k

  pub set-pk :
      (pk auto : Bool) (tag : Tag)
      → tag.primary_key ≡ false
      → tag.auto_inc ≡ false
      → set_parts sscanf (if pk then "pk" ∷ tag_if auto "auto" else []) tag
        ≡ record tag { primary_key = pk; auto_inc = pk && auto }
  unfolding set_parts
  set-pk true true tag h k = refl
  set-pk true false tag h k = λ i. record tag { primary_key = true; auto_inc = k i }
  set-pk false auto tag h k = λ i. record tag { primary_key = h i; auto_inc = k i }

  pub set-not_null :
      (b : Bool) (tag : Tag)
      → tag.not_null ≡ false
      → set_parts sscanf (tag_if b "notnull") tag ≡ record tag { not_null = b }
  unfolding set_parts
  set-not_null true tag h = refl
  set-not_null false tag h = λ i. record tag { not_null = h i }

  pub set-unique :
      (b : Bool) (tag : Tag)
      → tag.unique ≡ false
      → set_parts sscanf (tag_if b "unique") tag ≡ record tag { unique = b }
  unfolding set_parts
  set-unique true tag h = refl
  set-unique false tag h = λ i. record tag { unique = h i }

  pub set-default :
      (s : String) (tag : Tag)
      → IsPlain s
      → tag.default ≡ ""
      → set_parts sscanf (tag_if (not (str_eq s "")) (keyed "default" s)) tag
        ≡ record tag { default = s }
  unfolding set_parts set_key lacks closed to_lower is_space
  set-default s tag plain h = elim (Bool-cases (str_eq s "")) [
    | inl none_given ↦ rw (none_given, (eq_iff s "").0 none_given) λ i. record tag { default = h i }
    | inr given ↦ rw given (set_part-keyed sscanf "default" s tag ((refl, refl), refl, refl) plain)
  ]

  pub set-fk :
      (s : String) (tag : Tag)
      → IsPlain s
      → tag.fk ≡ ""
      → tag.foreign_key ≡ ""
      → set_parts sscanf (tag_if (not (str_eq s "")) (keyed "fk" s)) tag
        ≡ record tag { fk = s; foreign_key = s }
  unfolding set_parts set_key lacks closed to_lower is_space
  set-fk s tag plain h k = elim (Bool-cases (str_eq s "")) [
    | inl none_given ↦
        rw (none_given, (eq_iff s "").0 none_given) λ i. record tag { fk = h i; foreign_key = k i }
    | inr given ↦ rw given (set_part-keyed sscanf "fk" s tag ((refl, refl), refl, refl) plain)
  ]

  pub set-column :
      (s : String) (tag : Tag)
      → IsPlain s
      → set_part sscanf (keyed "column" s) tag ≡ record tag { column = s }
  unfolding set_key lacks closed to_lower is_space
  set-column s tag = set_part-keyed sscanf "column" s tag ((refl, refl), refl, refl)

  pub set-type :
      (s : String) (tag : Tag)
      → IsPlain s
      → set_part sscanf (keyed "type" s) tag ≡ record tag { sql_type = s }
  unfolding set_key lacks closed to_lower is_space
  set-type s tag = set_part-keyed sscanf "type" s tag ((refl, refl), refl, refl)

  pub set-time :
      (column : String) (tag : Tag)
      → tag.auto_time ≡ false
      → tag.auto_update ≡ false
      → set_parts sscanf (time_tags column) tag ≡ record tag {
        auto_time = str_eq column "created_at";
        auto_update = str_eq column "updated_at";
      }
  unfolding set_parts time_tags
  set-time column tag h k = elim (Bool-cases (str_eq column "created_at")) [
    | inl created ↦
        rw ((eq_iff column "created_at").0 created)
          λ i. record tag { auto_time = true; auto_update = k i }
    | inr other ↦ elim (Bool-cases (str_eq column "updated_at")) [
      | inl updated ↦
          rw ((eq_iff column "updated_at").0 updated)
            λ i. record tag { auto_time = h i; auto_update = true }
      | inr neither ↦ rw (other, neither) λ i. record tag { auto_time = h i; auto_update = k i }
    ]
  ]
