-- ===== src/Generator/TagLaws.antt =====
-- The tags of cmd/jorm-gen/main.go as model/tag.go reads them.
use jorm.Base.{
  ℕ, ◌≡◌, refl, ◌∙◌, Bool, true, false, ◌&&◌, String, Option, none, some, [], ◌∷◌, str_eq, join,
  to_lower, to_upper, decimal, all_digits-decimal, is_space, trim_space, Bool-cases, inl, inr,
  if◌then◌else◌,
}
use jorm.Model.Tag.{Tag, set_parts, set_key, set_size, parse_tag, empty_tag, or_blank}
use jorm.Model.Splits.{lacks}
use jorm.Model.TagTexts.{IsPlain, closed, all_digits-IsPlain, set_part-keyed, words-spaced-join}
use jorm.Generator.{
  Field, keyed, tag_if, type_tag, type_tags, type_name, is_decimal, before_paren, has_size, tags_of,
  generate_tag,
}
use jorm.Generator.TagParts.{IsPrintable, type_name-Named, IsPlain-name, tags_of-All, join-eq_empty}
use jorm.Generator.TagSets.{
  sql_type_of, tag_of, decimal-eq_empty, and_then, set-pk, set-not_null, set-unique, set-default,
  set-fk, set-column, set-type, set-time,
}

module _ (sscanf : String → Option ℕ) where
  set-type_name :
      (o : Option String) (tag : Tag)
      → IsPlain (or_blank o)
      → tag.sql_type ≡ ""
      → set_parts sscanf (type_tag o) tag ≡ record tag { sql_type = or_blank o }
  unfolding set_parts
  set-type_name none tag plain h = λ i. record tag { sql_type = h i }
  set-type_name (some name) tag plain h = set-type sscanf name tag plain

  set-decimal :
      (b : Bool) (s : String) (tag : Tag)
      → IsPlain (if b then s else "")
      → set_parts sscanf (tag_if b (keyed "type" s)) tag
        ≡ record tag { sql_type = if b then s else tag.sql_type }
  unfolding set_parts
  set-decimal true s tag plain = set-type sscanf s tag plain
  set-decimal false s tag plain = refl

  set-types :
      (db_type : String) (tag : Tag)
      → IsPlain (if is_decimal (to_upper db_type) then to_lower db_type else "")
      → tag.sql_type ≡ ""
      → set_parts sscanf (type_tags db_type) tag ≡ record tag { sql_type = sql_type_of db_type }
  unfolding type_tags sql_type_of
  set-types db_type tag plain h = elim (Bool-cases (str_eq db_type "")) [
    | inl blank ↦ rw blank (unfold set_parts in λ i. record tag { sql_type = h i })
    | inr given ↦
        let base = trim_space (before_paren (to_upper db_type)) in
        let name = type_name base in
        rw given (
          and_then sscanf (type_tag name) _ tag (record tag { sql_type = or_blank name })
            (set-type_name name tag (IsPlain-name (type_name-Named base)) h)
            (set-decimal (is_decimal (to_upper db_type)) (to_lower db_type) _ plain))
  ]

  module _ (reads : (n : ℕ) → sscanf (decimal n) ≡ some n) where
    set-size :
        (b : Bool) (n : ℕ) (tag : Tag)
        → tag.size ≡ 0
        → set_parts sscanf (tag_if b (keyed "size" (decimal n))) tag
          ≡ record tag { size = if b then n else 0 }
    unfolding set_parts set_key lacks closed to_lower is_space
    set-size true n tag h =
        set_part-keyed sscanf "size" (decimal n) tag ((refl, refl), refl, refl)
          (all_digits-IsPlain _ (all_digits-decimal n))
        ∙ rw (decimal-eq_empty n, reads n, set_size) refl
    set-size false n tag h = λ i. record tag { size = h i }

    set_parts-tags_of :
        (f : Field) → IsPrintable f → set_parts sscanf (tags_of f) empty_tag ≡ tag_of f
    unfolding tags_of tag_of
    set_parts-tags_of f p =
        let t0 = record empty_tag { column = f.column } in
        let t1 = record t0 { primary_key = f.is_pk; auto_inc = f.is_pk && f.is_auto } in
        let t2 = record t1 { not_null = f.is_not_null } in
        let t3 = record t2 { unique = f.is_unique } in
        let t4 = record t3 { default = f.default } in
        let t5 = record t4 { fk = f.foreign_key; foreign_key = f.foreign_key } in
        let t6 = record t5 { size = if has_size f then f.size else 0 } in
        let low = to_lower f.column in
        let t7 = record t6 {
          auto_time = str_eq low "created_at";
          auto_update = str_eq low "updated_at";
        } in
        and_then sscanf (keyed "column" f.column ∷ []) _ empty_tag t0
          (unfold set_parts in set-column sscanf f.column empty_tag p.plain_column)
          (and_then sscanf _ _ t0 t1 (set-pk sscanf f.is_pk f.is_auto t0 refl refl) (
            and_then sscanf _ _ t1 t2 (set-not_null sscanf f.is_not_null t1 refl) (
              and_then sscanf _ _ t2 t3 (set-unique sscanf f.is_unique t2 refl) (
                and_then sscanf _ _ t3 t4 (set-default sscanf f.default t3 p.plain_default refl) (
                  and_then sscanf _ _ t4 t5 (set-fk sscanf f.foreign_key t4 p.plain_key refl refl) (
                    and_then sscanf _ _ t5 t6 (set-size (has_size f) f.size t5 refl) (
                      and_then sscanf _ _ t6 t7 (set-time sscanf low t6 refl refl)
                        (set-types f.db_type t7 p.plain_type refl))))))))

    -- Where a field's column, default, foreign key and, of a decimal type, its type in lower case have no
    -- space, no `;`, no `,` outside of parentheses and closed parentheses, and `Sscanf` reads a printed
    -- number back, parsing the generated tag gives the field: its column, key, constraints, default,
    -- reference, size of a text or of bytes, automatic time and type.
    pub parse_tag-generate_tag :
        (f : Field) → IsPrintable f → parse_tag sscanf (generate_tag f) ≡ tag_of f
    unfolding parse_tag generate_tag
    parse_tag-generate_tag f p =
        rw (filled, words-spaced-join (tags_of f) (tags_of-All f p)) (set_parts-tags_of f p)
      where
        filled : str_eq (join ";" (tags_of f)) "" ≡ false
        filled = unfold tags_of in join-eq_empty (keyed "column" f.column) _ (tags_of-All f p).0.1
