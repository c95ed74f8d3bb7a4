-- ===== src/Generator/TagParts.antt =====
-- The parts of the tags of cmd/jorm-gen/main.go are kept whole by model/tag.go.
use jorm.Base.{
  ◌≡◌, refl, Bool, true, false, not, ◌||◌, String, Option, none, some, List, [], ◌∷◌, str_eq, join,
  All, All-append, to_lower, to_upper, decimal, all_digits-decimal, is_space, trim_space,
  if◌then◌else◌,
}
use jorm.Model.Tag.{or_blank}
use jorm.Model.Splits.{lacks}
use jorm.Model.TagTexts.{
  IsPlain, IsPart, IsKey, closed, all_digits-IsPlain, keyed-IsPart, append-eq_empty,
}
use jorm.Generator.{
  Field, keyed, tag_if, type_tag, type_tags, type_name, is_decimal, before_paren, has_size,
  time_tags, tags_of,
}

-- The texts of a field that stand in its tag.
pub record IsPrintable (f : Field) : Type 0 where
  pub plain_column : IsPlain f.column
  pub plain_default : IsPlain f.default
  pub plain_key : IsPlain f.foreign_key
  pub plain_type : IsPlain (if is_decimal (to_upper f.db_type) then to_lower f.db_type else "")

-- A name, or none, that stands in a tag as it is.
pub data Named (o : Option String) : Type 0 where
  named : IsPlain (or_blank o) → Named o

if-Named :
    (b : Bool) (s : String) (p : Option String)
    → IsPlain s
    → Named p
    → Named (if b then some s else p)
if-Named true s p h k = named h
if-Named false s p h k = k

pub IsPlain-name : {o : Option String} → Named o → IsPlain (or_blank o)
IsPlain-name (named h) = h

pub type_name-Named : (base : String) → Named (type_name base)
unfolding type_name closed is_space
type_name-Named base = if-Named (str_eq base "TINYINT") _ _ refl (
    if-Named (str_eq base "SMALLINT") _ _ refl (
      if-Named (str_eq base "MEDIUMINT") _ _ refl (
        if-Named (str_eq base "BIGINT") _ _ refl (
          if-Named (str_eq base "BLOB" || str_eq base "LONGBLOB" || str_eq base "MEDIUMBLOB") _ _
            refl
            (if-Named (str_eq base "TEXT" || str_eq base "LONGTEXT" || str_eq base "MEDIUMTEXT") _ _
              refl
              (if-Named (str_eq base "JSON") _ _ refl (
                if-Named (str_eq base "DATE") _ _ refl (
                  if-Named (str_eq base "DATETIME") _ _ refl (
                    if-Named (str_eq base "TIMESTAMP") _ _ refl (
                      if-Named (str_eq base "BOOLEAN" || str_eq base "BOOL") _ _ refl
                        (named refl)))))))))))

if-All :
    (b : Bool) (xs ys : List String)
    → All IsPart xs
    → All IsPart ys
    → All IsPart (if b then xs else ys)
if-All true xs ys h k = h
if-All false xs ys h k = k

keyed_if-All : (b : Bool) (k v : String) → IsKey k → IsPlain v → All IsPart (tag_if b (keyed k v))
keyed_if-All true k v key plain = (keyed-IsPart k v key plain, tt)
keyed_if-All false k v key plain = tt

type_tag-All : (o : Option String) → IsPlain (or_blank o) → All IsPart (type_tag o)
unfolding closed lacks to_lower is_space
type_tag-All none h = tt
type_tag-All (some name) h = (keyed-IsPart "type" name ((refl, refl), refl, refl) h, tt)

decimal_tag-All :
    (b : Bool) (s : String) → IsPlain (if b then s else "") → All IsPart (tag_if b (keyed "type" s))
unfolding closed lacks to_lower is_space
decimal_tag-All true s h = keyed_if-All true "type" s ((refl, refl), refl, refl) h
decimal_tag-All false s h = tt

type_tags-All :
    (db_type : String)
    → IsPlain (if is_decimal (to_upper db_type) then to_lower db_type else "")
    → All IsPart (type_tags db_type)
unfolding type_tags
type_tags-All db_type h =
    let base = trim_space (before_paren (to_upper db_type)) in
    if-All (str_eq db_type "") [] _ tt (
      All-append IsPart (type_tag (type_name base)) _
        (type_tag-All (type_name base) (IsPlain-name (type_name-Named base)))
        (decimal_tag-All (is_decimal (to_upper db_type)) (to_lower db_type) h))

time_tags-All : (column : String) → All IsPart (time_tags column)
unfolding time_tags closed is_space
time_tags-All column =
    if-All (str_eq column "created_at") _ _ ((refl, refl), tt)
      (if-All (str_eq column "updated_at") _ _ ((refl, refl), tt) tt)

pub tags_of-All : (f : Field) → IsPrintable f → All IsPart (tags_of f)
unfolding tags_of closed is_space lacks to_lower
tags_of-All f p =
    let and_more = All-append IsPart in
    (
      keyed-IsPart "column" f.column ((refl, refl), refl, refl) p.plain_column,
      and_more _ _
          (if-All f.is_pk _ _ ((refl, refl), if-All f.is_auto _ _ ((refl, refl), tt) tt) tt)
          (and_more _ _ (if-All f.is_not_null _ _ ((refl, refl), tt) tt) (
            and_more _ _ (if-All f.is_unique _ _ ((refl, refl), tt) tt) (
              and_more (tag_if (not (str_eq f.default "")) (keyed "default" f.default)) _
                (keyed_if-All (not (str_eq f.default "")) "default" f.default
                  ((refl, refl), refl, refl) p.plain_default)
                (and_more (tag_if (not (str_eq f.foreign_key "")) (keyed "fk" f.foreign_key)) _
                  (keyed_if-All (not (str_eq f.foreign_key "")) "fk" f.foreign_key
                    ((refl, refl), refl, refl) p.plain_key)
                  (and_more (tag_if (has_size f) (keyed "size" (decimal f.size))) _
                    (keyed_if-All (has_size f) "size" (decimal f.size) ((refl, refl), refl, refl)
                      (all_digits-IsPlain (decimal f.size) (all_digits-decimal f.size)))
                    (and_more (time_tags (to_lower f.column)) _ (time_tags-All (to_lower f.column))
                      (type_tags-All f.db_type p.plain_type))))))),
    )

pub join-eq_empty :
    (p : String) (parts : List String)
    → str_eq p "" ≡ false
    → str_eq (join ";" (p ∷ parts)) "" ≡ false
unfolding join
join-eq_empty p [] h = h
join-eq_empty p (q ∷ parts) h = append-eq_empty p _ h
