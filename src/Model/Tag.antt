-- ===== src/Model/Tag.antt =====
-- `ParseTag` of model/tag.go. `Sscanf` of a size is a parameter; a size is not negative.
use Prim.Native.Char.{Char, code}
use jorm.Base.{
  ℕ, ◌≡◌, refl, String, Bool, true, false, ◌||◌, ◌&&◌, not, Option, none, some, List, [], ◌∷◌, ◌==◌,
  str_eq, to_lower, is_space, trim_space, if◌then◌else◌,
}

pub record Tag : Type 0 where
  pub column : String
  pub primary_key : Bool
  pub auto_inc : Bool
  pub size : ℕ
  pub unique : Bool
  pub not_null : Bool
  pub default : String
  pub fk : String
  pub auto_time : Bool
  pub auto_update : Bool
  pub relation_type : String
  pub foreign_key : String
  pub references : String
  pub join_table : String
  pub join_fk : String
  pub join_ref : String
  pub sql_type : String

-- `&Tag{}`
abbrev pub empty_tag : Tag
empty_tag = record {
  column = "";
  primary_key = false;
  auto_inc = false;
  size = 0;
  unique = false;
  not_null = false;
  default = "";
  fk = "";
  auto_time = false;
  auto_update = false;
  relation_type = "";
  foreign_key = "";
  references = "";
  join_table = "";
  join_fk = "";
  join_ref = "";
  sql_type = "";
}

abbrev is_separator : Char → Bool
is_separator c = code c == 59 || code c == 44

-- The loop over the characters: `;` and `,` become spaces, but not in parentheses.
unfoldable pub spaced : Bool → String → String
spaced in_paren String.[] = ""
spaced in_paren (String.◌∷◌ c s) = elim (code c == 40) [
  | true ↦ String.◌∷◌ c (spaced true s)
  | false ↦ elim (code c == 41) [
    | true ↦ String.◌∷◌ c (spaced false s)
    | false ↦
        let rest = spaced in_paren s in
        if is_separator c && not in_paren then String.◌∷◌ " " rest else String.◌∷◌ c rest
  ]
]

abbrev pub onto_first : Char → List String → List String
onto_first c [] = String.◌∷◌ c "" ∷ []
onto_first c (p ∷ parts) = String.◌∷◌ c p ∷ parts

-- The parts between the characters that are separators.
unfoldable pub split_by : (Char → Bool) → String → List String
split_by separates String.[] = "" ∷ []
split_by separates (String.◌∷◌ c s) =
    let rest = split_by separates s in if separates c then "" ∷ rest else onto_first c rest

unfoldable pub not_empty : List String → List String
not_empty [] = []
not_empty (p ∷ parts) = let rest = not_empty parts in if str_eq p "" then rest else p ∷ rest

-- `strings.Fields`
unfoldable pub words : String → List String
unfolding split_by not_empty is_space
words s = not_empty (split_by is_space s)

abbrev pub onto_key : Char → String × Option String → String × Option String
onto_key c (k, v) = (String.◌∷◌ c k, v)

-- `strings.SplitN(s, ":", 2)`
unfoldable pub split_colon : String → String × Option String
split_colon String.[] = ("", none)
split_colon (String.◌∷◌ c s) =
    let rest = split_colon s in if code c == 58 then ("", some s) else onto_key c rest

abbrev pub or_blank : Option String → String
or_blank none = ""
or_blank (some v) = v

abbrev pub first_of : List String → String
first_of [] = ""
first_of (p ∷ parts) = trim_space p

-- The inner `switch`.
unfoldable pub set_sub : String → String → Tag → Tag
set_sub key value tag =
    if str_eq key "relation"
    then record tag { relation_type = value }
    else if str_eq key "references"
    then record tag { references = value }
    else if str_eq key "join_table"
    then record tag { join_table = value }
    else if str_eq key "join_fk"
    then record tag { join_fk = value }
    else if str_eq key "join_ref"
    then record tag { join_ref = value }
    else tag

unfoldable pub set_sub_part : String × Option String → Tag → Tag
unfolding set_sub to_lower trim_space
set_sub_part (key, none) tag = tag
set_sub_part (key, some value) tag = set_sub (to_lower (trim_space key)) (trim_space value) tag

-- The loop over the parts of a value after the first.
unfoldable pub set_sub_parts : List String → Tag → Tag
unfolding set_sub_part split_colon trim_space
set_sub_parts [] tag = tag
set_sub_parts (p ∷ parts) tag = set_sub_parts parts (set_sub_part (split_colon (trim_space p)) tag)

abbrev pub after_first : List String → List String
after_first [] = []
after_first (p ∷ parts) = parts

module _ (sscanf : String → Option ℕ) where
  unfoldable pub set_size : Option ℕ → Tag → Tag
  set_size none tag = tag
  set_size (some n) tag = record tag { size = n }

  -- The `switch` on the key; `value` is the first part of `full`.
  unfoldable pub set_key : String → String → String → Tag → Tag
  unfolding set_size
  set_key key full value tag =
      if str_eq key "column"
      then record tag { column = value }
      else if str_eq key "pk"
      then record tag { primary_key = true }
      else if str_eq key "auto"
      then record tag { auto_inc = true }
      else if str_eq key "unique"
      then record tag { unique = true }
      else if str_eq key "notnull"
      then record tag { not_null = true }
      else if str_eq key "size"
      then (if str_eq full "" then tag else set_size (sscanf full) tag)
      else if str_eq key "default"
      then record tag { default = value }
      else if str_eq key "fk"
      then record tag { fk = value; foreign_key = value }
      else if str_eq key "auto_time"
      then record tag { auto_time = true }
      else if str_eq key "auto_update"
      then record tag { auto_update = true }
      else if str_eq key "type"
      then record tag { sql_type = value }
      else if str_eq key "many2many" || str_eq key "many_to_many"
      then record tag {
        relation_type = "many_to_many";
        join_table = if str_eq full "" then tag.join_table else full;
      }
      else if str_eq key "has_one" || str_eq key "has_many" || str_eq key "belongs_to"
      then record tag { relation_type = key }
      else if str_eq key "foreignkey"
      then record tag { foreign_key = value }
      else if str_eq key "references"
      then record tag { references = value }
      else if str_eq key "join_table"
      then record tag { join_table = value }
      else if str_eq key "join_fk"
      then record tag { join_fk = value }
      else if str_eq key "join_ref"
      then record tag { join_ref = value }
      else if str_eq key "relation"
      then record tag { relation_type = value }
      else tag

  -- The body of the loop over the parts.
  unfoldable pub set_part : String → Tag → Tag
  unfolding split_colon split_by set_sub_parts set_key to_lower trim_space
  set_part part tag =
      let trimmed = trim_space part in
      let (key, value) = split_colon trimmed in
      let parts = split_by (λ c. code c == 59) (or_blank value) in
      if str_eq trimmed ""
      then tag
      else set_key (to_lower key) (or_blank value) (first_of parts)
          (set_sub_parts (after_first parts) tag)

  unfoldable pub set_parts : List String → Tag → Tag
  unfolding set_part
  set_parts [] tag = tag
  set_parts (p ∷ parts) tag = set_parts parts (set_part p tag)

  unfoldable pub parse_tag : String → Tag
  unfolding spaced words set_parts
  parse_tag s = if str_eq s "" then empty_tag else set_parts (words (spaced false s)) empty_tag

  parsed :
      parse_tag "column:user_name; unique,type:decimal(10,2)"
      ≡ record empty_tag { column = "user_name"; unique = true; sql_type = "decimal(10,2)" }
  unfolding parse_tag
  parsed = refl
