-- ===== src/Logger.antt =====
-- logger/logger.go. A writer is a number, by which two of them are compared; what is written is a list
-- of the writers with their texts. A level is a number. `Sprintf`, `json.Marshal`, which gives no bytes
-- on an error, and the formats of a time are a record.
mod Laws
mod Tests
use text.Mathlib.Text.{starts_with}
use jorm.Base.{
  ℕ, String, Bool, true, false, ◌&&◌, ◌||◌, not, Option, none, some, List, [], ◌∷◌, ◌++◌, leb, ◌==◌,
  str_eq, ◌⧺◌, to_upper, trim_space, length, map, if◌then◌else◌,
}

abbrev pub level_silent : ℕ
level_silent = 0

abbrev pub level_error : ℕ
level_error = 1

abbrev pub level_warn : ℕ
level_warn = 2

abbrev pub level_info : ℕ
level_info = 3

abbrev pub level_debug : ℕ
level_debug = 4

pub data Format : Type 0 where
  text_format json_format : Format

-- A value that is logged: a text, a list of values of the program, or one of them.
pub data Arg (V : Type 0) : Type 0 where
  str : String → Arg V
  many : List V → Arg V
  other : V → Arg V

-- `nil` is no writer.
pub record BaseLogger (V : Type 0) : Type 0 where
  pub level : ℕ
  pub format : Format
  pub writer : Option ℕ
  pub level_writers : List (ℕ × Option ℕ)
  pub fields : List (String × Arg V)

-- `m[key] = value`, and `m[key]` of a map with numbers as keys.
unfoldable pub set_at {ℓ} : {A : Type ℓ} → ℕ → A → List (ℕ × A) → List (ℕ × A)
set_at k a [] = (k, a) ∷ []
set_at k a ((j, b) ∷ m) = if j == k then (k, a) ∷ m else (j, b) ∷ set_at k a m

unfoldable pub value_at : ℕ → List (ℕ × Option ℕ) → Option ℕ
value_at k [] = none
value_at k ((j, b) ∷ m) = if j == k then b else value_at k m

-- The same of a map with texts as keys.
unfoldable pub set_field {ℓ} : {A : Type ℓ} → String → A → List (String × A) → List (String × A)
set_field k a [] = (k, a) ∷ []
set_field k a ((j, b) ∷ m) = if str_eq j k then (k, a) ∷ m else (j, b) ∷ set_field k a m

unfoldable pub set_fields {ℓ} :
    {A : Type ℓ} → List (String × A) → List (String × A) → List (String × A)
unfolding set_field
set_fields [] m = m
set_fields ((k, a) ∷ more) m = set_fields more (set_field k a m)

-- `getSQLColor`: the yellow, green, red and cyan of a terminal.
unfoldable pub get_sql_color : String → String
unfolding to_upper trim_space
get_sql_color sql =
    let s = trim_space (to_upper sql) in
    if starts_with s "SELECT"
    then "\u{1b}[33m"
    else if starts_with s "INSERT" || starts_with s "UPDATE"
    then "\u{1b}[32m"
    else if starts_with s "DELETE"
    then "\u{1b}[31m"
    else "\u{1b}[36m"

-- `parseLevel`
unfoldable pub parse_level : String → ℕ
unfolding to_upper
parse_level name =
    let upper = to_upper name in
    if str_eq upper "DEBUG"
    then level_debug
    else if str_eq upper "INFO"
    then level_info
    else if str_eq upper "SQL"
    then level_debug
    else if str_eq upper "WARN"
    then level_warn
    else if str_eq upper "ERROR"
    then level_error
    else level_info

pub record Printing (V : Type 0) : Type 0 where
  pub sprintf : String → List (Arg V) → String
  pub marshal : List (String × Arg V) → String
  pub sprint_fields : List (String × Arg V) → String
  pub rfc3339 : ℕ → String
  pub date_time : ℕ → String
  pub duration_string : V → String

abbrev pub same_writer : Option ℕ → ℕ → Bool
same_writer none w = false
same_writer (some v) w = v == w

abbrev pub writer_list : Option ℕ → List ℕ
writer_list none = []
writer_list (some w) = w ∷ []

abbrev pub level_writer : Option ℕ → Option ℕ → List ℕ
level_writer default none = []
level_writer default (some w) = if same_writer default w then [] else w ∷ []

abbrev pub coloured : Option String → String → String
coloured none msg = msg
coloured (some color) msg = color ⧺ (msg ⧺ "\u{1b}[0m")

module _ {V : Type 0} where
  unfoldable pub set_level : ℕ → BaseLogger V → BaseLogger V
  set_level level l = record l { level = level }

  unfoldable pub set_format : Format → BaseLogger V → BaseLogger V
  set_format format l = record l { format = format }

  unfoldable pub set_output : Option ℕ → BaseLogger V → BaseLogger V
  set_output w l = record l { writer = w }

  unfoldable pub set_level_output : ℕ → Option ℕ → BaseLogger V → BaseLogger V
  unfolding set_at
  set_level_output level w l = record l { level_writers = set_at level w l.level_writers }

  -- `WithFields`, on a clone, whose maps are copies.
  unfoldable pub with_fields : List (String × Arg V) → BaseLogger V → BaseLogger V
  unfolding set_fields
  with_fields fields l = record l { fields = set_fields fields l.fields }

  -- The writers of a message of the level.
  unfoldable pub writers_for : BaseLogger V → ℕ → List ℕ
  unfolding value_at
  writers_for l msg_level =
      writer_list l.writer ++ level_writer l.writer (value_at msg_level l.level_writers)

  -- The pairs of a key and a value in the arguments.
  unfoldable pub structured : List (Arg V) → List (String × Arg V) → List (String × Arg V)
  unfolding set_field
  structured (str key ∷ value ∷ rest) m = structured rest (set_field key value m)
  structured (many vs ∷ value ∷ rest) m = structured rest m
  structured (other v ∷ value ∷ rest) m = structured rest m
  structured (a ∷ []) m = m
  structured [] m = m

  -- `args[1].(string)`, where there are two arguments or more.
  unfoldable pub second_text : List (Arg V) → Option String
  second_text (a ∷ str sql ∷ rest) = some sql
  second_text xs = none

module _ {V : Type 0} (p : Printing V) where
  open p use {sprintf, marshal, sprint_fields, rfc3339, date_time, duration_string}

  unfoldable pub json_data :
      BaseLogger V → ℕ → String → String → List (Arg V) → List (String × Arg V)
  unfolding set_field structured
  json_data l now level fmt xs =
      let stamped = set_field "level" (str level) (set_field "time" (str (rfc3339 now)) l.fields) in
      if not (str_eq fmt "")
      then set_field "msg" (str (if leb 1 (length xs) then sprintf fmt xs else fmt)) stamped
      else if leb 2 (length xs)
      then structured xs stamped
      else stamped

  abbrev pub color_of : Bool → Option String → Option String
  color_of false sql = none
  color_of true none = none
  color_of true (some sql) = some (get_sql_color sql)

  unfoldable pub text_line : BaseLogger V → ℕ → String → String → String → List (Arg V) → String
  unfolding second_text get_sql_color
  text_line l now level shown fmt xs =
      let msg = if not (str_eq fmt "") then sprintf fmt xs else "" in
      let msg = coloured (color_of (str_eq level "SQL") (second_text xs)) msg in
      let field_str =
        if leb 1 (length l.fields) then " | fields: " ⧺ sprint_fields l.fields else "" in
      "[JORM] " ⧺ (date_time now ⧺ (" | " ⧺ (shown ⧺ (" |  " ⧺ (msg ⧺ (field_str ⧺ "\n"))))))

  abbrev pub line_of : Format → String → String → String
  line_of json_format json line = json ⧺ "\n"
  line_of text_format json line = line

  abbrev pub shown_level : String → String
  shown_level level = if str_eq level "SQL" then "DEBUG" else level

  -- `emit`: without writers the list is empty, as after the early return.
  unfoldable pub emit : BaseLogger V → ℕ → String → String → List (Arg V) → List (ℕ × String)
  unfolding writers_for parse_level json_data text_line
  emit l now level fmt xs =
      let line =
        line_of l.format (marshal (json_data l now (shown_level level) fmt xs))
          (text_line l now level (shown_level level) fmt xs) in
      map (λ w. (w, line)) (writers_for l (parse_level level))

  unfoldable pub info : BaseLogger V → ℕ → String → List (Arg V) → List (ℕ × String)
  unfolding emit
  info l now fmt xs = if leb level_info l.level then emit l now "INFO" fmt xs else []

  unfoldable pub warn : BaseLogger V → ℕ → String → List (Arg V) → List (ℕ × String)
  unfolding emit
  warn l now fmt xs = if leb level_warn l.level then emit l now "WARN" fmt xs else []

  unfoldable pub error : BaseLogger V → ℕ → String → List (Arg V) → List (ℕ × String)
  unfolding emit
  error l now fmt xs = if leb level_error l.level then emit l now "ERROR" fmt xs else []

  abbrev pub sql_args : Format → String → V → List V → List (Arg V)
  sql_args json_format sql duration vs =
      str "sql"
      ∷ str sql
      ∷ str "duration"
      ∷ str (duration_string duration)
      ∷ str "args"
      ∷ many vs
      ∷ []
  sql_args text_format sql duration vs = other duration ∷ str sql ∷ many vs ∷ []

  abbrev pub sql_format : Format → String
  sql_format json_format = ""
  sql_format text_format = "%v | %s | args: %v"

  -- `SQL`
  unfoldable pub log_sql : BaseLogger V → ℕ → String → V → List V → List (ℕ × String)
  unfolding emit
  log_sql l now sql duration vs =
      if leb level_debug l.level
      then emit l now "SQL" (sql_format l.format) (sql_args l.format sql duration vs)
      else []

-- `NewStdLogger`, where `os.Stdout` is the writer 1.
abbrev pub new_std_logger : {V : Type 0} → BaseLogger V
new_std_logger = record {
  level = level_error;
  format = text_format;
  writer = some 1;
  level_writers = [];
  fields = [];
}
