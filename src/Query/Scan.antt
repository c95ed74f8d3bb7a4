-- ===== src/Query/Scan.antt =====
-- `getScanPlan` and `TimeScanner` of core/query.go.
use Prim.Native.Char.{code}
use jorm.Base.{ℕ, String, ◌||◌, Option, none, some, List, [], ◌∷◌, map, ◌==◌, str_eq, if◌then◌else◌}
use jorm.Model.{Field, Model}
use jorm.Model.Tag.{split_by}
use jorm.Preload.Execute.{by_column}

abbrev pub last_part : List String → Option String
last_part [] = none
last_part (p ∷ []) = none
last_part (p ∷ q ∷ []) = some q
last_part (p ∷ q ∷ r ∷ rest) = last_part (q ∷ r ∷ rest)

unfoldable pub field_by : Option String → List Field → Option Field
unfolding by_column
field_by none fields = none
field_by (some name) fields = by_column name fields

-- A column is one of the fields, or what follows its last dot is.
unfoldable pub planned_field : List Field → String → Option Field
unfolding by_column field_by split_by
planned_field fields column = elim (by_column column fields) [
  | some f ↦ some f
  | none ↦ field_by (last_part (split_by (λ c. code c == 46) column)) fields
]

unfoldable pub get_scan_plan : Model → List String → List (Option Field)
unfolding planned_field
get_scan_plan m columns = map (planned_field m.fields) columns

-- What a driver gives to `Scan`.
pub data Scanned : Type 0 where
  null : Scanned
  time : ℕ → Scanned
  text bytes : String → Scanned
  other : Scanned

abbrev pub layouts : List String
layouts =
    "2006-01-02 15:04:05" ∷ "2006-01-02T15:04:05Z07:00" ∷ "2006-01-02"
    ∷ "2006-01-02T15:04:05.999999999Z07:00" ∷ []

-- The first layout by which the text is a time.
unfoldable pub first_layout : (String → String → Option ℕ) → String → List String → Option ℕ
first_layout read s [] = none
first_layout read s (layout ∷ rest) = elim (read layout s) [
  | some t ↦ some t
  | none ↦ first_layout read s rest
]

-- The scanner afterwards: with a time or not. None is an error. `in_local` and `in_utc` are
-- `time.ParseInLocation` in the local zone and `time.Parse`.
module _ (in_local in_utc : String → String → Option ℕ) where
  unfoldable pub parse_time : String → Option (Option ℕ)
  unfolding first_layout
  parse_time s =
      let local = first_layout in_local s layouts in
      let utc = first_layout in_utc s layouts in
      if str_eq s "" || str_eq s "0000-00-00 00:00:00" || str_eq s "0000-00-00"
      then some none
      else elim local [
        | some t ↦ some (some t)
        | none ↦ elim utc [ some t ↦ some (some t) | none ↦ none ]
      ]

  unfoldable pub scan_time : Scanned → Option (Option ℕ)
  unfolding parse_time
  scan_time null = some none
  scan_time (time t) = some (some t)
  scan_time (text s) = parse_time s
  scan_time (bytes s) = parse_time s
  scan_time other = none
