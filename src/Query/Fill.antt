-- ===== src/Query/Fill.antt =====
-- `scanRowWithPlan`, `setFieldValue` and `getConverter` of core/query.go, and `scanRow` of
-- core/preload.go, which does the same with a plan of its own. The cache of converters and the pooled
-- buffers only save work.
use jorm.Base.{
  ℕ, String, Bool, false, ◌||◌, Option, none, some, List, ◌∷◌, ◌⊎◌, inl, inr, map, if◌then◌else◌,
}
use jorm.Core.Health.{Error}
use jorm.Core.Transaction.{wrapped}
use jorm.Model.{Field, Model, GoType, ptr_to}
use jorm.Query.Scan.{get_scan_plan}

-- What is given to `Scan` for a column, and what it holds afterwards: a TimeScanner has a time or not.
pub data Buffer : Type 0 where
  time_scanner ignored : Buffer
  new_value : GoType → Buffer

pub data Cell (V : Type 0) : Type 0 where
  scanned_time : Option ℕ → Cell V
  scanned : V → Cell V

-- What the code uses of `reflect` and `database/sql`: which type is `time.Time`, `Scan` of the current
-- row, the values of times and the zero values, the type of a value, the field of an object where it can
-- be set, and conversions.
pub record Reflected (R V T : Type 0) : Type 0 where
  pub is_time : GoType → Bool
  pub scan : List Buffer → R → Error ⊎ List (Cell V)
  pub time_value : ℕ → V
  pub zero_time : V
  pub time_pointer : ℕ → V
  pub zero_of : GoType → V
  pub type_of : V → GoType
  pub settable : Field → T → Option GoType
  pub put : Field → V → T → T
  pub same_type : GoType → GoType → Bool
  pub convertible_to : GoType → GoType → Bool
  pub convert : V → GoType → V

module _ {R V T : Type 0} (r : Reflected R V T) where
  unfoldable pub is_time_pointer : GoType → Bool
  is_time_pointer (ptr_to t) = r.is_time t
  is_time_pointer t = false

  unfoldable pub buffer_for : Option Field → Buffer
  unfolding is_time_pointer
  buffer_for none = ignored
  buffer_for (some f) =
      if r.is_time f.go_type || is_time_pointer f.go_type then time_scanner else new_value f.go_type

  -- `getConverter`; none does nothing.
  unfoldable pub get_converter : GoType → GoType → Option (V → V)
  get_converter src dst =
      if r.same_type src dst
      then some (λ v. v)
      else if r.convertible_to src dst
      then some (λ v. r.convert v dst)
      else none

  abbrev pub converted : Field → V → Option (V → V) → T → T
  converted f v none t = t
  converted f v (some conv) t = r.put f (conv v) t

  abbrev pub set_typed : Field → V → Option GoType → T → T
  set_typed f v none t = t
  set_typed f v (some type) t = converted f v (get_converter (r.type_of v) type) t

  unfoldable pub set_field_value : Field → V → T → T
  unfolding get_converter
  set_field_value f v t = set_typed f v (r.settable f t) t

  -- The value of a cell for a field.
  unfoldable pub value_in : Field → Cell V → V
  value_in f (scanned v) = v
  value_in f (scanned_time (some t)) =
      if r.is_time f.go_type then r.time_value t else r.time_pointer t
  value_in f (scanned_time none) = if r.is_time f.go_type then r.zero_time else r.zero_of f.go_type

  -- The loop over the fields of the plan, with the buffers.
  unfoldable pub set_cells : List (Option Field) → List (Cell V) → T → T
  unfolding set_field_value value_in
  set_cells (none ∷ fields) (c ∷ cells) t = set_cells fields cells t
  set_cells (some f ∷ fields) (c ∷ cells) t =
      set_cells fields cells (set_field_value f (value_in f c) t)
  set_cells _ _ t = t

  abbrev pub filled : List (Option Field) → T → Error ⊎ List (Cell V) → Error ⊎ T
  filled plan t (inl e) = inl e
  filled plan t (inr cells) = inr (set_cells plan cells t)

  abbrev pub scan_failed : Error ⊎ List (Cell V) → Error ⊎ List (Cell V)
  scan_failed (inl e) = inl (wrapped "sql scan failed: " e)
  scan_failed (inr cells) = inr cells

  unfoldable pub scan_row_with_plan : List (Option Field) → R → T → Error ⊎ T
  unfolding buffer_for set_cells
  scan_row_with_plan plan row t = filled plan t (scan_failed (r.scan (map buffer_for plan) row))

  abbrev pub scanned_by : List String → R → T → Error ⊎ Model → Error ⊎ T
  scanned_by columns row t (inl e) = inl e
  scanned_by columns row t (inr m) =
      let plan = get_scan_plan m columns in filled plan t (r.scan (map buffer_for plan) row)

  -- `scanRow` of core/preload.go, of what `Columns` and `GetModel` give.
  unfoldable pub preload_scan_row : Error ⊎ List String → Error ⊎ Model → R → T → Error ⊎ T
  unfolding buffer_for set_cells get_scan_plan
  preload_scan_row (inl e) m row t = inl e
  preload_scan_row (inr columns) m row t = scanned_by columns row t m
