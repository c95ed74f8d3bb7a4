-- ===== src/Query/Values.antt =====
-- `getModelValues` and `setPKValue` of core/query.go.
use jorm.Base.{
  ℕ, ℤ, String, Bool, true, false, ◌&&◌, ◌||◌, not, Option, none, some, List, [], ◌∷◌, ◌>>=◌, Value,
  if◌then◌else◌,
}
use jorm.Model.{Field}

-- What reflection does with the field of an object, that its accessor or its index leads to. `set_now`
-- sets a time, and panics where the field has another type.
pub record Reflection (T : Type 0) : Type 0 where
  pub interface : Field → T → Value
  pub can_set : Field → T → Bool
  pub is_zero : Field → T → Bool
  pub is_time : Field → Bool
  pub set_now : ℕ → Field → T → Option T
  -- `SetInt` where the field is an int or an int64 that can be set, or else nothing.
  pub set_int : ℤ → Field → T → T

unfoldable pub is_passed_over : Bool → Field → Bool
is_passed_over update f = not update && f.is_auto || update && f.is_pk

module _ {T : Type 0} (r : Reflection T) where
  -- The times that an insert fills in.
  unfoldable pub set_created : Bool → ℕ → Field → T → Option T
  set_created update now f t =
      if not update && f.auto_time && r.can_set f t
      then r.set_now now f t
      else if not update && r.can_set f t && r.is_time f && r.is_zero f t
      then r.set_now now f t
      else some t

  unfoldable pub set_updated : ℕ → Field → T → Option T
  set_updated now f t = if f.auto_update && r.can_set f t then r.set_now now f t else some t

  unfoldable pub set_times : Bool → ℕ → Field → T → Option T
  unfolding set_created set_updated
  set_times update now f t = do t' ← set_created update now f t; set_updated now f t'

  -- The object, and the columns with their arguments.
  abbrev pub Values : Type 0
  Values = T × List String × List Value

  -- The end of the loop's body, after the rest of the loop.
  abbrev pub with_column : Field → Value → Values → Values
  with_column f v (t, columns, args) = (t, f.column ∷ columns, v ∷ args)

  -- The body of the loop for a field that is not passed over, and the rest of the loop.
  unfoldable pub read_field : Bool → ℕ → Field → (T → Option Values) → T → Option Values
  unfolding set_times
  read_field update now f rest t = do
    t' ← set_times update now f t
    more ← rest t'
    some (if update && r.is_zero f t' then more else with_column f (r.interface f t') more)

  unfoldable pub get_model_values : Bool → ℕ → List Field → T → Option Values
  unfolding read_field is_passed_over
  get_model_values update now [] t = some (t, [], [])
  get_model_values update now (f ∷ fields) t = elim (is_passed_over update f) [
    | true ↦ get_model_values update now fields t
    | false ↦ read_field update now f (λ t'. get_model_values update now fields t') t
  ]

  unfoldable pub set_pk_value : ℤ → Option Field → T → T
  set_pk_value id none t = t
  set_pk_value id (some pk) t = if pk.is_auto then r.set_int id pk t else t
