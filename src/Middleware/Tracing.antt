-- ===== src/Middleware/Tracing.antt =====
-- middleware/tracing.go: the fields that `Process` puts on the logger of the query.
use jorm.Base.{String, Option, none, some, List, [], ◌∷◌, ◌++◌}
use jorm.Logger.{BaseLogger, Arg, other, with_fields}

module _ {V : Type 0} (value : String → Option V) where
  abbrev field_for : Option V → String → List (String × Arg V)
  field_for none key = []
  field_for (some v) key = (key, other v) ∷ []

  -- The values of the context.
  unfoldable pub trace_fields : List (String × Arg V)
  trace_fields =
      field_for (value "request_id") "request_id"
      ++ (field_for (value "user_ip") "user_ip" ++ field_for (value "trace_id") "trace_id")

  abbrev traced : List (String × Arg V) → Option (BaseLogger V) → Option (BaseLogger V)
  traced [] l = l
  traced (f ∷ fields) none = none
  traced (f ∷ fields) (some l) = some (with_fields (f ∷ fields) l)

  -- `Process` before it calls `next`, on the logger of the query, which may be nil.
  unfoldable pub process : Option (BaseLogger V) → Option (BaseLogger V)
  unfolding trace_fields with_fields
  process l = traced trace_fields l
