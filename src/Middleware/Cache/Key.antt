-- ===== src/Middleware/Cache/Key.antt =====
-- The key of a cached query, `fmt.Sprintf("jorm:cache:%s:%v", sqlStr, args)`, the same in the three
-- caches.
use text.Mathlib.TextLemmas.{append_assoc}
use jorm.Base.{
  suc, ◌≡◌, String, true, false, List, [], ◌∷◌, pos, negsuc, Value, null, bool, int, str, ◌⧺◌, join,
  decimal, map,
}
use jorm.Dialect.{Statement}

-- `%v` of a scalar held in an `any`.
unfoldable pub format_value : Value → String
unfolding decimal
format_value null = "<nil>"
format_value (bool true) = "true"
format_value (bool false) = "false"
format_value (int (pos n)) = decimal n
format_value (int (negsuc n)) = "-" ⧺ decimal (suc n)
format_value (str s) = s

-- `%v` of an `[]any`: the elements with a space between them, and no quotes.
unfoldable pub format_args : List Value → String
unfolding format_value join
format_args args = "[" ⧺ join " " (map format_value args) ⧺ "]"

unfoldable pub cache_key : Statement → String
unfolding format_args
cache_key (sql, args) = "jorm:cache:" ⧺ sql ⧺ ":" ⧺ format_args args

-- The key does not determine the arguments: a space may stand in either of two neighbours.
pub cache_key_collision :
    (sql a b c : String)
    → cache_key (sql, str (a ⧺ " " ⧺ b) ∷ str c ∷ [])
      ≡ cache_key (sql, str a ∷ str (b ⧺ " " ⧺ c) ∷ [])
unfolding cache_key
cache_key_collision sql a b c = simp append_assoc
